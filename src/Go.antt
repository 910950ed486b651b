-- ===== src/Go.antt =====
-- What the program uses of Go's standard library beside `strings` and `net`: numbers in text and paths.
pub mod Numbers
pub mod Paths
