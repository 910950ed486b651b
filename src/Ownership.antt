-- ===== src/Ownership.antt =====
-- Which Node object a maclet instance may write (pkg/maclet/ownership.go): the checks on a Node, and
-- the request that creates, adopts or updates it.
pub mod Node
pub mod Ensure
