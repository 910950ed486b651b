-- ===== src/SearchDomains.antt =====
-- Kubernetes search domains on a macOS network service (pkg/maclet/dns_search_domains.go): the
-- parsers of what networksetup and scutil print, and the manager that publishes, verifies and
-- withdraws the list.
pub mod Lists
pub mod Parsers
pub mod Manager
