-- ===== src/Net.antt =====
-- Go's package net as far as the program uses it (pkg/maclet/darwin_network.go,
-- pkg/maclet/workload_network.go, pkg/maclet/dns_resolver.go): ParseIP, To4, String, ParseCIDR,
-- Contains and Equal. An address is the number of its 16-byte form, as net.IP is.
pub mod V4
pub mod V6
pub mod Cidr
pub mod Laws
