-- ===== src/Network.antt =====
-- The Darwin side of the Flannel network (pkg/maclet/darwin_network.go and
-- pkg/maclet/workload_network.go): the addresses of a PodCIDR, and the handle that owns the
-- workload addresses on the bridge.
pub mod Addresses
pub mod Handle
pub mod Aliases
pub mod Allocation
pub mod Agreement
pub mod Gateways
mod Tests
