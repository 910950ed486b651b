-- ===== src/Lib.antt =====
-- Verification of maclet, a daemon that joins a Mac to a Kubernetes cluster as a Node and runs Pods
-- as native workloads (Go, pkg/maclet).
--
-- The parts and the files that model them:
--
-- * Addresses of workloads (pkg/maclet/darwin_network.go, workload_network.go, network_platform.go)
--   in Network. Addresses has the functions on a PodCIDR (gatewayAddressForCIDR, workloadIPForOffset,
--   firstAvailableWorkloadIP, peerGatewayAddressForCIDR, bridgeAddressForCIDR), Handle the
--   DarwinNetworkHandle with what is reserved and what is a valid workload address, and Aliases the
--   operations that put addresses on the bridge and take them off. Allocation, Agreement, Gateways,
--   Aliases/Bookkeeping and Aliases/Distinct have the proofs. A PodCIDR leaves at most 2 ^ 16
--   offsets, and the loop of the allocator runs on the number of offsets from the third to the
--   broadcast address, which is all of them.
-- * Search domains on a network service (pkg/maclet/dns_search_domains.go) in SearchDomains: Lists
--   has the list functions, Parsers what is read from networksetup and scutil, Manager the manager
--   (reconcile, cleanup).
-- * Ownership of the Node object (pkg/maclet/ownership.go, node.go) in Ownership: Node has the
--   checks, Ensure the requests of ensureOwnedNode.
-- * The name of the Node (pkg/maclet/node_name.go) in NodeName.
-- * Supervision of sessions (pkg/maclet/supervisor.go) in Supervisor: the loop runs over the
--   sequence of sessions that ended.
-- * NFS volumes (pkg/maclet/nfs.go, nfs_mount.go, nfs_handoff.go, nfs_lifecycle.go) in Nfs: Names
--   has servers, exports and directories, Options the mount options, Mount the arguments of
--   mount_nfs, Volumes how a claim is resolved.
-- * Updates of the Node object (pkg/maclet/node.go) in NodeUpdates: the shutdown cordon and the
--   wait for a PodCIDR, Status with the status, its patch and the full update it falls back to,
--   Lease. The loops of the cordon and the status run on the five attempts of the code, and each of
--   the two loops of the status has its own five. ensureLease calls itself without a limit and is
--   modelled on fuel.
-- * Native workloads (pkg/maclet/workload_status.go, workload_manager.go, workload_logs.go,
--   workload_reconcile.go, workload_network.go, workload_mounts.go, workload_volumes.go,
--   workload_env.go) in Workloads: Status and Update have the status of a Pod and its update with
--   retries, Managed the maps of the manager, Removal how workloads are removed and cleaned up,
--   Journal what is written to and read from the journal, Names the names of containers and the
--   restart policy, Mounts host paths, sub-paths and volume arguments, Arguments the arguments of a
--   run, Environment the environment and what is redacted of the arguments in a log. Reconcile has
--   the world that a pass over the Pods sees, Records the record it takes up, Endings how a stopped
--   workload is reported, Launch the start of a workload, Assigned what is done for a Pod of the
--   Node, Deletion the removal of its workload, Pass the rest; Actions, Removals, Started, Kept,
--   Invariants, WholePass, Safety, Settled, Visits and Convergence have the proofs. An update runs on
--   the number of attempts of the code, five, and never reaches the end of it.
-- * The resolver file of the cluster's domain (pkg/maclet/dns_resolver.go) in Resolver: Files has
--   what is written and removed, Nameservers what is discovered, Manager the resolver with its tick
--   and its clean-up, with or without the helper. The temporary file of a write is state of its own,
--   with what was written to it and whether it has its mode and was synced.
-- * Clean-up of stale native Pods (pkg/maclet/cleanup.go) in Cleanup, and leaving a cluster
--   (pkg/maclet/leave.go, and cleanupLeaveSearchDomains of dns_search_domains.go) in Leave.
-- * The VXLAN process (pkg/maclet/vxlan.go, vxlan_recovery.go, network_platform.go) in Vxlan: the
--   root has the checks, the arguments of the child and how a process is recognised by them,
--   Interfaces the interfaces with the networks on them, Recovery the end of stale processes, the
--   removal of their addresses and the two starts. The processes below one are collected on a depth,
--   which Recovery/Depth shows to be enough when it exceeds the height of the tree, and the wait for
--   their end runs on the number of looks that fit in the five seconds of the deadline. Flags, Lines
--   and Recognised have the proofs on arguments, Recovery/Careful, Recovery/Safety and Recovery/Gone
--   those on whole runs.
-- * Resource metrics (pkg/maclet/resource_metrics.go) in Metrics: the root has what is read of ps
--   and the walk through the tree of a process, Snapshot, Visits and Tree its proof, Labels the
--   labels with a reader of them, Memory what is read of sysctl and vm_stat. The walk runs on one
--   more than the number of processes. A float is of a type that is not looked into.
--
-- How they interact: the pass of the workload manager allocates and validates addresses by the handle
-- of Network (handle_first_available, handle_validate_address) and unmounts what Nfs resolved; it
-- takes the arguments of a run as what the host made of them, and Arguments takes the volume
-- arguments of Mounts and the environment of Environment with their errors. The session that
-- Supervisor starts again first makes sure of the Node by Ownership and starts a tunnel by Vxlan,
-- which takes the address of the bridge from Network (bridge_address_for_cidr); NodeUpdates then
-- reports on that Node, and Leave deletes it.
--
-- State is passed explicitly. What is outside of the program, the commands of macOS and the API
-- server, is an oracle that answers a call by all calls made so far (newest first), so a theorem
-- holds for each behaviour of it, failures and interference included. What decodes a body, and the
-- lower-case table of the runes above ASCII, are parameters too. Prelude has the shared helpers; Net
-- and Go model what the program uses of Go's net, net/netip, path and strconv packages.
--
-- Texts are lists of code points where the code walks them and native strings where it only compares
-- them. Maps are association lists or, where only read, functions. Errors keep their cause and not
-- their wording. A restart count wraps at 32 bits where the pass increments it, and is an integer
-- without a width where it is only passed on.
--
-- Not modelled: the command line, the HTTP transport, TLS and the material for it, the kubelet
-- endpoints, the collection of the metrics and most of their text, Flannel's annotations, the wait
-- for the bridge and its set-up, the commands of Macker and their output, and how ConfigMaps, Secrets
-- and claims become files. They are I/O, or oracles of the parts that call them.
pub mod Cleanup
pub mod Go
pub mod Leave
pub mod Metrics
pub mod Net
pub mod Network
pub mod Nfs
pub mod NodeName
pub mod NodeUpdates
pub mod Ownership
pub mod Prelude
pub mod Resolver
pub mod SearchDomains
pub mod Supervisor
pub mod Vxlan
pub mod Workloads
