-- ===== src/Nfs.antt =====
-- NFS volumes (pkg/maclet/nfs.go, nfs_mount.go, nfs_handoff.go, nfs_lifecycle.go): what a volume may
-- name, the arguments of mount_nfs, and how a volume is found.
pub mod Names
pub mod Options
pub mod Mount
pub mod Volumes
