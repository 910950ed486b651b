-- ===== src/Nfs/Options/Joined/Tests.antt =====
-- A concrete run of validateNFSMountOptions (pkg/maclet/nfs.go).
use maclet.Prelude.{ℕ, ◌≡◌, refl, [], ◌∷◌}
use maclet.Prelude.Text.{codes, split, join}
use maclet.Nfs.Options.{validate_nfs_mount_options}
use maclet.Nfs.Options.Joined.{validate_nfs_mount_options-split}

abbrev plain : ℕ → ℕ
plain c = c

validate_nfs_mount_options-split_example :
    split b',' (join (codes ",") (codes "vers=3" ∷ codes "Port=2049" ∷ []))
    ≡ codes "vers=3" ∷ codes "Port=2049" ∷ []
unfolding validate_nfs_mount_options
validate_nfs_mount_options-split_example =
    validate_nfs_mount_options-split plain (codes "vers=3") (codes "Port=2049" ∷ []) refl
