-- ===== src/Nfs/Names/Containment/Tests.antt =====
-- A concrete run of validateNFSSubdir (pkg/maclet/nfs.go).
use maclet.Prelude.{◌≡◌, refl, true, false, contains, text_eq_instance, err}
use maclet.Prelude.Text.{codes, split}
use maclet.Go.Paths.{dot_dot, components, render, join_paths}
use maclet.Go.Paths.Laws.{push}
use maclet.Nfs.Names.{unsafe_subdir, validate_nfs_subdir}
use maclet.Nfs.Names.Containment.{validate_nfs_subdir-beneath}

validate_nfs_subdir-beneath_example :
    (contains (split b'/' (codes "team/a")) dot_dot ≡ false)
    × (join_paths (codes "/state/nfs/web/data") (codes "team/a")
        ≡ render true
            (push (components (codes "/state/nfs/web/data")) (split b'/' (codes "team/a"))))
unfolding validate_nfs_subdir
validate_nfs_subdir-beneath_example =
    validate_nfs_subdir-beneath (codes " team//a/ ") (codes "state/nfs/web/data") (codes "eam/a")
      b'/' b't' refl refl

-- A way up hidden behind a backslash is refused.
backslash : validate_nfs_subdir (codes "team\\..\\..") ≡ err unsafe_subdir
unfolding validate_nfs_subdir
backslash = refl
