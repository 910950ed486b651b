-- ===== src/Nfs/Mount.antt =====
-- The arguments of mount_nfs: nfsMountCommandArgs (pkg/maclet/nfs_mount.go), and the records of the
-- mounts of a workload: appendMountRecord (pkg/maclet/nfs_lifecycle.go).
use maclet.Prelude.{
  ℕ, Bool, true, false, not, ◌||◌, ◌&&◌, List, [], ◌∷◌, ◌++◌, ◌==◌, text_eq_instance, contains,
  if◌then◌else◌, Result, ok, err, ◌>>=◌, ◌>>◌,
}
use maclet.Prelude.Text.{Text, codes, cut, join}
use maclet.Go.Paths.{is_abs, clean}
use maclet.Nfs.Names.{NfsError, bad_target, validate_nfs_server, validate_nfs_share}
use maclet.Nfs.Options.{validate_nfs_mount_options}

pub record MountSpec : Type 0 where
  pub server : Text
  pub share : Text
  pub mount_options : List Text
  pub read_only : Bool
  pub legacy_flags : Bool

abbrev pub legacy_keys : List Text
legacy_keys = codes "mountport" ∷ codes "port" ∷ codes "ro" ∷ []

unfoldable pub legacy_options : List Text → List Text
unfolding cut contains
legacy_options [] = []
legacy_options (o ∷ os) =
    let rest = legacy_options os in if contains legacy_keys (cut b'=' o).0 then o ∷ rest else rest

unfoldable pub all_options : MountSpec → List Text
all_options spec =
    if spec.read_only then spec.mount_options ++ codes "ro" ∷ [] else spec.mount_options

unfoldable pub chosen_options : MountSpec → List Text
unfolding legacy_options all_options
chosen_options spec =
    if spec.legacy_flags then legacy_options (all_options spec) else all_options spec

unfoldable pub option_args : List Text → List Text
unfolding join
option_args [] = []
option_args (o ∷ os) = codes "-o" ∷ join (codes ",") (o ∷ os) ∷ []

abbrev pub legacy_args : Bool → List Text
legacy_args true = codes "-L" ∷ codes "-P" ∷ codes "-T" ∷ codes "-3" ∷ []
legacy_args false = []

unfoldable pub is_target : Text → Bool
unfolding is_abs clean
is_target target = is_abs target && clean target == target

unfoldable pub nfs_mount_command_args : (ℕ → ℕ) → MountSpec → Text → Result NfsError (List Text)
unfolding chosen_options option_args is_target validate_nfs_server validate_nfs_share
    validate_nfs_mount_options
nfs_mount_command_args table spec target = do
  server ← validate_nfs_server spec.server
  share ← validate_nfs_share spec.share
  if not (is_target target) then err bad_target else do
    validate_nfs_mount_options table spec.mount_options
    ok (
        codes "mount_nfs" ∷ legacy_args spec.legacy_flags
        ++ option_args (chosen_options spec)
        ++ (server ++ b':' ∷ share) ∷ target ∷ [])

pub record MountRecord : Type 0 where
  pub target : Text
  pub spec : MountSpec

abbrev pub same_bool : Bool → Bool → Bool
same_bool true b = b
same_bool false b = not b

-- The options are compared as the text joined by NUL.
unfoldable pub same_mount : MountRecord → MountRecord → Bool
unfolding join
same_mount a b =
    a.target == b.target
    && a.spec.server == b.spec.server
    && a.spec.share == b.spec.share
    && same_bool a.spec.read_only b.spec.read_only
    && join (0 ∷ []) a.spec.mount_options == join (0 ∷ []) b.spec.mount_options

unfoldable pub any_same : List MountRecord → MountRecord → Bool
unfolding same_mount
any_same [] r = false
any_same (x ∷ xs) r = same_mount x r || any_same xs r

unfoldable pub append_mount_record : List MountRecord → MountRecord → List MountRecord
unfolding any_same
append_mount_record records r = if any_same records r then records else records ++ r ∷ []
