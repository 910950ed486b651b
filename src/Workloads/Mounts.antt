-- ===== src/Workloads/Mounts.antt =====
-- The volumes of a container (pkg/maclet/workload_mounts.go): ensureHostPath, resolveVolumeSubPath and
-- mackerVolumeArgs. What the file system shows may depend on all calls made so far, newest first.
pub mod Separators
use maclet.Prelude.{
  ℕ, Bool, true, false, not, ◌||◌, ◌&&◌, Option, none, some, List, [], ◌∷◌, ◌++◌, ◌==◌, text_eq,
  text_eq_instance, contains, if◌then◌else◌, Result, ok, err,
}
use maclet.Prelude.Exec.{Exec, pure, fail, lift, gets}
use maclet.Prelude.Exec.Bind.{◌>>=◌, ◌>>◌}
use maclet.Prelude.Text.{Text, codes, contains_char, has_prefix}
use maclet.Go.Paths.{is_abs, clean, components, join_paths, dot, dot_dot}
use mathlib.Core.List.{reverse}

pub record FileInfo : Type 0 where
  pub is_directory : Bool
  pub is_regular : Bool
  pub is_socket : Bool
  pub is_char_device : Bool
  pub is_device : Bool

-- os.Stat: a file, none that is there, or another error
pub data Stat : Type 0 where
  shows : FileInfo → Stat
  missing broken : Stat

pub data Call : Type 0 where
  look make_directories make_file : Text → Call

pub data MountError : Type 0 where
  not_absolute has_colon does_not_exist not_created not_inspected wrong_kind bad_kind : MountError
  not_relative escapes not_resolved escapes_by_link declared_twice no_volume_name : MountError
  mounted_twice read_only sub_path_expr not_supported unknown_volume : MountError

abbrev pub Io : Type 0 → Type 0
Io A = Exec MountError (List Call) A

pub record HostPath : Type 0 where
  pub path : Text
  pub kind : Text

pub record Volume : Type 0 where
  pub name : Text
  pub host_path : Option HostPath

pub record VolumeMount : Type 0 where
  pub name : Text
  pub mount_path : Text
  pub read_only : Bool
  pub sub_path : Text
  pub sub_path_expr : Text

-- The volumes by their names; one that is no hostPath has no path.
abbrev pub Declared : Type 0
Declared = List (Text × Option Text)

unfoldable pub declared_path : Text → Declared → Option (Option Text)
declared_path name [] = none
declared_path name ((n, p) ∷ ds) = if text_eq n name then some p else declared_path name ds

-- The check of a file against the type of its hostPath
unfoldable pub kind_rule : Text → FileInfo → Result MountError (Unit {0})
kind_rule kind info =
    let need = λ (b : Bool). if b then ok tt else err wrong_kind in
    if kind == []
    then ok tt
    else if kind == codes "Directory" || kind == codes "DirectoryOrCreate"
    then need info.is_directory
    else if kind == codes "File" || kind == codes "FileOrCreate"
    then need info.is_regular
    else if kind == codes "Socket"
    then need info.is_socket
    else if kind == codes "CharDevice"
    then need info.is_char_device
    else if kind == codes "BlockDevice"
    then need (info.is_device && not info.is_char_device)
    else err bad_kind

-- Whether the components of a path start with those of another, both absolute; so filepath.Rel does not
-- begin with `..`.
unfoldable pub is_prefix_of : List Text → List Text → Bool
is_prefix_of [] ys = true
is_prefix_of (x ∷ xs) [] = false
is_prefix_of (x ∷ xs) (y ∷ ys) = text_eq x y && is_prefix_of xs ys

unfoldable pub is_beneath : Text → Text → Bool
unfolding is_prefix_of components
is_beneath base target = is_prefix_of (reverse (components base)) (reverse (components target))

-- strings.HasPrefix(clean, "../"), or the path itself
unfoldable pub leaves : Text → Bool
unfolding has_prefix
leaves cleaned = cleaned == dot_dot || has_prefix cleaned (codes "../")

abbrev pub service_account_path : Text
service_account_path = codes "/var/run/secrets/kubernetes.io/serviceaccount"

-- `stat` is os.Stat, `works` whether a call that makes a file or a directory succeeds, and
-- `resolved_link` filepath.EvalSymlinks, none where it fails.
module _ (stat : List Call → Text → Stat) (works : List Call → Call → Bool)
    (resolved_link : List Call → Text → Option Text) where
  unfoldable pub look_at : Text → Io Stat
  look_at path h = (ok (stat h path), look path ∷ h)

  unfoldable pub make : Call → Io (Unit {0})
  make c h = (if works h c then ok tt else err not_created, c ∷ h)

  -- What a path shows once a missing file or directory is made, where its type asks for that
  unfoldable pub made_if_missing : Text → Text → Stat → Io Stat
  unfolding make look_at
  made_if_missing path kind (shows info) = pure (shows info)
  made_if_missing path kind broken = pure broken
  made_if_missing path kind missing =
      if kind == codes "DirectoryOrCreate"
      then (make (make_directories path) >> look_at path)
      else if kind == codes "FileOrCreate"
      then (make (make_file path) >> look_at path)
      else fail does_not_exist

  unfoldable pub checked_kind : Text → Stat → Io (Unit {0})
  unfolding kind_rule
  checked_kind kind (shows info) = lift (kind_rule kind info)
  checked_kind kind missing = fail not_inspected
  checked_kind kind broken = fail not_inspected

  unfoldable pub ensure_host_path : Text → Text → Io Text
  unfolding is_abs clean contains_char look_at made_if_missing checked_kind
  ensure_host_path path kind =
      if path == [] || not (is_abs path)
      then fail not_absolute
      else if contains_char b':' (clean path)
      then fail has_colon
      else (do
        first ← look_at (clean path)
        there ← made_if_missing (clean path) kind first
        checked_kind kind there
        pure (clean path))

  abbrev pub stays_beneath : Option Text → Option Text → Result MountError (Unit {0})
  stays_beneath (some host) (some target) =
      if is_beneath host target then ok tt else err escapes_by_link
  stays_beneath none target = err not_resolved
  stays_beneath (some host) none = err not_resolved

  abbrev pub is_there : Stat → Result MountError (Unit {0})
  is_there (shows info) = ok tt
  is_there missing = err not_inspected
  is_there broken = err not_inspected

  unfoldable pub resolve_volume_sub_path : Text → Text → Io Text
  unfolding is_abs clean leaves join_paths look_at is_beneath
  resolve_volume_sub_path host_path sub_path =
      if sub_path == [] || sub_path == dot
      then pure host_path
      else if is_abs sub_path
      then fail not_relative
      else if leaves (clean sub_path)
      then fail escapes
      else (do
        let target = join_paths host_path (clean sub_path)
        shown ← look_at target
        lift (is_there shown)
        host_link ← gets (λ h. resolved_link h host_path)
        target_link ← gets (λ h. resolved_link h target)
        lift (stays_beneath host_link target_link)
        pure target)

  abbrev pub kind_of : Option HostPath → Text
  kind_of none = []
  kind_of (some p) = p.kind

  unfoldable pub declare_volume : Text → Option HostPath → Declared → Io Declared
  unfolding ensure_host_path
  declare_volume name none ds = pure ((name, none) ∷ ds)
  declare_volume name (some p) ds =
      ensure_host_path p.path p.kind >>= λ path. pure ((name, some path) ∷ ds)

  -- The loop over the volumes
  unfoldable pub declare_volumes : List Volume → Declared → Io Declared
  unfolding declared_path declare_volume
  declare_volumes [] ds = pure ds
  declare_volumes (v ∷ vs) ds =
      let next = declare_volume v.name v.host_path ds >>= declare_volumes vs in
      if v.name == []
      then declare_volumes vs ds
      else elim (declared_path v.name ds) [ none ↦ next | some p ↦ fail declared_twice ]

  abbrev pub path_of : Option (Option Text) → Result MountError Text
  path_of none = err unknown_volume
  path_of (some none) = err not_supported
  path_of (some (some path)) = ok path

  -- The rules on a mount that stand before its volume is looked up
  unfoldable pub mount_rule : List Text → VolumeMount → Result MountError (Unit {0})
  unfolding is_abs clean contains
  mount_rule seen m =
      if m.name == []
      then err no_volume_name
      else if m.mount_path == [] || not (is_abs m.mount_path)
      then err not_absolute
      else if contains seen (clean m.mount_path)
      then err mounted_twice
      else if m.read_only
      then err read_only
      else if not (m.sub_path_expr == [])
      then err sub_path_expr
      else ok tt

  -- The pair that Macker takes
  unfoldable pub pair_rule : Text → Text → Result MountError Text
  unfolding contains_char
  pair_rule path mount_path =
      if contains_char b':' path || contains_char b':' mount_path
      then err has_colon
      else ok (path ++ b':' ∷ mount_path)

  unfoldable pub mount_pair : Declared → List Text → VolumeMount → Io Text
  unfolding mount_rule declared_path resolve_volume_sub_path pair_rule clean
  mount_pair ds seen m = do
    lift (mount_rule seen m)
    path ← lift (path_of (declared_path m.name ds))
    resolved ← resolve_volume_sub_path path m.sub_path
    lift (pair_rule resolved (clean m.mount_path))

  -- The loop over the mounts, with the mount paths seen so far
  unfoldable pub mount_pairs : Declared → List Text → List VolumeMount → Io (List Text)
  unfolding mount_pair clean
  mount_pairs ds seen [] = pure []
  mount_pairs ds seen (m ∷ ms) =
      let next = mount_pair ds seen m >>= λ pair.
      mount_pairs ds (clean m.mount_path ∷ seen) ms >>= λ pairs. pure (pair ∷ pairs) in
      if m.mount_path == service_account_path then mount_pairs ds seen ms else next

  abbrev pub as_args : List Text → List Text
  as_args [] = []
  as_args (p ∷ ps) = codes "-v" ∷ p ∷ as_args ps

  unfoldable pub macker_volume_args : List Volume → List VolumeMount → Io (List Text)
  unfolding declare_volumes mount_pairs
  macker_volume_args volumes mounts = declare_volumes volumes [] >>= λ ds.
      mount_pairs ds [] mounts >>= λ pairs. pure (as_args pairs)
