-- ===== src/Nfs/Names.antt =====
-- Servers, exports and directories beneath them: validateNFSServer, validateNFSShare,
-- validateNFSSubdir and hasParentPath (pkg/maclet/nfs.go).
pub mod Containment
use maclet.Prelude.{
  ℕ, Bool, true, false, not, ◌||◌, List, [], ◌∷◌, map, eqb, ◌==◌, text_eq_instance, contains,
  if◌then◌else◌, Result, ok, err,
}
use maclet.Prelude.Text.{Text, codes, trim_space, is_space, split, has_prefix}
use maclet.Go.Paths.{dot, dot_dot, is_abs, clean}

pub data NfsError : Type 0 where
  empty_server unsafe_server relative_share parent_share unsafe_subdir : NfsError
  empty_option duplicate_option unexpected_value bad_version no_number bad_number not_allowed :
      NfsError
  bad_target no_claim no_client claim_failed not_bound no_volume_name volume_failed other_claim
        other_claim_uid direct_source other_driver :
      NfsError
  incomplete_handoff ambiguous_handoff bad_handoff_version bad_mount_port bad_nfs_port : NfsError

-- `\` is read as a separator too.
unfoldable pub slashes : Text → Text
slashes s = map (λ c. if eqb c b'\\' then b'/' else c) s

unfoldable pub has_parent_path : Text → Bool
unfolding slashes split contains
has_parent_path value = contains (split b'/' (slashes value)) dot_dot

unfoldable pub is_unsafe : ℕ → Bool
unfolding is_space
is_unsafe c = is_space c || eqb c b'/' || eqb c b',' || eqb c b'\\'

unfoldable pub any_unsafe : Text → Bool
unfolding is_unsafe
any_unsafe [] = false
any_unsafe (c ∷ s) = is_unsafe c || any_unsafe s

unfoldable pub server_rule : Text → Result NfsError Text
unfolding any_unsafe
server_rule value =
    if value == []
    then err empty_server
    else if any_unsafe value
    then err unsafe_server
    else ok value

unfoldable pub validate_nfs_server : Text → Result NfsError Text
unfolding server_rule trim_space
validate_nfs_server value = server_rule (trim_space value)

unfoldable pub share_rule : Text → Result NfsError Text
unfolding has_parent_path is_abs clean
share_rule value =
    if not (is_abs value)
    then err relative_share
    else if has_parent_path value
    then err parent_share
    else ok (clean value)

unfoldable pub validate_nfs_share : Text → Result NfsError Text
unfolding share_rule trim_space
validate_nfs_share value = share_rule (trim_space value)

unfoldable pub subdir_rule : Text → Result NfsError Text
unfolding has_parent_path is_abs clean
subdir_rule value =
    if value == [] || value == dot
    then ok []
    else if is_abs value || has_parent_path value
    then err unsafe_subdir
    else ok (clean value)

unfoldable pub validate_nfs_subdir : Text → Result NfsError Text
unfolding subdir_rule trim_space
validate_nfs_subdir value = subdir_rule (trim_space value)
