-- ===== src/Nfs/Options.antt =====
-- The mount options that a volume may ask for: validateNFSMountOptions (pkg/maclet/nfs.go). `table`
-- is the lower-case table of the runes above ASCII.
pub mod Joined
use maclet.Prelude.{
  ℕ, ◌-◌, ◌^◌, Bool, true, false, not, ◌||◌, ◌&&◌, Option, none, some, List, [], ◌∷◌, map, eqb, leb,
  ◌==◌, text_eq_instance, contains, if◌then◌else◌, Result, ok, err, ◌>>◌,
}
use maclet.Prelude.Text.{Text, codes, trim_space, to_lower, cut}
use maclet.Go.Numbers.{ℤ, pos, negsuc, atoi}
use maclet.Nfs.Names.{
  NfsError, empty_option, duplicate_option, unexpected_value, bad_version, no_number, bad_number,
  not_allowed,
}

abbrev pub flags : List Text
flags =
    codes "hard"
    ∷ codes "soft"
    ∷ codes "resvport"
    ∷ codes "locallocks"
    ∷ codes "nolock"
    ∷ codes "nolocks"
    ∷ codes "nolockd"
    ∷ codes "tcp"
    ∷ codes "udp"
    ∷ []

abbrev pub versions : List Text
versions = codes "vers" ∷ codes "nfsvers" ∷ []

abbrev pub numbers : List Text
numbers =
    codes "port"
    ∷ codes "mountport"
    ∷ codes "rsize"
    ∷ codes "wsize"
    ∷ codes "timeo"
    ∷ codes "retrans"
    ∷ []

unfoldable pub is_positive_int32 : Option ℤ → Bool
is_positive_int32 (some (pos n)) = leb 1 n && leb n (2 ^ 31 - 1)
is_positive_int32 (some (negsuc n)) = false
is_positive_int32 none = false

abbrev pub flag_rule : Option Text → Result NfsError (Unit {0})
flag_rule none = ok tt
flag_rule (some value) = err unexpected_value

unfoldable pub version_rule : Option Text → Result NfsError (Unit {0})
version_rule none = err bad_version
version_rule (some value) =
    if value == codes "3" || value == codes "4" then ok tt else err bad_version

unfoldable pub number_rule : Option Text → Result NfsError (Unit {0})
unfolding is_positive_int32 atoi
number_rule none = err no_number
number_rule (some value) = if is_positive_int32 (atoi value) then ok tt else err bad_number

-- The switch on the key
unfoldable pub option_rule : Text → Option Text → Result NfsError (Unit {0})
unfolding version_rule number_rule contains
option_rule key value =
    if contains flags key
    then flag_rule value
    else if contains versions key
    then version_rule value
    else if contains numbers key
    then number_rule value
    else err not_allowed

module _ (table : ℕ → ℕ) where
  unfoldable pub option_key : Text → Text
  unfolding cut trim_space to_lower
  option_key option = to_lower table (trim_space (cut b'=' option).0)

  unfoldable pub options_from : List Text → List Text → Result NfsError (Unit {0})
  unfolding option_key option_rule
  options_from seen [] = ok tt
  options_from seen (option ∷ options) =
      let o = trim_space option in
      let rest = options_from (option_key o ∷ seen) options in
      if o == []
      then err empty_option
      else if contains seen (option_key o)
      then err duplicate_option
      else (option_rule (option_key o) (cut b'=' o).1 >> rest)

  unfoldable pub validate_nfs_mount_options : List Text → Result NfsError (Unit {0})
  unfolding options_from
  validate_nfs_mount_options options = options_from [] options
