-- ===== src/Workloads/Names.antt =====
-- The names that a Pod gives to its workload: workloadContainerName, firstPodContainerName and
-- podRestartPolicy (pkg/maclet/workload_mounts.go). `table` is the lower-case table of the runes above
-- ASCII; behind the replacement every character is ASCII, so bytes and characters are the same.
pub mod Shape
use maclet.Prelude.{
  ℕ, Bool, ◌||◌, ◌&&◌, List, [], ◌∷◌, ◌++◌, map, length, take, ltb, leb, eqb, ◌==◌,
  text_eq_instance, if◌then◌else◌,
}
use maclet.Prelude.Text.{Text, codes, to_lower, trim, trim_right}
use maclet.Workloads.Pods.{Pod}

unfoldable pub is_name_character : ℕ → Bool
is_name_character c =
    leb b'a' c && leb c b'z' || leb b'0' c && leb c b'9' || eqb c b'-' || eqb c b'_' || eqb c b'.'

-- The cutset "-._"
unfoldable pub is_separator : ℕ → Bool
is_separator c = eqb c b'-' || eqb c b'.' || eqb c b'_'

unfoldable pub replaced : ℕ → ℕ
unfolding is_name_character
replaced c = if is_name_character c then c else b'-'

unfoldable pub raw_name : Pod → Text
raw_name p =
    let name = codes "maclet-" ++ p.namespace ++ codes "-" ++ p.name in
    if p.uid == [] then name else name ++ codes "-" ++ p.uid

unfoldable pub shortened : Text → Text
unfolding trim_right is_separator
shortened s = if ltb 120 (length s) then trim_right is_separator (take 120 s) else s

unfoldable pub workload_container_name : (ℕ → ℕ) → Pod → Text
unfolding raw_name to_lower replaced trim is_separator shortened
workload_container_name table p =
    shortened (trim is_separator (map replaced (to_lower table (raw_name p))))

unfoldable pub pod_restart_policy : Pod → Text
pod_restart_policy p = if p.restart_policy == [] then codes "Always" else p.restart_policy
