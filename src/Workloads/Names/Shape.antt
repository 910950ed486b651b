-- ===== src/Workloads/Names/Shape.antt =====
-- What every name of a workload looks like (pkg/maclet/workload_mounts.go).
mod Tests
use maclet.Prelude.{
  ℕ, suc, ◌+◌, ◌≤◌, ◌≡◌, refl, ap, ◌∙◌, Bool, true, false, not, ◌||◌, ◌&&◌, List, [], ◌∷◌, map, All,
  All-take, length, take, length-take-le, ltb, arith, if◌then◌else◌,
}
use maclet.Prelude.Text.{Text, trim_left, trim_right, trim, keep_left, to_lower}
use maclet.Prelude.Text.Trimming.{
  IsOpenLeft, IsOpenRight, trim_left-IsOpenLeft, trim_right-IsOpenRight, trim_right-IsOpenLeft,
  take-IsOpenLeft, trim_right-length, All-trim_left, All-trim_right,
}
use maclet.Workloads.Pods.{Pod}
use maclet.Workloads.Names.{
  is_name_character, is_separator, replaced, raw_name, shortened, workload_container_name,
}

abbrev pub IsNameCharacter : ℕ → Type 0
IsNameCharacter c = is_name_character c ≡ true

replaced-IsNameCharacter : (c : ℕ) → IsNameCharacter (replaced c)
unfolding replaced is_name_character
replaced-IsNameCharacter c = ground arith

All-replaced : (s : Text) → All IsNameCharacter (map replaced s)
All-replaced [] = tt
All-replaced (c ∷ s) = (replaced-IsNameCharacter c, All-replaced s)

-- At most 120 characters, all of them letters, digits or separators, with no separator at the ends
abbrev pub IsContainerName : Text → Type 0
IsContainerName s =
    length s ≤ 120 × All IsNameCharacter s × IsOpenLeft is_separator s × IsOpenRight is_separator s

shortened-IsContainerName :
    (s : Text)
    → All IsNameCharacter s
    → IsOpenLeft is_separator s
    → IsOpenRight is_separator s
    → IsContainerName (shortened s)
unfolding shortened
shortened-IsContainerName s all left right =
    let cut = take 120 s in
    go (ltb 120 (length s))
      (omega (arith, trim_right-length is_separator cut, length-take-le 120 s)) (ground arith)
  where
    go :
        (b : Bool)
        → length (trim_right is_separator (take 120 s)) ≤ 120
        → (b ≡ false → length s ≤ 120)
        → IsContainerName (if b then trim_right is_separator (take 120 s) else s)
    go true short fits = (
      short,
      All-trim_right is_separator IsNameCharacter (take 120 s) (All-take IsNameCharacter 120 s all),
      trim_right-IsOpenLeft is_separator (take 120 s) (take-IsOpenLeft is_separator 119 s left),
      trim_right-IsOpenRight is_separator (take 120 s),
    )
    go false short fits = (fits refl, all, left, right)

-- The name of a workload is one that Macker takes, whatever the fields of its Pod hold: at most 120
-- characters, all of them lower-case letters, digits or separators, with no separator at the ends.
pub workload_container_name-IsContainerName :
    (table : ℕ → ℕ) (pod : Pod) → IsContainerName (workload_container_name table pod)
unfolding workload_container_name trim
workload_container_name-IsContainerName table pod =
    let raw = map replaced (to_lower table (raw_name pod)) in
    let left = trim_left is_separator raw in
    shortened-IsContainerName (trim_right is_separator left)
      (All-trim_right is_separator IsNameCharacter left (
        All-trim_left is_separator IsNameCharacter raw
          (All-replaced (to_lower table (raw_name pod)))))
      (trim_right-IsOpenLeft is_separator left (trim_left-IsOpenLeft is_separator raw))
      (trim_right-IsOpenRight is_separator left)
