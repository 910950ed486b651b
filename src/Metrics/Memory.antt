-- ===== src/Metrics/Memory.antt =====
-- The memory of the host in use (pkg/maclet/resource_metrics.go), by what sysctl and vm_stat print.
use maclet.Prelude.{
  ℕ, zero, suc, ◌+◌, ◌-◌, ◌*◌, ◌%◌, ◌^◌, Option, none, some, List, [], ◌∷◌, ◌++◌, leb,
  if◌then◌else◌, Result, ok, err, ◌>>=◌,
}
use maclet.Prelude.Text.{
  Text, codes, after, cut, split, has_prefix, trim_prefix, trim_suffix, trim_space,
}
use maclet.Go.Numbers.{parse_uint}
use maclet.Metrics.{MetricError, not_read, bad_memory_size, bad_page_size}

abbrev pub positive_size : MetricError → Option ℕ → Result MetricError ℕ
positive_size e none = err e
positive_size e (some zero) = err e
positive_size e (some (suc n)) = ok (suc n)

unfoldable pub host_memory_capacity_bytes : Option Text → Result MetricError ℕ
unfolding trim_space parse_uint
host_memory_capacity_bytes none = err not_read
host_memory_capacity_bytes (some output) =
    positive_size bad_memory_size (parse_uint (trim_space output))

-- What stands behind the first occurrence of a text
unfoldable pub text_behind : Text → Text → Option Text
unfolding after
text_behind p [] = after p []
text_behind p (c ∷ s) = elim (after p (c ∷ s)) [ none ↦ text_behind p s | some rest ↦ some rest ]

abbrev pub page_size_in : Option Text → Result MetricError ℕ
page_size_in none = err bad_page_size
page_size_in (some rest) =
    positive_size bad_page_size
      (parse_uint (trim_suffix (trim_suffix (trim_space rest) (codes " bytes)")) (codes " bytes")))

-- From the first line of vm_stat
unfoldable pub vm_stat_page_size : Text → Result MetricError ℕ
unfolding text_behind cut parse_uint trim_suffix trim_space
vm_stat_page_size output = page_size_in (text_behind (codes "page size of ") (cut 10 output).0)

abbrev pub or_next : Option ℕ → ℕ → ℕ
or_next none next = next
or_next (some n) next = n

unfoldable pub pages_in : Text → List Text → ℕ
unfolding has_prefix trim_prefix trim_suffix trim_space parse_uint
pages_in prefix [] = 0
pages_in prefix (l ∷ ls) =
    let next = pages_in prefix ls in
    if has_prefix l prefix
    then or_next
        (parse_uint (trim_space (trim_suffix (trim_space (trim_prefix l prefix)) (codes ".")))) next
    else next

unfoldable pub vm_stat_pages : Text → Text → ℕ
unfolding pages_in split
vm_stat_pages output name = pages_in (name ++ codes ":") (split 10 output)

-- readNodeWorkingSet, from the outputs of sysctl and vm_stat, none where a command fails
abbrev pub in_use : ℕ → ℕ → ℕ
in_use total reclaimable = if leb total reclaimable then 0 else total - reclaimable

unfoldable pub read_node_working_set : Option Text → Option Text → Result MetricError ℕ
unfolding host_memory_capacity_bytes vm_stat_page_size vm_stat_pages
read_node_working_set sizes none = host_memory_capacity_bytes sizes >>= λ total. err not_read
read_node_working_set sizes (some output) = host_memory_capacity_bytes sizes >>= λ total.
    vm_stat_page_size output >>= λ page_size.
    let free = vm_stat_pages output (codes "Pages free") in
    let inactive = vm_stat_pages output (codes "Pages inactive") in
    let speculative = vm_stat_pages output (codes "Pages speculative") in
    let pages = ((free + inactive) % 2 ^ 64 + speculative) % 2 ^ 64 in
    ok (in_use total (pages * page_size % 2 ^ 64))
