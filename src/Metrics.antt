-- ===== src/Metrics.antt =====
-- The processes of the host as the resource metrics see them (pkg/maclet/resource_metrics.go). A float is
-- of a type that is not looked into, with the operations that the code uses.
pub mod Snapshot
pub mod Visits
pub mod Tree
pub mod Labels
pub mod Memory
mod Tests
use maclet.Prelude.{
  ℕ, zero, suc, ◌+◌, ◌*◌, ◌%◌, ◌^◌, Bool, true, false, not, ◌||◌, ◌&&◌, Option, none, some, List,
  [], ◌∷◌, ◌==◌, text_eq_instance, eqb, ltb, length, contains, nat_instance, if◌then◌else◌, Result,
  ok, err, or_err, ◌>>=◌, ◌>>◌,
}
use maclet.Prelude.Text.{Text, codes, fields, split, cut, trim_space}
use maclet.Go.Numbers.{ℤ, pos, negsuc, atoi, parse_uint}

-- float64 and strconv.ParseFloat
pub record Floats (F : Type 0) : Type 0 where
  pub nought : F
  pub of_nat : ℕ → F
  pub add : F → F → F
  pub sub : F → F → F
  pub mul : F → F → F
  pub at_most : F → F → Bool
  pub parse : Text → Option F

pub record ProcessMetric (F : Type 0) : Type 0 where
  pub parent : ℤ
  pub cpu_seconds : F
  pub memory_bytes : ℕ

-- A map by the numbers of the processes
abbrev pub Processes : Type 0 → Type 0
Processes F = List (ℕ × ProcessMetric F)

pub data MetricError : Type 0 where
  no_processes not_read bad_cpu_time bad_memory_size bad_page_size : MetricError

abbrev pub parent_is : ℤ → ℕ → Bool
parent_is (pos m) n = eqb m n
parent_is (negsuc m) n = false

module _ {F : Type 0} where
  unfoldable pub put_process : ℕ → ProcessMetric F → Processes F → Processes F
  put_process n p [] = (n, p) ∷ []
  put_process n p ((m, q) ∷ ps) =
      let rest = put_process n p ps in if eqb m n then (n, p) ∷ ps else (m, q) ∷ rest

  unfoldable pub find_process : ℕ → Processes F → Option (ProcessMetric F)
  find_process n [] = none
  find_process n ((m, p) ∷ ps) = if eqb m n then some p else find_process n ps

  unfoldable pub child_numbers : ℕ → Processes F → List ℕ
  child_numbers n [] = []
  child_numbers n ((m, p) ∷ ps) =
      let rest = child_numbers n ps in if parent_is p.parent n then m ∷ rest else rest

module _ {F : Type 0} (floats : Floats F) where
  abbrev pub parsed : Text → Result MetricError F
  parsed s = or_err (floats.parse s) bad_cpu_time

  -- `days * 24 * 60 * 60 + hours * 60 * 60 + minutes * 60 + seconds`
  abbrev pub in_seconds : F → F → F → F → F
  in_seconds days hours minutes seconds =
      let times = λ (x : F) (n : ℕ). floats.mul x (floats.of_nat n) in
      floats.add
        (floats.add (floats.add (times (times (times days 24) 60) 60) (times (times hours 60) 60))
          (times minutes 60))
        seconds

  abbrev pub clock_seconds : F → List Text → Result MetricError F
  clock_seconds days [] = err bad_cpu_time
  clock_seconds days (m ∷ []) = err bad_cpu_time
  clock_seconds days (m ∷ s ∷ []) = parsed s >>= λ seconds.
      parsed m >>= λ minutes. ok (in_seconds days floats.nought minutes seconds)
  clock_seconds days (h ∷ m ∷ s ∷ []) = parsed s >>= λ seconds.
      parsed m >>= λ minutes. parsed h >>= λ hours. ok (in_seconds days hours minutes seconds)
  clock_seconds days (h ∷ m ∷ s ∷ t ∷ ts) = err bad_cpu_time

  abbrev pub with_days : Text × Option Text → Result MetricError F
  with_days (clock, none) = clock_seconds floats.nought (split b':' clock)
  with_days (days, some clock) = parsed days >>= λ d. clock_seconds d (split b':' clock)

  unfoldable pub parse_cpu_time : Text → Result MetricError F
  unfolding trim_space cut split
  parse_cpu_time value =
      if trim_space value == [] then err bad_cpu_time else with_days (cut b'-' (trim_space value))

  abbrev pub add_process :
      Option ℤ → Option ℤ → Option ℕ → Result MetricError F → Processes F → Processes F
  add_process (some (pos n)) (some parent) (some kilobytes) (ok seconds) ps =
      if ltb 0 n
      then put_process n
          record {
            parent = parent;
            cpu_seconds = seconds;
            memory_bytes = kilobytes * 1024 % 2 ^ 64;
          }
          ps
      else ps
  add_process pid parent kilobytes seconds ps = ps

  -- One line of ps
  unfoldable pub add_line : List Text → Processes F → Processes F
  unfolding atoi parse_uint parse_cpu_time put_process
  add_line (pid ∷ parent ∷ rss ∷ time ∷ rest) ps =
      add_process (atoi pid) (atoi parent) (parse_uint rss) (parse_cpu_time time) ps
  add_line (pid ∷ parent ∷ rss ∷ []) ps = ps
  add_line (pid ∷ parent ∷ []) ps = ps
  add_line (pid ∷ []) ps = ps
  add_line [] ps = ps

  unfoldable pub add_lines : List Text → Processes F → Processes F
  unfolding fields add_line
  add_lines [] ps = ps
  add_lines (l ∷ ls) ps = add_lines ls (add_line (fields l) ps)

  abbrev pub some_processes : Processes F → Result MetricError (Processes F)
  some_processes [] = err no_processes
  some_processes (p ∷ ps) = ok (p ∷ ps)

  -- readProcessMetrics, from the output of ps
  unfoldable pub read_process_metrics : Option Text → Result MetricError (Processes F)
  unfolding split add_lines
  read_process_metrics none = err not_read
  read_process_metrics (some output) = some_processes (add_lines (split 10 output) [])

  -- metricCounter, whose root is 0 for the Node
  pub record MetricCounter : Type 0 where
    pub initialized : Bool
    pub observed : F
    pub value : F
    pub root_pid : ℕ

  abbrev pub counter_value : MetricCounter → F → ℕ → F
  counter_value k current root =
      if not k.initialized
      then current
      else if not (eqb k.root_pid 0) && not (eqb root 0) && not (eqb k.root_pid root)
      then floats.add k.value current
      else if floats.at_most k.observed current
      then floats.add k.value (floats.sub current k.observed)
      else k.value

  -- updateMetricCounter, which also returns the value
  unfoldable pub update_metric_counter : MetricCounter → F → ℕ → MetricCounter
  update_metric_counter k current root = record {
    initialized = true;
    observed = current;
    value = counter_value k current root;
    root_pid = if eqb root 0 then k.root_pid else root;
  }

  -- What the walk through a tree of processes has so far; the processes visited are newest first.
  pub record Walk : Type 0 where
    pub visited : List ℕ
    pub cpu_seconds : F
    pub memory_bytes : ℕ

  abbrev pub seen_process : ℕ → ProcessMetric F → Walk → Walk
  seen_process n p w = record {
    visited = n ∷ w.visited;
    cpu_seconds = floats.add w.cpu_seconds p.cpu_seconds;
    memory_bytes = (w.memory_bytes + p.memory_bytes) % 2 ^ 64;
  }

  unfoldable pub visit_all : (ℕ → Walk → Option Walk) → List ℕ → Walk → Option Walk
  visit_all visit [] w = some w
  visit_all visit (n ∷ ns) w = elim (visit n w) [ none ↦ none | some v ↦ visit_all visit ns v ]

  -- On fuel; none where it runs out
  unfoldable pub visit : Processes F → ℕ → ℕ → Walk → Option Walk
  unfolding find_process child_numbers visit_all contains
  visit ps zero n w = none
  visit ps (suc fuel) n w = if contains w.visited n then some w else elim (find_process n ps) [
    | none ↦ some w
    | some p ↦ visit_all (visit ps fuel) (child_numbers n ps) (seen_process n p w)
  ]

  abbrev pub no_walk : Walk
  no_walk = record { visited = []; cpu_seconds = floats.nought; memory_bytes = 0 }

  -- How the walk ends: no such process, or what was added up
  pub data Outcome : Type 0 where
    missing out_of_fuel : Outcome
    total : Walk → Outcome

  abbrev pub tree_of : Option Walk → Outcome
  tree_of none = out_of_fuel
  tree_of (some w) = total w

  unfoldable pub process_tree_metrics : Processes F → ℕ → Outcome
  unfolding find_process visit
  process_tree_metrics ps root = elim (find_process root ps) [
    | none ↦ missing
    | some p ↦ tree_of (visit ps (suc (length ps)) root no_walk)
  ]
