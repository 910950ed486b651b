-- ===== src/Metrics/Tests.antt =====
-- Runs of the resource metrics at small inputs, among them a snapshot whose parents are a cycle.
use maclet.Prelude.{ℕ, ◌+◌, ◌*◌, ◌-◌, ◌≡◌, refl, false, some, [], ◌∷◌, leb, contains, ok, err}
use maclet.Prelude.Text.{Text, codes}
use maclet.Go.Numbers.{pos, negsuc, parse_uint}
use maclet.Metrics.{
  MetricCounter, update_metric_counter, Floats, Processes, bad_cpu_time, find_process, Walk,
  missing, total, parse_cpu_time, read_process_metrics, process_tree_metrics,
}
use maclet.Metrics.Labels.{
  escape_prometheus_label, prometheus_labels, read_labels, read_labels-prometheus_labels,
}
use maclet.Metrics.Memory.{host_memory_capacity_bytes, read_node_working_set}
use maclet.Metrics.Tree.{IsTree, process_tree_metrics-IsTree}

-- Whole numbers in place of floats
abbrev whole : Floats ℕ
whole = record {
  nought = 0;
  of_nat = λ n. n;
  add = λ a b. a + b;
  sub = λ a b. a - b;
  mul = λ a b. a * b;
  at_most = leb;
  parse = parse_uint;
}

abbrev loop : Processes ℕ
loop =
    (7, record { parent = pos 9; cpu_seconds = 1; memory_bytes = 10 })
    ∷ (8, record { parent = pos 7; cpu_seconds = 2; memory_bytes = 20 })
    ∷ (9, record { parent = pos 8; cpu_seconds = 3; memory_bytes = 30 })
    ∷ (5, record { parent = negsuc 0; cpu_seconds = 4; memory_bytes = 40 })
    ∷ []

loop_total :
    process_tree_metrics whole loop 8
    ≡ total record { visited = 7 ∷ 9 ∷ 8 ∷ []; cpu_seconds = 6; memory_bytes = 60 }
unfolding process_tree_metrics
loop_total = refl

loop_missing : process_tree_metrics whole loop 6 ≡ missing
unfolding process_tree_metrics
loop_missing = refl

days_time : parse_cpu_time whole (codes "1-02:03:04") ≡ ok 93784
unfolding parse_cpu_time parse_uint
days_time = refl

short_time : parse_cpu_time whole (codes "7") ≡ err bad_cpu_time
unfolding parse_cpu_time
short_time = refl

one_line :
    read_process_metrics whole (some (codes "  12  1 64 0:05\nheader\n"))
    ≡ ok ((12, record { parent = pos 1; cpu_seconds = 5; memory_bytes = 65536 }) ∷ [])
unfolding read_process_metrics parse_uint
one_line = refl

process_tree_metrics-IsTree_example :
    (w : Walk whole) × (process_tree_metrics whole loop 8 ≡ total w) × IsTree whole loop 8 w
unfolding find_process
process_tree_metrics-IsTree_example =
    process_tree_metrics-IsTree whole loop 8
      record { parent = pos 7; cpu_seconds = 2; memory_bytes = 20 } refl

escaped_value : escape_prometheus_label (codes "a\\\"\n") ≡ codes "a\\\\\\\"\\n"
unfolding escape_prometheus_label
escaped_value = refl

container_label :
    prometheus_labels (codes "container" ∷ codes "a\"b" ∷ codes "pod" ∷ codes "p" ∷ [])
    ≡ codes "{container=\"a\\\"b\",pod=\"p\"}"
unfolding prometheus_labels
container_label = refl

abbrev hostile : Text
hostile = codes "x\"} 1\nup \\"

read_labels-prometheus_labels_example :
    read_labels 2 (prometheus_labels (codes "container" ∷ hostile ∷ codes "pod" ∷ codes "p" ∷ []))
    ≡ some ((codes "container", hostile) ∷ (codes "pod", codes "p") ∷ [])
unfolding contains
read_labels-prometheus_labels_example =
    read_labels-prometheus_labels ((codes "pod", codes "p") ∷ []) (codes "container") hostile
      (refl, (refl, tt))

abbrev fresh : MetricCounter whole
fresh = record { initialized = false; observed = 0; value = 0; root_pid = 0 }

-- A workload that is started again counts on from its value.
restarted :
    (update_metric_counter whole
      (update_metric_counter whole (update_metric_counter whole fresh 5 7) 9 7)
      2
      8).value
    ≡ 11
unfolding update_metric_counter
restarted = refl

abbrev vm_stat : Text
vm_stat =
    codes
      "Mach Virtual Memory Statistics: (page size of 16384 bytes)\nPages free:      10.\nPages inactive: x\nPages speculative:  2.\n"

working_set : read_node_working_set (some (codes "1000000\n")) (some vm_stat) ≡ ok 803392
unfolding read_node_working_set host_memory_capacity_bytes parse_uint
working_set = refl

all_reclaimable : read_node_working_set (some (codes "100000\n")) (some vm_stat) ≡ ok 0
unfolding read_node_working_set host_memory_capacity_bytes parse_uint
all_reclaimable = refl
