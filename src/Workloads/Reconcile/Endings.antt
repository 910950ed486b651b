-- ===== src/Workloads/Reconcile/Endings.antt =====
-- How a stopped workload is reported (pkg/maclet/workload_reconcile.go).
use maclet.Prelude.{
  ◌+◌, ◌-◌, Bool, true, false, ◌||◌, Option, none, some, ◌∷◌, ◌++◌, eqb, ◌==◌, text_eq_instance,
  if◌then◌else◌,
}
use maclet.Prelude.Text.{Text, codes, itoa}
use maclet.Go.Numbers.{ℤ, pos, negsuc}
use maclet.Workloads.Names.{pod_restart_policy}
use maclet.Workloads.Pods.{Pod, Inspection}
use maclet.Workloads.Status.{Report}

pub record Ending : Type 0 where
  pub phase : Text
  pub reason : Text
  pub message : Text

unfoldable pub code_text : ℤ → Text
unfolding itoa
code_text (pos n) = itoa n
code_text (negsuc n) = b'-' ∷ itoa (n + 1)

abbrev pub is_zero : ℤ → Bool
is_zero (pos n) = eqb n 0
is_zero (negsuc n) = false

-- The next count, which wraps around at 32 bits.
unfoldable pub next_count : ℤ → ℤ
next_count (pos n) = if eqb n 2147483647 then negsuc 2147483647 else pos (n + 1)
next_count (negsuc n) = if eqb n 0 then pos 0 else negsuc (n - 1)

unfoldable pub on_failure : Pod → Bool
unfolding pod_restart_policy
on_failure p = pod_restart_policy p == codes "OnFailure"

-- Whether a stopped workload stays stopped
unfoldable pub stays_ended : Pod → Bool
unfolding pod_restart_policy
stays_ended p = pod_restart_policy p == codes "Never" || pod_restart_policy p == codes "OnFailure"

abbrev pub completed : Text → Ending
completed message = record {
  phase = codes "Succeeded";
  reason = codes "MacletWorkloadCompleted";
  message = message;
}

abbrev pub by_code : ℤ → Ending
by_code code =
    if is_zero code then completed (codes "Macker workload exited successfully") else record {
      phase = codes "Failed";
      reason = codes "MacletWorkloadFailed";
      message = codes "Macker workload exited with code " ++ code_text code;
    }

abbrev pub by_policy : Bool → Text → Text → Ending
by_policy failure stopped exited =
    if failure
    then record { phase = codes "Failed"; reason = codes "MacletWorkloadExited"; message = exited }
    else completed stopped

abbrev pub no_code : Text
no_code = codes "; exit code is not available through the current Macker CLI"

unfoldable pub ending_of : Bool → Option Inspection → Ending
unfolding code_text
ending_of failure none =
    by_policy failure (codes "Macker stopped the workload" ++ no_code)
      (codes "Macker workload exited" ++ no_code)
ending_of failure (some i) = elim i.exit_code [
  | none ↦ by_policy failure (codes "Macker stopped the workload") (codes "Macker workload exited")
  | some code ↦ by_code code
]

abbrev pub running_report : Text → Text → ℤ → Report
running_report ip message count = record {
  phase = codes "Running";
  ip = ip;
  reason = codes "MacletWorkloadRunning";
  message = message;
  running = true;
  restart_count = count;
  termination = none;
}

abbrev pub ended_report : Text → ℤ → Option Inspection → Ending → Report
ended_report ip count inspection e = record {
  phase = e.phase;
  ip = ip;
  reason = e.reason;
  message = e.message;
  running = false;
  restart_count = count;
  termination = inspection;
}
