-- ===== src/Supervisor/Backoff/Tests.antt =====
-- Concrete runs of the supervision loop of pkg/maclet/supervisor.go.
use maclet.Prelude.{ℕ, ◌≡◌, refl, ◌↔◌, false, none, some, List, [], ◌∷◌, All, arith}
use maclet.Supervisor.{
  JoinError, retryable, join_retry_delay, Session, running, supervise, supervise_join,
  retry_reset_after,
}
use maclet.Supervisor.Backoff.{IsShort, IsRetried, supervise-running}

abbrev plain_error : JoinError
plain_error = record {
  canceled = false;
  pod_cidr_unavailable = false;
  deadline_exceeded = false;
  http_code = none;
  net_error = false;
  eof = false;
}

abbrev unavailable : JoinError
unavailable = record plain_error { http_code = some 503 }

abbrev forbidden : JoinError
forbidden = record plain_error { http_code = some 403 }

abbrev failing : JoinError → ℕ → Session
failing e lasted = record {
  error = some e;
  lasted = lasted;
  stopped = false;
  stopped_waiting = false;
}

abbrev sessions : List Session
sessions = failing unavailable 2 ∷ failing unavailable 3 ∷ []

supervise-running_example :
    ((supervise join_retry_delay retry_reset_after 0 sessions).1 ≡ running) ↔ All IsRetried sessions
supervise-running_example = supervise-running join_retry_delay retry_reset_after 0 sessions

short : (n : ℕ) → IsRetried (failing unavailable n)
unfolding retryable
short n = (unavailable, refl, refl, refl, refl)

both : All (IsShort retry_reset_after) sessions
both = ((short 2, omega arith), ((short 3, omega arith), tt))

-- The waits double, and start over after a session that lasted.
waits :
    (supervise_join (failing unavailable 2 ∷ failing unavailable 2 ∷ failing unavailable 40 ∷ [])).0
    ≡ 1 ∷ 2 ∷ 1 ∷ []
unfolding supervise_join
waits = refl
