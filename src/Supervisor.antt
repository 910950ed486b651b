-- ===== src/Supervisor.antt =====
-- The supervision of daemon sessions (pkg/maclet/supervisor.go): which errors are retried, how long
-- the wait is, and the loop. What the environment does is the sequence of ended sessions.
pub mod Backoff
use maclet.Prelude.{
  ℕ, zero, suc, ◌*◌, Bool, true, false, not, ◌||◌, ◌&&◌, Option, none, some, List, [], ◌∷◌, eqb,
  ltb, leb, if◌then◌else◌, Result, ok, err,
}

-- What errors.Is and errors.As find in the chain of an error.
pub record JoinError : Type 0 where
  pub canceled : Bool
  pub pod_cidr_unavailable : Bool
  pub deadline_exceeded : Bool
  pub http_code : Option ℕ
  pub net_error : Bool
  pub eof : Bool

unfoldable pub retryable_code : ℕ → Bool
retryable_code code = eqb code 408 || eqb code 425 || eqb code 429 || leb 500 code

unfoldable pub retryable_rest : Option ℕ → JoinError → Bool
unfolding retryable_code
retryable_rest (some code) e = retryable_code code
retryable_rest none e = e.net_error || e.eof

unfoldable pub retryable : JoinError → Bool
unfolding retryable_rest
retryable e =
    if e.canceled
    then false
    else if e.pod_cidr_unavailable
    then true
    else if e.deadline_exceeded
    then true
    else retryable_rest e.http_code e

unfoldable pub retryable_join_error : Option JoinError → Bool
unfolding retryable
retryable_join_error none = false
retryable_join_error (some e) = retryable e

-- In seconds
abbrev pub retry_initial : ℕ
retry_initial = 1

abbrev pub retry_max : ℕ
retry_max = 60

abbrev pub retry_reset_after : ℕ
retry_reset_after = 30

-- The loop, for at most `attempt` rounds
unfoldable pub double_until : ℕ → ℕ → ℕ
double_until zero delay = delay
double_until (suc n) delay =
    let next = double_until n (delay * 2) in if ltb delay retry_max then next else delay

-- The attempts that the program passes are never negative.
unfoldable pub join_retry_delay : ℕ → ℕ
unfolding double_until
join_retry_delay attempt =
    if ltb retry_max (double_until attempt retry_initial)
    then retry_max
    else double_until attempt retry_initial

-- A session that ended, with how long it ran in seconds, whether the context was cancelled by then,
-- and whether it is cancelled during the wait that would follow.
pub record Session : Type 0 where
  pub error : Option JoinError
  pub lasted : ℕ
  pub stopped : Bool
  pub stopped_waiting : Bool

-- How the supervision stands after some sessions: it runs on, or it returned.
pub data Outcome : Type 0 where
  running stopped_clean : Outcome
  gave_up : JoinError → Outcome

unfoldable pub attempt_after : ℕ → ℕ → ℕ → ℕ
attempt_after reset_after lasted attempt =
    if ltb 0 reset_after && leb reset_after lasted then 0 else attempt

module _ (retry_delay : ℕ → ℕ) (reset_after : ℕ) where
  -- superviseJoinWithResetAfter: the delays that it waited, and how it stands
  unfoldable pub supervise : ℕ → List Session → List ℕ × Outcome
  unfolding retryable attempt_after
  supervise attempt [] = ([], running)
  supervise attempt (s ∷ ss) =
      let attempt' = attempt_after reset_after s.lasted attempt in
      let rest = supervise (suc attempt') ss in
      elim s.error [
        | none ↦ ([], stopped_clean)
        | some e ↦
            if s.stopped
            then ([], stopped_clean)
            else if not (retryable e)
            then ([], gave_up e)
            else if s.stopped_waiting
            then (retry_delay attempt' ∷ [], stopped_clean)
            else (retry_delay attempt' ∷ rest.0, rest.1)
      ]

-- superviseJoin as runJoin calls it
unfoldable pub supervise_join : List Session → List ℕ × Outcome
unfolding supervise join_retry_delay
supervise_join sessions = supervise join_retry_delay retry_reset_after 0 sessions
