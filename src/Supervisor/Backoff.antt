-- ===== src/Supervisor/Backoff.antt =====
-- What the supervision loop of pkg/maclet/supervisor.go waits for and when it ends.
mod Tests
use maclet.Prelude.{
  ℕ, zero, suc, ◌+◌, ◌*◌, ◌^◌, ◌≤◌, ◌<◌, ◌≡◌, refl, sym, ap, ◌∙◌, ◌↔◌, ◌⊎◌, inl, inr, Bool, true,
  false, not, ◌&&◌, Option, none, some, List, [], ◌∷◌, map, length, All, ltb, leb, if◌then◌else◌,
  arith, Bool-cases, Option-cases,
}
use maclet.Supervisor.{
  JoinError, retryable, retry_max, retry_initial, double_until, join_retry_delay, Session, Outcome,
  running, stopped_clean, gave_up, attempt_after, supervise, supervise_join, retry_reset_after,
}

double_until_max : (n d : ℕ) → 60 ≤ d → double_until n d ≡ d
unfolding double_until
double_until_max zero d h = refl
double_until_max (suc n) d h = ground arith

-- The delay doubles from one second and stays at one minute from the sixth attempt on.
pub join_retry_delay_closed :
    (attempt : ℕ) → join_retry_delay attempt ≡ (if ltb attempt 6 then 2 ^ attempt else 60)
unfolding join_retry_delay
join_retry_delay_closed zero = refl
join_retry_delay_closed (suc zero) = refl
join_retry_delay_closed (suc (suc zero)) = refl
join_retry_delay_closed (suc (suc (suc zero))) = refl
join_retry_delay_closed (suc (suc (suc (suc zero)))) = refl
join_retry_delay_closed (suc (suc (suc (suc (suc zero))))) = refl
join_retry_delay_closed (suc (suc (suc (suc (suc (suc n)))))) =
    ground (arith, double_until_max n 64 (omega arith))

-- A session after which the supervision starts another one.
abbrev pub IsRetried : Session → Type 0
IsRetried s =
    (e : JoinError) × (s.error ≡ some e)
    × (retryable e ≡ true)
    × (s.stopped ≡ false)
    × (s.stopped_waiting ≡ false)

abbrev pub IsShort : ℕ → Session → Type 0
IsShort reset_after s = IsRetried s × (s.lasted < reset_after)

-- One number for each session, counted up.
abbrev pub attempts_from : ℕ → List Session → List ℕ
attempts_from attempt [] = []
attempts_from attempt (s ∷ ss) = attempt ∷ attempts_from (suc attempt) ss

module _ (retry_delay : ℕ → ℕ) (reset_after : ℕ) where
  -- The supervision runs on exactly as long as every session failed with an error to retry and nothing
  -- asked it to stop.
  pub supervise-running :
      (attempt : ℕ) (ss : List Session)
      → ((supervise retry_delay reset_after attempt ss).1 ≡ running) ↔ All IsRetried ss
  unfolding supervise
  supervise-running attempt [] = (λ h. tt, λ h. refl)
  supervise-running attempt (s ∷ ss) =
      ground (arith, supervise-running (suc (attempt_after reset_after s.lasted attempt)) ss)

  -- While sessions fail before the reset period, the waits are the delays of the attempts in turn.
  pub supervise-short :
      (attempt : ℕ) (ss : List Session)
      → All (IsShort reset_after) ss
      → (supervise retry_delay reset_after attempt ss).0
        ≡ map retry_delay (attempts_from attempt ss)
  unfolding supervise attempt_after
  supervise-short attempt [] h = refl
  supervise-short attempt (s ∷ ss) h = ground (arith, supervise-short (suc attempt) ss h.1)

  -- A session that lasted for the reset period makes the supervision forget the failures before it.
  pub supervise-reset :
      (attempt : ℕ) (s : Session) (ss : List Session)
      → 0 < reset_after
      → reset_after ≤ s.lasted
      → supervise retry_delay reset_after attempt (s ∷ ss)
        ≡ supervise retry_delay reset_after 0 (s ∷ ss)
  unfolding supervise attempt_after
  supervise-reset attempt s ss p h = ground arith

abbrev pub IsDelay : ℕ → Type 0
IsDelay d = (1 ≤ d) × (d ≤ 60)

low_power : (k : ℕ) → ltb k 6 ≡ true → IsDelay (2 ^ k)
low_power zero h = omega arith
low_power (suc zero) h = omega arith
low_power (suc (suc zero)) h = omega arith
low_power (suc (suc (suc zero))) h = omega arith
low_power (suc (suc (suc (suc zero)))) h = omega arith
low_power (suc (suc (suc (suc (suc zero))))) h = omega arith
low_power (suc (suc (suc (suc (suc (suc n)))))) h = absurd (ground arith)

join_retry_delay-IsDelay : (attempt : ℕ) → IsDelay (join_retry_delay attempt)
join_retry_delay-IsDelay attempt =
    ground (arith, join_retry_delay_closed attempt, low_power attempt)

-- Each wait of the daemon is between a second and a minute.
pub supervise-IsDelay :
    (attempt : ℕ) (ss : List Session)
    → All IsDelay (supervise join_retry_delay retry_reset_after attempt ss).0
unfolding supervise
supervise-IsDelay attempt [] = tt
supervise-IsDelay attempt (s ∷ ss) = ground (
  arith,
  join_retry_delay-IsDelay (attempt_after retry_reset_after s.lasted attempt),
  supervise-IsDelay (suc (attempt_after retry_reset_after s.lasted attempt)) ss,
)
