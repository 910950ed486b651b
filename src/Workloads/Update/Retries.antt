-- ===== src/Workloads/Update/Retries.antt =====
-- How often updatePodStatus (pkg/maclet/workload_status.go) asks, and what it sends again.
mod Tests
use maclet.Prelude.{
  ℕ, zero, suc, ◌+◌, ◌-◌, ◌*◌, ◌≤◌, ◌<◌, ◌≡◌, ◌≢◌, ◌⊎◌, subst, refl, sym, ◌∙◌, ap, Bool, true,
  false, not, ◌||◌, ◌&&◌, Option, none, some, List, [], ◌∷◌, length, ltb, eqb, ◌==◌,
  text_eq_instance, arith, if◌then◌else◌, Result, ok, err, Bool-cases, inl, inr,
}
use maclet.Prelude.Exec.{continue}
use maclet.Prelude.Text.{Text, codes}
use maclet.Go.Numbers.{ℤ, pos}
use maclet.Workloads.Pods.{
  PodStatus, Pod, ContainerStatus, ContainerState, running_since, terminated, waiting,
}
use maclet.Workloads.Status.{Report, desired_pod_status}
use maclet.Workloads.Update.{
  garbled, unreachable, Request, put_status, get_pod, Reply, status, found, UpdateError,
  limit_exceeded, renewed, send, refreshed, is_conflict, settled, read_fresh, attempt_update,
  update_pod_status,
}

-- The report of a retry, without its reason and its termination
abbrev pub for_retry : Report → Report
for_retry r = record r { reason = []; running = r.phase == codes "Running"; termination = none }

renewed-desired_pod_status :
    (pod fresh : Pod) (node_ip : Text) (r : Report) (before now : ℕ)
    → renewed (desired_pod_status pod node_ip r before) fresh now
      ≡ desired_pod_status fresh node_ip (for_retry r) now
unfolding renewed desired_pod_status
renewed-desired_pod_status pod fresh node_ip r before now = refl

module _ (api : List Request → Request → Reply) (clock : List Request → ℕ) where
  refreshed-calls : (r : Reply) (h : List Request) → (refreshed api clock r h).1 ≡ h
  unfolding refreshed
  refreshed-calls r h = ground arith

  settled-calls : (r : Reply) (h : List Request) → (settled api clock r h).1 ≡ h
  unfolding settled
  settled-calls r h = ground arith

  -- What follows the first request of an attempt
  abbrev again : ℕ → Pod → PodStatus → List Request → Result UpdateError Pod × List Request
  again n pod desired h =
      continue (read_fresh api clock pod h).0
        (λ fresh k. attempt_update api clock n fresh (renewed desired fresh (clock k)) k)
        (read_fresh api clock pod h).1

  after_read :
      (n bound : ℕ) (r : Result UpdateError Pod) (desired : PodStatus) (h : List Request)
      → ((fresh : Pod)
          → length (attempt_update api clock n fresh (renewed desired fresh (clock h)) h).1
            ≤ length h + bound)
      → length
          (continue r
            (λ fresh k. attempt_update api clock n fresh (renewed desired fresh (clock k)) k)
            h).1
        ≤ length h + bound
  after_read n bound (err e) desired h k = omega arith
  after_read n bound (ok fresh) desired h k = k fresh

  read_fresh-calls :
      (pod : Pod) (h : List Request) → length (read_fresh api clock pod h).1 ≡ suc (length h)
  unfolding read_fresh send
  read_fresh-calls pod h = ap length (
      refreshed-calls (api h (get_pod pod.namespace pod.name)) (get_pod pod.namespace pod.name ∷ h))

  settled-bounded :
      (r : Reply) (q : Request) (h : List Request) (bound : ℕ)
      → 1 ≤ bound
      → length (settled api clock r (q ∷ h)).1 ≤ length h + bound
  settled-bounded r q h bound le = omega (arith, ap length (settled-calls r (q ∷ h)))

  attempt_update-bounded :
      (n : ℕ) (pod : Pod) (desired : PodStatus) (h : List Request)
      → length (attempt_update api clock (suc n) pod desired h).1 ≤ length h + (2 * n + 1)
  unfolding attempt_update send
  attempt_update-bounded zero pod desired h =
      go (is_conflict api clock (api h (put_status pod desired)))
    where
      go :
          (b : Bool)
          → length
              ((if b && false
                  then again zero pod desired
                  else settled api clock (api h (put_status pod desired)))
                (put_status pod desired ∷ h)).1
            ≤ length h + 1
      go false =
          settled-bounded (api h (put_status pod desired)) (put_status pod desired) h 1
            (omega arith)
      go true =
          settled-bounded (api h (put_status pod desired)) (put_status pod desired) h 1
            (omega arith)
  attempt_update-bounded (suc m) pod desired h =
      go (λ fresh k. attempt_update-bounded m fresh (renewed desired fresh (clock k)) k)
        (is_conflict api clock (api h (put_status pod desired)) && ltb 0 (suc m))
    where
      go :
          ((fresh : Pod) (k : List Request)
            → length (attempt_update api clock (suc m) fresh (renewed desired fresh (clock k)) k).1
              ≤ length k + (2 * m + 1))
          → (b : Bool)
          → length
              ((if b
                  then again (suc m) pod desired
                  else settled api clock (api h (put_status pod desired)))
                (put_status pod desired ∷ h)).1
            ≤ length h + (2 * suc m + 1)
      go rest false =
          settled-bounded (api h (put_status pod desired)) (put_status pod desired) h
            (2 * suc m + 1) (omega arith)
      go rest true =
          let put = put_status pod desired ∷ h in
          let (r, k) = read_fresh api clock pod put in
          omega (
            arith,
            read_fresh-calls pod put,
            after_read (suc m) (2 * m + 1) r desired k (λ fresh. rest fresh k),
          )

  -- An update asks at most nine times.
  pub update_pod_status-bounded :
      (pod : Pod) (desired : PodStatus) (h : List Request)
      → length (update_pod_status api clock pod desired h).1 ≤ length h + 9
  unfolding update_pod_status
  update_pod_status-bounded pod desired h = attempt_update-bounded 4 pod desired h

  module _ (node_ip : Text) where
    abbrev pub write : Pod → Report → ℕ → Request
    write pod r now = put_status pod (desired_pod_status pod node_ip r now)

    abbrev pub read : Pod → Request
    read pod = get_pod pod.namespace pod.name

    -- The requests of an update with some attempts left, from those before it to those after it: the last
    -- write, one whose refresh fails, and one that is refreshed and tried again.
    pub data IsRounds : ℕ → Pod → Report → ℕ → List Request → List Request → Type 0 where
      settles :
          {n : ℕ} {pod : Pod} {r : Report} {now : ℕ} {h : List Request}
          → (is_conflict api clock (api h (write pod r now)) ≡ false) ⊎ (n ≡ 0)
          → IsRounds (suc n) pod r now h (write pod r now ∷ h)
      stuck :
          {n : ℕ} {pod : Pod} {r : Report} {now : ℕ} {h : List Request}
          → is_conflict api clock (api h (write pod r now)) ≡ true
          → ((fresh : Pod) → api (write pod r now ∷ h) (read pod) ≢ found fresh)
          → IsRounds (suc (suc n)) pod r now h (read pod ∷ write pod r now ∷ h)
      retries :
          {n : ℕ} {pod fresh : Pod} {r : Report} {now : ℕ} {h k : List Request}
          → is_conflict api clock (api h (write pod r now)) ≡ true
          → api (write pod r now ∷ h) (read pod) ≡ found fresh
          → IsRounds n fresh
              (for_retry r)
              (clock (read pod ∷ write pod r now ∷ h))
              (read pod ∷ write pod r now ∷ h)
              k
          → IsRounds (suc n) pod r now h k

    after_reply :
        (n : ℕ) (pod : Pod) (r : Report) (now : ℕ) (h : List Request) (reply : Reply)
        → is_conflict api clock (api h (write pod r now)) ≡ true
        → api (write pod r now ∷ h) (read pod) ≡ reply
        → ((fresh : Pod) (g : List Request) (t : ℕ)
            → IsRounds
                (suc n)
                fresh
                (for_retry r)
                t
                g
                (attempt_update api clock
                  (suc n)
                  fresh
                  (desired_pod_status fresh node_ip (for_retry r) t)
                  g).1)
        → IsRounds
            (suc (suc n))
            pod
            r
            now
            h
            (continue
              (refreshed api clock reply (read pod ∷ write pod r now ∷ h)).0
              (λ fresh k.
                attempt_update api clock
                  (suc n)
                  fresh
                  (renewed (desired_pod_status pod node_ip r now) fresh (clock k))
                  k)
              (refreshed api clock reply (read pod ∷ write pod r now ∷ h)).1).1
    unfolding refreshed
    after_reply n pod r now h (found fresh) c e k = retries c e (
        rw
          (renewed-desired_pod_status pod fresh node_ip r now
            (clock (read pod ∷ write pod r now ∷ h)))
          (k fresh (read pod ∷ write pod r now ∷ h) (clock (read pod ∷ write pod r now ∷ h))))
    after_reply n pod r now h garbled c e k = stuck c (λ fresh d. cc)
    after_reply n pod r now h unreachable c e k = stuck c (λ fresh d. cc)
    after_reply n pod r now h (status code) c e k = stuck c (λ fresh d. cc)

    last_write :
        (n : ℕ) (pod : Pod) (r : Report) (now : ℕ) (h : List Request)
        → (is_conflict api clock (api h (write pod r now)) ≡ false) ⊎ (n ≡ 0)
        → IsRounds
            (suc n)
            pod
            r
            now
            h
            (settled api clock (api h (write pod r now)) (write pod r now ∷ h)).1
    last_write n pod r now h e =
        subst (IsRounds (suc n) pod r now h)
          (sym (settled-calls (api h (write pod r now)) (write pod r now ∷ h))) (settles e)

    attempt_update-IsRounds :
        (n : ℕ) (pod : Pod) (r : Report) (now : ℕ) (h : List Request)
        → IsRounds
            (suc n)
            pod
            r
            now
            h
            (attempt_update api clock (suc n) pod (desired_pod_status pod node_ip r now) h).1
    unfolding attempt_update read_fresh send
    attempt_update-IsRounds zero pod r now h =
        elim (Bool-cases (is_conflict api clock (api h (write pod r now)))) [
          | inl lost ↦ rw lost (last_write zero pod r now h (inr refl))
          | inr won ↦ rw won (last_write zero pod r now h (inl won))
        ]
    attempt_update-IsRounds (suc n) pod r now h =
        let again = attempt_update-IsRounds n in
        let more : ltb 0 (suc n) ≡ true = ground arith in
        elim (Bool-cases (is_conflict api clock (api h (write pod r now)))) [
          | inl lost ↦
              rw (lost, more)
                (after_reply n pod r now h (api (write pod r now ∷ h) (read pod)) lost refl
                  (λ fresh g t. again fresh (for_retry r) t g))
          | inr won ↦ rw won (last_write (suc n) pod r now h (inl won))
        ]

    -- The requests of an update that starts from the status for a report, at most nine: up to five writes,
    -- each of the status for the Pod that was read last, with one read of the Pod between each
    -- two and no read but behind a write that met a conflict and was not the fifth. A write behind the first is for the same report without its reason and
    -- its termination.
    pub update_pod_status-IsRounds :
        (pod : Pod) (r : Report) (now : ℕ) (h : List Request)
        → IsRounds 5 pod r now h
            (update_pod_status api clock pod (desired_pod_status pod node_ip r now) h).1
          × (length (update_pod_status api clock pod (desired_pod_status pod node_ip r now) h).1
              ≤ length h + 9)
    unfolding update_pod_status
    update_pod_status-IsRounds pod r now h = (
      attempt_update-IsRounds 4 pod r now h,
      update_pod_status-bounded pod (desired_pod_status pod node_ip r now) h,
    )
