-- ===== src/Workloads/Journal/Loading.antt =====
-- What is loaded from a journal that the manager wrote (pkg/maclet/workload_manager.go).
mod Tests
use maclet.Prelude.{
  ℕ, ◌≡◌, refl, sym, ◌∙◌, ap, subst, ◌⊎◌, inl, inr, Bool, true, false, not, ◌||◌, ◌&&◌, Option,
  none, some, List, [], ◌∷◌, ◌++◌, map, All, ◌==◌, text_eq, text_eq_iff, text_eq_instance, arith,
  if◌then◌else◌, Result, ok, err, Bool-cases, Option-cases,
}
use maclet.Prelude.Text.{Text}
use maclet.Workloads.Managed.{Managed, Manager, find, put}
use maclet.Workloads.Managed.Retention.{find-put}
use maclet.Workloads.Journal.{
  JournalRecord, stamp_of, time_of, record_of, workload_of, sort_records, journal_of, place,
  load_records,
}
use maclet.Workloads.Journal.Sorting.{find_record, IsDistinct, find_record-sort, sort-IsDistinct}

abbrev pub all_complete : List JournalRecord → Bool
all_complete [] = true
all_complete (r ∷ rs) = not (r.uid == [] || r.container_name == []) && all_complete rs

-- The running, or the retained, workload that a record stands for
abbrev as_running : Option JournalRecord → Option Managed → Option Managed
as_running none otherwise = otherwise
as_running (some r) otherwise = if r.retained then otherwise else some (workload_of r)

abbrev as_kept : Option JournalRecord → Option Managed → Option Managed
as_kept none otherwise = otherwise
as_kept (some r) otherwise = if r.retained then some (workload_of r) else otherwise

find-place :
    (r : JournalRecord) (m : Manager) (uid : Text)
    → (find uid (place (workload_of r) m).workloads ≡ (
        if text_eq r.uid uid
        then as_running (some r) (find uid m.workloads)
        else find uid m.workloads))
      × (find uid (place (workload_of r) m).kept
          ≡ (if text_eq r.uid uid then as_kept (some r) (find uid m.kept) else find uid m.kept))
unfolding place workload_of
find-place r m uid = (
  ground (arith, find-put (workload_of r) uid m.workloads),
  ground (arith, find-put (workload_of r) uid m.kept),
)

absent :
    (r : JournalRecord) (rs : List JournalRecord) (uid : Text)
    → find_record r.uid rs ≡ none
    → text_eq r.uid uid ≡ true
    → find_record uid rs ≡ none
absent r rs uid h e = subst (λ u. find_record u rs ≡ none) ((text_eq_iff r.uid uid).0 e) h

step_running :
    (b : Bool) (r : JournalRecord) (o : Option JournalRecord) (base placed : Option Managed)
    → placed ≡ (if b then as_running (some r) base else base)
    → (b ≡ true → o ≡ none)
    → as_running o placed ≡ as_running (if b then some r else o) base
step_running true r o base placed e gone = ap (λ x. as_running x placed) (gone refl) ∙ e
step_running false r o base placed e gone = ap (as_running o) e

step_kept :
    (b : Bool) (r : JournalRecord) (o : Option JournalRecord) (base placed : Option Managed)
    → placed ≡ (if b then as_kept (some r) base else base)
    → (b ≡ true → o ≡ none)
    → as_kept o placed ≡ as_kept (if b then some r else o) base
step_kept true r o base placed e gone = ap (λ x. as_kept x placed) (gone refl) ∙ e
step_kept false r o base placed e gone = ap (as_kept o) e

load_records-find :
    (rs : List JournalRecord) (m : Manager) (uid : Text)
    → all_complete rs ≡ true
    → IsDistinct rs
    → ((load_records rs m).0 ≡ ok tt)
      × (find uid (load_records rs m).1.workloads
          ≡ as_running (find_record uid rs) (find uid m.workloads))
      × (find uid (load_records rs m).1.kept ≡ as_kept (find_record uid rs) (find uid m.kept))
unfolding load_records
load_records-find [] m uid c d = (refl, refl, refl)
load_records-find (r ∷ rs) m uid c d =
    let (done, run, kept) =
      load_records-find rs (place (workload_of r) m) uid (ground (arith, c)) d.1 in
    let guard : (r.uid == [] || r.container_name == []) ≡ false = ground (arith, c) in
    let gone = absent r rs uid d.0 in
    rw guard (
      done,
      run
          ∙ step_running (text_eq r.uid uid) r (find_record uid rs) (find uid m.workloads) _
              (find-place r m uid).0 gone,
      kept
          ∙ step_kept (text_eq r.uid uid) r (find_record uid rs) (find uid m.kept) _
              (find-place r m uid).1 gone,
    )

find_record-front :
    (ws ks : List Managed) (uid : Text) (w : Managed)
    → find uid ws ≡ some w
    → find_record uid (map record_of (ws ++ ks)) ≡ some (record_of w)
unfolding find record_of
find_record-front [] ks uid w h = cc
find_record-front (x ∷ ws) ks uid w h = ground (arith, find_record-front ws ks uid w)

-- What the journal keeps of a workload: all but the time of the next try.
unfoldable pub without_retry : Managed → Managed
without_retry w = record w { retry_after = none }

workload_of-record_of : (w : Managed) → workload_of (record_of w) ≡ without_retry w
unfolding workload_of record_of without_retry
workload_of-record_of w = go w.log_expires_at
  where
    go :
        (t : Option ℕ)
        → record w { log_expires_at = time_of (stamp_of t); retry_after = none }
          ≡ record w { log_expires_at = t; retry_after = none }
    go none = refl
    go (some t) = refl

running_of :
    (w : Managed)
    → w.retained ≡ false
    → as_running (some (record_of w)) none ≡ some (without_retry w)
unfolding record_of
running_of w k = go w.retained k
  where
    go :
        (b : Bool)
        → b ≡ false
        → (if b then none else some (workload_of (record_of w))) ≡ some (without_retry w)
    go true h = cc
    go false h = ap some (workload_of-record_of w)

abbrev pub empty_manager : Manager
empty_manager = record { workloads = []; kept = [] }

-- A journal that the manager wrote, with complete records of distinct UIDs, is loaded without an error,
-- and each running workload is found again as it was, but for the time of its next try.
pub load_records-journal_of :
    (m : Manager) (uid : Text) (w : Managed)
    → all_complete (journal_of m) ≡ true
    → IsDistinct (map record_of (m.workloads ++ m.kept))
    → find uid m.workloads ≡ some w
    → w.retained ≡ false
    → ((load_records (journal_of m) empty_manager).0 ≡ ok tt)
      × (find uid (load_records (journal_of m) empty_manager).1.workloads ≡ some (without_retry w))
unfolding journal_of find
load_records-journal_of m uid w c d h k =
    let records = map record_of (m.workloads ++ m.kept) in
    let (done, run, kept) =
      load_records-find (sort_records records) empty_manager uid c (sort-IsDistinct records d) in
    let there = find_record-sort records uid ∙ find_record-front m.workloads m.kept uid w h in
    (done, run ∙ ap (λ o. as_running o none) there ∙ running_of w k)
