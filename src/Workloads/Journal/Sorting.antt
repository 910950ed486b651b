-- ===== src/Workloads/Journal/Sorting.antt =====
-- The records of the journal are found again after the sort of pkg/maclet/workload_manager.go.
use maclet.Prelude.{
  subst, Bool-cases, inl, inr, ◌≡◌, refl, sym, ◌∙◌, ap, Bool, true, false, Option, none, some, List,
  [], ◌∷◌, text_eq, text_eq_iff, text_eq_instance, arith, if◌then◌else◌,
}
use maclet.Prelude.Text.{Text}
use maclet.Workloads.Journal.{JournalRecord, text_less, insert_record, sort_records}

abbrev pub find_record : Text → List JournalRecord → Option JournalRecord
find_record uid [] = none
find_record uid (r ∷ rs) = if text_eq r.uid uid then some r else find_record uid rs

-- No UID stands twice.
abbrev pub IsDistinct : List JournalRecord → Type 0
IsDistinct [] = Unit
IsDistinct (r ∷ rs) = (find_record r.uid rs ≡ none) × IsDistinct rs

text_less_irrefl : (s : Text) → text_less s s ≡ false
unfolding text_less
text_less_irrefl [] = refl
text_less_irrefl (c ∷ s) = ground (arith, text_less_irrefl s)

less-other : (a b : Text) → text_less a b ≡ true → text_eq a b ≡ false
less-other a b h = elim (Bool-cases (text_eq a b)) [
  | inl e ↦
      let same = subst (λ x. text_less a x ≡ true) (sym ((text_eq_iff a b).0 e)) h in
      absurd (ground (arith, same, text_less_irrefl a))
  | inr n ↦ n
]

find_record-insert :
    (r : JournalRecord) (rs : List JournalRecord) (uid : Text)
    → find_record uid (insert_record r rs)
      ≡ (if text_eq r.uid uid then some r else find_record uid rs)
unfolding insert_record
find_record-insert r [] uid = ground arith
find_record-insert r (x ∷ rs) uid = ground (
  arith,
  find_record-insert r rs uid,
  less-other x.uid r.uid,
  text_eq_iff x.uid r.uid,
  text_eq_iff x.uid uid,
  text_eq_iff r.uid uid,
)

pub find_record-sort :
    (rs : List JournalRecord) (uid : Text) → find_record uid (sort_records rs) ≡ find_record uid rs
unfolding sort_records
find_record-sort [] uid = refl
find_record-sort (r ∷ rs) uid =
    find_record-insert r (sort_records rs) uid
    ∙ ap (λ o. if text_eq r.uid uid then some r else o) (find_record-sort rs uid)

not_later :
    (x r : JournalRecord) (rs : List JournalRecord)
    → find_record r.uid (x ∷ rs) ≡ none
    → find_record r.uid rs ≡ none
not_later x r rs h = ground (arith, h)

insert-IsDistinct :
    (r : JournalRecord) (rs : List JournalRecord)
    → find_record r.uid rs ≡ none
    → IsDistinct rs
    → IsDistinct (insert_record r rs)
unfolding insert_record
insert-IsDistinct r [] h d = (refl, tt)
insert-IsDistinct r (x ∷ rs) h d =
    go (insert-IsDistinct r rs (not_later x r rs h) d.1) (text_less x.uid r.uid)
  where
    apart : text_eq x.uid r.uid ≡ false
    apart = ground (arith, h)

    go :
        IsDistinct (insert_record r rs)
        → (b : Bool) → IsDistinct (if b then x ∷ insert_record r rs else r ∷ x ∷ rs)
    go rest true = (
      ground (
        arith,
        find_record-insert r rs x.uid,
        d.0,
        apart,
        text_eq_iff x.uid r.uid,
        text_eq_iff r.uid x.uid,
      ),
      rest,
    )
    go rest false = (h, d)

pub sort-IsDistinct : (rs : List JournalRecord) → IsDistinct rs → IsDistinct (sort_records rs)
unfolding sort_records
sort-IsDistinct [] d = tt
sort-IsDistinct (r ∷ rs) d =
    insert-IsDistinct r (sort_records rs) (find_record-sort rs r.uid ∙ d.0) (sort-IsDistinct rs d.1)
