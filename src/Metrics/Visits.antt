-- ===== src/Metrics/Visits.antt =====
-- What visits to some processes do to a walk (pkg/maclet/resource_metrics.go).
use maclet.Prelude.{
  ℕ, ◌+◌, ◌%◌, ◌^◌, ◌≡◌, refl, ◌∙◌, ap, sym, subst, ◌⊎◌, inl, inr, true, false, Option, none, some,
  List, [], ◌∷◌, IsIn, arith, eqb, eqb_iff, contains, nat_instance, Bool-cases,
}
use maclet.Go.Numbers.{pos}
use maclet.Metrics.{
  Floats, ProcessMetric, Processes, find_process, child_numbers, Walk, seen_process,
}
use maclet.Metrics.Snapshot.{contains-child_numbers, find-some}

module _ {F : Type 0} (floats : Floats F) (ps : Processes F) where
  abbrev pub Seen : Walk floats → ℕ → Type 0
  Seen w n = contains w.visited n ≡ true

  -- The root and the processes below it, by the numbers of the parents
  pub data Below (root : ℕ) : ℕ → Type 0 where
    itself : Below root root
    child :
        {n c : ℕ}
        → Below root n
        → (p : ProcessMetric F) → IsIn (c, p) ps
        → p.parent ≡ pos n
        → Below root c

  -- The sums stand for the processes visited, of which none stands twice.
  abbrev pub bytes_of : Option (ProcessMetric F) → ℕ
  bytes_of none = 0
  bytes_of (some p) = p.memory_bytes

  abbrev pub memory_at : ℕ → ℕ
  memory_at n = bytes_of (find_process n ps)

  abbrev pub memory_sum : List ℕ → ℕ
  memory_sum [] = 0
  memory_sum (n ∷ ns) = memory_at n + memory_sum ns

  abbrev pub IsDistinct : List ℕ → Type 0
  IsDistinct [] = Unit
  IsDistinct (n ∷ ns) = (contains ns n ≡ false) × IsDistinct ns

  abbrev pub IsSummed : Walk floats → Type 0
  IsSummed w = (w.memory_bytes ≡ memory_sum w.visited % 2 ^ 64) × IsDistinct w.visited

  pub IsSummed-seen :
      (n : ℕ) (p : ProcessMetric F) (w : Walk floats)
      → find_process n ps ≡ some p
      → contains w.visited n ≡ false
      → IsSummed w
      → IsSummed (seen_process floats n p w)
  IsSummed-seen n p w f new h =
      let one : memory_at n ≡ p.memory_bytes = ap bytes_of f in
      (omega (arith, h.0, one), (new, h.1))

  -- From one state of the walk to another, after visits to some numbers
  pub record Visits (root : ℕ) (ns : List ℕ) (w v : Walk floats) : Type 0 where
    pub kept : (n : ℕ) → Seen w n → Seen v n
    pub met :
        (n : ℕ)
        → contains ns n ≡ true
        → (p : ProcessMetric F) → find_process n ps ≡ some p
        → Seen v n
    pub closed :
        (n c : ℕ)
        → Seen v n
        → contains w.visited n ≡ false
        → contains (child_numbers n ps) c ≡ true
        → Seen v c
    pub sound :
        ((n : ℕ) → contains ns n ≡ true → Below root n)
        → (n : ℕ) → Seen v n
        → Seen w n ⊎ Below root n
    pub summed : IsSummed w → IsSummed v

  pub Visits-none : (root : ℕ) (w : Walk floats) → Visits root [] w w
  unfolding contains
  Visits-none root w = record {
    kept = λ n h. h;
    met = λ n e p f. cc;
    closed = λ n c h k e. cc;
    sound = λ b n h. inl h;
    summed = λ h. h;
  }

  -- A number that was visited, or that is of no process
  pub Visits-same :
      (root n : ℕ) (w : Walk floats)
      → ((p : ProcessMetric F) → find_process n ps ≡ some p → Seen w n)
      → Visits root (n ∷ []) w w
  unfolding contains
  Visits-same root n w k = record {
    kept = λ m h. h;
    met = λ m e p f.
        let same : n ≡ m = (eqb_iff n m).0 (ground (arith, e)) in
        subst (Seen w) same (k p (ap (λ j. find_process j ps) same ∙ f));
    closed = λ m c h l e. cc;
    sound = λ b m h. inl h;
    summed = λ h. h;
  }

  pub Visits-cons :
      (root n : ℕ) (ns : List ℕ) (w v u : Walk floats)
      → Visits root (n ∷ []) w v
      → Visits root ns v u
      → Visits root (n ∷ ns) w u
  unfolding contains
  Visits-cons root n ns w v u a b = record {
    kept = λ m h. b.kept m (a.kept m h);
    met = λ m e p f. elim (Bool-cases (eqb n m)) [
      | inl same ↦ b.kept m (a.met m (ground (arith, same)) p f)
      | inr other ↦ b.met m (ground (arith, other, e)) p f
    ];
    closed = λ m c h new e. elim (Bool-cases (contains v.visited m)) [
      | inl before ↦ b.kept c (a.closed m c before new e)
      | inr after ↦ b.closed m c h after e
    ];
    sound = λ k m h. elim (b.sound (λ c e. k c (ground (arith, e))) m h) [
      | inl before ↦ a.sound (λ c e. k c (ground (arith, e))) m before
      | inr below ↦ inr below
    ];
    summed = λ h. b.summed (a.summed h);
  }

  pub Visits-process :
      (root n : ℕ) (p : ProcessMetric F) (w v : Walk floats)
      → contains w.visited n ≡ false
      → find_process n ps ≡ some p
      → Visits root (child_numbers n ps) (seen_process floats n p w) v
      → Visits root (n ∷ []) w v
  unfolding contains
  Visits-process root n p w v new f a = record {
    kept = λ m h. a.kept m (ground (arith, h));
    met = λ m e q g. a.kept m (ground (arith, e));
    closed = λ m c h k e. elim (Bool-cases (eqb n m)) [
      | inl same ↦
          let back : m ≡ n = sym ((eqb_iff n m).0 same) in
          let here = ap (λ j. contains (child_numbers j ps) c) (sym back) ∙ e in
          let (q, i, par) = contains-child_numbers n c ps here in
          let (r, g) = find-some c q ps i in a.met c here r g
      | inr other ↦ a.closed m c h (ground (arith, other, k)) e
    ];
    sound = λ k m h.
        let root_below = k n (ground (arith, (eqb_iff n n).1 refl)) in
        let below = λ (c : ℕ) (e : contains (child_numbers n ps) c ≡ true).
          let (q, i, par) = contains-child_numbers n c ps e in child root_below q i par in
        elim (a.sound below m h) [
          | inr b ↦ inr b
          | inl seen ↦ elim (Bool-cases (eqb n m)) [
            | inl same ↦ inr (subst (Below root) ((eqb_iff n m).0 same) root_below)
            | inr other ↦ inl (ground (arith, other, seen))
          ]
        ];
    summed = λ h. a.summed (IsSummed-seen n p w f new h);
  }
