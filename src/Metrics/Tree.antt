-- ===== src/Metrics/Tree.antt =====
-- The walk through a tree of processes meets each process below the root once (pkg/maclet/resource_metrics.go).
use maclet.Prelude.{
  ℕ, zero, suc, ◌%◌, ◌^◌, ◌≤◌, ◌≡◌, refl, ◌∙◌, ap, subst, ◌⊎◌, inl, inr, ◌↔◌, true, false, Option,
  none, some, List, [], ◌∷◌, arith, eqb_iff, length, contains, nat_instance, Bool-cases,
  Option-cases,
}
use maclet.Metrics.{
  Floats, ProcessMetric, Processes, find_process, child_numbers, Walk, seen_process, visit_all,
  visit, no_walk, total, process_tree_metrics,
}
use maclet.Metrics.Snapshot.{
  unvisited, unvisited-le, unvisited-lt, unvisited-nil, child_numbers-contains,
}
use maclet.Metrics.Visits.{
  Seen, Below, child, itself, memory_sum, IsDistinct, Visits, Visits-none, Visits-same, Visits-cons,
  Visits-process,
}

module _ {F : Type 0} (floats : Floats F) (ps : Processes F) where
  -- Visits that do not run out of fuel
  abbrev Ends : ℕ → List ℕ → Option (Walk floats) → Walk floats → Type 0
  Ends root ns o w = (v : Walk floats) × (o ≡ some v) × Visits floats ps root ns w v

  visit_all-Ends :
      (root bound : ℕ) (one : ℕ → Walk floats → Option (Walk floats))
      → ((n : ℕ) (w : Walk floats)
          → unvisited w.visited ps ≤ bound
          → Ends root (n ∷ []) (one n w) w)
      → (ns : List ℕ) (w : Walk floats) → unvisited w.visited ps ≤ bound
      → Ends root ns (visit_all floats one ns w) w
  unfolding visit_all
  visit_all-Ends root bound one k [] w h = (w, refl, Visits-none floats ps root w)
  visit_all-Ends root bound one k (n ∷ ns) w h =
      let (v, e, a) = k n w h in
      let (u, d, b) =
        visit_all-Ends root bound one k ns v
          (omega (arith, h, unvisited-le w.visited v.visited ps a.kept)) in
      (
        u,
        ap (λ o. elim o [ none ↦ none | some x ↦ visit_all floats one ns x ]) e ∙ d,
        Visits-cons floats ps root n ns w v u a b,
      )

  -- A visit ends where the visits to the children do.
  visit_children :
      (root fuel n : ℕ) (w : Walk floats)
      → ((p : ProcessMetric F)
          → find_process n ps ≡ some p
          → contains w.visited n ≡ false
          → Ends root
              (child_numbers n ps)
              (visit_all floats
                (visit floats ps fuel)
                (child_numbers n ps)
                (seen_process floats n p w))
              (seen_process floats n p w))
      → Ends root (n ∷ []) (visit floats ps (suc fuel) n w) w
  unfolding visit
  visit_children root fuel n w k = elim (Bool-cases (contains w.visited n)) [
    | inl before ↦ (w, ground (arith, before), Visits-same floats ps root n w (λ p f. before))
    | inr new ↦ elim (Option-cases (find_process n ps)) [
      | inl gone ↦ (w, ground (arith, new, gone), Visits-same floats ps root n w (λ p f. cc))
      | inr (p, f) ↦
          let (v, e, a) = k p f new in
          (v, ground (arith, new, f, e), Visits-process floats ps root n p w v new f a)
    ]
  ]

  visit-Ends :
      (root fuel n : ℕ) (w : Walk floats)
      → unvisited w.visited ps ≤ fuel
      → Ends root (n ∷ []) (visit floats ps (suc fuel) n w) w
  visit-Ends root zero n w h =
      visit_children root zero n w
        (λ p f new. absurd (omega (arith, h, unvisited-lt n w.visited ps p new f)))
  visit-Ends root (suc fuel) n w h = visit_children root (suc fuel) n w (λ p f new.
      visit_all-Ends root fuel (visit floats ps (suc fuel)) (visit-Ends root fuel)
        (child_numbers n ps) (seen_process floats n p w)
        (omega (arith, h, unvisited-lt n w.visited ps p new f)))

  -- What the walk from a process of the snapshot ends in
  pub record IsTree (root : ℕ) (w : Walk floats) : Type 0 where
    pub reaches : (n : ℕ) → Seen floats ps w n ↔ Below floats ps root n
    pub memory : w.memory_bytes ≡ memory_sum floats ps w.visited % 2 ^ 64
    pub distinct : IsDistinct floats ps w.visited

  Below-Seen :
      (root n : ℕ) (p : ProcessMetric F) (w : Walk floats)
      → find_process root ps ≡ some p
      → Visits floats ps root (root ∷ []) (no_walk floats) w
      → Below floats ps root n
      → Seen floats ps w n
  unfolding contains
  Below-Seen root n p w f v itself = v.met root (ground (arith, (eqb_iff root root).1 refl)) p f
  Below-Seen root n p w f v (child {n = m} b q i par) =
      v.closed m n (Below-Seen root m p w f v b) refl (child_numbers-contains m n q ps i par)

  Below-alone : (root c : ℕ) → contains (root ∷ []) c ≡ true → Below floats ps root c
  unfolding contains
  Below-alone root c e =
      subst (Below floats ps root) ((eqb_iff root c).0 (ground (arith, e))) itself

  only-Below :
      (root n : ℕ) (w : Walk floats)
      → Seen floats ps (no_walk floats) n ⊎ Below floats ps root n
      → Below floats ps root n
  unfolding contains
  only-Below root n w (inl unseen) = cc
  only-Below root n w (inr below) = below

  -- From a process of the snapshot the walk through its tree ends within one more step of depth than the
  -- snapshot has processes, whatever the parents are, cycles included: it has visited exactly the root and
  -- the processes that stand below it by the numbers of their parents, each of them once, and the memory it
  -- gives is the sum of theirs modulo 2 ^ 64.
  pub process_tree_metrics-IsTree :
      (root : ℕ) (p : ProcessMetric F)
      → find_process root ps ≡ some p
      → (w : Walk floats) × (process_tree_metrics floats ps root ≡ total w) × IsTree root w
  unfolding process_tree_metrics contains
  process_tree_metrics-IsTree root p f =
      let (w, e, v) =
        visit-Ends root (length ps) root (no_walk floats) (omega (arith, unvisited-nil ps)) in
      let sums = v.summed (refl, tt) in
      (
        w,
        ground (arith, f, e),
        record {
          reaches = λ n. (
            λ h. only-Below root n w (v.sound (Below-alone root) n h),
            Below-Seen root n p w f v,
          );
          memory = sums.0;
          distinct = sums.1;
        },
      )
