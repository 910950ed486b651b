-- ===== src/Metrics/Snapshot.antt =====
-- What a snapshot of the processes holds (pkg/maclet/resource_metrics.go): children by the numbers of their
-- parents, and how many processes a walk has not visited.
use maclet.Prelude.{
  ℕ, ◌+◌, ◌≤◌, ◌<◌, ◌≡◌, refl, ◌∙◌, ap, inl, inr, Bool, true, false, ◌||◌, some, List, [], ◌∷◌,
  IsIn, arith, eqb, eqb_iff, length, contains, nat_instance, if◌then◌else◌, Bool-cases,
}
use maclet.Go.Numbers.{ℤ, pos, negsuc}
use maclet.Metrics.{ProcessMetric, Processes, parent_is, find_process, child_numbers}

parent_is-pos : (i : ℤ) (n : ℕ) → parent_is i n ≡ true → i ≡ pos n
parent_is-pos (pos m) n e = ap pos ((eqb_iff m n).0 e)
parent_is-pos (negsuc m) n e = cc

module _ {F : Type 0} where
  -- How many of the processes were not visited
  pub unvisited : List ℕ → Processes F → ℕ
  unvisited seen [] = 0
  unvisited seen ((n, p) ∷ qs) = (if contains seen n then 0 else 1) + unvisited seen qs

  pub unvisited-le :
      (seen more : List ℕ) (qs : Processes F)
      → ((n : ℕ) → contains seen n ≡ true → contains more n ≡ true)
      → unvisited more qs ≤ unvisited seen qs
  unfolding unvisited
  unvisited-le seen more [] k = omega arith
  unvisited-le seen more ((n, p) ∷ qs) k = ground (arith, k n, unvisited-le seen more qs k)

  -- A visit to a process leaves fewer.
  pub unvisited-lt :
      (n : ℕ) (seen : List ℕ) (qs : Processes F) (p : ProcessMetric F)
      → contains seen n ≡ false
      → find_process n qs ≡ some p
      → unvisited (n ∷ seen) qs < unvisited seen qs
  unfolding unvisited find_process contains
  unvisited-lt n seen [] p new f = ground (arith, f)
  unvisited-lt n seen ((m, q) ∷ qs) p new f = elim (Bool-cases (eqb m n)) [
    | inl same ↦
        let here = ap (contains seen) ((eqb_iff m n).0 same) ∙ new in
        ground (
          arith,
          same,
          here,
          unvisited-le seen (n ∷ seen) qs
              (λ (k : ℕ) (h : contains seen k ≡ true). ground (arith, h)),
        )
    | inr other ↦ ground (arith, other, new, unvisited-lt n seen qs p new (rw other at f))
  ]

  pub unvisited-nil : (qs : Processes F) → unvisited [] qs ≡ length qs
  unfolding unvisited contains
  unvisited-nil [] = refl
  unvisited-nil ((n, p) ∷ qs) = omega (arith, unvisited-nil qs)

  pub contains-child_numbers :
      (n c : ℕ) (qs : Processes F)
      → contains (child_numbers n qs) c ≡ true
      → (p : ProcessMetric F) × IsIn (c, p) qs × (p.parent ≡ pos n)
  unfolding child_numbers contains
  contains-child_numbers n c [] e = cc
  contains-child_numbers n c ((m, q) ∷ qs) e =
      by_parent (contains-child_numbers n c qs) (parent_is q.parent n) refl e
    where
      named :
          ((contains (child_numbers n qs) c ≡ true)
            → (p : ProcessMetric F) × IsIn (c, p) qs × (p.parent ≡ pos n))
          → q.parent ≡ pos n
          → (b : Bool) → eqb m c ≡ b
          → (b || contains (child_numbers n qs) c) ≡ true
          → (p : ProcessMetric F) × IsIn (c, p) ((m, q) ∷ qs) × (p.parent ≡ pos n)
      named ih par true d e = (q, inl (ap (λ k. (k, q)) ((eqb_iff m c).0 d)), par)
      named ih par false d e = let (p, i, h) = ih e in (p, inr i, h)

      by_parent :
          ((contains (child_numbers n qs) c ≡ true)
            → (p : ProcessMetric F) × IsIn (c, p) qs × (p.parent ≡ pos n))
          → (b : Bool) → parent_is q.parent n ≡ b
          → contains (if b then m ∷ child_numbers n qs else child_numbers n qs) c ≡ true
          → (p : ProcessMetric F) × IsIn (c, p) ((m, q) ∷ qs) × (p.parent ≡ pos n)
      by_parent ih true d e = named ih (parent_is-pos q.parent n d) (eqb m c) refl e
      by_parent ih false d e = let (p, i, h) = ih e in (p, inr i, h)

  -- Each child is among the numbers of the children.
  pub child_numbers-contains :
      (n c : ℕ) (p : ProcessMetric F) (qs : Processes F)
      → IsIn (c, p) qs
      → p.parent ≡ pos n
      → contains (child_numbers n qs) c ≡ true
  unfolding child_numbers contains
  child_numbers-contains n c p [] i h = elim i [ ]
  child_numbers-contains n c p ((m, q) ∷ qs) (inl e) h =
      let par : parent_is q.parent n ≡ true =
        ap (λ x. parent_is (x.1).parent n) e ∙ ap (λ i. parent_is i n) h ∙ (eqb_iff n n).1 refl in
      let num : eqb m c ≡ true = (eqb_iff m c).1 (ap (λ x. x.0) e) in ground (arith, par, num)
  child_numbers-contains n c p ((m, q) ∷ qs) (inr i) h =
      ground (arith, child_numbers-contains n c p qs i h)

  pub find-some :
      (c : ℕ) (p : ProcessMetric F) (qs : Processes F)
      → IsIn (c, p) qs
      → (q : ProcessMetric F) × (find_process c qs ≡ some q)
  unfolding find_process
  find-some c p [] i = elim i [ ]
  find-some c p ((m, q) ∷ qs) (inl e) = (q, ground (arith, (eqb_iff m c).1 (ap (λ x. x.0) e)))
  find-some c p ((m, q) ∷ qs) (inr i) = elim (Bool-cases (eqb m c)) [
    | inl same ↦ (q, ground (arith, same))
    | inr other ↦ let (r, e) = find-some c p qs i in (r, ground (arith, other, e))
  ]
