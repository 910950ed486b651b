-- ===== src/Vxlan/Recovery/Depth.antt =====
-- Which processes are found below one, and how deep their tree is followed (pkg/maclet/network_platform.go).
use maclet.Prelude.{
  ℕ, zero, suc, ◌≡◌, refl, sym, subst, ◌∙◌, ap, ◌<◌, ◌↔◌, ◌⊎◌, inl, inr, List, [], ◌∷◌, ◌++◌, All,
  IsIn, All-intro, arith, ok,
}
use maclet.Prelude.Exec.{continue}
use maclet.Prelude.Exec.Bind.{◌>>=◌}
use maclet.Vxlan.Recovery.{children_now, collect, process_descendants}
use maclet.Vxlan.Interfaces.{Call, Io, System, children_in}

-- The function returns a value, whatever was called before, and the value satisfies `Q`.
abbrev pub Returns : {A : Type 0} → (A → Type 0) → Io A → Type 0
Returns {A} Q m = (h : List Call) → (a : A) × ((m h).0 ≡ ok a) × Q a

Returns-bind :
    {A B : Type 0} {Q : A → Type 0} {R : B → Type 0} (m : Io A) (f : A → Io B)
    → Returns Q m
    → ((a : A) → Q a → Returns R (f a))
    → Returns R (m >>= f)
unfolding ◌>>=◌
Returns-bind m f k l h =
    let (a, e, q) = k h in
    let (b, d, r) = l a q (m h).1 in (b, ap (λ x. (continue x f (m h).1).0) e ∙ d, r)

IsIn-append : (c : ℕ) (xs ys : List ℕ) → IsIn c (xs ++ ys) ↔ (IsIn c xs ⊎ IsIn c ys)
IsIn-append c [] ys = (inr, λ h. elim h [ inl x ↦ elim x [ ] | inr y ↦ y ])
IsIn-append c (x ∷ xs) ys = (
  λ h. elim h [
    | inl e ↦ inl (inl e)
    | inr i ↦ elim ((IsIn-append c xs ys).0 i) [ inl a ↦ inl (inr a) | inr b ↦ inr b ]
  ],
  λ h. elim h [
    | inl i ↦ elim i [ inl e ↦ inl e | inr a ↦ inr ((IsIn-append c xs ys).1 (inl a)) ]
    | inr b ↦ inr ((IsIn-append c xs ys).1 (inr b))
  ],
)

-- The processes below one in a tree of children
pub data IsUnder (tree : ℕ → List ℕ) : ℕ → ℕ → Type 0 where
  direct : {n c : ℕ} → IsIn c (tree n) → IsUnder tree n c
  deeper : {n b c : ℕ} → IsIn b (tree n) → IsUnder tree b c → IsUnder tree n c

-- Some of the processes, and what is below them
IsAmong : (ℕ → List ℕ) → List ℕ → ℕ → Type 0
IsAmong tree ns c = (b : ℕ) × IsIn b ns × ((c ≡ b) ⊎ IsUnder tree b c)

-- The numbers are those that satisfy a predicate.
abbrev pub AreAll : (ℕ → Type 0) → List ℕ → Type 0
AreAll P ms = (c : ℕ) → IsIn c ms ↔ P c

module _ (system : System) (tree : ℕ → List ℕ) (rank : ℕ → ℕ)
    (steady : (h : List Call) (n : ℕ) → children_in (system.children h n) ≡ tree n)
    (ordered : (n c : ℕ) → IsIn c (tree n) → rank c < rank n) where
  among-cons :
      (n : ℕ) (ns first rest : List ℕ)
      → AreAll (IsUnder tree n) first
      → AreAll (IsAmong tree ns) rest
      → AreAll (IsAmong tree (n ∷ ns)) (first ++ n ∷ rest)
  unfolding IsAmong
  among-cons n ns first rest a b c = (
    λ i. elim ((IsIn-append c first (n ∷ rest)).0 i) [
      | inl x ↦ (n, inl refl, inr ((a c).0 x))
      | inr y ↦ elim y [
        | inl e ↦ (n, inl refl, inl (sym e))
        | inr z ↦ let (m, j, u) = (b c).0 z in (m, inr j, u)
      ]
    ],
    λ h. elim h.1 [
      | inl e ↦ elim h.2 [
        | inl d ↦ (IsIn-append c first (n ∷ rest)).1 (inr (inl (e ∙ sym d)))
        | inr v ↦
            (IsIn-append c first (n ∷ rest)).1
              (inl ((a c).1 (subst (λ x. IsUnder tree x c) (sym e) v)))
      ]
      | inr j ↦ (IsIn-append c first (n ∷ rest)).1 (inr (inr ((b c).1 (h.0, j, h.2))))
    ],
  )

  among-children :
      (n : ℕ) (ms : List ℕ) → AreAll (IsAmong tree (tree n)) ms → AreAll (IsUnder tree n) ms
  unfolding IsAmong
  among-children n ms a c = (λ i. up ((a c).0 i), λ u. (a c).1 (down u))
    where
      up : IsAmong tree (tree n) c → IsUnder tree n c
      up (b, i, inl d) = direct (subst (λ x. IsIn x (tree n)) (sym d) i)
      up (b, i, inr v) = deeper i v

      down : IsUnder tree n c → IsAmong tree (tree n) c
      down (direct i) = (c, i, inl refl)
      down (deeper {b = b} i v) = (b, i, inr v)

  Returns-collect :
      (depth : ℕ) (below : ℕ → Io (List ℕ)) (ns : List ℕ)
      → ((n : ℕ) → rank n < depth → Returns (AreAll (IsUnder tree n)) (below n))
      → All (λ n. rank n < depth) ns
      → Returns (AreAll (IsAmong tree ns)) (collect system below ns)
  unfolding collect IsAmong
  Returns-collect depth below [] k all = λ h. ([], refl, λ c. (λ i. elim i [ ], λ a. elim a.1 [ ]))
  Returns-collect depth below (n ∷ ns) k all = Returns-bind (below n) _ (k n all.0) (λ first a.
      Returns-bind (collect system below ns) _ (Returns-collect depth below ns k all.1)
        (λ rest b h. (first ++ n ∷ rest, refl, among-cons n ns first rest a b)))

  -- If pgrep shows the same tree throughout, and a rank falls in it from each process to its children and is
  -- below the depth at the root, then the walk is not cut off, and it finds exactly the processes below
  -- the root: its children and those below them.
  pub process_descendants-AreAll :
      (depth n : ℕ)
      → rank n < depth
      → Returns (AreAll (IsUnder tree n)) (process_descendants system depth n)
  unfolding process_descendants children_now
  process_descendants-AreAll zero n h = absurd (omega (arith, h))
  process_descendants-AreAll (suc depth) n h =
      Returns-bind {Q = λ ms. ms ≡ tree n} (children_now system n)
        (collect system (process_descendants system depth))
        (λ g. (children_in (system.children g n), refl, steady g n))
        (λ ns e g.
          let all =
            All-intro (λ c. rank c < depth) ns
              (λ c i. omega (arith, h, ordered n c (subst (λ ms. IsIn c ms) e i))) in
          let (ms, r, a) =
            Returns-collect depth (process_descendants system depth) ns
              (process_descendants-AreAll depth) all g in
          (ms, r, among-children n ms (subst (λ xs. AreAll (IsAmong tree xs) ms) e a)))
