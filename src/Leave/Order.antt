-- ===== src/Leave/Order.antt =====
-- In which order pkg/maclet/leave.go removes things, and what it leaves after an error.
mod Tests
use maclet.Prelude.{
  ℕ, ◌+◌, ◌≡◌, refl, sym, ◌∙◌, ap, Bool, true, false, not, ◌||◌, ◌&&◌, Option, none, some, List, [],
  ◌∷◌, ltb, contains, All, All-append, IsIn, append_assoc, inl, inr, Bool-cases, subst, ◌++◌, ◌==◌,
  text_eq_instance, arith, if◌then◌else◌, Result, ok, err,
}
use maclet.Prelude.Text.{Text, codes}
use maclet.Leave.{
  Call, Step, remove_resolver, read_search_state, find_device, resolve_service, read_search_domains,
  apply_search_domains, clear_search_domains, ◌onward◌, clear_flannel, delete_lease,
  delete_password_secret, delete_node, remove_file, remove_state_dir, Outcome, LocalState,
  LeaveError, strict, unless_gone, cleanup_errors, state_errors, complete_state, state_files,
  attempt, leave_cluster_resources, remove_files, remove_local_state_files, after_cleanup, clean_up,
  run_leave,
}

-- A call that removes a file of the state, or its directory; the record of the search domains is not of
-- these files.
abbrev pub is_removal : Call → Bool
is_removal (remove_file f) = contains state_files f
is_removal remove_state_dir = true
is_removal c = false

abbrev pub IsSpared : Call → Type 0
IsSpared c = is_removal c ≡ false

-- Each step of leaving that is tried whatever became of the others
abbrev pub HasSteps : List Call → Type 0
HasSteps h =
    IsIn remove_resolver h
    × IsIn read_search_state h
    × IsIn clear_flannel h
    × IsIn delete_lease h
    × IsIn delete_password_secret h
    × IsIn delete_node h

abbrev pub file_calls : List Text → List Call → List Call
file_calls [] h = h
file_calls (f ∷ fs) h = file_calls fs (remove_file f ∷ h)

IsIn-append : (c : Call) (xs ys : List Call) → IsIn c ys → IsIn c (xs ++ ys)
IsIn-append c [] ys i = i
IsIn-append c (x ∷ xs) ys i = inr (IsIn-append c xs ys i)

IsIn-front : (c : Call) (xs ys : List Call) → IsIn c xs → IsIn c (xs ++ ys)
IsIn-front c [] ys i = elim i [ ]
IsIn-front c (x ∷ xs) ys (inl e) = inl e
IsIn-front c (x ∷ xs) ys (inr i) = inr (IsIn-front c xs ys i)

module _ (host : List Call → Call → Outcome) where
  remove_files-calls :
      (fs : List Text) (h : List Call) → (remove_files host fs h).1 ≡ file_calls fs h
  unfolding remove_files attempt
  remove_files-calls [] h = refl
  remove_files-calls (f ∷ fs) h = remove_files-calls fs (remove_file f ∷ h)

  remove_local_state_files-calls :
      (h : List Call)
      → (remove_local_state_files host h).1 ≡ remove_state_dir ∷ file_calls state_files h
  unfolding remove_local_state_files attempt
  remove_local_state_files-calls h =
      ap (λ k. remove_state_dir ∷ k) (remove_files-calls state_files h)

  after_cleanup-failed :
      (errors n : ℕ) (h : List Call)
      → (after_cleanup host errors h).0 ≡ err (cleanup_errors n)
      → (after_cleanup host errors h).1 ≡ h
  unfolding after_cleanup
  after_cleanup-failed errors n h e = ground (arith, e)

  after_cleanup-ok :
      (errors : ℕ) (h : List Call)
      → (after_cleanup host errors h).0 ≡ ok tt
      → (errors ≡ 0)
        × ((after_cleanup host errors h).1 ≡ remove_state_dir ∷ file_calls state_files h)
  unfolding after_cleanup
  after_cleanup-ok errors h e = ground (arith, e, remove_local_state_files-calls h)

  -- The calls of a step, in front of those before, none of which removes a file of the state
  Spares : Step → Type 0
  Spares f = (h : List Call) → (new : List Call) × ((f h).1 ≡ new ++ h) × All IsSpared new

  -- One of them is the call.
  Makes : Call → Step → Type 0
  Makes c f =
      (h : List Call) → (new : List Call) × ((f h).1 ≡ new ++ h) × All IsSpared new × IsIn c new

  Makes-attempt : (f : Outcome → ℕ) (c : Call) → IsSpared c → Makes c (attempt host f c)
  unfolding attempt Makes
  Makes-attempt f c s h = (c ∷ [], refl, (s, tt), inl refl)

  Spares-attempt : (f : Outcome → ℕ) (c : Call) → IsSpared c → Spares (attempt host f c)
  unfolding attempt Spares
  Spares-attempt f c s h = (c ∷ [], refl, (s, tt))

  Makes-onward : (c : Call) (f g : Step) → Makes c f → Spares g → Makes c (f onward g)
  unfolding Spares Makes
  Makes-onward c f g a b h = elim (Bool-cases (ltb 0 (f h).0)) [
    | inl lost ↦ rw lost (a h)
    | inr won ↦
        let (n1, e1, s1, i) = a h in
        let (n2, e2, s2) = b (f h).1 in
        rw won (
          n2 ++ n1,
          e2 ∙ ap (λ k. n2 ++ k) e1 ∙ sym (append_assoc n2 n1 h),
          All-append IsSpared n2 n1 s2 s1,
          IsIn-append c n2 n1 i,
        )
  ]

  Spares-if :
      (t : List Call → Bool) (f : Step) → Spares f → Spares (λ h. if t h then f h else (0, h))
  unfolding Spares
  Spares-if t f a h = elim (Bool-cases (t h)) [
    | inl met ↦ rw met (a h)
    | inr unmet ↦ rw unmet ([], refl, tt)
  ]

  Spares-unless :
      (t : List Call → Bool) (f : Step) → Spares f → Spares (λ h. if t h then (0, h) else f h)
  unfolding Spares
  Spares-unless t f a h = elim (Bool-cases (t h)) [
    | inl met ↦ rw met ([], refl, tt)
    | inr unmet ↦ rw unmet (a h)
  ]

  module _ (known_service any_ours : List Call → Bool) where
    clear_search_domains-Makes :
        Makes read_search_state (clear_search_domains host known_service any_ours)
    unfolding clear_search_domains contains
    clear_search_domains-Makes =
        Makes-onward read_search_state _ _
          (Makes-onward read_search_state _ _
            (Makes-onward read_search_state _ _
              (Makes-onward read_search_state _ _
                (Makes-onward read_search_state _ _
                  (Makes-attempt unless_gone read_search_state refl)
                  (Spares-unless known_service _ (Spares-attempt strict find_device refl)))
                (Spares-attempt strict resolve_service refl))
              (Spares-attempt strict read_search_domains refl))
            (Spares-if any_ours _ (Spares-attempt strict apply_search_domains refl)))
          (Spares-attempt unless_gone (remove_file (codes "search-domains.json")) refl)

    clean_up-calls :
        (h : List Call)
        → (new : List Call) × ((clean_up host known_service any_ours h).1 ≡ new ++ h)
          × All IsSpared new
          × HasSteps new
    unfolding clean_up leave_cluster_resources attempt Makes
    clean_up-calls h =
        let (new, e, s, i) = clear_search_domains-Makes (remove_resolver ∷ h) in
        let all = new ++ remove_resolver ∷ [] in
        (
          delete_node ∷ delete_password_secret ∷ delete_lease ∷ clear_flannel ∷ all,
          ap (λ k. delete_node ∷ delete_password_secret ∷ delete_lease ∷ clear_flannel ∷ k)
              (e ∙ sym (append_assoc new (remove_resolver ∷ []) h)),
          (
            refl,
            (refl, (refl, (refl, All-append IsSpared new (remove_resolver ∷ []) s (refl, tt)))),
          ),
          (
            inr (
                inr
                  (inr (inr (IsIn-append remove_resolver new (remove_resolver ∷ []) (inl refl))))),
            inr (inr (inr (inr (IsIn-front read_search_state new (remove_resolver ∷ []) i)))),
            inr (inr (inr (inl refl))),
            inr (inr (inl refl)),
            inr (inl refl),
            inl refl,
          ),
        )

    -- If leaving ends with errors of the clean-up, then all its steps were tried all the same: the resolver
    -- file, the search domains, the annotations, the Lease, the Secret and the Node. No file of the state
    -- was removed, nor its directory, so that leaving can be run again; only the record of the search
    -- domains, which stands in that directory and is none of these files, may be gone.
    pub run_leave-failed :
        (state : Option LocalState) (wanted : Text) (client : Bool) (h : List Call) (n : ℕ)
        → (run_leave host known_service any_ours state wanted client h).0 ≡ err (cleanup_errors n)
        → (new : List Call) × ((run_leave host known_service any_ours state wanted client h).1
            ≡ new ++ h)
          × All IsSpared new
          × HasSteps new
    unfolding run_leave complete_state
    run_leave-failed state wanted client h n e =
        let (new, calls, spared, steps) = clean_up-calls h in
        let (errors, k) = clean_up host known_service any_ours h in
        (new, ground (arith, e, calls, after_cleanup-failed errors n k), spared, steps)

    -- If leaving succeeds, every step of the clean-up was made before the first file of the state was
    -- removed, and the directory goes last.
    pub run_leave-ok :
        (state : Option LocalState) (wanted : Text) (client : Bool) (h : List Call)
        → (run_leave host known_service any_ours state wanted client h).0 ≡ ok tt
        → (run_leave host known_service any_ours state wanted client h).1
          ≡ remove_state_dir ∷ file_calls state_files (clean_up host known_service any_ours h).1
    unfolding run_leave complete_state
    run_leave-ok state wanted client h e =
        let (errors, k) = clean_up host known_service any_ours h in
        ground (arith, e, after_cleanup-ok errors k)
