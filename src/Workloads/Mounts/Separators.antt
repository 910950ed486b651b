-- ===== src/Workloads/Mounts/Separators.antt =====
-- What the volume arguments of a container look like (pkg/maclet/workload_mounts.go).
mod Tests
use maclet.Prelude.{
  ℕ, ◌≡◌, refl, sym, ap, ◌∙◌, Bool, true, false, not, ◌||◌, ◌&&◌, ◌⊎◌, inl, inr, Option, none, some,
  List, [], ◌∷◌, ◌++◌, arith, eqb, length, contains, All, ◌==◌, text_eq, text_eq_iff,
  text_eq_instance, if◌then◌else◌, Result, ok, err, Bool-cases,
}
use mathlib.Core.List.{reverse}
use maclet.Prelude.Exec.{Exec, pure, fail, lift, gets, continue}
use maclet.Prelude.Exec.Bind.{◌>>=◌, ◌>>◌}
use maclet.Prelude.Exec.Triples.{Holds, Triple, Triple-pure, Triple-fail, Triple-if, Triple-bind}
use maclet.Prelude.Text.{Text, codes, split, contains_char}
use maclet.Prelude.Text.Splitting.{split-append, split-whole}
use maclet.Go.Paths.{components, is_abs, clean, join_paths, dot, dot_dot}
use maclet.Go.Paths.Relative.{goes_up, clean-no_up}
use maclet.Workloads.Mounts.{
  is_prefix_of, is_beneath, Stat, shows, missing, broken, Call, MountError, not_relative, escapes,
  has_colon, Io, Volume, VolumeMount, Declared, service_account_path, leaves, look_at,
  stays_beneath, is_there, resolve_volume_sub_path, declare_volumes, path_of, declared_path,
  mount_rule, pair_rule, mount_pair, mount_pairs, as_args, macker_volume_args,
}

-- The text has exactly one separator, so Macker reads two paths from it.
abbrev pub IsPair : Text → Type 0
IsPair p = length (split b':' p) ≡ 2

-- The arguments are `-v` and a pair in turn.
abbrev pub IsVolumeArgs : List Text → Type 0
IsVolumeArgs [] = Unit
IsVolumeArgs (a ∷ []) = ⊥
IsVolumeArgs (a ∷ p ∷ args) = (a ≡ codes "-v") × IsPair p × IsVolumeArgs args

joined-IsPair :
    (a b : Text)
    → contains_char b':' a ≡ false
    → contains_char b':' b ≡ false
    → IsPair (a ++ b':' ∷ b)
joined-IsPair a b h k =
    ap length (split-append b':' a b h) ∙ ap (λ l. length (a ∷ l)) (split-whole b':' b k)

is_prefix_of-append :
    (xs ys : List Text) → is_prefix_of xs ys ≡ true → (zs : List Text) × (ys ≡ xs ++ zs)
unfolding is_prefix_of
is_prefix_of-append [] ys h = (ys, refl)
is_prefix_of-append (x ∷ xs) [] h = cc
is_prefix_of-append (x ∷ xs) (y ∷ ys) h =
    let same : x ≡ y = (text_eq_iff x y).0 (ground (arith, h)) in
    let (zs, e) = is_prefix_of-append xs ys (ground (arith, h)) in
    (zs, ap (λ c. c ∷ ys) (sym same) ∙ ap (λ l. x ∷ l) e)

as_args-IsVolumeArgs :
    (stat : List Call → Text → Stat) (works : List Call → Call → Bool)
    (resolved_link : List Call → Text → Option Text) (ps : List Text)
    → All IsPair ps
    → IsVolumeArgs (as_args stat works resolved_link ps)
as_args-IsVolumeArgs stat works resolved_link [] h = tt
as_args-IsVolumeArgs stat works resolved_link (p ∷ ps) h =
    (refl, h.0, as_args-IsVolumeArgs stat works resolved_link ps h.1)

module _ {A : Type 0} {P : List Call → Type 0} where
  Triple-any : (m : Io A) → Triple P (λ a h. Unit {0}) m
  Triple-any m = record { at = λ h p. anything (m h).0 (m h).1 }
    where
      anything : (r : Result MountError A) (g : List Call) → Holds (λ a k. Unit {0}) r g
      anything (ok a) g = tt
      anything (err e) g = tt

module _ (stat : List Call → Text → Stat) (works : List Call → Call → Bool)
    (resolved_link : List Call → Text → Option Text) where
  Triple-IsPair :
      (path mount_path : Text)
      → Triple {E = MountError} {S = List Call}
          (λ h. Unit {0})
          (λ p h. IsPair p)
          (lift (pair_rule stat works resolved_link path mount_path))
  unfolding pair_rule
  Triple-IsPair path mount_path = record {
    at = λ h u. elim (Bool-cases (contains_char b':' path || contains_char b':' mount_path)) [
      | inl bad ↦ rw bad tt
      | inr good ↦
          rw good (joined-IsPair path mount_path (ground (arith, good)) (ground (arith, good)))
    ];
  }

  Triple-mount_pair :
      (ds : Declared) (seen : List Text) (m : VolumeMount)
      → Triple (λ h. Unit {0}) (λ p h. IsPair p) (mount_pair stat works resolved_link ds seen m)
  unfolding mount_pair
  Triple-mount_pair ds seen m = Triple-bind {Q = λ u h. Unit {0}} (Triple-any _) (λ u.
      Triple-bind {Q = λ path h. Unit {0}} (Triple-any _) (λ path.
        Triple-bind {Q = λ resolved h. Unit {0}} (Triple-any _)
          (λ resolved. Triple-IsPair resolved (clean m.mount_path))))

  Triple-mount_pairs :
      (ds : Declared) (ms : List VolumeMount) (seen : List Text)
      → Triple
          (λ h. Unit {0})
          (λ ps h. All IsPair ps)
          (mount_pairs stat works resolved_link ds seen ms)
  unfolding mount_pairs
  Triple-mount_pairs ds [] seen = Triple-pure [] (λ h u. tt)
  Triple-mount_pairs ds (m ∷ ms) seen =
      Triple-if {b = m.mount_path == service_account_path} (λ x. Triple-mount_pairs ds ms seen)
        (λ x. Triple-bind {Q = λ p h. IsPair p} (Triple-mount_pair ds seen m) (λ p.
          Triple-bind {Q = λ ps h. IsPair p × All IsPair ps}
            (under p (Triple-mount_pairs ds ms (clean m.mount_path ∷ seen)))
            (λ ps. Triple-pure (p ∷ ps) (λ h q. q))))
    where
      under :
          (p : Text) {n : Io (List Text)}
          → Triple (λ h. Unit {0}) (λ ps h. All IsPair ps) n
          → Triple (λ h. IsPair p) (λ ps h. IsPair p × All IsPair ps) n
      under p {n = n} t = record { at = λ h q. with_pair p q (n h).0 (n h).1 (t.at h tt) }
        where
          with_pair :
              (p : Text)
              → IsPair p
              → (r : Result MountError (List Text)) (g : List Call)
              → Holds (λ ps k. All IsPair ps) r g
              → Holds (λ ps k. IsPair p × All IsPair ps) r g
          with_pair p q (ok ps) g all = (q, all)
          with_pair p q (err e) g all = tt

  -- The volume arguments of a container are pairs of a host path and a mount path with one separator
  -- each, whatever the paths of its Pod are; a path with the separator is refused.
  pub macker_volume_args-IsVolumeArgs :
      (volumes : List Volume) (mounts : List VolumeMount) (h : List Call)
      → Holds
          (λ args g. IsVolumeArgs args)
          (macker_volume_args stat works resolved_link volumes mounts h).0
          (macker_volume_args stat works resolved_link volumes mounts h).1
  unfolding macker_volume_args
  macker_volume_args-IsVolumeArgs volumes mounts h =
      (Triple-bind {P = λ g. Unit {0}} {Q = λ ds g. Unit {0}} {R = λ args g. IsVolumeArgs args}
          {m = declare_volumes stat works resolved_link volumes []}
          {f = λ ds. mount_pairs stat works resolved_link ds [] mounts >>= λ pairs.
            pure (as_args stat works resolved_link pairs)}
          (Triple-any _)
          (λ ds. Triple-bind {Q = λ ps g. All IsPair ps} (Triple-mount_pairs ds mounts []) (λ ps.
            Triple-pure (as_args stat works resolved_link ps)
              (λ g all. as_args-IsVolumeArgs stat works resolved_link ps all)))).at
        h tt

  -- What a sub-path stands for: the host path itself, or the host path joined with a clean path without
  -- `..`, which with its links followed is the host path with its links followed and further components
  -- behind it
  abbrev pub IsContained : Text → Text → Text → List Call → Type 0
  IsContained host_path sub_path target h =
      (target ≡ host_path)
      ⊎ ((a : Text) × (b : Text) × (below : List Text) × (resolved_link h host_path ≡ some a)
          × (resolved_link h target ≡ some b)
          × (reverse (components b) ≡ reverse (components a) ++ below)
          × (target ≡ join_paths host_path (clean sub_path))
          × (contains (split b'/' (clean sub_path)) dot_dot ≡ false))

  stays_beneath-ok :
      (a b : Option Text)
      → stays_beneath stat works resolved_link a b ≡ ok tt
      → (x : Text) × (y : Text) × (below : List Text) × (a ≡ some x)
        × (b ≡ some y)
        × (reverse (components y) ≡ reverse (components x) ++ below)
  unfolding is_beneath
  stays_beneath-ok none b h = cc
  stays_beneath-ok (some x) none h = cc
  stays_beneath-ok (some x) (some y) h =
      let (below, e) =
        is_prefix_of-append (reverse (components x)) (reverse (components y)) (ground (arith, h)) in
      (x, y, below, refl, refl, e)

  module _ (host_path sub_path : Text)
      (level : contains (split b'/' (clean sub_path)) dot_dot ≡ false) where
    joined : Text
    joined = join_paths host_path (clean sub_path)

    Triple-linked :
        Triple {E = MountError}
          (λ h. Unit {0})
          (IsContained host_path sub_path)
          (gets (λ h. resolved_link h host_path) >>= λ host_link.
            gets (λ h. resolved_link h joined) >>= λ target_link.
            lift (stays_beneath stat works resolved_link host_link target_link) >> pure joined)
    unfolding ◌>>=◌ joined
    Triple-linked = record { at = λ h u. by_rule h _ refl }
      where
        by_rule :
            (h : List Call) (r : Result MountError (Unit {0}))
            → stays_beneath stat works resolved_link
                (resolved_link h host_path)
                (resolved_link h joined)
              ≡ r
            → Holds
                (IsContained host_path sub_path)
                (continue r (λ u. pure joined) h).0
                (continue r (λ u. pure joined) h).1
        by_rule h (err x) e = tt
        by_rule h (ok u) e =
            let (a, b, below, i, j, k) =
              stays_beneath-ok (resolved_link h host_path) (resolved_link h joined) e in
            inr (a, b, below, i, j, k, refl, level)

  Triple-sub_path :
      (host_path sub_path : Text)
      → Triple
          (λ h. Unit {0})
          (IsContained host_path sub_path)
          (resolve_volume_sub_path stat works resolved_link host_path sub_path)
  unfolding resolve_volume_sub_path leaves goes_up joined
  Triple-sub_path host_path sub_path =
      Triple-if {b = sub_path == [] || sub_path == dot}
        (λ x. Triple-pure host_path (λ h u. inl refl))
        (λ x.
          Triple-if {b = is_abs sub_path} (λ y. Triple-fail not_relative)
            (λ y.
              Triple-if {b = leaves (clean sub_path)} (λ z. Triple-fail escapes)
                (λ z. Triple-bind {Q = λ shown h. Unit {0}} (Triple-any _) (λ shown.
                  Triple-bind {Q = λ u h. Unit {0}} (Triple-any _)
                    (λ u. Triple-linked host_path sub_path (clean-no_up sub_path y z))))))

  -- A sub-path that is accepted is the host path itself, or the host path joined with a clean path that has
  -- no `..`; and that path with its links followed has the components of the host path with its links
  -- followed and, if any, further ones behind them.
  pub resolve_volume_sub_path-IsContained :
      (host_path sub_path : Text) (h : List Call)
      → Holds
          (IsContained host_path sub_path)
          (resolve_volume_sub_path stat works resolved_link host_path sub_path h).0
          (resolve_volume_sub_path stat works resolved_link host_path sub_path h).1
  resolve_volume_sub_path-IsContained host_path sub_path h =
      (Triple-sub_path host_path sub_path).at h tt
