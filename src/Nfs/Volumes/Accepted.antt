-- ===== src/Nfs/Volumes/Accepted.antt =====
-- What a volume has that was found for a claim (pkg/maclet/nfs.go, pkg/maclet/nfs_handoff.go).
mod Tests
use maclet.Prelude.{
  ℕ, ◌≡◌, refl, ◌⊎◌, inl, inr, Bool, true, false, not, ◌||◌, ◌&&◌, Option, none, some, List, [],
  ◌∷◌, eqb, ◌==◌, text_eq_iff, text_eq_instance, if◌then◌else◌, arith, Result, ok, err, bind-eq-ok,
  Bool-cases, ◌>>=◌, ◌>>◌,
}
use maclet.Prelude.Text.{Text, codes, trim_space}
use maclet.Nfs.Names.{
  other_claim, other_claim_uid, NfsError, any_unsafe, server_rule, validate_nfs_server,
  validate_nfs_share, validate_nfs_subdir,
}
use maclet.Nfs.Options.{validate_nfs_mount_options}
use maclet.Nfs.Volumes.{
  Attributes, ClaimSource, Claim, ClaimRef, CsiSource, PersistentVolume, NfsVolume, Client,
  nfs_driver, named_claim, bound_claim, ref_rule, csi_rule, csi_volume, resolve_with,
  resolve_generic_nfs_volume, handed_over, resolve_nfs_volume_for_pod, handoff_keys, count_present,
}

-- A reference to a claim is to the claim of that UID, as far as both have one.
abbrev pub IsSameUid : Claim → ClaimRef → Type 0
IsSameUid claim r = (claim.uid ≡ []) ⊎ (r.uid ≡ []) ⊎ (r.uid ≡ claim.uid)

-- The claim is bound, and the volume is bound to it, by name, namespace and UID, and is one of the driver.
abbrev pub IsBinding : Text → Claim → PersistentVolume → CsiSource → Type 0
IsBinding namespace claim pv csi =
    (claim.phase ≡ codes "Bound")
    × (pv.direct_nfs ≡ false)
    × (pv.csi ≡ some csi)
    × (csi.driver ≡ nfs_driver)
    × ((r : ClaimRef) × (pv.claim_ref ≡ some r)
        × (r.name ≡ claim.name)
        × (r.namespace ≡ namespace)
        × IsSameUid claim r)

bound_claim-ok : (claim : Claim) → bound_claim claim ≡ ok tt → claim.phase ≡ codes "Bound"
unfolding bound_claim
bound_claim-ok claim h = ground (arith, text_eq_iff claim.phase (codes "Bound"))

same_ref :
    (a b c d : Text) (rest : Result NfsError (Unit {0}))
    → (if not (a == b) || not (c == d) then err other_claim else rest) ≡ ok tt
    → (a ≡ b) × (c ≡ d) × (rest ≡ ok tt)
same_ref a b c d rest h =
    (ground (arith, text_eq_iff a b), ground (arith, text_eq_iff c d), ground arith)

same_uid :
    (a b : Text)
    → (if◌then◌else◌ {A = Result NfsError (Unit {0})}
        (not (a == []) && not (b == []) && not (b == a))
        (err other_claim_uid)
        (ok tt))
      ≡ ok tt
    → (a ≡ []) ⊎ (b ≡ []) ⊎ (b ≡ a)
same_uid a b h = ground (arith, text_eq_iff a [], text_eq_iff b [], text_eq_iff b a)

ref_rule-ok :
    (namespace : Text) (claim : Claim) (r : Option ClaimRef)
    → ref_rule namespace claim r ≡ ok tt
    → (x : ClaimRef) × (r ≡ some x)
      × (x.name ≡ claim.name)
      × (x.namespace ≡ namespace)
      × IsSameUid claim x
unfolding ref_rule
ref_rule-ok namespace claim none h = absurd (ground (arith, h))
ref_rule-ok namespace claim (some r) h =
    let (named, placed, rest) = same_ref r.name claim.name r.namespace namespace _ h in
    (r, refl, named, placed, same_uid claim.uid r.uid rest)

csi_rule-ok :
    (direct : Bool) (c : Option CsiSource) (csi : CsiSource)
    → csi_rule direct c ≡ ok csi
    → (direct ≡ false) × (c ≡ some csi) × (csi.driver ≡ nfs_driver)
unfolding csi_rule
csi_rule-ok true c csi h = absurd (ground (arith, h))
csi_rule-ok false none csi h = absurd (ground (arith, h))
csi_rule-ok false (some c) csi h = ground (arith, text_eq_iff c.driver nfs_driver)

module _ (table : ℕ → ℕ) where
  csi_volume-ok :
      (source : ClaimSource) (claim : Claim) (pv : PersistentVolume) (csi : CsiSource)
      (v : NfsVolume)
      → csi_volume table source claim pv csi ≡ ok v
      → (validate_nfs_server (csi.attributes (codes "server")) ≡ ok v.server)
        × (validate_nfs_share (csi.attributes (codes "share")) ≡ ok v.share)
        × (validate_nfs_subdir (csi.attributes (codes "subdir")) ≡ ok v.subdir)
        × (validate_nfs_mount_options table v.mount_options ≡ ok tt)
  unfolding csi_volume
  csi_volume-ok source claim pv csi v h = ground arith

  -- A volume found for a claim stands for a bound claim and for a volume of the driver that is bound to
  -- it: the reference of the volume has the name and the namespace of the claim and, where both have one,
  -- its UID. The server, export, directory and options passed the checks.
  pub resolve_with-ok :
      (client : Client) (namespace : Text) (source : ClaimSource) (v : NfsVolume)
      → resolve_with table client namespace source ≡ ok v
      → (claim : Claim) × (pv : PersistentVolume) × (csi : CsiSource) × (client.get_claim namespace
            source.claim_name
          ≡ ok claim)
        × (client.get_volume claim.volume_name ≡ ok pv)
        × IsBinding namespace claim pv csi
        × (validate_nfs_server (csi.attributes (codes "server")) ≡ ok v.server)
        × (validate_nfs_share (csi.attributes (codes "share")) ≡ ok v.share)
        × (validate_nfs_subdir (csi.attributes (codes "subdir")) ≡ ok v.subdir)
        × (validate_nfs_mount_options table v.mount_options ≡ ok tt)
  unfolding resolve_with
  resolve_with-ok client namespace source v h =
      let (claim, got, h1) = bind-eq-ok (client.get_claim namespace source.claim_name) _ h in
      let (u1, bound, h2) = bind-eq-ok (bound_claim claim) _ h1 in
      let (pv, got_pv, h3) = bind-eq-ok (client.get_volume claim.volume_name) _ h2 in
      let (u2, ref, h4) = bind-eq-ok (ref_rule namespace claim pv.claim_ref) _ h3 in
      let (csi, driver, h5) = bind-eq-ok (csi_rule pv.direct_nfs pv.csi) _ h4 in
      let (server, share, subdir, options) = csi_volume-ok source claim pv csi v h5 in
      let (d, c, n) = csi_rule-ok pv.direct_nfs pv.csi csi driver in
      (
        claim,
        pv,
        csi,
        got,
        got_pv,
        (bound_claim-ok claim bound, d, c, n, ref_rule-ok namespace claim pv.claim_ref ref),
        server,
        share,
        subdir,
        options,
      )
