-- ===== src/Vxlan/Flags.antt =====
-- The flags of a command line and their values (pkg/maclet/vxlan.go, vxlan_recovery.go).
use maclet.Prelude.{
  ◌+◌, ◌≡◌, refl, false, List, [], ◌∷◌, ◌++◌, All, arith, text_eq, text_eq_instance,
}
use maclet.Prelude.Text.{Text, codes, has_prefix, itoa, is_space}
use maclet.Prelude.Text.Words.{IsInk, IsWord, itoa-IsWord, itoa-value}
use maclet.Go.Numbers.{ℤ, pos, negsuc, format_int}
use maclet.Vxlan.{Peer, flag_value}

-- A word that does not begin like a flag
abbrev pub IsValue : Text → Type 0
IsValue w = IsWord w × (has_prefix w (codes "--") ≡ false)

pub longer-prefix :
    (s : Text) → has_prefix s (codes "-") ≡ false → has_prefix s (codes "--") ≡ false
unfolding has_prefix
longer-prefix [] h = refl
longer-prefix (c ∷ s) h = ground (arith, h)

pub format_int-IsValue : (i : ℤ) → IsValue (format_int i)
unfolding format_int has_prefix is_space
format_int-IsValue (pos n) = (itoa-IsWord n, longer-prefix (itoa n) (itoa-value n))
format_int-IsValue (negsuc n) = ((refl, (refl, (itoa-IsWord (n + 1)).1)), itoa-value (n + 1))

pub value-apart :
    (v x : Text) → has_prefix v (codes "--") ≡ false → text_eq v (codes "--" ++ x) ≡ false
unfolding has_prefix
value-apart [] x h = refl
value-apart (c ∷ []) x h = ground arith
value-apart (c ∷ d ∷ v) x h = ground (arith, h)

-- What the command line has before the peers
module _ (b l r p m c : Text) (rest : List Text) (hb : IsValue b) (hl : IsValue l) (hr : IsValue r)
    (hp : IsValue p) (hm : IsValue m) where
  abbrev pub words : List Text
  words =
      b
      ∷ codes "--vni"
      ∷ codes "1"
      ∷ codes "--local"
      ∷ l
      ∷ codes "--remote"
      ∷ r
      ∷ codes "--port"
      ∷ p
      ∷ codes "--mtu"
      ∷ m
      ∷ codes "--bridge-ipv4"
      ∷ c
      ∷ rest

  pub value-vni : flag_value words (codes "--vni") ≡ codes "1"
  unfolding flag_value
  value-vni = rw (value-apart b (codes "vni") hb.1) refl

  pub value-local : flag_value words (codes "--local") ≡ l
  unfolding flag_value
  value-local = rw (value-apart b (codes "local") hb.1) refl

  pub value-remote : flag_value words (codes "--remote") ≡ r
  unfolding flag_value
  value-remote = rw (value-apart b (codes "remote") hb.1, value-apart l (codes "remote") hl.1) refl

  pub value-port : flag_value words (codes "--port") ≡ p
  unfolding flag_value
  value-port =
      rw
        (
          value-apart b (codes "port") hb.1,
          value-apart l (codes "port") hl.1,
          value-apart r (codes "port") hr.1,
        )
        refl

  pub value-bridge : flag_value words (codes "--bridge-ipv4") ≡ c
  unfolding flag_value
  value-bridge =
      rw
        (
          value-apart b (codes "bridge-ipv4") hb.1,
          value-apart l (codes "bridge-ipv4") hl.1,
          value-apart r (codes "bridge-ipv4") hr.1,
          value-apart p (codes "bridge-ipv4") hp.1,
          value-apart m (codes "bridge-ipv4") hm.1,
        )
        refl

abbrev pub IsPeer : Peer → Type 0
IsPeer p = All IsInk p.pod_cidr × All IsInk p.public_ip
