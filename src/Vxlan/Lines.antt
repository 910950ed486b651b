-- ===== src/Vxlan/Lines.antt =====
-- The lines of ps and the words of a command line (pkg/maclet/vxlan.go, vxlan_recovery.go).
use maclet.Prelude.{
  ℕ, ◌≡◌, refl, ◌∙◌, ap, Option, none, some, List, [], ◌∷◌, ◌++◌, All, arith, ◌==◌,
  text_eq_instance,
}
use maclet.Prelude.Text.{Text, codes, fields, join, is_space}
use maclet.Prelude.Text.Words.{IsInk, IsWord}
use maclet.Go.Numbers.{ℤ, atoi}
use maclet.Vxlan.{
  Peer, Process, peer_arguments, matching_invocation, positive, process_of, process_in, keep_found,
  processes_in,
}
use maclet.Vxlan.Flags.{IsPeer}

pub equals-IsWord : (a b : Text) → All IsInk a → All IsInk b → IsWord (a ++ b'=' ∷ b)
unfolding is_space
equals-IsWord [] b h k = (refl, (refl, k))
equals-IsWord (c ∷ a) b h k = (refl, (h.0, (equals-IsWord a b h.1 k).1))

pub peers-IsWord : (ps : List Peer) → All IsPeer ps → All IsWord (peer_arguments ps)
unfolding is_space
peers-IsWord [] h = tt
peers-IsWord (p ∷ ps) h =
    ((refl, ground arith), (equals-IsWord p.pod_cidr p.public_ip h.0.0 h.0.1, peers-IsWord ps h.1))

pub keep_found-append :
    (o : Option Process) (ps qs : List Process) → keep_found o (ps ++ qs) ≡ keep_found o ps ++ qs
keep_found-append none ps qs = refl
keep_found-append (some p) ps qs = refl

module _ (binary local remote : Text) (port : ℤ) where
  pub processes_in-append :
      (ls ms : List Text)
      → processes_in binary local remote port (ls ++ ms)
        ≡ processes_in binary local remote port ls ++ processes_in binary local remote port ms
  unfolding processes_in
  processes_in-append [] ms = refl
  processes_in-append (l ∷ ls) ms =
      let o = process_in binary local remote port (fields l) in
      ap (keep_found o) (processes_in-append ls ms)
      ∙ keep_found-append o (processes_in binary local remote port ls)
          (processes_in binary local remote port ms)

  pub process_in-word :
      (number first bridge : Text) (rest : List Text) (pid : ℕ)
      → positive (atoi number) ≡ some pid
      → matching_invocation binary local remote port (join (codes " ") (first ∷ rest)) ≡ some bridge
      → process_in binary local remote port (number ∷ first ∷ rest)
        ≡ some record {
          pid = pid;
          command = join (codes " ") (first ∷ rest);
          bridge_cidr = bridge;
          wrapper = first == codes "sudo";
        }
  unfolding process_in
  process_in-word number first bridge rest pid e m =
      ap
        (λ o. elim o [
          | none ↦ none
          | some n ↦
              process_of n first (join (codes " ") (first ∷ rest))
                (matching_invocation binary local remote port (join (codes " ") (first ∷ rest)))
        ])
        e
      ∙ ap (process_of pid first (join (codes " ") (first ∷ rest))) m
