-- ===== src/Vxlan/Recovery/Careful.antt =====
-- What is signalled and removed for a new tunnel is of an earlier one (pkg/maclet/vxlan_recovery.go).
use maclet.Prelude.{
  ℕ, zero, suc, ◌≡◌, refl, ◌⊎◌, inl, inr, true, Option, none, some, List, [], ◌∷◌, ◌++◌, All,
  All-append, All-reverse, All-weaken, IsIn, All-intro, text_eq_instance,
}
use maclet.Prelude.Exec.Keeps.{
  OnOk, Ensures, Anything, Ensures-pure, Ensures-fail, Ensures-if, Ensures-bind, Ensures-next,
}
use maclet.Prelude.Text.{Text, codes, has_prefix}
use maclet.Net.V4.{format_v4}
use maclet.Net.Cidr.{Network, parse_cidr, mapped, network_contains}
use maclet.Vxlan.{VxlanConfig, Process, matching_processes}
use maclet.Vxlan.Recovery.{
  send_signal, children_now, collect, process_descendants, signal_all, signal_process_tree, listed,
  find_matching_processes, interrupt_process, interrupt_all, kill_all, wait_a_moment,
  wait_until_gone,
}
use maclet.Vxlan.Interfaces.{
  Signal, Call, list_children, find_interface, signal, remove_address, start, Io, System,
  children_in, is_nil, interrupt, kill, list_processes, list_interfaces, pause, still_running,
  too_deep,
}
use mathlib.Core.List.{reverse}

-- A process below another one, by what pgrep answered at some time
pub data Below (system : System) (root : ℕ) : ℕ → Type 0 where
  itself : Below system root root
  child :
      {n c : ℕ}
      → Below system root n
      → (h : List Call) → IsIn c (children_in (system.children h n))
      → Below system root c

module _ (system : System) (cfg : VxlanConfig) (local bridge : Text) where
  -- A process that ps showed with the program and the flags of this tunnel
  abbrev pub IsMatching : Process → Type 0
  IsMatching p =
      (h : List Call) × (output : Text) × (system.processes h ≡ some output)
      × IsIn p (matching_processes cfg.binary local cfg.remote cfg.port output)

  -- Such a process itself, or, for an interrupt, one below it if it is a wrapper
  abbrev pub IsTarget : Signal → ℕ → Type 0
  IsTarget s n =
      (p : Process) × IsMatching p
      × ((p.pid ≡ n) ⊎ ((p.wrapper ≡ true) × (s ≡ interrupt) × Below system p.pid n))

  abbrev pub IsStale : Text → Type 0
  IsStale cidr = (cidr ≡ bridge) ⊎ ((p : Process) × IsMatching p × (p.bridge_cidr ≡ cidr))

  abbrev pub IsOwned : Text → ℕ → Type 0
  IsOwned name v =
      (has_prefix name (codes "bridge") ≡ true)
      × (cidr : Text) × (net : Network) × IsStale cidr
      × (parse_cidr cidr ≡ some net)
      × (network_contains net (mapped v) ≡ true)

  abbrev pub IsOurs : Call → Type 0
  IsOurs (signal s n) = IsTarget s n
  IsOurs (remove_address name ip) = (v : ℕ) × (ip ≡ format_v4 v) × IsOwned name v
  IsOurs list_processes = Unit
  IsOurs list_interfaces = Unit
  IsOurs pause = Unit
  IsOurs (list_children n) = Unit
  IsOurs (find_interface name) = Unit
  IsOurs (start line) = Unit

  abbrev pub AllOurs : List Call → Type 0
  AllOurs h = All IsOurs h

  Ensures-send :
      (s : Signal) (n : ℕ) → IsTarget s n → Ensures AllOurs Anything (send_signal system s n)
  unfolding send_signal
  Ensures-send s n t = record { at = λ h p. ((t, p), tt) }

  Ensures-signal_all :
      (s : Signal) (ns : List ℕ)
      → All (IsTarget s) ns
      → Ensures AllOurs Anything (signal_all system s ns)
  unfolding signal_all
  Ensures-signal_all s [] t = Ensures-pure tt tt
  Ensures-signal_all s (n ∷ ns) t =
      Ensures-next (Ensures-send s n t.0) (Ensures-signal_all s ns t.1)

  module _ (root : ℕ) where
    Ensures-children :
        (n : ℕ)
        → Below system root n
        → Ensures AllOurs (All (Below system root)) (children_now system n)
    unfolding children_now
    Ensures-children n b = record {
      at = λ h p. ((tt, p), All-intro (Below system root) _ (λ c i. child b h i));
    }

    Ensures-collect :
        (below : ℕ → Io (List ℕ)) (ns : List ℕ)
        → All (Below system root) ns
        → ((n : ℕ) → Below system root n → Ensures AllOurs (All (Below system root)) (below n))
        → Ensures AllOurs (All (Below system root)) (collect system below ns)
    unfolding collect
    Ensures-collect below [] b k = Ensures-pure [] tt
    Ensures-collect below (n ∷ ns) b k = Ensures-bind (k n b.0) (λ first f.
        Ensures-bind (Ensures-collect below ns b.1 k) (λ rest r.
          Ensures-pure (first ++ n ∷ rest)
            (All-append (Below system root) first (n ∷ rest) f (b.0, r))))

    Ensures-descendants :
        (depth n : ℕ)
        → Below system root n
        → Ensures AllOurs (All (Below system root)) (process_descendants system depth n)
    unfolding process_descendants
    Ensures-descendants zero n b = Ensures-fail too_deep
    Ensures-descendants (suc depth) n b = Ensures-bind (Ensures-children n b) (λ ns all.
        Ensures-collect (process_descendants system depth) ns all (Ensures-descendants depth))

  Ensures-tree :
      (depth : ℕ) (p : Process)
      → IsMatching p
      → p.wrapper ≡ true
      → Ensures AllOurs Anything (signal_process_tree system depth p.pid interrupt)
  unfolding signal_process_tree
  Ensures-tree depth p m w = Ensures-bind (Ensures-descendants p.pid depth p.pid itself) (λ ns all.
      let targets =
        All-weaken {P = Below system p.pid} {Q = IsTarget interrupt}
          (λ n b. (p, m, inr (w, refl, b))) ns all in
      Ensures-next
        (Ensures-signal_all interrupt (reverse ns) (All-reverse (IsTarget interrupt) ns targets))
        (Ensures-send interrupt p.pid (p, m, inl refl)))

  module _ (depth looks : ℕ) where
    pub Ensures-find :
        Ensures AllOurs (All IsMatching) (find_matching_processes system cfg depth local)
    unfolding find_matching_processes
    Ensures-find = record { at = λ h p. ((tt, p), shown h (system.processes h) refl) }
      where
        shown :
            (h : List Call) (o : Option Text)
            → system.processes h ≡ o
            → OnOk (All IsMatching) (listed system cfg depth local o)
        shown h none e = tt
        shown h (some output) e = All-intro IsMatching _ (λ p i. (h, output, e, i))

    pub Ensures-interrupt :
        (ps : List Process)
        → All IsMatching ps
        → Ensures AllOurs Anything (interrupt_all system cfg depth local ps)
    unfolding interrupt_all interrupt_process
    Ensures-interrupt [] m = Ensures-pure tt tt
    Ensures-interrupt (p ∷ ps) m =
        Ensures-next
          (Ensures-if {b = p.wrapper} (Ensures-tree depth p m.0)
            (λ e. Ensures-send interrupt p.pid (p, m.0, inl refl)))
          (Ensures-interrupt ps m.1)

    Ensures-kill :
        (ps : List Process)
        → All IsMatching ps
        → Ensures AllOurs Anything (kill_all system cfg depth local ps)
    unfolding kill_all
    Ensures-kill [] m = Ensures-pure tt tt
    Ensures-kill (p ∷ ps) m =
        Ensures-next (Ensures-send kill p.pid (p, m.0, inl refl)) (Ensures-kill ps m.1)

    Ensures-pause : Ensures AllOurs Anything (wait_a_moment system cfg depth local)
    unfolding wait_a_moment
    Ensures-pause = record { at = λ h p. ((tt, p), tt) }

    pub Ensures-wait : (n : ℕ) → Ensures AllOurs Anything (wait_until_gone system cfg depth local n)
    unfolding wait_until_gone
    Ensures-wait zero = Ensures-bind Ensures-find (λ ps m.
        Ensures-if {b = is_nil ps} (λ e. Ensures-pure tt tt)
          (λ e. Ensures-next (Ensures-kill ps m) (Ensures-fail still_running)))
    Ensures-wait (suc n) = Ensures-bind Ensures-find (λ ps m.
        Ensures-if {b = is_nil ps} (λ e. Ensures-pure tt tt)
          (λ e. Ensures-next Ensures-pause (Ensures-wait n)))
