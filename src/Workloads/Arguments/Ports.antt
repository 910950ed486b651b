-- ===== src/Workloads/Arguments/Ports.antt =====
-- When the arguments of `macker run` are made (pkg/maclet/workload_mounts.go).
mod Tests
use maclet.Prelude.{
  ℕ, zero, suc, ◌+◌, ◌≡◌, refl, ◌∙◌, ap, sym, Bool, true, false, not, ◌||◌, ◌&&◌, Option, none,
  some, List, [], ◌∷◌, ◌++◌, arith, leb, ltb, eqb, ◌==◌, text_eq_instance, if◌then◌else◌, Result,
  ok, err, ◌>>=◌, Bool-cases, inl, inr,
}
use maclet.Prelude.Text.{Text, codes}
use maclet.Go.Paths.{is_abs}
use maclet.Go.Numbers.{ℤ, pos, negsuc}
use maclet.Network.Handle.{Handle}
use maclet.Workloads.Arguments.{
  ArgError, Port, RunSpec, RunInputs, to_upper, is_zero, port_number, working_directory,
  environment_args, protocol_of, port_args, all_port_args, network_of, command_args,
  host_network_run_args, external_run_args, run_args,
}

abbrev pub is_ok : {A : Type 0} → Result ArgError A → Bool
is_ok (ok a) = true
is_ok (err e) = false

abbrev pub in_range : ℤ → Bool
in_range (pos n) = leb 1 n && leb n 65535
in_range (negsuc n) = false

abbrev pub is_available : Option Handle → Bool
is_available none = false
is_available (some h) = not (h.interface == []) && not (h.gateway == [])

module _ (upper : ℕ → ℕ) where
  -- A port that maclet can forward
  abbrev pub is_supported_port : Port → Bool
  is_supported_port p =
      is_zero p.host_port
      && in_range p.container_port
      && (to_upper upper p.protocol == []
          || to_upper upper p.protocol == codes "TCP"
          || to_upper upper p.protocol == codes "UDP")

  abbrev pub all_supported : List Port → Bool
  all_supported [] = true
  all_supported (p ∷ ps) = is_supported_port p && all_supported ps

  -- What maclet asks of a container, without the order of its checks
  abbrev pub is_supported : Option Handle → RunInputs → RunSpec → Bool
  is_supported network i c =
      i.network_is_valid
      && not (c.image == [])
      && (c.working_dir == [] || is_abs c.working_dir)
      && is_ok i.volume_args
      && is_ok i.environment
      && (i.host_network || is_available network)
      && all_supported c.ports

  is_ok-bind :
      {A B : Type 0} (r : Result ArgError A) (f : A → Result ArgError B) (b : Bool)
      → ((a : A) → is_ok (f a) ≡ b)
      → is_ok (r >>= f) ≡ (is_ok r && b)
  is_ok-bind (ok a) f b h = h a
  is_ok-bind (err e) f b h = refl

  is_ok-port_number : (n : ℤ) → is_ok (port_number n) ≡ in_range n
  unfolding port_number
  is_ok-port_number (pos n) = ground arith
  is_ok-port_number (negsuc n) = refl

  is_ok-protocol :
      (p : Text)
      → is_ok (protocol_of upper p) ≡ (
          to_upper upper p == []
          || to_upper upper p == codes "TCP"
          || to_upper upper p == codes "UDP")
  unfolding protocol_of
  is_ok-protocol p = ground arith

  is_ok-port_args :
      (forward : Bool) (index : ℕ) (p : Port)
      → is_ok (port_args upper forward index p) ≡ is_supported_port p
  unfolding port_args
  is_ok-port_args forward index p = elim (Bool-cases (is_zero p.host_port)) [
    | inl zero_port ↦ rw zero_port (
        is_ok-bind (port_number p.container_port) _ _
          (λ n. is_ok-bind (protocol_of upper p.protocol) _ true (λ t. refl))
        ∙ ground (arith, is_ok-port_number p.container_port, is_ok-protocol p.protocol))
    | inr host ↦ rw host refl
  ]

  is_ok-all :
      (forward : Bool) (index : ℕ) (ps : List Port)
      → is_ok (all_port_args upper forward index ps) ≡ all_supported ps
  unfolding all_port_args
  is_ok-all forward index [] = refl
  is_ok-all forward index (p ∷ ps) =
      is_ok-bind (port_args upper forward index p) _ _
        (λ first. is_ok-bind (all_port_args upper forward (suc index) ps) _ true (λ rest. refl))
      ∙ ground (arith, is_ok-port_args forward index p, is_ok-all forward (suc index) ps)

  is_ok-directory : (d : Text) → is_ok (working_directory d) ≡ (d == [] || is_abs d)
  unfolding working_directory
  is_ok-directory d = ground arith

  is_ok-network : (o : Option Handle) → is_ok (network_of upper o) ≡ is_available o
  is_ok-network none = refl
  is_ok-network (some h) = ground arith

  is_ok-host :
      (i : RunInputs) (c : RunSpec)
      → is_ok (host_network_run_args upper i c) ≡ (
          not (c.image == [])
          && (is_ok (working_directory c.working_dir)
              && (is_ok i.volume_args
                  && (is_ok i.environment
                      && (is_ok (all_port_args upper (not i.disable_port_forward) 1 c.ports)
                          && true)))))
  unfolding host_network_run_args
  is_ok-host i c = elim (Bool-cases (c.image == [])) [
    | inl empty ↦ rw empty refl
    | inr image ↦ rw image (
        is_ok-bind (working_directory c.working_dir) _ _ (λ d. is_ok-bind i.volume_args _ _ (λ v.
          is_ok-bind i.environment _ _ (λ e.
            is_ok-bind (all_port_args upper (not i.disable_port_forward) 1 c.ports) _ true
              (λ p. refl)))))
  ]

  is_ok-external :
      (network : Option Handle) (i : RunInputs) (c : RunSpec)
      → is_ok (external_run_args upper network i c) ≡ (
          not (c.image == [])
          && (is_ok (working_directory c.working_dir)
              && (is_ok i.volume_args
                  && (is_ok (network_of upper network)
                      && (is_ok i.environment
                          && (is_ok (all_port_args upper (not i.disable_port_forward) 1 c.ports)
                              && true))))))
  unfolding external_run_args
  is_ok-external network i c = elim (Bool-cases (c.image == [])) [
    | inl empty ↦ rw empty refl
    | inr image ↦ rw image (
        is_ok-bind (working_directory c.working_dir) _ _ (λ d. is_ok-bind i.volume_args _ _ (λ v.
          is_ok-bind (network_of upper network) _ _ (λ h. is_ok-bind i.environment _ _ (λ e.
            is_ok-bind (all_port_args upper (not i.disable_port_forward) 1 c.ports) _ true
              (λ p. refl))))))
  ]

  -- The arguments of a run are made exactly if the container asks for what maclet supports, with or
  -- without the network of the host: a valid network, an image, an absolute working directory or none,
  -- volumes and an environment that resolve, a network handle where it is needed, and ports from 1 to
  -- 65535 over TCP or UDP without a host port.
  pub is_ok-run_args :
      (network : Option Handle) (i : RunInputs) (c : RunSpec)
      → is_ok (run_args upper network i c) ≡ is_supported network i c
  unfolding run_args
  is_ok-run_args network i c = ground (
    arith,
    is_ok-host i c,
    is_ok-external network i c,
    is_ok-all (not i.disable_port_forward) 1 c.ports,
    is_ok-directory c.working_dir,
    is_ok-network network,
  )
