-- ===== src/Vxlan/Recognised.antt =====
-- A VXLAN process that maclet started is recognised (pkg/maclet/vxlan.go, vxlan_recovery.go).
use maclet.Prelude.{
  ℕ, ◌≡◌, refl, ◌∙◌, ap, Bool, true, false, ◌||◌, some, List, [], ◌∷◌, ◌++◌, All, All-append, arith,
  ◌==◌, text_eq_instance, same_refl, if◌then◌else◌, Bool-cases, inl, inr,
}
use maclet.Prelude.Text.{Text, codes, fields, join, is_space, split}
use maclet.Prelude.Text.Words.{IsInk, IsWord, fields-join}
use maclet.Go.Numbers.{atoi, format_int}
use maclet.Vxlan.{
  VxlanConfig, Peer, Process, peer_arguments, vxlan_arguments, command_line, flag_value, has_binary,
  is_cidr, matching_invocation, positive, process_in, keep_found, processes_in, matching_processes,
}
use maclet.Vxlan.Lines.{equals-IsWord, peers-IsWord, processes_in-append, process_in-word}
use maclet.Vxlan.Flags.{
  IsValue, format_int-IsValue, words, value-vni, value-local, value-remote, value-port,
  value-bridge, IsPeer,
}

-- The texts that a command line is made of have no spaces, and those before the address of the bridge do
-- not begin like a flag.
pub record IsUsual (cfg : VxlanConfig) (local bridge : Text) (peers : List Peer) : Type 0 where
  pub program : IsValue cfg.binary
  pub underlay : IsValue local
  pub far_end : IsValue cfg.remote
  pub bridge_word : IsWord bridge
  pub bridge_parses : is_cidr bridge ≡ true
  pub service : All IsInk cfg.service_cidr
  pub peer_texts : All IsPeer peers

module _ (cfg : VxlanConfig) (local bridge : Text) (peers : List Peer) where
  abbrev pub line_words : List Text
  line_words = command_line cfg (vxlan_arguments cfg local bridge peers)

  abbrev pub started_process : ℕ → Process
  started_process pid = record {
    pid = pid;
    command = join (codes " ") line_words;
    bridge_cidr = bridge;
    wrapper = cfg.use_sudo || cfg.binary == codes "sudo";
  }

  abbrev line_with : Bool → List Text
  line_with sudo =
      if sudo
      then codes "sudo" ∷ codes "-n" ∷ cfg.binary ∷ vxlan_arguments cfg local bridge peers
      else cfg.binary ∷ vxlan_arguments cfg local bridge peers

  module _ (usual : IsUsual cfg local bridge peers) where
    arguments-IsWord : All IsWord (vxlan_arguments cfg local bridge peers)
    unfolding vxlan_arguments is_space
    arguments-IsWord = (
      (refl, ground arith),
      (
        (refl, ground arith),
        (
          (refl, ground arith),
          (
            usual.underlay.0,
            (
              (refl, ground arith),
              (
                usual.far_end.0,
                (
                  (refl, ground arith),
                  (
                    (format_int-IsValue cfg.port).0,
                    (
                      (refl, ground arith),
                      (
                        (format_int-IsValue cfg.mtu).0,
                        (
                          (refl, ground arith),
                          (
                            usual.bridge_word,
                            All-append IsWord (peer_arguments peers) _
                                (peers-IsWord peers usual.peer_texts)
                                (
                                  (refl, ground arith),
                                  (
                                    equals-IsWord cfg.service_cidr cfg.remote usual.service
                                        usual.far_end.0.1,
                                    tt,
                                  ),
                                ),
                          ),
                        ),
                      ),
                    ),
                  ),
                ),
              ),
            ),
          ),
        ),
      ),
    )

    line-IsWord : All IsWord line_words
    unfolding command_line is_space vxlan_arguments
    line-IsWord = elim (Bool-cases cfg.use_sudo) [
      | inl sudo ↦
          rw sudo
            ((refl, ground arith), ((refl, ground arith), (usual.program.0, arguments-IsWord)))
      | inr direct ↦ rw direct (usual.program.0, arguments-IsWord)
    ]

    flags-match :
        (words : List Text)
        → has_binary cfg.binary words ≡ true
        → flag_value words (codes "--vni") ≡ codes "1"
        → flag_value words (codes "--local") ≡ local
        → flag_value words (codes "--remote") ≡ cfg.remote
        → flag_value words (codes "--port") ≡ format_int cfg.port
        → flag_value words (codes "--bridge-ipv4") ≡ bridge
        → (command : Text) → fields command ≡ words
        → matching_invocation cfg.binary local cfg.remote cfg.port command ≡ some bridge
    unfolding matching_invocation
    flags-match words b v l r p c command e =
        rw (e, b, v, l, r, p, c)
          (rw
            (
              same_refl local,
              same_refl cfg.remote,
              same_refl (format_int cfg.port),
              usual.bridge_word.0,
              usual.bridge_parses,
            )
            refl)

    has_binary-line : has_binary cfg.binary line_words ≡ true
    unfolding has_binary command_line
    has_binary-line = ground (arith, same_refl cfg.binary)

    flag-line :
        (flag v : Text)
        → flag_value
            (codes "sudo" ∷ codes "-n" ∷ cfg.binary ∷ vxlan_arguments cfg local bridge peers)
            flag
          ≡ v
        → flag_value (cfg.binary ∷ vxlan_arguments cfg local bridge peers) flag ≡ v
        → flag_value line_words flag ≡ v
    unfolding command_line
    flag-line flag v sudo direct = ground (arith, sudo, direct)

    line-matches :
        (command : Text)
        → fields command ≡ line_words
        → matching_invocation cfg.binary local cfg.remote cfg.port command ≡ some bridge
    unfolding flag_value vxlan_arguments
    line-matches command e =
        let port = format_int-IsValue cfg.port in
        let mtu = format_int-IsValue cfg.mtu in
        let rest =
          peer_arguments peers ++ codes "--peer" ∷ (cfg.service_cidr ++ b'=' ∷ cfg.remote) ∷ [] in
        let vni =
          value-vni cfg.binary local cfg.remote (format_int cfg.port) (format_int cfg.mtu) bridge
            rest usual.program usual.underlay usual.far_end port mtu in
        let near =
          value-local cfg.binary local cfg.remote (format_int cfg.port) (format_int cfg.mtu) bridge
            rest usual.program usual.underlay usual.far_end port mtu in
        let far =
          value-remote cfg.binary local cfg.remote (format_int cfg.port) (format_int cfg.mtu) bridge
            rest usual.program usual.underlay usual.far_end port mtu in
        let door =
          value-port cfg.binary local cfg.remote (format_int cfg.port) (format_int cfg.mtu) bridge
            rest usual.program usual.underlay usual.far_end port mtu in
        let address =
          value-bridge cfg.binary local cfg.remote (format_int cfg.port) (format_int cfg.mtu) bridge
            rest usual.program usual.underlay usual.far_end port mtu in
        flags-match line_words has_binary-line (flag-line _ _ vni vni) (flag-line _ _ near near)
          (flag-line _ _ far far) (flag-line _ _ door door) (flag-line _ _ address address) command
          e

    process_in-line :
        (number : Text) (pid : ℕ) (sudo : Bool)
        → positive (atoi number) ≡ some pid
        → matching_invocation cfg.binary local cfg.remote cfg.port
            (join (codes " ") (line_with sudo))
          ≡ some bridge
        → process_in cfg.binary local cfg.remote cfg.port (number ∷ line_with sudo)
          ≡ some record {
            pid = pid;
            command = join (codes " ") (line_with sudo);
            bridge_cidr = bridge;
            wrapper = sudo || cfg.binary == codes "sudo";
          }
    process_in-line number pid true e m =
        process_in-word cfg.binary local cfg.remote cfg.port number (codes "sudo") bridge _ pid e m
    process_in-line number pid false e m =
        process_in-word cfg.binary local cfg.remote cfg.port number cfg.binary bridge _ pid e m

    fields-line :
        (sudo : Bool)
        → All IsWord (line_with sudo)
        → fields (join (codes " ") (line_with sudo)) ≡ line_with sudo
    fields-line true all = fields-join (codes "sudo") _ all
    fields-line false all = fields-join cfg.binary _ all

    started_in :
        (number : Text) (pid : ℕ)
        → positive (atoi number) ≡ some pid
        → process_in cfg.binary local cfg.remote cfg.port (number ∷ line_words)
          ≡ some (started_process pid)
    unfolding command_line
    started_in number pid e =
        process_in-line number pid cfg.use_sudo e
          (line-matches (join (codes " ") line_words) (fields-line cfg.use_sudo line-IsWord))

    -- A process that maclet started is found in the output of ps, in its place among the others: with its
    -- number, its command line, the address of its bridge, and as a wrapper if sudo started it.
    pub matching_processes-started :
        (output line number : Text) (before after : List Text) (pid : ℕ)
        → split 10 output ≡ before ++ line ∷ after
        → fields line ≡ number ∷ line_words
        → positive (atoi number) ≡ some pid
        → matching_processes cfg.binary local cfg.remote cfg.port output
          ≡ processes_in cfg.binary local cfg.remote cfg.port before
            ++ started_process pid ∷ processes_in cfg.binary local cfg.remote cfg.port after
    unfolding matching_processes processes_in
    matching_processes-started output line number before after pid e f g =
        let found = λ (ls : List Text). processes_in cfg.binary local cfg.remote cfg.port ls in
        let one =
          ap (process_in cfg.binary local cfg.remote cfg.port) f ∙ started_in number pid g in
        ap found e
        ∙ processes_in-append cfg.binary local cfg.remote cfg.port before (line ∷ after)
        ∙ ap (λ o. found before ++ keep_found o (found after)) one
