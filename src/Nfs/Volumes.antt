-- ===== src/Nfs/Volumes.antt =====
-- How the NFS volume behind a claim is found: resolveGenericNFSVolume (pkg/maclet/nfs.go) and
-- resolveNFSVolumeForPod (pkg/maclet/nfs_handoff.go).
pub mod Accepted
use maclet.Prelude.{
  ℕ, ◌+◌, ◌-◌, ◌^◌, Bool, true, false, not, ◌||◌, ◌&&◌, Option, none, some, List, [], ◌∷◌, ◌++◌,
  eqb, leb, ltb, ◌==◌, text_eq_instance, if◌then◌else◌, Result, ok, err, ◌>>=◌, ◌>>◌,
}
use maclet.Prelude.Text.{Text, codes, trim_space, itoa}
use maclet.Go.Numbers.{ℤ, pos, negsuc, atoi}
use maclet.Nfs.Names.{
  NfsError, no_claim, no_client, not_bound, no_volume_name, other_claim, other_claim_uid,
  direct_source, other_driver, incomplete_handoff, ambiguous_handoff, bad_handoff_version,
  bad_mount_port, bad_nfs_port, validate_nfs_server, validate_nfs_share, validate_nfs_subdir,
}
use maclet.Nfs.Options.{validate_nfs_mount_options}

-- A map with text keys, as the function that gives "" for a missing key
abbrev pub Attributes : Type 0
Attributes = Text → Text

pub record ClaimSource : Type 0 where
  pub claim_name : Text
  pub read_only : Bool

pub record Claim : Type 0 where
  pub name : Text
  pub uid : Text
  pub phase : Text
  pub volume_name : Text

pub record ClaimRef : Type 0 where
  pub namespace : Text
  pub name : Text
  pub uid : Text

pub record CsiSource : Type 0 where
  pub driver : Text
  pub attributes : Attributes

pub record PersistentVolume : Type 0 where
  pub name : Text
  pub claim_ref : Option ClaimRef
  pub direct_nfs : Bool
  pub csi : Option CsiSource
  pub mount_options : List Text

pub record NfsVolume : Type 0 where
  pub claim_name : Text
  pub pv_name : Text
  pub server : Text
  pub share : Text
  pub subdir : Text
  pub mount_options : List Text
  pub read_only : Bool
  pub legacy_flags : Bool

-- The API client: a GET and the decoding of its body, each of which may fail.
pub record Client : Type 0 where
  pub get_claim : Text → Text → Result NfsError Claim
  pub get_volume : Text → Result NfsError PersistentVolume

abbrev pub nfs_driver : Text
nfs_driver = codes "nfs.csi.k8s.io"

unfoldable pub named_claim : Option ClaimSource → Result NfsError ClaimSource
named_claim none = err no_claim
named_claim (some c) = if c.claim_name == [] then err no_claim else ok c

unfoldable pub bound_claim : Claim → Result NfsError (Unit {0})
bound_claim claim =
    if not (claim.phase == codes "Bound")
    then err not_bound
    else if claim.volume_name == []
    then err no_volume_name
    else ok tt

unfoldable pub ref_rule : Text → Claim → Option ClaimRef → Result NfsError (Unit {0})
ref_rule namespace claim none = err other_claim
ref_rule namespace claim (some r) =
    if not (r.name == claim.name) || not (r.namespace == namespace)
    then err other_claim
    else if not (claim.uid == []) && not (r.uid == []) && not (r.uid == claim.uid)
    then err other_claim_uid
    else ok tt

unfoldable pub csi_rule : Bool → Option CsiSource → Result NfsError CsiSource
csi_rule true csi = err direct_source
csi_rule false none = err other_driver
csi_rule false (some csi) = if csi.driver == nfs_driver then ok csi else err other_driver

module _ (table : ℕ → ℕ) where
  -- What is read of a volume of the driver
  unfoldable pub csi_volume :
      ClaimSource → Claim → PersistentVolume → CsiSource → Result NfsError NfsVolume
  unfolding validate_nfs_server validate_nfs_share validate_nfs_subdir validate_nfs_mount_options
  csi_volume source claim pv csi = do
    server ← validate_nfs_server (csi.attributes (codes "server"))
    share ← validate_nfs_share (csi.attributes (codes "share"))
    subdir ← validate_nfs_subdir (csi.attributes (codes "subdir"))
    validate_nfs_mount_options table pv.mount_options
    ok record {
      claim_name = claim.name;
      pv_name = pv.name;
      server = server;
      share = share;
      subdir = subdir;
      mount_options = pv.mount_options;
      read_only = source.read_only;
      legacy_flags = false;
    }

  unfoldable pub resolve_with : Client → Text → ClaimSource → Result NfsError NfsVolume
  unfolding bound_claim ref_rule csi_rule csi_volume
  resolve_with client namespace source = do
    claim ← client.get_claim namespace source.claim_name
    bound_claim claim
    pv ← client.get_volume claim.volume_name
    ref_rule namespace claim pv.claim_ref
    csi ← csi_rule pv.direct_nfs pv.csi
    csi_volume source claim pv csi

  unfoldable pub resolve_generic_nfs_volume :
      Option Client → Text → Option ClaimSource → Result NfsError NfsVolume
  unfolding named_claim resolve_with
  resolve_generic_nfs_volume none namespace source = named_claim source >> err no_client
  resolve_generic_nfs_volume (some client) namespace source =
      named_claim source >>= resolve_with client namespace

-- The annotations that hand a gateway's endpoint over
abbrev pub server_key : Text
server_key = codes "storage.k8s-darwin.dev/nfs-server"

abbrev pub export_key : Text
export_key = codes "storage.k8s-darwin.dev/nfs-export"

abbrev pub version_key : Text
version_key = codes "storage.k8s-darwin.dev/nfs-version"

abbrev pub mount_port_key : Text
mount_port_key = codes "storage.k8s-darwin.dev/nfs-mount-port"

abbrev pub nfs_port_key : Text
nfs_port_key = codes "storage.k8s-darwin.dev/nfs-port"

abbrev pub generation_key : Text
generation_key = codes "storage.k8s-darwin.dev/nfs-generation"

abbrev pub handoff_keys : List Text
handoff_keys =
    server_key ∷ export_key ∷ version_key ∷ mount_port_key ∷ nfs_port_key ∷ generation_key ∷ []

unfoldable pub count_present : Attributes → List Text → ℕ
unfolding trim_space
count_present annotations [] = 0
count_present annotations (k ∷ ks) =
    if trim_space (annotations k) == []
    then count_present annotations ks
    else 1 + count_present annotations ks

unfoldable pub is_version_3 : Option ℤ → Bool
is_version_3 none = false
is_version_3 (some (pos n)) = eqb n 3
is_version_3 (some (negsuc n)) = false

unfoldable pub port_of : NfsError → Option ℤ → Result NfsError ℕ
port_of e none = err e
port_of e (some (negsuc n)) = err e
port_of e (some (pos n)) = if ltb n 1024 || ltb 65535 n then err e else ok n

unfoldable pub count_claims : List (Option ClaimSource) → ℕ
count_claims [] = 0
count_claims (none ∷ vs) = count_claims vs
count_claims (some c ∷ vs) = 1 + count_claims vs

unfoldable pub handoff_options : ℕ → ℕ → List Text
unfolding itoa
handoff_options mount_port nfs_port =
    (codes "mountport=" ++ itoa mount_port)
    ∷ (codes "port=" ++ itoa nfs_port)
    ∷ codes "vers=3"
    ∷ codes "tcp"
    ∷ codes "locallocks"
    ∷ codes "resvport"
    ∷ []

-- The volume that complete annotations describe
unfoldable pub handed_over :
    Attributes → List (Option ClaimSource) → Option ClaimSource → Result NfsError NfsVolume
unfolding named_claim is_version_3 port_of count_claims handoff_options atoi trim_space
    validate_nfs_server validate_nfs_share
handed_over annotations pod_volumes source = do
  claim ← named_claim source
  if not (eqb (count_claims pod_volumes) 1)
      then err ambiguous_handoff
      else if not (is_version_3 (atoi (trim_space (annotations version_key))))
      then err bad_handoff_version
      else do
        mount_port ← port_of bad_mount_port (atoi (trim_space (annotations mount_port_key)))
        nfs_port ← port_of bad_nfs_port (atoi (trim_space (annotations nfs_port_key)))
        server ← validate_nfs_server (annotations server_key)
        share ← validate_nfs_share (annotations export_key)
        ok record {
          claim_name = claim.claim_name;
          pv_name = [];
          server = server;
          share = share;
          subdir = [];
          mount_options = handoff_options mount_port nfs_port;
          read_only = claim.read_only;
          legacy_flags = true;
        }

unfoldable pub resolve_nfs_volume_for_pod :
    (ℕ → ℕ)
    → Option Client
    → Text
    → Attributes
    → List (Option ClaimSource)
    → Option ClaimSource
    → Result NfsError NfsVolume
unfolding count_present handed_over resolve_generic_nfs_volume
resolve_nfs_volume_for_pod table client namespace annotations pod_volumes source =
    let present = count_present annotations handoff_keys in
    if eqb present 0
    then resolve_generic_nfs_volume table client namespace source
    else if not (eqb present 6)
    then err incomplete_handoff
    else handed_over annotations pod_volumes source
