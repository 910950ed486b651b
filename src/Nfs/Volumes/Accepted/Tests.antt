-- ===== src/Nfs/Volumes/Accepted/Tests.antt =====
-- A concrete run of resolveGenericNFSVolume (pkg/maclet/nfs.go).
use maclet.Prelude.{
  ◌==◌, text_eq_instance, if◌then◌else◌, ℕ, ◌≡◌, refl, true, false, some, [], ◌∷◌, ok,
}
use maclet.Prelude.Text.{Text, codes}
use maclet.Nfs.Names.{validate_nfs_server, validate_nfs_share, validate_nfs_subdir}
use maclet.Nfs.Options.{validate_nfs_mount_options}
use maclet.Nfs.Volumes.{
  ClaimSource, Claim, CsiSource, PersistentVolume, NfsVolume, Client, nfs_driver, resolve_with,
}
use maclet.Nfs.Volumes.Accepted.{IsBinding, resolve_with-ok}

abbrev plain : ℕ → ℕ
plain c = c

abbrev attributes_of : Text → Text
attributes_of k =
    if k == codes "server"
    then codes "10.0.0.2"
    else if k == codes "share"
    then codes "/export//data/"
    else []

abbrev volume : PersistentVolume
volume = record {
  name = codes "pv1";
  claim_ref = some record { namespace = codes "default"; name = codes "data"; uid = [] };
  direct_nfs = false;
  csi = some record { driver = nfs_driver; attributes = attributes_of };
  mount_options = codes "vers=3" ∷ [];
}

abbrev client : Client
client = record {
  get_claim = λ namespace name.
      ok record { name = name; uid = []; phase = codes "Bound"; volume_name = codes "pv1" };
  get_volume = λ name. ok volume;
}

abbrev source : ClaimSource
source = record { claim_name = codes "data"; read_only = true }

abbrev resolved : NfsVolume
resolved = record {
  claim_name = codes "data";
  pv_name = codes "pv1";
  server = codes "10.0.0.2";
  share = codes "/export/data";
  subdir = [];
  mount_options = codes "vers=3" ∷ [];
  read_only = true;
  legacy_flags = false;
}

resolve_with-ok_example :
    (claim : Claim) × (pv : PersistentVolume) × (csi : CsiSource) × (client.get_claim
        (codes "default")
        source.claim_name
      ≡ ok claim)
    × (client.get_volume claim.volume_name ≡ ok pv)
    × IsBinding (codes "default") claim pv csi
    × (validate_nfs_server (csi.attributes (codes "server")) ≡ ok resolved.server)
    × (validate_nfs_share (csi.attributes (codes "share")) ≡ ok resolved.share)
    × (validate_nfs_subdir (csi.attributes (codes "subdir")) ≡ ok resolved.subdir)
    × (validate_nfs_mount_options plain resolved.mount_options ≡ ok tt)
unfolding resolve_with
resolve_with-ok_example = resolve_with-ok plain client (codes "default") source resolved refl
