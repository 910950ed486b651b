-- ===== src/Workloads/Mounts/Separators/Tests.antt =====
-- Concrete volume arguments of pkg/maclet/workload_mounts.go.
use maclet.Prelude.Exec.Bind.{◌>>=◌}
use maclet.Prelude.{◌≡◌, refl, Bool, true, false, Option, some, List, [], ◌∷◌, ok, err}
use maclet.Prelude.Exec.Triples.{Holds}
use maclet.Prelude.Text.{Text, codes}
use maclet.Workloads.Mounts.{
  Stat, shows, Call, has_colon, escapes, Volume, VolumeMount, macker_volume_args,
  resolve_volume_sub_path,
}
use maclet.Workloads.Mounts.Separators.{
  IsVolumeArgs, IsContained, macker_volume_args-IsVolumeArgs, resolve_volume_sub_path-IsContained,
}

-- Every path is a directory without links.
abbrev directory_at : List Call → Text → Stat
directory_at h path = shows record {
  is_directory = true;
  is_regular = false;
  is_socket = false;
  is_char_device = false;
  is_device = false;
}

abbrev works : List Call → Call → Bool
works h c = true

abbrev plain : List Call → Text → Option Text
plain h path = some path

abbrev data_volume : Text → Volume
data_volume path = record {
  name = codes "data";
  host_path = some record { path = path; kind = codes "Directory" };
}

abbrev data_mount : VolumeMount
data_mount = record {
  name = codes "data";
  mount_path = codes "/data/";
  read_only = false;
  sub_path = codes "a";
  sub_path_expr = [];
}

macker_volume_args-IsVolumeArgs_example :
    Holds
      (λ args g. IsVolumeArgs args)
      (macker_volume_args directory_at works plain
        (data_volume (codes "/srv") ∷ [])
        (data_mount ∷ [])
        []).0
      (macker_volume_args directory_at works plain
        (data_volume (codes "/srv") ∷ [])
        (data_mount ∷ [])
        []).1
macker_volume_args-IsVolumeArgs_example =
    macker_volume_args-IsVolumeArgs directory_at works plain (data_volume (codes "/srv") ∷ [])
      (data_mount ∷ []) []

mounted :
    (macker_volume_args directory_at works plain
      (data_volume (codes "/srv") ∷ [])
      (data_mount ∷ [])
      []).0
    ≡ ok (codes "-v" ∷ codes "/srv/a:/data" ∷ [])
unfolding macker_volume_args ◌>>=◌
mounted = refl

refused :
    (macker_volume_args directory_at works plain
      (data_volume (codes "/s:rv") ∷ [])
      (data_mount ∷ [])
      []).0
    ≡ err has_colon
unfolding macker_volume_args ◌>>=◌
refused = refl

resolve_volume_sub_path-IsContained_example :
    Holds
      (IsContained directory_at works plain (codes "/srv") (codes "a/b"))
      (resolve_volume_sub_path directory_at works plain (codes "/srv") (codes "a/b") []).0
      (resolve_volume_sub_path directory_at works plain (codes "/srv") (codes "a/b") []).1
resolve_volume_sub_path-IsContained_example =
    resolve_volume_sub_path-IsContained directory_at works plain (codes "/srv") (codes "a/b") []

parent_escapes :
    (resolve_volume_sub_path directory_at works plain (codes "/srv") (codes "a/../..") []).0
    ≡ err escapes
unfolding resolve_volume_sub_path
parent_escapes = refl
