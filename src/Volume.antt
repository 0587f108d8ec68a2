-- ===== src/Volume.antt =====
-- volume.go: the names of volumes; the handlers stand in the modules below.
pub mod Names
pub mod Handlers
pub mod Provision
pub mod Release
pub mod Sizes
use datafoundry_proxy.Base.{
  ℕ, zero, suc, Bool, true, false, List, [], ◌∷◌, ◌++◌, Str, codes, str_eq, length, has_prefix,
  drop, if◌then◌else◌,
}

abbrev pub volume_prefix : Str
volume_prefix = codes "vol_"

-- PvcName2PvName: fmt.Sprintf("%s-%s", namespace, volName)
unfoldable pub pvc_name2pv_name : Str → Str → Str
pvc_name2pv_name namespace vol_name = namespace ++ (codes "-" ++ vol_name)

-- VolumeId2VolumeName
unfoldable pub volume_id2volume_name : Str → Str
volume_id2volume_name vol_id = volume_prefix ++ vol_id

-- VolumeName2VolumeId
unfoldable pub volume_name2volume_id : Str → Str
volume_name2volume_id vol_name =
    if has_prefix volume_prefix vol_name then drop (length volume_prefix) vol_name else vol_name
