-- ===== src/Windows/V1beta.antt =====
-- mount-manager/safe-mounter-v1beta_windows.go: the mounter on the beta versions of csi-proxy.
pub mod Calls
pub mod Effects
pub mod Dismounts
use Prim.Native.String.{◌++◌ as text_append}
use csi_runtime.Base.{
  ℕ, String, Bool, true, false, not, List, [], ◌∷◌, Option, none, some, Result, ok, err, ℤ, str_eq,
  if◌then◌else◌,
}
use csi_runtime.Base.Prog.{bind, when◌then◌else◌, ask, ret, fail, succeed, ◌>>=◌, ◌>>◌}
use csi_runtime.Rpc.{Error}
use csi_runtime.Dict.{Dict, get}
use csi_runtime.Node.Calls.{MountPoint}
use csi_runtime.Text.Decimal.{format_int}
use csi_runtime.Text.Fields.{fields, last_of}
use csi_runtime.Windows.Proxy.{Fault, error, panics, errorf, Paths}
use csi_runtime.Windows.V1beta.Calls.{
  plugin, pod, mkdir_all, link_path, rmdir, path_exists, is_mount_point, list_disk_ids,
  partition_disk, set_attach_state, disk_stats, get_volume_id_from_mount, dismount_volume,
  get_volume_disk_number, list_volumes_on_disk, is_volume_formatted, format_volume, mount_volume,
  Io,
}

module _ (paths : Paths) where
  -- `MountSensitive`; the options are not used.
  unfoldable pub mount_sensitive :
      String → String → String → List String → List String → Io (Unit {0})
  mount_sensitive source target fstype options sensitive_options = do
    ask (mkdir_all (paths.dir target) 493)
    response ← ask (link_path (paths.normalize source) (paths.normalize target))
    when str_eq response "" then succeed tt else fail (errorf response)

  -- `Mount`
  unfoldable pub mount : String → String → String → List String → Io (Unit {0})
  mount source target fstype options = mount_sensitive source target fstype options []

  -- `RemovePodDir`
  unfoldable pub remove_pod_dir : String → Io (Unit {0})
  remove_pod_dir target = ask (rmdir (paths.normalize target) pod true)

  -- `Unmount`
  unfoldable pub unmount : String → Io (Unit {0})
  unmount target = remove_pod_dir target

  -- `ExistsPath`
  unfoldable pub exists_path : String → Io Bool
  exists_path path = ask (path_exists (paths.normalize path))

  -- The part of `UnmountDevice` for a path that exists.
  unfoldable pub dismount : String → Io (Unit {0})
  dismount target = do
    volume_id ← ask (get_volume_id_from_mount target)
    ask (dismount_volume volume_id target)
    ask (rmdir target plugin true)
    disk_id ← ask (get_volume_disk_number volume_id)
    ask (set_attach_state (format_int disk_id) false)

  -- `UnmountDevice`
  unfoldable pub unmount_device : String → Io (Unit {0})
  unmount_device target = do
    exists ← exists_path (paths.normalize target)
    when exists then dismount (paths.normalize target) else succeed tt

-- One round of the loop of `GetDiskNumber`, on the fields of a disk's ID; `rest` is the rounds
-- after it.
abbrev pub match_names : String → String → Option String → Result Fault String → Result Fault String
match_names device_name disk_num none rest = err (panics "index out of range [-1]")
match_names device_name disk_num (some name) rest =
    if str_eq name device_name then ok disk_num else rest

-- The test on the identifier `page83`.
abbrev pub match_id : String → String → Option String → Result Fault String → Result Fault String
match_id device_name disk_num none rest = rest
match_id device_name disk_num (some id_value) rest =
    if str_eq id_value ""
    then rest
    else match_names device_name disk_num (last_of (fields id_value)) rest

-- The loop of `GetDiskNumber` over the disk IDs.
unfoldable pub find_disk : String → Dict (Dict String) → Result Fault String
find_disk device_name [] =
    err (errorf (text_append "could not find disk number for device " device_name))
find_disk device_name ((disk_num, identifiers) ∷ ids) =
    match_id device_name disk_num (get "page83" identifiers) (find_disk device_name ids)

-- `GetDiskNumber`
unfoldable pub get_disk_number : String → String → String → Io String
get_disk_number device_name partition volume_key = do
  ids ← ask list_disk_ids
  ret (find_disk device_name ids)

-- `volumeIdResponse.VolumeIds[0]`, after the test on their number.
abbrev pub first_volume : List String → Result Fault String
first_volume [] = err (errorf "ListVolumesOnDisk does not return any volumes")
first_volume (volume_id ∷ _) = ok volume_id

-- The part of `FormatAndMount` on the volume.
unfoldable pub format_volume_and_mount : String → String → Io (Unit {0})
format_volume_and_mount volume_id target = do
  formatted ← ask (is_volume_formatted volume_id)
  when not formatted then ask (format_volume volume_id) else succeed tt
  ask (mount_volume volume_id target)

-- `FormatAndMount`
unfoldable pub format_and_mount : String → String → String → List String → Io (Unit {0})
format_and_mount source target fstype options = do
  ask (partition_disk source)
  ask (set_attach_state source true)
  volume_ids ← ask (list_volumes_on_disk source)
  volume_id ← ret (first_volume volume_ids)
  format_volume_and_mount volume_id target

-- `IsLikelyNotMountPoint`, which returns true beside an error.
abbrev pub or_not_mounted : Result Fault Bool → Bool × Option Fault
or_not_mounted (ok mounted) = (not mounted, none)
or_not_mounted (err e) = (true, some e)

unfoldable pub is_likely_not_mount_point : String → Io (Bool × Option Fault)
is_likely_not_mount_point file = bind (ask (is_mount_point file)) (λ r. succeed (or_not_mounted r))

-- `DiskStatsResponse.DiskSize, err`
abbrev pub disk_size : Option ℤ × Option Error → Result Fault ℤ
disk_size (none, _) = err (panics "invalid memory address or nil pointer dereference")
disk_size (some size, none) = ok size
disk_size (some size, some e) = err (error e)

-- `GetDiskTotalBytes`
unfoldable pub get_disk_total_bytes : String → Io ℤ
get_disk_total_bytes device_path = do stats ← ask (disk_stats device_path); ret (disk_size stats)

-- `GetMountRefs`, `List`, `IsMountPointMatch`
unfoldable pub get_mount_refs : String → Result Fault (List String)
get_mount_refs pathname = err (errorf "GetMountRefs not implemented for ProxyMounter")

unfoldable pub list : Result Fault (List MountPoint)
list = ok []

unfoldable pub is_mount_point_match : MountPoint → String → Bool
is_mount_point_match mp dir = str_eq mp.path dir

-- `MountSensitiveWithoutSystemd` and `MountSensitiveWithoutSystemdWithMountFlags`
unfoldable pub mount_sensitive_without_systemd :
    String → String → String → List String → List String → Result Fault (Unit {0})
mount_sensitive_without_systemd source target fstype options sensitive_options =
    err (errorf "MountSensitiveWithoutSystemd is not implemented")

unfoldable pub mount_sensitive_without_systemd_with_mount_flags :
    String → String → String → List String → List String → List String → Result Fault (Unit {0})
mount_sensitive_without_systemd_with_mount_flags source target fstype options sensitive_options
      mount_flags =
    err (errorf "MountSensitiveWithoutSystemd is not implemented")
