-- ===== src/Windows/V1.antt =====
-- mount-manager/safe-mounter-v1_windows.go: the mounter on version 1 of csi-proxy.
pub mod Calls
pub mod Effects
pub mod Dismounts
pub mod Disks
use Prim.Native.String.{◌++◌ as text_append}
use csi_runtime.Base.{
  ℕ, String, Bool, true, false, not, List, [], ◌∷◌, Option, none, some, Result, ok, err, ℤ, str_eq,
  if◌then◌else◌,
}
use csi_runtime.Base.Prog.{bind, when◌then◌else◌, ask, ret, fail, succeed, ◌>>=◌, ◌>>◌}
use csi_runtime.Rpc.{Error}
use csi_runtime.Node.Calls.{MountPoint}
use csi_runtime.Text.Decimal.{parse_uint, format_uint}
use csi_runtime.Text.Fields.{fields, last_of}
use csi_runtime.Windows.Proxy.{Fault, error, panics, errorf, uint32, Paths, checked}
use csi_runtime.Windows.V1.Calls.{
  mkdir_all, create_symlink, rmdir, path_exists, is_symlink, list_disk_ids, partition_disk,
  set_disk_state, get_disk_stats, get_volume_id_from_target_path, unmount_volume,
  get_disk_number_from_volume_id, list_volumes_on_disk, is_volume_formatted, format_volume,
  mount_volume, Io,
}

module _ (paths : Paths) where
  -- `MountSensitive`; the options are not used.
  unfoldable pub mount_sensitive :
      String → String → String → List String → List String → Io (Unit {0})
  mount_sensitive source target fstype options sensitive_options = do
    ask (mkdir_all (paths.dir target) 493)
    ask (create_symlink (paths.normalize source) (paths.normalize target))

  -- `Mount`
  unfoldable pub mount : String → String → String → List String → Io (Unit {0})
  mount source target fstype options = mount_sensitive source target fstype options []

  -- `RemovePodDir`
  unfoldable pub remove_pod_dir : String → Io (Unit {0})
  remove_pod_dir target = ask (rmdir (paths.normalize target) true)

  -- `Unmount`
  unfoldable pub unmount : String → Io (Unit {0})
  unmount target = remove_pod_dir target

  -- `ExistsPath`
  unfoldable pub exists_path : String → Io Bool
  exists_path path = ask (path_exists (paths.normalize path))

  -- The part of `UnmountDevice` for a path that exists.
  unfoldable pub dismount : String → Io (Unit {0})
  dismount target = do
    volume_id ← ask (get_volume_id_from_target_path target)
    ask (unmount_volume volume_id target)
    ask (rmdir target true)
    disk_number ← ask (get_disk_number_from_volume_id volume_id)
    ask (set_disk_state disk_number false)

  -- `UnmountDevice`
  unfoldable pub unmount_device : String → Io (Unit {0})
  unmount_device target = do
    exists ← exists_path (paths.normalize target)
    when exists then dismount (paths.normalize target) else succeed tt

-- One round of the loop of `GetDiskNumber`, on the fields of a disk's ID; `rest` is the rounds
-- after it.
abbrev pub match_names : String → ℕ → Option String → Result Fault String → Result Fault String
match_names device_name disk_num none rest = err (panics "index out of range [-1]")
match_names device_name disk_num (some name) rest =
    if str_eq name device_name then ok (format_uint disk_num) else rest

-- The loop of `GetDiskNumber` over the disk IDs.
unfoldable pub find_disk : String → List (ℕ × String) → Result Fault String
find_disk device_name [] =
    err (errorf (text_append "could not find disk number for device " device_name))
find_disk device_name ((disk_num, id_value) ∷ ids) =
    let rest = find_disk device_name ids in
    if str_eq id_value ""
    then rest
    else match_names device_name disk_num (last_of (fields id_value)) rest

-- `GetDiskNumber`
unfoldable pub get_disk_number : String → String → String → Io String
get_disk_number device_name partition volume_key = do
  ids ← ask list_disk_ids
  ret (find_disk device_name ids)

-- `volumeIdResponse.VolumeIds[0]`, after the test on their number.
abbrev pub first_volume : List String → Result Fault String
first_volume [] = err (errorf "ListVolumesOnDisk does not return any volumes")
first_volume (volume_id ∷ _) = ok volume_id

-- The part of `FormatAndMount` on the volume.
unfoldable pub format_volume_and_mount : String → String → Io (Unit {0})
format_volume_and_mount volume_id target = do
  formatted ← ask (is_volume_formatted volume_id)
  when not formatted then ask (format_volume volume_id) else succeed tt
  ask (mount_volume volume_id target)

-- `FormatAndMount`
unfoldable pub format_and_mount : String → String → String → List String → Io (Unit {0})
format_and_mount source target fstype options = do
  number ← ret (checked (parse_uint source))
  ask (partition_disk (uint32 number))
  ask (set_disk_state (uint32 number) true)
  volume_ids ← ask (list_volumes_on_disk (uint32 number))
  volume_id ← ret (first_volume volume_ids)
  format_volume_and_mount volume_id target

-- `IsLikelyNotMountPoint`, which returns true beside an error.
abbrev pub or_not_mounted : Result Fault Bool → Bool × Option Fault
or_not_mounted (ok linked) = (not linked, none)
or_not_mounted (err e) = (true, some e)

unfoldable pub is_likely_not_mount_point : String → Io (Bool × Option Fault)
is_likely_not_mount_point file = bind (ask (is_symlink file)) (λ r. succeed (or_not_mounted r))

-- `DiskStatsResponse.TotalBytes, err`
abbrev pub total_bytes : Option ℤ × Option Error → Result Fault ℤ
total_bytes (none, _) = err (panics "invalid memory address or nil pointer dereference")
total_bytes (some total, none) = ok total
total_bytes (some total, some e) = err (error e)

-- `GetDiskTotalBytes`
unfoldable pub get_disk_total_bytes : String → Io ℤ
get_disk_total_bytes device_path = do
  number ← ret (checked (parse_uint device_path))
  stats ← ask (get_disk_stats (uint32 number))
  ret (total_bytes stats)

-- `GetMountRefs`, `List`, `IsMountPointMatch`
unfoldable pub get_mount_refs : String → Result Fault (List String)
get_mount_refs pathname = err (errorf "GetMountRefs not implemented for ProxyMounter")

unfoldable pub list : Result Fault (List MountPoint)
list = ok []

unfoldable pub is_mount_point_match : MountPoint → String → Bool
is_mount_point_match mp dir = str_eq mp.path dir

-- `MountSensitiveWithoutSystemd` and `MountSensitiveWithoutSystemdWithMountFlags`
unfoldable pub mount_sensitive_without_systemd :
    String → String → String → List String → List String → Result Fault (Unit {0})
mount_sensitive_without_systemd source target fstype options sensitive_options =
    err (errorf "MountSensitiveWithoutSystemd is not implemented")

unfoldable pub mount_sensitive_without_systemd_with_mount_flags :
    String → String → String → List String → List String → List String → Result Fault (Unit {0})
mount_sensitive_without_systemd_with_mount_flags source target fstype options sensitive_options
      mount_flags =
    err (errorf "MountSensitiveWithoutSystemd is not implemented")
