-- ===== src/Node/Devices.antt =====
-- utils/mount.go: the device behind a path, and bind mounts.
use csi_runtime.Base.{ℕ, ◌^◌, String, Bool, List, [], ◌∷◌, str_eq, ◌==◌, if◌then◌else◌}
use csi_runtime.Base.Prog.{when◌then◌else◌, succeed, ◌>>=◌}
use csi_runtime.Node.Calls.{MountPoint, Handler}
use csi_runtime.Node.Asks.{
  do_eval_symlinks, do_stat, do_is_likely_not_mount_point, do_list_mounts,
  do_mount_sensitive_without_systemd,
}

-- `os.ModeDevice`
abbrev pub mode_device : ℕ
mode_device = 2 ^ 26

-- `GetDeviceFromPath`
unfoldable pub get_device_from_path : String → Handler String
get_device_from_path mount_path = do
  sl_target ← do_eval_symlinks mount_path
  file ← do_stat sl_target
  succeed (if file.mode == mode_device then sl_target else "")

-- The loop of `GetDeviceFromMount` over the mount points.
unfoldable pub device_at : String → List MountPoint → String
device_at path [] = ""
device_at path (mp ∷ mps) = if str_eq mp.path path then mp.device else device_at path mps

-- `GetDeviceFromMount`
unfoldable pub get_device_from_mount : String → Handler String
get_device_from_mount mount_path = do
  sl_target ← do_eval_symlinks mount_path
  not_mnt ← do_is_likely_not_mount_point sl_target
  when not_mnt then succeed "" else do mps ← do_list_mounts; succeed (device_at sl_target mps)

-- `BindMount`
unfoldable pub bind_mount : String → String → Bool → Handler (Unit {0})
bind_mount source destination read_only =
    do_mount_sensitive_without_systemd source destination ""
      ("bind" ∷ (if read_only then "ro" ∷ [] else [])) []
