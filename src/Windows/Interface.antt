-- ===== src/Windows/Interface.antt =====
-- mount-manager/safe-mounter_windows.go: the interface `CSIProxyMounter`, and the two mounters as it.
use csi_runtime.Base.{ℤ, String, Bool, List}
use csi_runtime.Node.Calls.{MountPoint}
use csi_runtime.Windows.Proxy.{Paths, Io}
use csi_runtime.Windows.V1
use csi_runtime.Windows.V1.Calls as CallsV1
use csi_runtime.Windows.V1beta
use csi_runtime.Windows.V1beta.Calls as CallsBeta

-- The methods beside those of `mount.Interface` and `GetAPIVersions`.
pub record CsiProxyMounter (C : Type 0) (R : C → Type 0) : Type 0 where
  pub remove_pod_dir : String → Io C R (Unit {0})
  pub unmount_device : String → Io C R (Unit {0})
  pub get_disk_number : String → String → String → Io C R String
  pub format_and_mount : String → String → String → List String → Io C R (Unit {0})
  pub is_mount_point_match : MountPoint → String → Bool
  pub exists_path : String → Io C R Bool
  pub get_disk_total_bytes : String → Io C R ℤ

abbrev pub mounter_v1 : Paths → CsiProxyMounter CallsV1.Call CallsV1.Answer
mounter_v1 paths = record {
  remove_pod_dir = V1.remove_pod_dir paths;
  unmount_device = V1.unmount_device paths;
  get_disk_number = V1.get_disk_number;
  format_and_mount = V1.format_and_mount;
  is_mount_point_match = V1.is_mount_point_match;
  exists_path = V1.exists_path paths;
  get_disk_total_bytes = V1.get_disk_total_bytes;
}

abbrev pub mounter_beta : Paths → CsiProxyMounter CallsBeta.Call CallsBeta.Answer
mounter_beta paths = record {
  remove_pod_dir = V1beta.remove_pod_dir paths;
  unmount_device = V1beta.unmount_device paths;
  get_disk_number = V1beta.get_disk_number;
  format_and_mount = V1beta.format_and_mount;
  is_mount_point_match = V1beta.is_mount_point_match;
  exists_path = V1beta.exists_path paths;
  get_disk_total_bytes = V1beta.get_disk_total_bytes;
}
