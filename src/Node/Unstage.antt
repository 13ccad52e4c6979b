-- ===== src/Node/Unstage.antt =====
-- `NodeUnstageVolume` of node/nodeserver.go.
use csi_runtime.Base.{String, if◌then◌else◌, not}
use csi_runtime.Base.Prog.{when◌then◌else◌, succeed, ◌>>=◌, ◌>>◌}
use csi_runtime.Csi.{NodeUnstageVolumeRequest}
use csi_runtime.Node.Calls.{Handler}
use csi_runtime.Node.Asks.{do_unmount, do_remove, do_remove_all, do_detach_block}
use csi_runtime.Node.Server.{Server, require_text, is_empty, locked}
use csi_runtime.Node.Devices.{get_device_from_path, get_device_from_mount}

module _ (ns : Server) (req : NodeUnstageVolumeRequest) where
  -- Of a path that is no device: unmount it, if a device is mounted there, or remove it; then detach.
  unfoldable pub unmount_and_detach : String → Handler (Unit {0})
  unmount_and_detach block_path = do
    when not (is_empty block_path)
        then do_unmount req.staging_target_path
        else do_remove_all req.staging_target_path
    when ns.manager.blocks then do_detach_block block_path else succeed tt

  -- The branch of a path that is no device.
  unfoldable pub unstage_mount : Handler (Unit {0})
  unstage_mount = do
    block_path ← get_device_from_mount req.staging_target_path
    unmount_and_detach block_path

  -- What runs under the lock of the volume.
  unfoldable pub unstage : Handler (Unit {0})
  unstage = do
    block_path ← get_device_from_path req.staging_target_path
    when not (is_empty block_path) then do_remove req.staging_target_path else unstage_mount

  -- `NodeUnstageVolume`
  unfoldable pub node_unstage_volume : Handler (Unit {0})
  node_unstage_volume = do
    require_text req.volume_id "NodeUnstageVolume Volume ID must be provided"
    require_text req.staging_target_path "NodeUnstageVolume Staging Target Path must be provided"
    locked req.volume_id unstage
