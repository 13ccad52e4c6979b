-- ===== src/Node/Unpublish.antt =====
-- `NodeUnpublishVolume` of node/nodeserver.go.
use csi_runtime.Base.{[], ◌∷◌}
use csi_runtime.Base.Prog.{map_err, succeed, ◌>>◌}
use csi_runtime.Rpc.{Errors, status, internal}
use csi_runtime.Csi.{NodeUnpublishVolumeRequest}
use csi_runtime.Node.Calls.{Handler}
use csi_runtime.Node.Asks.{do_unmount, do_remove}
use csi_runtime.Node.Server.{require_text, locked}

module _ (errors : Errors) (req : NodeUnpublishVolumeRequest) where
  -- What runs under the lock of the volume.
  unfoldable pub unmount_and_remove : Handler (Unit {0})
  unmount_and_remove = do
    map_err
        (λ e.
          status internal "Unmount failed: %v\nUnmounting arguments: %s\n"
            (errors.message e ∷ req.target_path ∷ []))
        (do_unmount req.target_path)
    map_err (λ e. status internal "cleanup failed: %w" (errors.message e ∷ []))
        (do_remove req.target_path)
    succeed tt

  -- `NodeUnpublishVolume`
  unfoldable pub node_unpublish_volume : Handler (Unit {0})
  node_unpublish_volume = do
    require_text req.volume_id "NodeUnpublishVolume Volume ID must be provided"
    require_text req.target_path "NodeUnpublishVolume Target Path must be provided"
    locked req.volume_id unmount_and_remove
