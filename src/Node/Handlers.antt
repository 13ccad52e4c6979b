-- ===== src/Node/Handlers.antt =====
-- The four handlers of volumes under the locking discipline.
use csi_runtime.Base.{String, false, not, Option, none, some, ok, err}
use csi_runtime.Base.Prog.{ask}
use csi_runtime.Base.AllCalls.{AllCalls, all_ret, all_call, all_calls}
use csi_runtime.Rpc.{Error, Errors}
use csi_runtime.Csi.{
  VolumeCapability, AccessType, block, mount, NodePublishVolumeRequest, NodeStageVolumeRequest,
  NodeUnstageVolumeRequest, NodeUnpublishVolumeRequest,
}
use csi_runtime.Node.Calls.{Op, MountResponse}
use csi_runtime.Node.Devices.{get_device_from_path, get_device_from_mount, bind_mount}
use csi_runtime.Node.Asks.{asks}
use csi_runtime.Node.Server.{Server, require_text, require_some, is_volume_path_mounted}
use csi_runtime.Node.Unpublish.{unmount_and_remove, node_unpublish_volume}
use csi_runtime.Node.Unstage.{unmount_and_detach, unstage_mount, unstage, node_unstage_volume}
use csi_runtime.Node.Publish.{
  check_publish, publish_block, publish_mount, publish, node_publish_volume,
}
use csi_runtime.Node.Stage.{
  Slices, check_stage, attach, stage_block, mount_response, stage_mount, stage_populate,
  stage_filesystem, stage_access, stage, node_stage_volume,
}
use csi_runtime.Node.Guarded.{IsExt, IsQuery, Guarded, mutates, guarded}

pub AllCalls-require_text : {P : Op → Type 0} (s m : String) → AllCalls P (require_text s m)
unfolding require_text
AllCalls-require_text s m = search all_calls

pub AllCalls-require_some :
    {P : Op → Type 0} {A : Type 0} (o : Option A) (e : Error) → AllCalls P (require_some o e)
unfolding require_some
AllCalls-require_some none e = all_ret (err e)
AllCalls-require_some (some a) e = all_ret (ok a)

-- The bodies that run under the lock leave the locks alone.
ruleset bodies = (all_calls, asks, tt)

pub AllCalls-is_volume_path_mounted : (path : String) → AllCalls IsExt (is_volume_path_mounted path)
unfolding is_volume_path_mounted ask
AllCalls-is_volume_path_mounted path =
    all_call _ _ tt (elim [ ok not_mnt ↦ all_ret (ok (not not_mnt)) | err e ↦ all_ret (ok false) ])

pub AllCalls-get_device_from_path : (path : String) → AllCalls IsExt (get_device_from_path path)
unfolding get_device_from_path
AllCalls-get_device_from_path path = search bodies depth 12

pub AllCalls-get_device_from_mount : (path : String) → AllCalls IsExt (get_device_from_mount path)
unfolding get_device_from_mount
AllCalls-get_device_from_mount path = search bodies depth 12

pub AllCalls-unmount_and_remove :
    (errors : Errors) (req : NodeUnpublishVolumeRequest)
    → AllCalls IsExt (unmount_and_remove errors req)
unfolding unmount_and_remove
AllCalls-unmount_and_remove errors req = search bodies depth 12

pub AllCalls-unstage :
    (ns : Server) (req : NodeUnstageVolumeRequest) → AllCalls IsExt (unstage ns req)
unfolding unstage unstage_mount unmount_and_detach
AllCalls-unstage ns req =
    search (bodies, AllCalls-get_device_from_path, AllCalls-get_device_from_mount) depth 12

pub AllCalls-publish :
    (errors : Errors) (ns : Server) (req : NodePublishVolumeRequest) (a : Option AccessType)
    → AllCalls IsExt (publish errors ns req a)
unfolding publish publish_block publish_mount bind_mount
AllCalls-publish errors ns req none = search bodies
AllCalls-publish errors ns req (some block) =
    search (bodies, AllCalls-get_device_from_path) depth 12
AllCalls-publish errors ns req (some (mount m)) =
    search (bodies, AllCalls-is_volume_path_mounted) depth 12

pub AllCalls-check_publish :
    (errors : Errors) (ns : Server) (req : NodePublishVolumeRequest) (vc : VolumeCapability)
    → AllCalls IsQuery (check_publish errors ns req vc)
unfolding check_publish mutates
AllCalls-check_publish errors ns req vc = search (all_calls, asks) depth 12

module _ (errors : Errors) (slices : Slices) (ns : Server) (req : NodeStageVolumeRequest) where
  AllCalls-mount_response :
      (vc : VolumeCapability) (m : Option MountResponse)
      → AllCalls IsExt (mount_response errors slices ns req vc m)
  unfolding mount_response
  AllCalls-mount_response vc none = search bodies
  AllCalls-mount_response vc (some m) = search bodies depth 12

  AllCalls-stage :
      (vc : VolumeCapability) (path : String) (a : Option AccessType)
      → AllCalls IsExt (stage_access errors slices ns req vc path a)
  unfolding stage_access stage_block stage_filesystem stage_mount stage_populate
  AllCalls-stage vc path none = search bodies
  AllCalls-stage vc path (some block) = search bodies depth 12
  AllCalls-stage vc path (some (mount m)) = search (bodies, AllCalls-mount_response) depth 12

  AllCalls-attach : AllCalls IsExt (attach errors slices ns req)
  unfolding attach
  AllCalls-attach = search bodies depth 12

  pub AllCalls-check_stage :
      (vc : VolumeCapability) → AllCalls IsQuery (check_stage errors slices ns req vc)
  unfolding check_stage mutates
  AllCalls-check_stage vc = search (all_calls, asks) depth 12

pub ruleset handlers = (
  guarded, AllCalls-require_text, AllCalls-require_some, AllCalls-unmount_and_remove,
  AllCalls-unstage, AllCalls-publish, AllCalls-check_publish,
)

pub node_unpublish_volume-Guarded :
    (errors : Errors) (req : NodeUnpublishVolumeRequest)
    → Guarded req.volume_id false (node_unpublish_volume errors req)
unfolding node_unpublish_volume
node_unpublish_volume-Guarded errors req = search handlers depth 12

pub node_unstage_volume-Guarded :
    (ns : Server) (req : NodeUnstageVolumeRequest)
    → Guarded req.volume_id false (node_unstage_volume ns req)
unfolding node_unstage_volume
node_unstage_volume-Guarded ns req = search handlers depth 12

pub node_publish_volume-Guarded :
    (errors : Errors) (ns : Server) (req : NodePublishVolumeRequest)
    → Guarded req.volume_id false (node_publish_volume errors ns req)
unfolding node_publish_volume
node_publish_volume-Guarded errors ns req = search handlers depth 14

pub node_stage_volume-Guarded :
    (errors : Errors) (slices : Slices) (ns : Server) (req : NodeStageVolumeRequest)
    → Guarded req.volume_id false (node_stage_volume errors slices ns req)
unfolding node_stage_volume stage
node_stage_volume-Guarded errors slices ns req =
    search (handlers, AllCalls-stage, AllCalls-attach, AllCalls-check_stage) depth 14
