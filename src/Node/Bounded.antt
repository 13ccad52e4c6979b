-- ===== src/Node/Bounded.antt =====
-- How many calls a handler of a volume makes at most, those to the volume locks included.
use mathlib.Core.Nat.{ℕ, zero, suc}
use csi_runtime.Base.{String, Bool, true, false, Option, none, some, ok, err}
use csi_runtime.Base.Prog.{ask, bind, succeed}
use csi_runtime.Base.Within.{Within, within_ret, within_call, Within-bind_last, within}
use csi_runtime.Rpc.{Error, Errors}
use csi_runtime.Csi.{
  VolumeCapability, AccessType, block, mount, NodePublishVolumeRequest, NodeStageVolumeRequest,
  NodeUnstageVolumeRequest, NodeUnpublishVolumeRequest,
}
use csi_runtime.Node.Calls.{MountResponse, Handler}
use csi_runtime.Node.Counted.{counted_asks}
use csi_runtime.Node.Devices.{get_device_from_path, get_device_from_mount, bind_mount}
use csi_runtime.Node.Server.{Server, require_text, require_some, is_volume_path_mounted, locked}
use csi_runtime.Node.Unpublish.{unmount_and_remove, node_unpublish_volume}
use csi_runtime.Node.Unstage.{unmount_and_detach, unstage_mount, unstage, node_unstage_volume}
use csi_runtime.Node.Publish.{
  check_publish, publish_block, publish_mount, publish, node_publish_volume,
}
use csi_runtime.Node.Stage.{
  Slices, check_stage, attach, stage_block, mount_response, stage_mount, stage_populate,
  stage_filesystem, stage_access, stage, node_stage_volume,
}

abbrev two : ℕ
two = suc (suc zero)

abbrev pub three : ℕ
three = suc two

abbrev five : ℕ
five = suc (suc three)

abbrev pub seven : ℕ
seven = suc (suc five)

-- Every handler makes at most this many.
abbrev pub nine : ℕ
nine = suc (suc seven)

ruleset counted = (within, counted_asks)

Within-get_device_from_path : (path : String) → Within two (get_device_from_path path)
unfolding get_device_from_path
Within-get_device_from_path path = search counted depth 12

Within-get_device_from_mount : (path : String) → Within three (get_device_from_mount path)
unfolding get_device_from_mount
Within-get_device_from_mount path = search counted depth 12

Within-is_volume_path_mounted :
    (n : ℕ) (path : String) → Within (suc n) (is_volume_path_mounted path)
unfolding is_volume_path_mounted ask bind succeed
Within-is_volume_path_mounted n path =
    within_call n _ _ (elim [ ok not_mnt ↦ within_ret n _ | err e ↦ within_ret n _ ])

Within-bind_mount : (n : ℕ) (s t : String) (b : Bool) → Within (suc n) (bind_mount s t b)
unfolding bind_mount
Within-bind_mount n s t b = search counted

Within-require_text : (n : ℕ) (s m : String) → Within n (require_text s m)
unfolding require_text
Within-require_text n s m = search counted

Within-require_some : {A : Type 0} (n : ℕ) (o : Option A) (e : Error) → Within n (require_some o e)
unfolding require_some
Within-require_some n none e = search counted
Within-require_some n (some a) e = search counted

Within-locked :
    {A : Type 0} (n : ℕ) (id : String) (body : Handler A)
    → Within n body
    → Within (suc (suc n)) (locked id body)
unfolding locked
Within-locked n id body w = within_call (suc n) _ _ (elim [
  | false ↦ within_ret (suc n) _
  | true ↦ Within-bind_last n body _ w (λ r k. within_call k _ _ (λ _. within_ret k r))
])

ruleset steps = (
  counted, Within-get_device_from_path, Within-get_device_from_mount, Within-is_volume_path_mounted,
  Within-bind_mount, Within-require_text, Within-require_some, Within-locked,
)

Within-unmount_and_remove :
    (errors : Errors) (req : NodeUnpublishVolumeRequest)
    → Within two (unmount_and_remove errors req)
unfolding unmount_and_remove
Within-unmount_and_remove errors req = search steps depth 12

Within-unmount_and_detach :
    (ns : Server) (req : NodeUnstageVolumeRequest) (path : String)
    → Within two (unmount_and_detach ns req path)
unfolding unmount_and_detach
Within-unmount_and_detach ns req path = search steps depth 12

Within-unstage_mount :
    (ns : Server) (req : NodeUnstageVolumeRequest) → Within five (unstage_mount ns req)
unfolding unstage_mount
Within-unstage_mount ns req = search (steps, Within-unmount_and_detach) depth 12

Within-unstage : (ns : Server) (req : NodeUnstageVolumeRequest) → Within seven (unstage ns req)
unfolding unstage
Within-unstage ns req = search (steps, Within-unstage_mount) depth 12

module _ (errors : Errors) (ns : Server) (req : NodePublishVolumeRequest) where
  Within-publish : (a : Option AccessType) → Within three (publish errors ns req a)
  unfolding publish publish_block publish_mount
  Within-publish none = search steps
  Within-publish (some block) = search steps depth 12
  Within-publish (some (mount m)) = search steps depth 12

  Within-check_publish : (vc : VolumeCapability) → Within two (check_publish errors ns req vc)
  unfolding check_publish
  Within-check_publish vc = search steps depth 12

module _ (errors : Errors) (slices : Slices) (ns : Server) (req : NodeStageVolumeRequest) where
  Within-mount_response :
      (n : ℕ) (vc : VolumeCapability) (m : Option MountResponse)
      → Within (suc n) (mount_response errors slices ns req vc m)
  unfolding mount_response
  Within-mount_response n vc none = search steps
  Within-mount_response n vc (some m) = search steps depth 12

  Within-stage_mount : (vc : VolumeCapability) → Within two (stage_mount errors slices ns req vc)
  unfolding stage_mount
  Within-stage_mount vc = search (steps, Within-mount_response) depth 12

  Within-stage_populate :
      (n : ℕ) (b : Bool) → Within (suc n) (stage_populate errors slices ns req b)
  unfolding stage_populate
  Within-stage_populate n b = search steps depth 12

  Within-stage_access :
      (vc : VolumeCapability) (path : String) (a : Option AccessType)
      → Within three (stage_access errors slices ns req vc path a)
  unfolding stage_access stage_block stage_filesystem
  Within-stage_access vc path none = search steps
  Within-stage_access vc path (some block) = search steps depth 12
  Within-stage_access vc path (some (mount m)) =
      search (steps, Within-stage_mount, Within-stage_populate) depth 12

  Within-attach : (n : ℕ) → Within (suc n) (attach errors slices ns req)
  unfolding attach
  Within-attach n = search steps depth 12

  Within-check_stage : (vc : VolumeCapability) → Within two (check_stage errors slices ns req vc)
  unfolding check_stage
  Within-check_stage vc = search steps depth 12

  Within-stage : (vc : VolumeCapability) → Within (suc three) (stage errors slices ns req vc)
  unfolding stage
  Within-stage vc = search (steps, Within-attach, Within-stage_access) depth 12

pub node_unpublish_volume-Within :
    (errors : Errors) (req : NodeUnpublishVolumeRequest)
    → Within (suc three) (node_unpublish_volume errors req)
unfolding node_unpublish_volume
node_unpublish_volume-Within errors req = search (steps, Within-unmount_and_remove) depth 12

pub node_unstage_volume-Within :
    (ns : Server) (req : NodeUnstageVolumeRequest) → Within nine (node_unstage_volume ns req)
unfolding node_unstage_volume
node_unstage_volume-Within ns req = search (steps, Within-unstage) depth 12

pub node_publish_volume-Within :
    (errors : Errors) (ns : Server) (req : NodePublishVolumeRequest)
    → Within seven (node_publish_volume errors ns req)
unfolding node_publish_volume
node_publish_volume-Within errors ns req =
    search (steps, Within-publish, Within-check_publish) depth 14 fits 30000

pub node_stage_volume-Within :
    (errors : Errors) (slices : Slices) (ns : Server) (req : NodeStageVolumeRequest)
    → Within (suc seven) (node_stage_volume errors slices ns req)
unfolding node_stage_volume
node_stage_volume-Within errors slices ns req =
    search (steps, Within-stage, Within-check_stage) depth 14 fits 30000
