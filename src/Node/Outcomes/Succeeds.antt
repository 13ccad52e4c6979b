-- ===== src/Node/Outcomes/Succeeds.antt =====
-- The handlers succeed on complete requests when the calls that they make do.
use csi_runtime.Base.{String, ◌≡◌, true, false, [], ◌∷◌, List, some, ok, arith, if◌then◌else◌}
use csi_runtime.Rpc.{Errors}
use csi_runtime.VolumeLocks.{has}
use csi_runtime.Csi.{
  Context, NodeUnpublishVolumeRequest, NodePublishVolumeRequest, NodeStageVolumeRequest,
  VolumeCapability, MountVolume, mount,
}
use csi_runtime.Node.Calls
use csi_runtime.Node.Calls.{
  Call, FileInfo, MountPoint, MountResponse, unmount, remove, stat, eval_symlinks, list_mounts,
  detach_block, is_likely_not_mount_point, mount_sensitive, mount_sensitive_without_systemd,
}
use csi_runtime.Node.Capability.{validate_volume_capability, get_mount}
use csi_runtime.Node.Devices.{bind_mount}
use csi_runtime.Node.Server.{Server, is_empty}
use csi_runtime.Node.Publish.{node_publish_volume, check_publish, publish, publish_mount}
use csi_runtime.Node.Stage.{
  Slices, default_fs_type, fs_type_or, response_fs_type, mount_options, node_stage_volume,
  check_stage, stage, attach, stage_access, stage_filesystem, stage_mount, stage_populate,
  mount_response,
}
use csi_runtime.Node.Unpublish.{node_unpublish_volume, unmount_and_remove}
use csi_runtime.Node.World.{Event, Oracle, World, run, semantics}

-- `NodeUnpublishVolume` succeeds for a complete request on a free volume when the unmount and the
-- removal do.
unpublish_succeeds :
    (o : Oracle) (errors : Errors) (req : NodeUnpublishVolumeRequest) (w : World)
    → is_empty req.volume_id ≡ false
    → is_empty req.target_path ≡ false
    → has req.volume_id w.locks.locks ≡ false
    → ((h : List Event) → o h (unmount req.target_path) ≡ ok tt)
    → ((h : List Event) → o h (remove req.target_path) ≡ ok tt)
    → (run o (node_unpublish_volume errors req) w).0 ≡ ok tt
unfolding semantics node_unpublish_volume unmount_and_remove
unpublish_succeeds o errors req w i t free u r = ground (
  arith,
  u w.history,
  r ((unmount req.target_path, o w.history (unmount req.target_path)) ∷ w.history),
)

-- `NodePublishVolume` succeeds for a complete request to mount, on a free volume of a manager without
-- checks of its own, when both paths are directories, nothing is mounted on the target path, as the
-- mounter says, and the mounter mounts as it is asked to.
pub publish_succeeds :
    (o : Oracle) (errors : Errors) (ns : Server) (req : NodePublishVolumeRequest)
    (vc : VolumeCapability) (m : MountVolume) (target staging : FileInfo) (w : World)
    → is_empty req.volume_id ≡ false
    → is_empty req.staging_target_path ≡ false
    → has req.volume_id w.locks.locks ≡ false
    → req.volume_capability ≡ some vc
    → validate_volume_capability vc ≡ ok tt
    → vc.access_type ≡ some (mount m)
    → ns.manager.validates ≡ false
    → target.is_dir ≡ true
    → staging.is_dir ≡ true
    → ((h : List Event) → o h (stat req.target_path) ≡ ok target)
    → ((h : List Event) → o h (stat req.staging_target_path) ≡ ok staging)
    → ((h : List Event) → o h (is_likely_not_mount_point req.target_path) ≡ ok true)
    → ((h : List Event) (a : List String)
        → o h (mount_sensitive_without_systemd req.staging_target_path req.target_path "" a [])
          ≡ ok tt)
    → (run o (node_publish_volume errors ns req) w).0 ≡ ok tt
unfolding semantics node_publish_volume check_publish publish publish_mount bind_mount
publish_succeeds o errors ns req vc m target staging w i s free c v a n dt ds at_target at_staging
      nm mo =
    let h = (stat req.target_path, o w.history (stat req.target_path)) ∷ w.history in
    let h' =
      (is_likely_not_mount_point req.target_path, o h (is_likely_not_mount_point req.target_path))
      ∷ h in
    let h'' = (stat req.staging_target_path, o h' (stat req.staging_target_path)) ∷ h' in
    ground (
      arith,
      v,
      at_target w.history,
      nm h,
      at_staging h',
      mo h'' ("bind" ∷ (if req.readonly then "ro" ∷ [] else [])),
    )

-- `NodeStageVolume` succeeds for a complete request to mount, on a free volume of a manager that
-- has `Mount` and neither `Block` nor `Populate` nor checks of its own, when the staging path is a
-- directory and the manager asks for a mount without formatting, which the mounter does.
pub stage_succeeds :
    (o : Oracle) (errors : Errors) (slices : Slices) (ns : Server) (req : NodeStageVolumeRequest)
    (vc : VolumeCapability) (m : MountVolume) (dir : FileInfo) (r : MountResponse) (w : World)
    → is_empty req.volume_id ≡ false
    → is_empty req.staging_target_path ≡ false
    → has req.volume_id w.locks.locks ≡ false
    → req.volume_capability ≡ some vc
    → validate_volume_capability vc ≡ ok tt
    → vc.access_type ≡ some (mount m)
    → ns.manager.validates ≡ false
    → ns.manager.mounts ≡ true
    → ns.manager.populates ≡ false
    → ns.manager.blocks ≡ false
    → dir.is_dir ≡ true
    → r.format ≡ false
    → ((h : List Event) → o h (stat req.staging_target_path) ≡ ok dir)
    → ((h : List Event) (p t : String) (a b c : Context)
        → o h (Calls.mount p t a b c) ≡ ok (some r))
    → ((h : List Event) (f : String) (a b : List String)
        → o h (mount_sensitive r.source req.staging_target_path f a b) ≡ ok tt)
    → (run o (node_stage_volume errors slices ns req) w).0 ≡ ok tt
unfolding semantics node_stage_volume check_stage stage attach stage_access stage_filesystem
    stage_mount stage_populate mount_response
stage_succeeds o errors slices ns req vc m dir r w i s free c v a nv nm np nb d f st ma mo =
    let h =
      (stat req.staging_target_path, o w.history (stat req.staging_target_path)) ∷ w.history in
    let asked =
      Calls.mount req.staging_target_path (fs_type_or (get_mount vc.access_type) default_fs_type)
        req.volume_context req.publish_context req.secrets in
    let mnt = get_mount vc.access_type in
    let t = response_fs_type mnt r in
    let options = mount_options slices vc mnt t in
    ground (
      arith,
      v,
      st w.history,
      ma h req.staging_target_path (fs_type_or mnt default_fs_type) req.volume_context
          req.publish_context req.secrets,
      mo ((asked, o h asked) ∷ h) t (slices.union options r.options)
          (slices.difference r.sensitive_options options),
    )
