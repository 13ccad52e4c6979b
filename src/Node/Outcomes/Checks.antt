-- ===== src/Node/Outcomes/Checks.antt =====
-- What the handlers check of a request, and what they do not.
use csi_runtime.Base.{◌≡◌, ◌≢◌, ◌↔◌, true, false, [], ◌∷◌, none, some, ok, err, arith}
use csi_runtime.Rpc.{Error, Errors, status, failed_precondition}
use csi_runtime.Csi.{NodePublishVolumeRequest, NodeStageVolumeRequest, VolumeCapability}
use csi_runtime.Node.Calls.{stat, format_and_mount_sensitive, MountResponse}
use csi_runtime.Node.Capability.{validate_volume_capability, validate_access_mode, get_mount}
use csi_runtime.Node.Server.{Server, is_empty}
use csi_runtime.Node.Publish.{check_publish, node_publish_volume}
use csi_runtime.Node.Stage.{Slices, mount_options, response_fs_type, mount_response}
use csi_runtime.Node.World.{Oracle, World, run, semantics}

-- A volume capability is accepted exactly when it has an access mode and an access type.
validate_iff :
    (vc : VolumeCapability)
    → (validate_volume_capability vc ≡ ok tt) ↔ ((vc.access_mode ≢ none) × (vc.access_type ≢ none))
unfolding validate_volume_capability validate_access_mode
validate_iff vc = ground arith

-- An empty target path is not refused as an invalid argument: it is handed to `os.Stat`, and a request
-- that is complete but for it fails on the answer, as a failed precondition.
empty_target_path :
    (o : Oracle) (errors : Errors) (ns : Server) (req : NodePublishVolumeRequest)
    (vc : VolumeCapability) (e : Error) (w : World)
    → is_empty req.volume_id ≡ false
    → is_empty req.staging_target_path ≡ false
    → req.target_path ≡ ""
    → req.volume_capability ≡ some vc
    → validate_volume_capability vc ≡ ok tt
    → ns.manager.validates ≡ false
    → o w.history (stat "") ≡ err e
    → run o (node_publish_volume errors ns req) w ≡ (
      err (
          status failed_precondition "Can't stat target path '%s': %v"
            ("" ∷ errors.message e ∷ [])),
      record w { history = (stat "", err e) ∷ w.history },
    )
unfolding semantics node_publish_volume check_publish
empty_target_path o errors ns req vc e w i s t c v n a = ground arith

module _ (o : Oracle) (errors : Errors) (slices : Slices) (ns : Server)
    (req : NodeStageVolumeRequest) where
  -- Where the manager asks to format, the file system type is the one that its response names, be it
  -- empty, and not the type that the capability asks for.
  format_ignores_capability :
      (vc : VolumeCapability) (m : MountResponse) (w : World)
      → m.format ≡ true
      → let options =
          mount_options slices vc
            (get_mount vc.access_type)
            (response_fs_type (get_mount vc.access_type) m) in
        let asked =
          format_and_mount_sensitive m.source req.staging_target_path m.fstype
            (slices.union options m.options)
            (slices.difference m.sensitive_options options) in
        (run o (mount_response errors slices ns req vc (some m)) w).1.history
        ≡ (asked, o w.history asked) ∷ w.history
  unfolding semantics mount_response
  format_ignores_capability vc m w f = ground arith
