-- ===== src/Tests/Outcomes.antt =====
-- The handlers on complete requests.
use csi_runtime.Base.{◌≡◌, ◌≢◌, refl, true, false, List, [], ◌∷◌, none, some, ok, arith}
use csi_runtime.VolumeLocks.{has}
use csi_runtime.Csi.{mount}
use csi_runtime.Node.Calls
use csi_runtime.Node.Calls.{Call, Answer, MountResponse, FileInfo}
use csi_runtime.Node.Capability.{validate_volume_capability, validate_access_mode}
use csi_runtime.Node.Devices.{get_device_from_path, get_device_from_mount, device_at, bind_mount}
use csi_runtime.Node.Publish.{node_publish_volume, check_publish, publish, publish_mount}
use csi_runtime.Node.Stage.{
  node_stage_volume, check_stage, stage, attach, stage_access, stage_filesystem, stage_mount,
  stage_populate, mount_response,
}
use csi_runtime.Node.Unstage.{node_unstage_volume, unstage, unstage_mount, unmount_and_detach}
use csi_runtime.Node.Unpublish.{node_unpublish_volume, unmount_and_remove}
use csi_runtime.Node.World.{Event, Oracle, run, semantics}
use csi_runtime.Node.Outcomes.Stage.{Staged, stage_ok}
use csi_runtime.Node.Outcomes.Publish.{Published, publish_ok}
use csi_runtime.Node.Outcomes.Unstage.{unpublish_ok, Unstaged, unstage_ok}
use csi_runtime.Node.Server.{is_empty}
use csi_runtime.Tests.Data.{
  errors, slices, server, mounted, publish_request, stage_request, unstage_request,
  unpublish_request, directory, mount_answer, oracle, world,
}

some_differs : {A : Type 0} (a : A) → some a ≢ none
some_differs a h = ground arith

abbrev dir : Oracle
dir = oracle directory true

stage_succeeds :
    (run dir (node_stage_volume errors slices server (stage_request mounted)) world).0 ≡ ok tt
unfolding semantics node_stage_volume check_stage stage attach stage_access stage_filesystem
    stage_mount stage_populate mount_response validate_volume_capability validate_access_mode has
stage_succeeds = refl

stage_ok_example :
    Staged "/staging" mounted.access_type
      (run dir (node_stage_volume errors slices server (stage_request mounted)) world).1.history
stage_ok_example =
    stage_ok dir errors slices server (stage_request mounted) world mounted refl
      (some_differs (mount (record { fs_type = "xfs"; mount_flags = "noatime" ∷ [] })))
      stage_succeeds

publish_succeeds :
    (run dir (node_publish_volume errors server (publish_request mounted)) world).0 ≡ ok tt
unfolding semantics node_publish_volume check_publish publish publish_mount bind_mount
    validate_volume_capability validate_access_mode has
publish_succeeds = refl

publish_ok_example :
    Published
      (publish_request mounted)
      mounted.access_type
      (run dir (node_publish_volume errors server (publish_request mounted)) world).1.history
publish_ok_example =
    publish_ok dir errors server (publish_request mounted) world mounted refl
      (some_differs (mount (record { fs_type = "xfs"; mount_flags = "noatime" ∷ [] })))
      publish_succeeds

unstage_succeeds : (run dir (node_unstage_volume server unstage_request) world).0 ≡ ok tt
unfolding semantics node_unstage_volume unstage unstage_mount unmount_and_detach
    get_device_from_path get_device_from_mount device_at has
unstage_succeeds = refl

unstage_ok_example :
    Unstaged true "/staging" (run dir (node_unstage_volume server unstage_request) world).1.history
unstage_ok_example = unstage_ok dir server unstage_request world unstage_succeeds

unpublish_succeeds :
    (run dir (node_unpublish_volume errors (unpublish_request "a")) world).0 ≡ ok tt
unfolding semantics node_unpublish_volume unmount_and_remove has
unpublish_succeeds = refl

unpublish_ok_example :
    (is_empty "a" ≡ false)
    × (is_empty "/target" ≡ false)
    × (has "a" [] ≡ false)
    × ((run dir (node_unpublish_volume errors (unpublish_request "a")) world).1.history
        ≡ (Calls.remove "/target", ok tt) ∷ (Calls.unmount "/target", ok tt) ∷ [])
unpublish_ok_example = unpublish_ok dir errors (unpublish_request "a") world unpublish_succeeds

abbrev answered : List Event
answered =
    (run dir
      (mount_response errors slices server (stage_request mounted) mounted (some mount_answer))
      world).1.history
