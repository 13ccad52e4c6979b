-- ===== src/Tests/Retries.antt =====
-- Staging, publishing, unpublishing and unstaging on a host that remembers its mounts.
use csi_runtime.Base.{
  Bool, Option, some, Result, ap, sym, ◌≡◌, refl, true, false, not, [], ◌∷◌, ok, err, if◌then◌else◌,
}
use csi_runtime.Rpc.{Error, other}
use csi_runtime.Node.Calls
use csi_runtime.Node.Calls.{MountPoint, MountResponse}
use csi_runtime.Node.Devices.{bind_mount, get_device_from_path, get_device_from_mount, device_at}
use csi_runtime.Node.Publish.{node_publish_volume, check_publish, publish, publish_mount}
use csi_runtime.Node.Capability.{validate_volume_capability}
use csi_runtime.Node.Unpublish.{node_unpublish_volume, unmount_and_remove}
use csi_runtime.Node.Mounts.{mounts, is_mounted, TellsMounts}
use csi_runtime.Node.Retries.{attempts, publish-unpublish}
use csi_runtime.Node.World.{Oracle, World, run, semantics}
use csi_runtime.VolumeLocks.{has, delete}
use csi_runtime.Base.Prog.{map_err, require, succeed, when◌then◌else◌}
use csi_runtime.Node.Stage.{
  node_stage_volume, check_stage, stage, attach, stage_access, stage_filesystem, stage_mount,
  mount_response, stage_populate,
}
use csi_runtime.Node.Unstage.{node_unstage_volume, unstage, unstage_mount, unmount_and_detach}
use csi_runtime.Node.Staged.{NamesSources}
use csi_runtime.Node.Unstaged.{TellsSource}
use csi_runtime.Node.Cycle.{mounts_come_back}
use csi_runtime.Node.Server.{is_empty}
use csi_runtime.Tests.Data.{
  errors, server, slices, mounted, stage_request, unstage_request, publish_request,
  unpublish_request, answer, directory, world,
}

abbrev pub host : Oracle
host h (Calls.is_likely_not_mount_point p) = ok (not (is_mounted p (mounts h)))
host h (Calls.unmount p) = if is_mounted p (mounts h) then ok tt else err (other "not mounted")
host h Calls.list_mounts = ok (mounts h)
host h c = answer directory true c

pub host-TellsMounts : TellsMounts host
host-TellsMounts h p = refl

abbrev published : World
published =
    (run host (node_publish_volume errors server (publish_request mounted))
      (attempts host (node_publish_volume errors server (publish_request mounted)) 2 world)).1

abbrev unpublished : World
unpublished = (run host (node_unpublish_volume errors (unpublish_request "a")) published).1

published_ok :
    run host
      (node_publish_volume errors server (publish_request mounted))
      (attempts host (node_publish_volume errors server (publish_request mounted)) 2 world)
    ≡ (ok tt, published)
unfolding semantics node_publish_volume check_publish publish publish_mount bind_mount attempts
    mounts is_mounted has delete validate_volume_capability
published_ok = refl

unpublished_ok :
    run host (node_unpublish_volume errors (unpublish_request "a")) published ≡ (ok tt, unpublished)
unfolding semantics node_publish_volume check_publish publish publish_mount bind_mount attempts
    mounts is_mounted has delete validate_volume_capability node_unpublish_volume unmount_and_remove
unpublished_ok = refl

not_mounted : is_mounted "/target" (mounts world.history) ≡ false
unfolding mounts is_mounted
not_mounted = refl

publish-unpublish_example :
    (mounts published.history
      ≡ record { device = "/staging"; path = "/target" } ∷ mounts world.history)
    × (mounts unpublished.history ≡ mounts world.history)
publish-unpublish_example =
    publish-unpublish host errors server (publish_request mounted) (unpublish_request "a") mounted
      (record { fs_type = "xfs"; mount_flags = "noatime" ∷ [] }) host-TellsMounts refl refl refl
      world not_mounted 2 published unpublished published_ok unpublished_ok

-- The worlds after each of the four requests.
abbrev lived : World × World × World × World
lived =
    let a = (run host (node_stage_volume errors slices server (stage_request mounted)) world).1 in
    let b = attempts host (node_publish_volume errors server (publish_request mounted)) 2 a in
    let c = (run host (node_unpublish_volume errors (unpublish_request "a")) b).1 in
    (a, b, c, (run host (node_unstage_volume server unstage_request) c).1)

-- What the handlers compute with.
unfoldable handlers : Unit {0}
unfolding semantics node_publish_volume check_publish publish publish_mount bind_mount attempts
    mounts is_mounted has delete validate_volume_capability node_unpublish_volume unmount_and_remove
    node_stage_volume check_stage stage attach stage_access stage_filesystem stage_mount
    mount_response stage_populate node_unstage_volume unstage unstage_mount unmount_and_detach
    get_device_from_path get_device_from_mount device_at map_err require succeed when◌then◌else◌
handlers = tt

stage_ran :
    run host (node_stage_volume errors slices server (stage_request mounted)) world
    ≡ (ok tt, lived.0)
unfolding handlers
stage_ran = refl

publish_ran :
    run host
      (node_publish_volume errors server (publish_request mounted))
      (attempts host (node_publish_volume errors server (publish_request mounted)) 1 lived.0)
    ≡ (ok tt, lived.1)
unfolding handlers
publish_ran = refl

unpublish_ran :
    run host (node_unpublish_volume errors (unpublish_request "a")) lived.1 ≡ (ok tt, lived.2)
unfolding handlers
unpublish_ran = refl

unstage_ran : run host (node_unstage_volume server unstage_request) lived.2 ≡ (ok tt, lived.3)
unfolding handlers
unstage_ran = refl

staging_not_mounted : is_mounted "/staging" (mounts world.history) ≡ false
unfolding mounts is_mounted
staging_not_mounted = refl

abbrev unnamed : Result Error (Option MountResponse) → Bool
unnamed (ok (some m)) = is_empty m.source
unnamed r = false

pub host-NamesSources : NamesSources host
host-NamesSources h p t a b c m e = ap unnamed (sym e)

pub host-TellsSource : TellsSource host "/staging"
host-TellsSource h = (refl, (directory, refl, refl), (mounts h, refl, refl))

mounts_come_back_example : mounts lived.3.history ≡ mounts world.history
mounts_come_back_example =
    mounts_come_back host errors slices server (stage_request mounted) (publish_request mounted)
      (unpublish_request "a") unstage_request mounted
      (record { fs_type = "xfs"; mount_flags = "noatime" ∷ [] }) host-TellsMounts host-NamesSources
      host-TellsSource refl refl refl refl refl world lived.0 lived.1 lived.2 lived.3 1
      staging_not_mounted not_mounted stage_ran publish_ran unpublish_ran unstage_ran
