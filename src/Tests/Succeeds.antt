-- ===== src/Tests/Succeeds.antt =====
-- Requests whose calls all succeed.
use csi_runtime.Base.{List, arith, ◌≡◌, refl, true, false, [], ◌∷◌, ok}
use csi_runtime.VolumeLocks.{has}
use csi_runtime.Node.Capability.{validate_volume_capability, validate_access_mode}
use csi_runtime.Node.Server.{Server, is_empty}
use csi_runtime.Node.Publish.{node_publish_volume}
use csi_runtime.Node.Stage.{node_stage_volume}
use csi_runtime.Node.Calls.{MountPoint}
use csi_runtime.Node.Devices.{device_at}
use csi_runtime.Node.Unstage.{node_unstage_volume}
use csi_runtime.Node.Outcomes.Unstages.{unstage_succeeds}
use csi_runtime.Node.World.{Oracle, run}
use csi_runtime.Node.Outcomes.Succeeds.{publish_succeeds, stage_succeeds}
use csi_runtime.Tests.Data.{
  errors, slices, server, mounted, publish_request, stage_request, unstage_request, directory,
  mount_answer, oracle, world,
}

abbrev dir : Oracle
dir = oracle directory true

free : has "a" [] ≡ false
unfolding has
free = refl

valid : validate_volume_capability mounted ≡ ok tt
unfolding validate_volume_capability validate_access_mode
valid = refl

publish_succeeds_example :
    (run dir (node_publish_volume errors server (publish_request mounted)) world).0 ≡ ok tt
publish_succeeds_example =
    publish_succeeds dir errors server (publish_request mounted) mounted
      (record { fs_type = "xfs"; mount_flags = "noatime" ∷ [] }) directory directory world refl refl
      free refl valid refl refl refl refl (λ h. refl) (λ h. refl) (λ h. refl) (λ h a. refl)

abbrev mounts_only : Server
mounts_only = record server {
  manager = record {
    validates = false;
    mounts = true;
    populates = false;
    blocks = false;
    expands = true;
  };
}

stage_succeeds_example :
    (run dir (node_stage_volume errors slices mounts_only (stage_request mounted)) world).0 ≡ ok tt
stage_succeeds_example =
    stage_succeeds dir errors slices mounts_only (stage_request mounted) mounted
      (record { fs_type = "xfs"; mount_flags = "noatime" ∷ [] }) directory mount_answer world refl
      refl free refl valid refl refl refl refl refl refl refl (λ h. refl) (λ h p t a b c. refl)
      (λ h f a b. refl)

abbrev mounts : List MountPoint
mounts = record { device = "/dev/sda"; path = "/staging" } ∷ []

device_found : is_empty (device_at "/staging" mounts) ≡ false
unfolding device_at
device_found = refl

unstage_succeeds_example :
    (run (oracle directory false) (node_unstage_volume server unstage_request) world).0 ≡ ok tt
unstage_succeeds_example =
    unstage_succeeds (oracle directory false) server unstage_request "/staging" directory mounts
      (λ h. omega arith) device_found (λ h. refl) (λ h. refl) (λ h. refl) (λ h. refl) (λ h. refl)
      (λ h d. refl) world refl refl free
