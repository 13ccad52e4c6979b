-- ===== src/Node/Obeys.antt =====
-- The handler of each request for the node server does to the mounts what its contract allows.
use csi_runtime.Base.{
  ◌≡◌, refl, ap, ◌∙◌, true, false, ◌⊎◌, inl, inr, Bool-cases, some, Result, ok, err, arith,
}
use csi_runtime.Rpc.{Error}
use csi_runtime.Csi
use csi_runtime.Csi.{
  NodePublishVolumeRequest, NodeStageVolumeRequest, NodeUnstageVolumeRequest,
  NodeUnpublishVolumeRequest, VolumeCapability, MountVolume, AccessType,
}
use csi_runtime.Node.Devices.{get_device_from_path, get_device_from_mount}
use csi_runtime.Node.Server.{is_empty}
use csi_runtime.Node.Publish.{node_publish_volume, check_publish, publish, publish_block}
use csi_runtime.Node.Unpublish.{node_unpublish_volume, unmount_and_remove}
use csi_runtime.Node.Unstage.{node_unstage_volume, unstage, unstage_mount, unmount_and_detach}
use csi_runtime.Node.Requests.{Request, Service, handle}
use csi_runtime.Node.Requests
use csi_runtime.Node.Mounts.{mounts, unmounted, is_mounted, TellsMounts, publish-MountsOnce, is_ok}
use csi_runtime.Node.Staged.{NamesSources, stage-MayMount}
use csi_runtime.Node.Adds.{stage_settled}
use csi_runtime.Node.Unstaged.{TellsSource, node_unstage_volume-Unmounts}
use csi_runtime.Node.Contract
use csi_runtime.Node.Contract.{
  Stacks, push, pop, Allows, Course, Named, Allows-Named, for_mounting, mounting_cases,
}
use csi_runtime.Node.Stacked.{
  mounted_at, mounted_at-cons, mounted_at-unmounted, mounted_at-free, mounted_at-taken,
  mounted_at-HasSource,
}
use csi_runtime.Node.World.{Oracle, World, run, semantics}

-- The sources on each path in a world.
abbrev pub stacks : World → Stacks
stacks w = mounted_at (mounts w.history)

-- What is asked of a request: a path that is unstaged is no device and no link, and the list of the
-- mounts tells its source.
abbrev pub Fits : Oracle → Request → Type 0
Fits o (Requests.unstage r) = TellsSource o r.staging_target_path
Fits o r = Unit {0}

module _ (o : Oracle) (s : Service) (names : NamesSources o) (tells : TellsMounts o) where
  stage-Allows :
      (r : NodeStageVolumeRequest) (w : World)
      → let v = run o (handle s (Requests.stage r)) w in
        Allows s.server.manager.populates (Requests.stage r) (is_ok v.0) (stacks w) (stacks v.1)
  stage-Allows r w = elim (stage-MayMount o s.errors s.slices s.server r names w) [
    | inl same ↦
        rw same (
          Contract.nothing_staged r _ _ (stage_settled o s.errors s.slices s.server r names w same))
    | inr (source, given, same) ↦
        rw
          (
            same,
            mounted_at-cons (record { device = source; path = r.staging_target_path })
                (mounts w.history),
          )
          (Contract.staged r _ _ source given)
  ]

  unpublish-may :
      (r : NodeUnpublishVolumeRequest) (w : World)
      → let v = (run o (node_unpublish_volume s.errors r) w) in
        (mounts v.1.history ≡ unmounted r.target_path (mounts w.history))
        ⊎ ((mounts v.1.history ≡ mounts w.history) × (is_ok v.0 ≡ false))
  unfolding semantics node_unpublish_volume unmount_and_remove mounts
  unpublish-may r w = ground arith

  unstage-may :
      (r : NodeUnstageVolumeRequest) (w : World)
      → let v = (run o (node_unstage_volume s.server r) w) in
        (mounts v.1.history ≡ unmounted r.staging_target_path (mounts w.history))
        ⊎ (mounts v.1.history ≡ mounts w.history)
  unfolding semantics node_unstage_volume unstage unstage_mount unmount_and_detach
      get_device_from_path get_device_from_mount mounts
  unstage-may r w = ground arith

  unpublish-Allows :
      (r : NodeUnpublishVolumeRequest) (w : World)
      → let v = run o (handle s (Requests.unpublish r)) w in
        Allows s.server.manager.populates (Requests.unpublish r) (is_ok v.0) (stacks w) (stacks v.1)
  unpublish-Allows r w = elim (unpublish-may r w) [
    | inl less ↦
        rw (less, mounted_at-unmounted r.target_path (mounts w.history))
          (Contract.unpublished r _ _)
    | inr (same, failed) ↦ rw (same, failed) (Contract.not_unpublished r _)
  ]

  ok_tt : (r : Result Error (Unit {0})) → is_ok r ≡ true → r ≡ ok tt
  ok_tt (ok tt) h = refl
  ok_tt (err e) h = absurd (cc h)

  unstage-Allows :
      (r : NodeUnstageVolumeRequest) (w : World)
      → TellsSource o r.staging_target_path
      → Named (stacks w)
      → let v = run o (handle s (Requests.unstage r)) w in
        Allows s.server.manager.populates (Requests.unstage r) (is_ok v.0) (stacks w) (stacks v.1)
  unstage-Allows r w source named =
      let v = run o (handle s (Requests.unstage r)) w in
      let fewer =
        λ (less : mounts v.1.history ≡ unmounted r.staging_target_path (mounts w.history)).
          ap mounted_at less ∙ mounted_at-unmounted r.staging_target_path (mounts w.history) in
      elim (Bool-cases (is_ok v.0)) [
        | inl succeeded ↦
            rw
              (fewer (
                node_unstage_volume-Unmounts o s.server r tells source w
                  (mounted_at-HasSource _ _ (named r.staging_target_path)) (ok_tt v.0 succeeded)))
              (Contract.unstaged r _ _)
        | inr failed ↦ elim (unstage-may r w) [
          | inl less ↦ rw (fewer less) (Contract.unstaged r _ _)
          | inr same ↦ rw (failed, ap mounted_at same) (Contract.not_unstaged r _)
        ]
      ]

  -- A publish that succeeds has a staging path.
  publish_given :
      (r : NodePublishVolumeRequest) (w : World)
      → is_ok (run o (node_publish_volume s.errors s.server r) w).0 ≡ true
      → is_empty r.staging_target_path ≡ false
  unfolding semantics node_publish_volume
  publish_given r w h = ground arith

  publish_mount-Allows :
      (r : NodePublishVolumeRequest) (vc : VolumeCapability) (m : MountVolume) (w : World)
      → r.volume_capability ≡ some vc
      → vc.access_type ≡ some (Csi.mount m)
      → let v = run o (handle s (Requests.publish r)) w in
        Allows s.server.manager.populates (Requests.publish r) (is_ok v.0) (stacks w) (stacks v.1)
  publish_mount-Allows r vc m w cap access =
      let v = run o (handle s (Requests.publish r)) w in
      let once = publish-MountsOnce o s.errors s.server r tells vc m cap access w in
      elim (Bool-cases (is_ok v.0)) [
        | inl succeeded ↦ elim (Bool-cases (is_mounted r.target_path (mounts w.history))) [
          | inl taken ↦
              rw (once, succeeded, taken)
                (Contract.already_published r _ (mounted_at-taken _ _ taken))
          | inr free ↦
              rw
                (
                  once,
                  succeeded,
                  free,
                  mounted_at-cons (record { device = r.staging_target_path; path = r.target_path })
                      (mounts w.history),
                )
                (Contract.published r _ (mounted_at-free _ _ free) (publish_given r w succeeded))
        ]
        | inr failed ↦ rw (once, failed) (Contract.not_published r _)
      ]

  publish_device-mounts :
      (r : NodePublishVolumeRequest) (w : World)
      → for_mounting r.volume_capability ≡ false
      → mounts (run o (node_publish_volume s.errors s.server r) w).1.history ≡ mounts w.history
  unfolding semantics node_publish_volume check_publish publish publish_block get_device_from_path
      mounts
  publish_device-mounts r w h = ground arith

  publish-Allows :
      (r : NodePublishVolumeRequest) (w : World)
      → let v = run o (handle s (Requests.publish r)) w in
        Allows s.server.manager.populates (Requests.publish r) (is_ok v.0) (stacks w) (stacks v.1)
  publish-Allows r w = elim (mounting_cases r.volume_capability) [
    | inl device ↦ rw (publish_device-mounts r w device) (Contract.published_as_device r _ _ device)
    | inr (vc, m, cap, access) ↦ publish_mount-Allows r vc m w cap access
  ]

  -- Of each request, the handler does to the mounts what is allowed.
  pub handle-Allows :
      (r : Request) (w : World)
      → Fits o r
      → Named (stacks w)
      → let v = run o (handle s r) w in
        Allows s.server.manager.populates r (is_ok v.0) (stacks w) (stacks v.1)
  handle-Allows (Requests.publish r) w fits named = publish-Allows r w
  handle-Allows (Requests.stage r) w fits named = stage-Allows r w
  handle-Allows (Requests.unstage r) w fits named = unstage-Allows r w fits named
  handle-Allows (Requests.unpublish r) w fits named = unpublish-Allows r w
