-- ===== src/Node/Cycle.antt =====
-- The life of a volume on a node: staged, published, unpublished and unstaged.
use csi_runtime.Base.{
  ℕ, String, ◌≡◌, ◌∙◌, refl, sym, ap, true, false, ◌⊎◌, inl, inr, List, ◌∷◌, some, ok, arith,
  eq_iff, str_eq,
}
use csi_runtime.Rpc.{Errors}
use csi_runtime.Csi.{
  NodeStageVolumeRequest, NodePublishVolumeRequest, NodeUnpublishVolumeRequest,
  NodeUnstageVolumeRequest, VolumeCapability, MountVolume,
}
use csi_runtime.Csi
use csi_runtime.Node.Calls.{MountPoint}
use csi_runtime.Node.Devices.{device_at}
use csi_runtime.Node.Server.{Server, is_empty}
use csi_runtime.Node.Stage.{Slices, node_stage_volume}
use csi_runtime.Node.Publish.{node_publish_volume}
use csi_runtime.Node.Unpublish.{node_unpublish_volume}
use csi_runtime.Node.Unstage.{node_unstage_volume}
use csi_runtime.Node.Mounts.{mounts, unmounted, is_mounted, TellsMounts}
use csi_runtime.Node.Retries.{attempts, publish-unpublish}
use csi_runtime.Node.Staged.{NamesSources, stage-MayMount}
use csi_runtime.Node.Unstaged.{TellsSource, HasSource, unmounted-free, node_unstage_volume-Unmounts}
use csi_runtime.Node.World.{Oracle, World, run}

-- The mounts after a stage on the path `p`.
abbrev Staged : String → List MountPoint → List MountPoint → Type 0
Staged p before after =
    (after ≡ before)
    ⊎ ((source : String) × (is_empty source ≡ false)
        × (after ≡ record { device = source; path = p } ∷ before))

str_eq_refl : (p : String) → str_eq p p ≡ true
str_eq_refl p = ground (arith, eq_iff p p)

module _ (p : String) (before after : List MountPoint) (free : is_mounted p before ≡ false) where
  Staged-HasSource : Staged p before after → HasSource p after
  unfolding is_mounted device_at
  Staged-HasSource (inl same) is = ground (arith, same, is, free)
  Staged-HasSource (inr (source, named, same)) is = rw same (rw (str_eq_refl p) named)

  Staged-unmounted : Staged p before after → unmounted p after ≡ before
  unfolding is_mounted unmounted
  Staged-unmounted (inl same) = rw same (unmounted-free p before free)
  Staged-unmounted (inr (source, named, same)) = rw same (rw (str_eq_refl p) refl)

  Staged-free :
      (q : String)
      → str_eq p q ≡ false
      → is_mounted q before ≡ false
      → Staged p before after
      → is_mounted q after ≡ false
  unfolding is_mounted
  Staged-free q other none (inl same) = rw same none
  Staged-free q other none (inr (source, named, same)) = rw same (rw other none)

module _ (o : Oracle) (errors : Errors) (slices : Slices) (ns : Server)
    (stage : NodeStageVolumeRequest) (publish : NodePublishVolumeRequest)
    (unpublish : NodeUnpublishVolumeRequest) (unstage : NodeUnstageVolumeRequest)
    (vc : VolumeCapability) (m : MountVolume) where
  -- Nothing is mounted on the staging path nor on the target path, which are not the same;
  -- `IsLikelyNotMountPoint` tells what is mounted; the staging path is no device and no link, and the
  -- list of the mounts tells the source of what is mounted there; the manager names the source of a
  -- mount. When NodeStageVolume succeeds, then an attempt to publish for mounting after any number of
  -- attempts, whatever came of those, then NodeUnpublishVolume of the target path and NodeUnstageVolume of
  -- the staging path, then the mounts are as they were at first.
  pub mounts_come_back :
      TellsMounts o
      → NamesSources o
      → TellsSource o stage.staging_target_path
      → publish.volume_capability ≡ some vc
      → vc.access_type ≡ some (Csi.mount m)
      → unpublish.target_path ≡ publish.target_path
      → unstage.staging_target_path ≡ stage.staging_target_path
      → str_eq stage.staging_target_path publish.target_path ≡ false
      → (w staged published unpublished unstaged : World) (n : ℕ)
      → is_mounted stage.staging_target_path (mounts w.history) ≡ false
      → is_mounted publish.target_path (mounts w.history) ≡ false
      → run o (node_stage_volume errors slices ns stage) w ≡ (ok tt, staged)
      → run o
          (node_publish_volume errors ns publish)
          (attempts o (node_publish_volume errors ns publish) n staged)
        ≡ (ok tt, published)
      → run o (node_unpublish_volume errors unpublish) published ≡ (ok tt, unpublished)
      → run o (node_unstage_volume ns unstage) unpublished ≡ (ok tt, unstaged)
      → mounts unstaged.history ≡ mounts w.history
  mounts_come_back tells names source cap access same same' two w v1 v2 v3 v4 n free free' e1 e2 e3
        e4 =
      let is : Staged stage.staging_target_path (mounts w.history) (mounts v1.history) =
        rw e1 at (stage-MayMount o errors slices ns stage names w) in
      let (_, back) =
        publish-unpublish o errors ns publish unpublish vc m tells cap access same v1
          (Staged-free _ _ _ free publish.target_path two free' is) n v2 v3 e2 e3 in
      ap (λ r. mounts r.1.history) (sym e4)
      ∙ node_unstage_volume-Unmounts o ns unstage tells (rw same' source) v3
          (rw (same', back) (Staged-HasSource _ _ _ free is)) (ap (λ r. r.0) e4)
      ∙ rw (same', back) (Staged-unmounted _ _ _ free is)
