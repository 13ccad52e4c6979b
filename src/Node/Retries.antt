-- ===== src/Node/Retries.antt =====
-- Publishing and unpublishing a volume, tried again and again.
use csi_runtime.Base.{
  ℕ, zero, suc, ◌≡◌, ◌∙◌, refl, sym, ap, false, ◌⊎◌, inl, List, ◌∷◌, some, ok, arith, eq_iff,
}
use csi_runtime.Rpc.{Errors}
use csi_runtime.Csi.{
  NodePublishVolumeRequest, NodeUnpublishVolumeRequest, VolumeCapability, MountVolume,
}
use csi_runtime.Csi
use csi_runtime.Node.Calls.{Handler, MountPoint}
use csi_runtime.Node.Server.{Server}
use csi_runtime.Node.Publish.{node_publish_volume}
use csi_runtime.Node.Unpublish.{node_unpublish_volume, unmount_and_remove}
use csi_runtime.Node.Mounts.{mounts, unmounted, is_mounted, TellsMounts, publish-MountsOnce}
use csi_runtime.Node.World.{Oracle, World, run, semantics}

-- `n` attempts, whatever their results.
unfoldable pub attempts : {A : Type 0} → Oracle → Handler A → ℕ → World → World
attempts o p zero w = w
attempts o p (suc n) w = (run o p (attempts o p n w)).1

module _ (o : Oracle) (errors : Errors) (ns : Server) (req : NodePublishVolumeRequest)
    (undo : NodeUnpublishVolumeRequest) (vc : VolumeCapability) (m : MountVolume)
    (tells : TellsMounts o) (cap : req.volume_capability ≡ some vc)
    (access : vc.access_type ≡ some (Csi.mount m)) (same : undo.target_path ≡ req.target_path)
    (w : World) (free : is_mounted req.target_path (mounts w.history) ≡ false) where
  abbrev mounted_once : List MountPoint
  mounted_once =
      record { device = req.staging_target_path; path = req.target_path } ∷ mounts w.history

  attempts-mounts :
      (n : ℕ)
      → (mounts (attempts o (node_publish_volume errors ns req) n w).history ≡ mounts w.history)
        ⊎ (mounts (attempts o (node_publish_volume errors ns req) n w).history ≡ mounted_once)
  unfolding attempts is_mounted
  attempts-mounts zero = inl refl
  attempts-mounts (suc n) = ground (
    arith,
    attempts-mounts n,
    publish-MountsOnce o errors ns req tells vc m cap access
        (attempts o (node_publish_volume errors ns req) n w),
    eq_iff req.target_path req.target_path,
  )

  published :
      (n : ℕ)
      → let v = attempts o (node_publish_volume errors ns req) n w in
        (run o (node_publish_volume errors ns req) v).0 ≡ ok tt
        → mounts (run o (node_publish_volume errors ns req) v).1.history ≡ mounted_once
  unfolding is_mounted
  published n e = ground (
    arith,
    attempts-mounts n,
    publish-MountsOnce o errors ns req tells vc m cap access
        (attempts o (node_publish_volume errors ns req) n w),
    eq_iff req.target_path req.target_path,
  )

  unpublish-unmounts :
      (v : World)
      → (run o (node_unpublish_volume errors undo) v).0 ≡ ok tt
      → mounts (run o (node_unpublish_volume errors undo) v).1.history
        ≡ unmounted undo.target_path (mounts v.history)
  unfolding semantics node_unpublish_volume unmount_and_remove mounts
  unpublish-unmounts v e = ground arith

  unmounted_once : unmounted undo.target_path mounted_once ≡ mounts w.history
  unfolding unmounted
  unmounted_once = ground (arith, eq_iff req.target_path undo.target_path)

  unpublished :
      (v u : World)
      → mounts v.history ≡ mounted_once
      → run o (node_unpublish_volume errors undo) v ≡ (ok tt, u)
      → mounts u.history ≡ mounts w.history
  unpublished v u is e =
      ap (λ r. mounts r.1.history) (sym e)
      ∙ unpublish-unmounts v (ap (λ r. r.0) e)
      ∙ ap (unmounted undo.target_path) is
      ∙ unmounted_once

  -- When nothing is mounted on the target path, `IsLikelyNotMountPoint` tells what is mounted, and an
  -- attempt to publish for mounting succeeds after any number of attempts, whatever came of those, then
  -- the staging path is mounted on the target path exactly once more, and a successful unpublish
  -- of the target path leaves the mounts as they were.
  pub publish-unpublish :
      (n : ℕ) (v u : World)
      → run o
          (node_publish_volume errors ns req)
          (attempts o (node_publish_volume errors ns req) n w)
        ≡ (ok tt, v)
      → run o (node_unpublish_volume errors undo) v ≡ (ok tt, u)
      → (mounts v.history ≡ mounted_once) × (mounts u.history ≡ mounts w.history)
  publish-unpublish n v u e e' =
      let is : mounts v.history ≡ mounted_once =
        ap (λ r. mounts r.1.history) (sym e) ∙ published n (ap (λ r. r.0) e) in
      (is, unpublished v u is e')
