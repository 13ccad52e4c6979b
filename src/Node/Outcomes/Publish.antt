-- ===== src/Node/Outcomes/Publish.antt =====
-- `NodePublishVolume`: what it did when it returns.
use csi_runtime.Base.{
  String, ◌≡◌, ◌≢◌, refl, false, List, [], ◌∷◌, Option, none, some, Result, ok, arith,
  if◌then◌else◌, ◌==◌,
}
use csi_runtime.Rpc.{Error, Errors}
use csi_runtime.Csi.{
  VolumeCapability, NodePublishVolumeRequest, AccessType, MountVolume, block, mount,
}
use csi_runtime.Node.Calls.{
  FileInfo, stat, eval_symlinks, symlink, is_likely_not_mount_point,
  mount_sensitive_without_systemd,
}
use csi_runtime.Node.Devices.{get_device_from_path, bind_mount, mode_device}
use csi_runtime.Node.Server.{Server}
use csi_runtime.Node.Publish.{node_publish_volume, publish_block, publish_mount, publish}
use csi_runtime.Node.World.EndsWith.{EndsWith, EndsWith->>=, EndsWith-locked, EndsWith-require_some}
use csi_runtime.Node.World.{Event, Oracle, World, run, semantics}

-- The last calls of a publish that succeeded, by access type: the target is a link to the path behind
-- the staging path, or to the empty path if that is no device; or it was mounted already; or it is a
-- bind mount of the staging path, read-only if that was asked for.
abbrev pub Published : NodePublishVolumeRequest → Option AccessType → List Event → Type 0
Published req (some block)
      ((symlink s p, ok _) ∷ (stat t, ok file) ∷ (eval_symlinks q, ok dev) ∷ es) =
    (p ≡ req.target_path)
    × (q ≡ req.staging_target_path)
    × (t ≡ dev)
    × (s ≡ (if file.mode == mode_device then dev else ""))
Published req (some (mount m)) ((is_likely_not_mount_point p, ok not_mnt) ∷ es) =
    (p ≡ req.target_path) × (not_mnt ≡ false)
Published req (some (mount m)) ((mount_sensitive_without_systemd s p t opts sens, ok _) ∷ es) =
    (s ≡ req.staging_target_path)
    × (p ≡ req.target_path)
    × (opts ≡ "bind" ∷ (if req.readonly then "ro" ∷ [] else []))
Published req _ _ = ⊥

module _ (errors : Errors) (ns : Server) (req : NodePublishVolumeRequest) where
  publish_body :
      (o : Oracle) (a : Option AccessType) (v : World)
      → a ≢ none
      → (run o (publish errors ns req a) v).0 ≡ ok tt
      → Published req a (run o (publish errors ns req a) v).1.history
  unfolding semantics publish publish_block publish_mount get_device_from_path bind_mount
  publish_body o none v given h = absurd (given refl)
  publish_body o (some block) v given h = ground arith
  publish_body o (some (mount m)) v given h = ground arith

module _ (o : Oracle) (errors : Errors) (ns : Server) (req : NodePublishVolumeRequest)
    (w : World) where
  -- When `NodePublishVolume` succeeds for a capability with an access type, its last calls resolved and
  -- statted the staging path and linked the target path to what it leads to, or to the empty path where
  -- that is no device by its mode; or found the target path mounted; or bind-mounted the staging path on
  -- it, read-only if that was asked for.
  pub publish_ok :
      (vc : VolumeCapability)
      → req.volume_capability ≡ some vc
      → vc.access_type ≢ none
      → (run o (node_publish_volume errors ns req) w).0 ≡ ok tt
      → Published req vc.access_type (run o (node_publish_volume errors ns req) w).1.history
  unfolding node_publish_volume
  publish_ok vc is given =
      let body : EndsWith (Published req vc.access_type) (publish errors ns req vc.access_type) =
        record { at = λ p v a h. publish_body errors ns req p vc.access_type v given h } in
      (EndsWith->>= {Q = Published req vc.access_type} _ _ λ _. EndsWith->>= _ _ λ _.
          EndsWith->>= _ _ λ _.
            EndsWith-require_some _ _ vc _ is (EndsWith->>= _ _ λ _. EndsWith-locked _ _ body)).at
        o w tt

module _ (o : Oracle) (errors : Errors) (ns : Server) (req : NodePublishVolumeRequest) where
  -- A volume that is published already: when the target path is a mount point, publishing a volume to
  -- be mounted leaves the world as it is, but for one question to the mounter, and succeeds.
  publish_again :
      (m : MountVolume) (v : World)
      → ((h : List Event) → o h (is_likely_not_mount_point req.target_path) ≡ ok false)
      → run o (publish errors ns req (some (mount m))) v ≡ (
        ok tt,
        record v { history = (is_likely_not_mount_point req.target_path, ok false) ∷ v.history },
      )
  unfolding semantics publish publish_mount
  publish_again m v mounted = ground (arith, mounted v.history)

  -- A device node with permission bits in its mode is not recognised: publishing it as a block links
  -- the target path to the empty path.
  device_with_permissions :
      (dev : String) (file : FileInfo) (v : World)
      → ((h : List Event) → o h (eval_symlinks req.staging_target_path) ≡ ok dev)
      → ((h : List Event) → o h (stat dev) ≡ ok file)
      → file.mode ≢ mode_device
      → (r : Result Error (Unit {0})) × ((run o (publish errors ns req (some block)) v).1.history
          ≡ (symlink "" req.target_path, r)
            ∷ (stat dev, ok file)
            ∷ (eval_symlinks req.staging_target_path, ok dev)
            ∷ v.history)
  unfolding semantics publish publish_block get_device_from_path
  device_with_permissions dev file v ev st ne = (
    o ((stat dev, ok file) ∷ (eval_symlinks req.staging_target_path, ok dev) ∷ v.history)
        (symlink "" req.target_path),
    ground (
      arith,
      ev v.history,
      st (
          (
            eval_symlinks req.staging_target_path,
            o v.history (eval_symlinks req.staging_target_path),
          )
          ∷ v.history),
    ),
  )
