-- ===== src/Node/Staged.antt =====
-- What NodeStageVolume mounts.
use csi_runtime.Base.{String, ◌≡◌, refl, Bool, false, inl, List, Option, none, some, ok, arith}
use csi_runtime.Base.Prog.{succeed, map_err, require}
use csi_runtime.Rpc.{Error, Errors}
use csi_runtime.Csi
use csi_runtime.Csi.{
  Context, NodeStageVolumeRequest, NodeUnstageVolumeRequest, VolumeCapability, MountVolume,
}
use csi_runtime.Node.Calls
use csi_runtime.Node.Calls.{
  Handler, MountPoint, format_and_mount_sensitive, mount_sensitive, MountResponse, FileInfo, stat,
  eval_symlinks, list_mounts, is_likely_not_mount_point,
}
use csi_runtime.Node.Asks.{do_mount}
use csi_runtime.Node.Server.{Server, is_empty}
use csi_runtime.Node.Stage.{
  Slices, check_stage, attach, mount_response, stage_mount, stage_block, stage_populate,
  stage_filesystem, stage_access, stage, node_stage_volume,
}
use csi_runtime.Node.MayMount.{
  MayMount, MayMount->>=, MayMount-first, MayMount-given, MayMount-require_some, MayMount-locked,
  MayMount-when, MayMount-map_err, MayMount-format, MayMount-mount, MountsNothing->>=,
}
use csi_runtime.Node.Mounts.{mounts, MountsNothing, require_text-MountsNothing}
use csi_runtime.Node.World.{Event, Oracle, World, run, semantics}

-- The manager names the source of a mount.
abbrev pub NamesSources : Oracle → Type 0
NamesSources o =
    (h : List Event) (p t : String) (a b c : Context) (m : MountResponse)
    → o h (Calls.mount p t a b c) ≡ ok (some m)
    → is_empty m.source ≡ false

module _ (o : Oracle) (errors : Errors) (slices : Slices) (ns : Server)
    (req : NodeStageVolumeRequest) (names : NamesSources o) where
  mount_response-MayMount :
      (vc : VolumeCapability) (r : Option MountResponse)
      → ((m : MountResponse) → r ≡ some m → is_empty m.source ≡ false)
      → MayMount o req.staging_target_path (mount_response errors slices ns req vc r)
  unfolding mount_response succeed run
  mount_response-MayMount vc none named w = inl refl
  mount_response-MayMount vc (some m) named w =
      MayMount-first o _ _ _
        (MayMount-when o _ m.format _ _
          (MayMount-map_err o _ _ _ (MayMount-format o m.source _ (named m refl) _ _ _))
          (MayMount-map_err o _ _ _ (MayMount-mount o m.source _ (named m refl) _ _ _)))
        (λ _ v. refl) w

  -- What the manager answered goes on to the mount.
  asked :
      (p t : String) (a b c : Context) (f : Error → Error) (w : World)
      → (mounts (run o (map_err f (do_mount p t a b c)) w).1.history ≡ mounts w.history)
        × ((r : Option MountResponse)
            → (run o (map_err f (do_mount p t a b c)) w).0 ≡ ok r
            → (m : MountResponse) → r ≡ some m
            → is_empty m.source ≡ false)
  unfolding semantics mounts map_err
  asked p t a b c f w = (refl, λ r e m is. names w.history p t a b c m (ground (arith, e, is)))

  stage_mount-MayMount :
      (vc : VolumeCapability)
      → MayMount o req.staging_target_path (stage_mount errors slices ns req vc)
  unfolding stage_mount succeed run
  stage_mount-MayMount vc =
      MayMount-when o _ ns.manager.mounts _ _
        (MayMount-given o _ _ _ (λ w. (asked _ _ _ _ _ _ w).0)
          (λ w r e. mount_response-MayMount vc r ((asked _ _ _ _ _ _ w).1 r e)))
        (λ w. inl refl)

  stage_populate-MountsNothing :
      (b : Bool) → MountsNothing o (stage_populate errors slices ns req b)
  unfolding semantics stage_populate mounts
  stage_populate-MountsNothing b w = ground arith

  stage_block-MountsNothing :
      (path : String) → MountsNothing o (stage_block errors slices ns req path)
  unfolding semantics stage_block mounts
  stage_block-MountsNothing path w = ground arith

  pub attach-MountsNothing : MountsNothing o (attach errors slices ns req)
  unfolding semantics attach mounts
  attach-MountsNothing w = ground arith

  pub check_stage-MountsNothing :
      (vc : VolumeCapability) → MountsNothing o (check_stage errors slices ns req vc)
  unfolding semantics check_stage mounts
  check_stage-MountsNothing vc w = ground arith

  stage_access-MayMount :
      (vc : VolumeCapability) (path : String) (a : Option Csi.AccessType)
      → MayMount o req.staging_target_path (stage_access errors slices ns req vc path a)
  unfolding stage_access stage_filesystem require succeed run
  stage_access-MayMount vc path none w = inl refl
  stage_access-MayMount vc path (some Csi.block) w = inl (stage_block-MountsNothing path w)
  stage_access-MayMount vc path (some (Csi.mount m)) w =
      MayMount-first o _ _ _ (stage_mount-MayMount vc)
        (λ mounted. MountsNothing->>= o _ _ (stage_populate-MountsNothing mounted) (λ _ v. refl)) w

  -- NodeStageVolume mounts at most one source, which the manager named, on the staging path.
  pub stage-MayMount : MayMount o req.staging_target_path (node_stage_volume errors slices ns req)
  unfolding node_stage_volume stage
  stage-MayMount = MayMount->>= o _ _ _ (require_text-MountsNothing o _ _) λ _.
      MayMount->>= o _ _ _ (require_text-MountsNothing o _ _) λ _.
        MayMount->>= o _ _ _ (require_text-MountsNothing o _ _) λ _.
          MayMount-require_some o _ _ _ _ λ vc _.
            MayMount->>= o _ _ _ (check_stage-MountsNothing vc) λ _. MayMount-locked o _ _ _ (
              MayMount->>= o _ _ _ attach-MountsNothing
                (λ path. stage_access-MayMount vc path vc.access_type))
