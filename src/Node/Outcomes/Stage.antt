-- ===== src/Node/Outcomes/Stage.antt =====
-- `NodeStageVolume`: what it did when it returns, and the options of its mounts.
use csi_runtime.Base.{
  String, ◌≡◌, ◌≢◌, refl, Bool, true, false, not, ◌&&◌, ◌||◌, List, [], ◌∷◌, Option, none, some, ok,
  arith, str_eq,
}
use csi_runtime.Rpc.{Errors}
use csi_runtime.Csi.{
  NodeStageVolumeRequest, VolumeCapability, AccessType, MountVolume, block, mount,
}
use csi_runtime.Node.Calls.{
  symlink, populate, mount_sensitive, format_and_mount_sensitive, MountResponse,
}
use csi_runtime.Node.Capability.{readonly, get_mount}
use csi_runtime.Node.Server.{Server, is_empty}
use csi_runtime.Node.Stage.{
  Slices, fs_type_xfs, mount_response, stage_block, stage_mount, response_fs_type, stage_populate,
  stage_filesystem, stage_access, stage, node_stage_volume,
}
use csi_runtime.Node.World.{Event, Oracle, World, run, semantics}
use csi_runtime.Node.World.EndsWith.{EndsWith, EndsWith->>=, EndsWith-locked, EndsWith-require_some}

-- The last call of a stage that succeeded, by access type: a link from the staging path to a device,
-- or a mount or the manager's `Populate` at the staging path.
abbrev pub Staged : String → Option AccessType → List Event → Type 0
Staged path (some block) ((symlink d p, ok _) ∷ es) = (p ≡ path) × (is_empty d ≡ false)
Staged path (some (mount m)) ((populate p _ _ _, ok _) ∷ es) = p ≡ path
Staged path (some (mount m)) ((mount_sensitive _ p _ _ _, ok _) ∷ es) = p ≡ path
Staged path (some (mount m)) ((format_and_mount_sensitive _ p _ _ _, ok _) ∷ es) = p ≡ path
Staged path _ _ = ⊥

module _ (errors : Errors) (slices : Slices) (ns : Server) (req : NodeStageVolumeRequest) where
  stage_access_last :
      (vc : VolumeCapability) (d : String) (a : Option AccessType)
      → a ≢ none
      → EndsWith (Staged req.staging_target_path a) (stage_access errors slices ns req vc d a)
  unfolding semantics stage_access stage_block stage_filesystem stage_mount mount_response
      stage_populate
  stage_access_last vc d none given = absurd (given refl)
  stage_access_last vc d (some block) given = record { at = λ o w a h. ground arith }
  stage_access_last vc d (some (mount m)) given = record { at = λ o w a h. ground arith }

module _ (o : Oracle) (errors : Errors) (slices : Slices) (ns : Server)
    (req : NodeStageVolumeRequest) (w : World) where
  -- When `NodeStageVolume` succeeds for a capability with an access type, its last call provided the
  -- staging path as `Staged` says, and succeeded: a stage is never reported that provided nothing.
  pub stage_ok :
      (vc : VolumeCapability)
      → req.volume_capability ≡ some vc
      → vc.access_type ≢ none
      → (run o (node_stage_volume errors slices ns req) w).0 ≡ ok tt
      → Staged req.staging_target_path vc.access_type
          (run o (node_stage_volume errors slices ns req) w).1.history
  unfolding node_stage_volume stage
  stage_ok vc is given =
      (EndsWith->>= _ _ λ _. EndsWith->>= _ _ λ _. EndsWith->>= _ _ λ _.
          EndsWith-require_some _ _ vc _ is (
            EndsWith->>= _ _ λ _. EndsWith-locked _ _ (
              EndsWith->>= _ _
                λ d. stage_access_last errors slices ns req vc d vc.access_type given))).at
        o w tt

abbrev pub below : List Event → List Event
below [] = []
below (e ∷ es) = es

abbrev pub contains : String → List String → Bool
contains x [] = false
contains x (y ∷ ys) = str_eq x y || contains x ys

-- The documented contents of what package slice returns.
pub record IsLawful (slices : Slices) : Type 0 where
  pub contains-union :
      (x : String) (a b : List String)
      → contains x (slices.union a b) ≡ (contains x a || contains x b)
  pub contains-append_if_absent :
      (x : String) (a : List String) (y : String)
      → contains x (slices.append_if_absent a y) ≡ (contains x a || str_eq x y)
  pub contains-difference :
      (x : String) (a b : List String)
      → contains x (slices.difference a b) ≡ (contains x a && not (contains x b))

abbrev pub flags_of : Option MountVolume → List String
flags_of none = []
flags_of (some m) = m.mount_flags

module _ (slices : Slices) (laws : IsLawful slices) where
  -- `opts` are the flags of the capability, `nouuid` on xfs, `ro` for a read-only access mode and the
  -- options of the manager, and `sens` the sensitive options of the manager that are none of the first
  -- three.
  abbrev pub Options :
      VolumeCapability → String → MountResponse → List String → List String → Type 0
  Options vc fs_type m opts sens =
      (x : String)
      → let asked =
          contains x (flags_of (get_mount vc.access_type))
          || ((str_eq fs_type fs_type_xfs && str_eq x "nouuid")
              || (readonly vc && str_eq x "ro")) in
        (contains x opts ≡ (asked || contains x m.options))
        × (contains x sens ≡ (contains x m.sensitive_options && not asked))

  -- The last call mounts the source that the manager named on `path`, formatting it if the manager asks
  -- for that, with those options.
  abbrev pub MountedAs : String → VolumeCapability → MountResponse → List Event → Type 0
  MountedAs path vc m ((mount_sensitive s t f opts sens, _) ∷ es) =
      (m.format ≡ false)
      × (s ≡ m.source)
      × (t ≡ path)
      × (f ≡ response_fs_type (get_mount vc.access_type) m)
      × Options vc (response_fs_type (get_mount vc.access_type) m) m opts sens
  MountedAs path vc m ((format_and_mount_sensitive s t f opts sens, _) ∷ es) =
      (m.format ≡ true)
      × (s ≡ m.source)
      × (t ≡ path)
      × (f ≡ m.fstype)
      × Options vc (response_fs_type (get_mount vc.access_type) m) m opts sens
  MountedAs path vc m _ = ⊥
