-- ===== src/Node/Contract.antt =====
-- What the requests for the node server may do to the mounts of a node, without the order between
-- different paths: each path has the sources that are mounted on it.
use csi_runtime.Base.{
  ◌⊎◌, Option, some, none, String, ◌≡◌, ◌≢◌, refl, Bool, true, false, not, ◌&&◌, List, [], ◌∷◌,
  arith, Bool-cases, inl, inr, str_eq, if◌then◌else◌,
}
use csi_runtime.Csi.{
  NodePublishVolumeRequest, NodeStageVolumeRequest, NodeUnstageVolumeRequest,
  NodeUnpublishVolumeRequest, VolumeCapability, AccessType, MountVolume, mount, block,
}
use csi_runtime.Node.Server.{is_empty}
use csi_runtime.Node.Requests.{Request, publish, stage, unstage, unpublish}

-- The sources that are mounted on each path, the newest first.
abbrev pub Stacks : Type 0
Stacks = String → List String

abbrev pub push : String → String → Stacks → Stacks
push p source v q = if str_eq p q then source ∷ v q else v q

abbrev pub below : List String → List String
below [] = []
below (x ∷ xs) = xs

abbrev pub pop : String → Stacks → Stacks
pop p v q = if str_eq p q then below (v q) else v q

abbrev pub as_mount : Option AccessType → Bool
as_mount (some (mount m)) = true
as_mount (some block) = false
as_mount none = false

-- A volume that is published as a file system, and not as a device.
abbrev pub for_mounting : Option VolumeCapability → Bool
for_mounting none = false
for_mounting (some vc) = as_mount vc.access_type

access_cases :
    (a : Option AccessType) → (as_mount a ≡ false) ⊎ ((m : MountVolume) × (a ≡ some (mount m)))
access_cases none = inl refl
access_cases (some block) = inl refl
access_cases (some (mount m)) = inr (m, refl)

pub mounting_cases :
    (c : Option VolumeCapability)
    → (for_mounting c ≡ false)
      ⊎ ((vc : VolumeCapability) × (m : MountVolume) × (c ≡ some vc)
          × (vc.access_type ≡ some (mount m)))
mounting_cases none = inl refl
mounting_cases (some vc) = elim (access_cases vc.access_type) [
  | inl device ↦ inl device
  | inr (m, is) ↦ inr (vc, m, refl, is)
]

-- A stage that leaves it to the mount to provide the volume, as the manager does not populate it.
abbrev pub must_mount : Bool → NodeStageVolumeRequest → Bool
must_mount populates r = for_mounting r.volume_capability && not populates

-- `Allows populates r succeeded v u`: the request may take the mounts from `v` to `u`, where
-- `populates` says whether the manager has `Populate`.
pub data Allows (populates : Bool) : Request → Bool → Stacks → Stacks → Type 0 where
  nothing_staged :
      (r : NodeStageVolumeRequest) (succeeded : Bool) (v : Stacks)
      → (succeeded && must_mount populates r) ≡ false
      → Allows populates (stage r) succeeded v v
  staged :
      (r : NodeStageVolumeRequest) (succeeded : Bool) (v : Stacks) (source : String)
      → is_empty source ≡ false
      → Allows populates (stage r) succeeded v (push r.staging_target_path source v)
  published :
      (r : NodePublishVolumeRequest) (v : Stacks)
      → v r.target_path ≡ []
      → is_empty r.staging_target_path ≡ false
      → Allows populates (publish r) true v (push r.target_path r.staging_target_path v)
  already_published :
      (r : NodePublishVolumeRequest) (v : Stacks)
      → v r.target_path ≢ []
      → Allows populates (publish r) true v v
  published_as_device :
      (r : NodePublishVolumeRequest) (succeeded : Bool) (v : Stacks)
      → for_mounting r.volume_capability ≡ false
      → Allows populates (publish r) succeeded v v
  not_published :
      (r : NodePublishVolumeRequest) (v : Stacks) → Allows populates (publish r) false v v
  unpublished :
      (r : NodeUnpublishVolumeRequest) (succeeded : Bool) (v : Stacks)
      → Allows populates (unpublish r) succeeded v (pop r.target_path v)
  not_unpublished :
      (r : NodeUnpublishVolumeRequest) (v : Stacks) → Allows populates (unpublish r) false v v
  unstaged :
      (r : NodeUnstageVolumeRequest) (succeeded : Bool) (v : Stacks)
      → Allows populates (unstage r) succeeded v (pop r.staging_target_path v)
  not_unstaged :
      (r : NodeUnstageVolumeRequest) (v : Stacks) → Allows populates (unstage r) false v v

-- One request after the other, each with whether it succeeded.
pub data Course (populates : Bool) : List (Request × Bool) → Stacks → Stacks → Type 0 where
  ended : (v : Stacks) → Course populates [] v v
  goes_on :
      (r : Request) (succeeded : Bool) (rs : List (Request × Bool)) (v u x : Stacks)
      → Allows populates r succeeded v u
      → Course populates rs u x
      → Course populates ((r, succeeded) ∷ rs) v x

abbrev pub named : List String → Bool
named [] = true
named (x ∷ xs) = not (is_empty x) && named xs

-- Every source has a name.
abbrev pub Named : Stacks → Type 0
Named v = (p : String) → named (v p) ≡ true

named-below : (xs : List String) → named xs ≡ true → named (below xs) ≡ true
named-below [] h = refl
named-below (x ∷ xs) h = ground arith

push-Named :
    (p source : String) (v : Stacks) → is_empty source ≡ false → Named v → Named (push p source v)
push-Named p source v given h q = elim (Bool-cases (str_eq p q)) [
  | inl same ↦ rw (same, given) (h q)
  | inr other ↦ rw other (h q)
]

pop-Named : (p : String) (v : Stacks) → Named v → Named (pop p v)
pop-Named p v h q = elim (Bool-cases (str_eq p q)) [
  | inl same ↦ rw same (named-below (v q) (h q))
  | inr other ↦ rw other (h q)
]

pub Allows-Named :
    (populates : Bool) (r : Request) (succeeded : Bool) (v u : Stacks)
    → Allows populates r succeeded v u
    → Named v
    → Named u
Allows-Named _ _ _ v _ (nothing_staged _ _ _ _) h = h
Allows-Named _ _ _ v _ (staged r _ _ source given) h = push-Named _ source v given h
Allows-Named _ _ _ v _ (published r _ free given) h = push-Named _ _ v given h
Allows-Named _ _ _ v _ (already_published _ _ _) h = h
Allows-Named _ _ _ v _ (published_as_device _ _ _ _) h = h
Allows-Named _ _ _ v _ (not_published _ _) h = h
Allows-Named _ _ _ v _ (unpublished r _ _) h = pop-Named _ v h
Allows-Named _ _ _ v _ (not_unpublished _ _) h = h
Allows-Named _ _ _ v _ (unstaged r _ _) h = pop-Named _ v h
Allows-Named _ _ _ v _ (not_unstaged _ _) h = h
