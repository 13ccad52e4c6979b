-- ===== src/Node/Adds.antt =====
-- A stage that succeeds for a volume to mount, of a manager without `Populate`, did mount it.
use csi_runtime.Base.{
  ℕ, suc, String, ◌≡◌, ◌⊎◌, ◌≢◌, ◌&&◌, refl, Bool, true, false, not, inl, inr, Bool-cases, List, [],
  ◌∷◌, Option, some, Result, ok, err, arith,
}
use csi_runtime.Base.Prog.{continue, bind, ◌>>=◌}
use csi_runtime.VolumeLocks.{has}
use csi_runtime.Rpc.{Error, Errors}
use csi_runtime.Csi
use csi_runtime.Csi.{NodeStageVolumeRequest, VolumeCapability, MountVolume}
use csi_runtime.Node.Calls.{Handler, MountPoint}
use csi_runtime.Node.Server.{Server, locked, require_some}
use csi_runtime.Node.Stage.{
  Slices, mount_response, stage_mount, stage_populate, stage_filesystem, stage_access, stage,
  node_stage_volume,
}
use csi_runtime.Node.Mounts.{mounts, is_ok, MountsNothing, require_text-MountsNothing}
use csi_runtime.Node.Staged.{NamesSources, attach-MountsNothing, check_stage-MountsNothing}
use csi_runtime.Node.Contract.{must_mount, mounting_cases}
use csi_runtime.Node.World.{Oracle, World, run, run-bind, semantics}
use csi_runtime.Node.World.EndsWith.{run-locked}

unfoldable pub count : List MountPoint → ℕ
count [] = 0
count (mp ∷ mps) = suc (count mps)

-- A program that adds one mount when it succeeds.
abbrev pub Adds : {A : Type 0} → Oracle → Handler A → Type 0
Adds o p =
    (w : World)
    → (is_ok (run o p w).0 ≡ false)
      ⊎ (count (mounts (run o p w).1.history) ≡ suc (count (mounts w.history)))

module _ {A B : Type 0} (o : Oracle) where
  continue-Adds :
      (f : A → Handler B) → ((a : A) → Adds o (f a)) → (r : Result Error A) → Adds o (continue f r)
  unfolding run
  continue-Adds f h (ok a) w = h a w
  continue-Adds f h (err e) w = inl refl

  Adds->>= :
      (m : Handler A) (f : A → Handler B)
      → MountsNothing o m
      → ((a : A) → Adds o (f a))
      → Adds o (m >>= f)
  unfolding ◌>>=◌
  Adds->>= m f nothing h w =
      rw (run-bind o m (continue f) w)
        (rw (nothing w) at (continue-Adds f h (run o m w).0 (run o m w).1))

  Adds-require_some :
      (p : Option A) (e : Error) (a : A) (f : A → Handler B)
      → p ≡ some a
      → Adds o (f a)
      → Adds o (require_some p e >>= f)
  unfolding require_some ◌>>=◌ bind
  Adds-require_some p e a f is h = rw is h

module _ {A : Type 0} (o : Oracle) where
  Adds-locked : (id : String) (body : Handler A) → Adds o body → Adds o (locked id body)
  Adds-locked id body h w = elim (Bool-cases (has id w.locks.locks)) [
    | inl busy ↦ rw (run-locked o id body w, busy) (inl refl)
    | inr free ↦ rw (run-locked o id body w, free) (h _)
  ]

module _ (o : Oracle) (errors : Errors) (slices : Slices) (ns : Server)
    (req : NodeStageVolumeRequest) (names : NamesSources o)
    (bare : ns.manager.populates ≡ false) where
  stage_filesystem-Adds :
      (vc : VolumeCapability) → Adds o (stage_filesystem errors slices ns req vc)
  unfolding semantics stage_filesystem stage_mount mount_response stage_populate mounts count
  stage_filesystem-Adds vc w = ground arith

  stage_access-Adds :
      (vc : VolumeCapability) (path : String) (m : MountVolume) (a : Option Csi.AccessType)
      → a ≡ some (Csi.mount m)
      → Adds o (stage_access errors slices ns req vc path a)
  unfolding stage_access
  stage_access-Adds vc path m a is = rw is (stage_filesystem-Adds vc)

  -- Of a manager without `Populate`, a stage of a volume to mount fails or adds one mount.
  pub stage-Adds :
      (vc : VolumeCapability) (m : MountVolume)
      → req.volume_capability ≡ some vc
      → vc.access_type ≡ some (Csi.mount m)
      → Adds o (node_stage_volume errors slices ns req)
  unfolding node_stage_volume stage
  stage-Adds vc m given access = Adds->>= o _ _ (require_text-MountsNothing o _ _) λ _.
      Adds->>= o _ _ (require_text-MountsNothing o _ _) λ _.
        Adds->>= o _ _ (require_text-MountsNothing o _ _) λ _. Adds-require_some o _ _ vc _ given (
          Adds->>= o _ _ (check_stage-MountsNothing o errors slices ns req names vc) λ _.
            Adds-locked o _ _ (
              Adds->>= o _ _ (attach-MountsNothing o errors slices ns req names)
                λ path. stage_access-Adds vc path m vc.access_type access))

unless_mount : (a b c : Bool) → (b ≡ false) ⊎ (c ≡ true) → (a && (b && not c)) ≡ false
unless_mount a b c h = ground arith

no_more : (n : ℕ) → n ≢ suc n
no_more n e = ground arith

-- A stage that had to mount and left the mounts as they were has failed.
pub stage_settled :
    (o : Oracle) (errors : Errors) (slices : Slices) (ns : Server) (req : NodeStageVolumeRequest)
    (names : NamesSources o) (w : World)
    → let v = run o (node_stage_volume errors slices ns req) w in
      mounts v.1.history ≡ mounts w.history
      → (is_ok v.0 && must_mount ns.manager.populates req) ≡ false
stage_settled o errors slices ns req names w same = elim (Bool-cases ns.manager.populates) [
  | inl populates ↦ unless_mount _ _ _ (inr populates)
  | inr bare ↦ elim (mounting_cases req.volume_capability) [
    | inl device ↦ unless_mount _ _ _ (inl device)
    | inr (vc, m, given, access) ↦
        elim (stage-Adds o errors slices ns req names bare vc m given access w) [
          | inl failed ↦ rw failed refl
          | inr more ↦ absurd (no_more _ (rw same at more))
        ]
  ]
]
