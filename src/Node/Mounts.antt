-- ===== src/Node/Mounts.antt =====
-- The mounts that the node server has made, by the history of its calls: the newest is the first, and
-- an unmount takes the newest away from its path.
use csi_runtime.Base.{
  String, ◌≡◌, refl, Bool, true, false, not, ◌&&◌, List, [], ◌∷◌, Option, some, Result, ok, err,
  arith, Bool-cases, inl, inr, str_eq, if◌then◌else◌,
}
use csi_runtime.Rpc.{Error, Errors}
use csi_runtime.Csi.{
  NodePublishVolumeRequest, NodeUnpublishVolumeRequest, VolumeCapability, MountVolume,
}
use csi_runtime.Csi
use csi_runtime.Node.Calls.{
  Handler, is_likely_not_mount_point, mount_sensitive, mount_sensitive_without_systemd,
  format_and_mount_sensitive, unmount, MountPoint,
}
use csi_runtime.Node.Devices.{bind_mount}
use csi_runtime.Node.Server.{Server, locked, require_text, require_some}
use csi_runtime.Node.Publish.{node_publish_volume, check_publish, publish, publish_mount}
use csi_runtime.Node.World.{Event, Oracle, World, run, run-bind, semantics}
use csi_runtime.Node.World.EndsWith.{run-locked}
use csi_runtime.Base.Prog.{bind, continue, ◌>>=◌}
use csi_runtime.VolumeLocks.{has}

unfoldable pub unmounted : String → List MountPoint → List MountPoint
unmounted p [] = []
unmounted p (mp ∷ mps) = if str_eq mp.path p then mps else mp ∷ unmounted p mps

unfoldable pub is_mounted : String → List MountPoint → Bool
is_mounted p [] = false
is_mounted p (mp ∷ mps) = if str_eq mp.path p then true else is_mounted p mps

-- The source of a mount stands for its device.
unfoldable pub mounts : List Event → List MountPoint
unfolding unmounted
mounts [] = []
mounts ((mount_sensitive s t _ _ _, ok _) ∷ h) = record { device = s; path = t } ∷ mounts h
mounts ((mount_sensitive_without_systemd s t _ _ _, ok _) ∷ h) =
    record { device = s; path = t } ∷ mounts h
mounts ((format_and_mount_sensitive s t _ _ _, ok _) ∷ h) =
    record { device = s; path = t } ∷ mounts h
mounts ((unmount p, ok _) ∷ h) = unmounted p (mounts h)
mounts (_ ∷ h) = mounts h

-- `IsLikelyNotMountPoint` tells what is mounted, as it does where the source of a bind mount is on
-- another device than the directory above the target.
abbrev pub TellsMounts : Oracle → Type 0
TellsMounts o =
    (h : List Event) (p : String)
    → o h (is_likely_not_mount_point p) ≡ ok (not (is_mounted p (mounts h)))

abbrev pub is_ok : {A : Type 0} → Result Error A → Bool
is_ok (ok a) = true
is_ok (err e) = false

-- A program that mounts and unmounts nothing.
abbrev pub MountsNothing : {A : Type 0} → Oracle → Handler A → Type 0
MountsNothing o p = (w : World) → mounts (run o p w).1.history ≡ mounts w.history

-- A program that mounts `source` on `target` when it succeeds and nothing was mounted there, and else
-- mounts and unmounts nothing.
abbrev pub MountsOnce : {A : Type 0} → Oracle → String → String → Handler A → Type 0
MountsOnce o source target p =
    (w : World)
    → mounts (run o p w).1.history ≡ (
        if is_ok (run o p w).0 && not (is_mounted target (mounts w.history))
        then record { device = source; path = target } ∷ mounts w.history
        else mounts w.history)

module _ {A B : Type 0} (o : Oracle) (source target : String) where
  continue-MountsOnce :
      (f : A → Handler B)
      → ((a : A) → MountsOnce o source target (f a))
      → (r : Result Error A) → MountsOnce o source target (continue f r)
  unfolding run
  continue-MountsOnce f h (ok a) w = h a w
  continue-MountsOnce f h (err e) w = refl

  MountsOnce->>= :
      (m : Handler A) (f : A → Handler B)
      → MountsNothing o m
      → ((a : A) → MountsOnce o source target (f a))
      → MountsOnce o source target (m >>= f)
  unfolding ◌>>=◌
  MountsOnce->>= m f nothing h w =
      rw (run-bind o m (continue f) w)
        (rw (nothing w) at (continue-MountsOnce f h (run o m w).0 (run o m w).1))

  MountsOnce-require_some :
      (p : Option A) (e : Error) (a : A) (f : A → Handler B)
      → p ≡ some a
      → MountsOnce o source target (f a)
      → MountsOnce o source target (require_some p e >>= f)
  unfolding require_some ◌>>=◌ bind
  MountsOnce-require_some p e a f is h = rw is h

module _ {A : Type 0} (o : Oracle) (source target : String) where
  MountsOnce-locked :
      (id : String) (body : Handler A)
      → MountsOnce o source target body
      → MountsOnce o source target (locked id body)
  MountsOnce-locked id body h w = elim (Bool-cases (has id w.locks.locks)) [
    | inl busy ↦ rw (run-locked o id body w, busy)
    | inr free ↦ rw (run-locked o id body w, free) (h _)
  ]

module _ (o : Oracle) where
  pub require_text-MountsNothing : (t message : String) → MountsNothing o (require_text t message)
  unfolding semantics
  require_text-MountsNothing t message w = refl

module _ (o : Oracle) (errors : Errors) (ns : Server) (req : NodePublishVolumeRequest)
    (tells : TellsMounts o) where
  check_publish-MountsNothing :
      (vc : VolumeCapability) → MountsNothing o (check_publish errors ns req vc)
  unfolding semantics check_publish mounts
  check_publish-MountsNothing vc w = ground arith

  publish_mount-MountsOnce :
      MountsOnce o req.staging_target_path req.target_path (publish_mount errors ns req)
  unfolding semantics publish_mount bind_mount mounts
  publish_mount-MountsOnce w = ground (arith, tells w.history req.target_path)

  -- An attempt to publish mounts the staging path on the target path when it succeeds and nothing was
  -- mounted there, and else nothing.
  pub publish-MountsOnce :
      (vc : VolumeCapability) (m : MountVolume)
      → req.volume_capability ≡ some vc
      → vc.access_type ≡ some (Csi.mount m)
      → MountsOnce o req.staging_target_path req.target_path (node_publish_volume errors ns req)
  unfolding node_publish_volume publish
  publish-MountsOnce vc m cap access =
      MountsOnce->>= o _ _ _ _ (require_text-MountsNothing o _ _) λ _.
        MountsOnce->>= o _ _ _ _ (require_text-MountsNothing o _ _) λ _.
          MountsOnce->>= o _ _ _ _ (require_text-MountsNothing o _ _) λ _.
            MountsOnce-require_some o _ _ _ _ vc _ cap (
              MountsOnce->>= o _ _ _ _ (check_publish-MountsNothing vc)
                λ _. MountsOnce-locked o _ _ _ _ (rw access publish_mount-MountsOnce))
