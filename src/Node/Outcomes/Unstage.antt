-- ===== src/Node/Outcomes/Unstage.antt =====
-- `NodeUnpublishVolume` and `NodeUnstageVolume`: what they did when they return.
use csi_runtime.Base.{
  Result-cases, refl, Bool-cases, inl, inr, Result, String, ◌≡◌, Bool, true, false, List, ◌∷◌, ok,
  arith, ◌==◌, not, if◌then◌else◌,
}
use csi_runtime.Rpc.{Error, Errors}
use csi_runtime.Base.Prog.{when◌then◌else◌}
use csi_runtime.VolumeLocks.{has}
use csi_runtime.Csi.{NodeUnpublishVolumeRequest, NodeUnstageVolumeRequest}
use csi_runtime.Node.Calls.{
  FileInfo, unmount, remove, remove_all, stat, eval_symlinks, detach_block, list_mounts,
  is_likely_not_mount_point,
}
use csi_runtime.Node.Devices.{get_device_from_path, get_device_from_mount, device_at, mode_device}
use csi_runtime.Node.Server.{Server, is_empty}
use csi_runtime.Node.Asks.{do_remove}
use csi_runtime.Node.Unpublish.{node_unpublish_volume, unmount_and_remove}
use csi_runtime.Node.Unstage.{unstage_mount, unmount_and_detach, node_unstage_volume, unstage}
use csi_runtime.Node.World.EndsWith.{EndsWith->>=, EndsWith-locked, EndsWith, ends_given}
use csi_runtime.Node.World.{Event, Oracle, World, run, semantics}

-- When `NodeUnpublishVolume` succeeds, the request named a volume and a target path, the volume was
-- not locked, and the calls made were an unmount of the target path and then its removal, both of
-- which succeeded.
pub unpublish_ok :
    (o : Oracle) (errors : Errors) (req : NodeUnpublishVolumeRequest) (w : World)
    → (run o (node_unpublish_volume errors req) w).0 ≡ ok tt
    → (is_empty req.volume_id ≡ false)
      × (is_empty req.target_path ≡ false)
      × (has req.volume_id w.locks.locks ≡ false)
      × ((run o (node_unpublish_volume errors req) w).1.history
          ≡ (remove req.target_path, ok tt) ∷ (unmount req.target_path, ok tt) ∷ w.history)
unfolding semantics node_unpublish_volume unmount_and_remove
unpublish_ok o errors req w h = ground arith

-- The calls that found whether the path behind `path` is a device.
unfoldable pub Looked : String → Bool → List Event → Type 0
Looked path is_device ((stat t, ok file) ∷ (eval_symlinks q, ok dev) ∷ es) =
    (q ≡ path)
    × (t ≡ dev)
    × (is_device ≡ not (is_empty (if file.mode == mode_device then dev else "")))
Looked path is_device _ = ⊥

-- The calls that found, of a path that is no device, what is mounted on it.
abbrev pub Asked : String → List Event → Type 0
Asked path
      ((list_mounts, ok mps)
        ∷ (is_likely_not_mount_point l, ok not_mnt)
        ∷ (eval_symlinks q, ok t)
        ∷ es) =
    (not_mnt ≡ false) × (l ≡ t) × (q ≡ path) × Looked path false es
Asked path ((is_likely_not_mount_point l, ok not_mnt) ∷ (eval_symlinks q, ok t) ∷ es) =
    (not_mnt ≡ true) × (l ≡ t) × (q ≡ path) × Looked path false es
Asked path _ = ⊥

-- The device that those calls found, or the empty path.
abbrev pub device_found : List Event → String
device_found ((list_mounts, ok mps) ∷ (is_likely_not_mount_point l, ok _) ∷ es) = device_at l mps
device_found _ = ""

-- What a successful `NodeUnstageVolume` did last. It removed a staging path that leads to a device; or,
-- of another path, it unmounted it if a device was found mounted there and else removed it, and then,
-- where the manager has `Block`, had the device that was found detached.
abbrev pub Unstaged : Bool → String → List Event → Type 0
Unstaged blocks path ((remove p, ok _) ∷ es) = (p ≡ path) × Looked path true es
Unstaged blocks path ((detach_block d, ok _) ∷ (unmount p, ok _) ∷ es) =
    (blocks ≡ true)
    × (p ≡ path)
    × (d ≡ device_found es)
    × (is_empty (device_found es) ≡ false)
    × Asked path es
Unstaged blocks path ((detach_block d, ok _) ∷ (remove_all p, ok _) ∷ es) =
    (blocks ≡ true)
    × (p ≡ path)
    × (d ≡ device_found es)
    × (is_empty (device_found es) ≡ true)
    × Asked path es
Unstaged blocks path ((unmount p, ok _) ∷ es) =
    (blocks ≡ false) × (p ≡ path) × (is_empty (device_found es) ≡ false) × Asked path es
Unstaged blocks path ((remove_all p, ok _) ∷ es) =
    (blocks ≡ false) × (p ≡ path) × (is_empty (device_found es) ≡ true) × Asked path es
Unstaged blocks path _ = ⊥

module _ (o : Oracle) (path : String) where
  looked :
      (v : World) (d : String)
      → (run o (get_device_from_path path) v).0 ≡ ok d
      → Looked path (not (is_empty d)) (run o (get_device_from_path path) v).1.history
  unfolding semantics get_device_from_path Looked
  looked v d h = ground arith

  asked :
      (v : World) (d : String)
      → Looked path false v.history
      → (run o (get_device_from_mount path) v).0 ≡ ok d
      → (d ≡ device_found (run o (get_device_from_mount path) v).1.history)
        × Asked path (run o (get_device_from_mount path) v).1.history
  unfolding semantics get_device_from_mount
  asked v d l h = elim (Result-cases (o v.history (eval_symlinks path))) [
    | inr (_, e) ↦ ground (arith, e)
    | inl (t, e) ↦
        let linked = (eval_symlinks path, ok t) ∷ v.history in
        elim (Result-cases (o linked (is_likely_not_mount_point t))) [
          | inr (_, e') ↦ ground (arith, e, e')
          | inl (true, e') ↦
              let ran : run o (get_device_from_mount path) v ≡ (
                ok "",
                record v { history = (is_likely_not_mount_point t, ok true) ∷ linked },
              ) =
                ground (arith, e, e') in
              rw ran (ground (arith, rw ran at h), (refl, refl, refl, l))
          | inl (false, e') ↦
              let asks = (is_likely_not_mount_point t, ok false) ∷ linked in
              elim (Result-cases (o asks list_mounts)) [
                | inr (_, e'') ↦ ground (arith, e, e', e'')
                | inl (mps, e'') ↦
                    let ran : run o (get_device_from_mount path) v ≡ (
                      ok (device_at t mps),
                      record v { history = (list_mounts, ok mps) ∷ asks },
                    ) =
                      ground (arith, e, e', e'') in
                    rw ran (ground (arith, rw ran at h), (refl, refl, refl, l))
              ]
        ]
  ]

module _ (o : Oracle) (ns : Server) (req : NodeUnstageVolumeRequest) where
  detached :
      (v : World) (d : String)
      → d ≡ device_found v.history
      → Asked req.staging_target_path v.history
      → (run o (unmount_and_detach ns req d) v).0 ≡ ok tt
      → Unstaged ns.manager.blocks req.staging_target_path
          (run o (unmount_and_detach ns req d) v).1.history
  unfolding semantics unmount_and_detach
  detached v d is a h = ground arith

  removed :
      (v : World)
      → Looked req.staging_target_path true v.history
      → (run o (do_remove req.staging_target_path) v).0 ≡ ok tt
      → Unstaged ns.manager.blocks req.staging_target_path
          (run o (do_remove req.staging_target_path) v).1.history
  unfolding semantics
  removed v l h = ground arith

  not_device :
      (v : World)
      → Looked req.staging_target_path false v.history
      → (run o (unstage_mount ns req) v).0 ≡ ok tt
      → Unstaged ns.manager.blocks req.staging_target_path
          (run o (unstage_mount ns req) v).1.history
  unfolding unstage_mount
  not_device v l =
      ends_given o (Unstaged ns.manager.blocks req.staging_target_path) _ _ v tt
        λ d e. let (is, a) = asked o req.staging_target_path v d l e in detached _ d is a

  by_device :
      (d : String) (v : World)
      → Looked req.staging_target_path (not (is_empty d)) v.history
      → let p =
          when not (is_empty d) then do_remove req.staging_target_path else unstage_mount ns req in
        (run o p v).0 ≡ ok tt
        → Unstaged ns.manager.blocks req.staging_target_path (run o p v).1.history
  unfolding when◌then◌else◌
  by_device d v l = elim (Bool-cases (is_empty d)) [
    | inl none ↦ rw none (not_device v (rw none at l))
    | inr device ↦ rw device (removed v (rw device at l))
  ]

unstage_last :
    (ns : Server) (req : NodeUnstageVolumeRequest)
    → EndsWith (Unstaged ns.manager.blocks req.staging_target_path) (unstage ns req)
unfolding unstage
unstage_last ns req = record {
  at = λ o v a.
      ends_given o (Unstaged ns.manager.blocks req.staging_target_path) _ _ v tt
        λ d e. by_device o ns req d _ (looked o req.staging_target_path v d e);
}

module _ (o : Oracle) (ns : Server) (req : NodeUnstageVolumeRequest) (w : World) where
  -- When `NodeUnstageVolume` succeeds, its last calls found that the staging path leads to a device and
  -- removed it; or found that it does not, and unmounted it if a device with a name was found mounted
  -- there, and else removed it with all below, and then, exactly where the manager has `Block`, had the
  -- device that was found detached.
  pub unstage_ok :
      (run o (node_unstage_volume ns req) w).0 ≡ ok tt
      → Unstaged ns.manager.blocks req.staging_target_path
          (run o (node_unstage_volume ns req) w).1.history
  unfolding node_unstage_volume
  unstage_ok =
      (EndsWith->>= _ _ λ _. EndsWith->>= _ _ λ _. EndsWith-locked _ _ (unstage_last ns req)).at o w
        tt

  -- The staging path of a block volume is never detached: when the path leads to a device with the
  -- bare device mode, the calls of `NodeUnstageVolume` on a volume that is free are the two that
  -- find the device and the removal of the path, also where the manager has `Block`.
  device_is_not_detached :
      (dev : String) (file : FileInfo)
      → is_empty req.volume_id ≡ false
      → is_empty req.staging_target_path ≡ false
      → has req.volume_id w.locks.locks ≡ false
      → ((h : List Event) → o h (eval_symlinks req.staging_target_path) ≡ ok dev)
      → ((h : List Event) → o h (stat dev) ≡ ok file)
      → is_empty dev ≡ false
      → file.mode ≡ mode_device
      → (r : Result Error (Unit {0})) × ((run o (node_unstage_volume ns req) w).1.history
          ≡ (remove req.staging_target_path, r)
            ∷ (stat dev, ok file)
            ∷ (eval_symlinks req.staging_target_path, ok dev)
            ∷ w.history)
  unfolding semantics node_unstage_volume unstage get_device_from_path
  device_is_not_detached dev file i p free ev st ne m = (
    o ((stat dev, ok file) ∷ (eval_symlinks req.staging_target_path, ok dev) ∷ w.history)
        (remove req.staging_target_path),
    ground (
      arith,
      ev w.history,
      st (
          (
            eval_symlinks req.staging_target_path,
            o w.history (eval_symlinks req.staging_target_path),
          )
          ∷ w.history),
    ),
  )
