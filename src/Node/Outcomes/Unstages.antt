-- ===== src/Node/Outcomes/Unstages.antt =====
-- `NodeUnstageVolume` succeeds on complete requests when the calls that it makes do.
use csi_runtime.Base.{String, ◌≡◌, ◌≢◌, false, ◌∷◌, List, ok, arith}
use csi_runtime.Base.Prog.{bind, ◌>>=◌, continue, when◌then◌else◌}
use csi_runtime.VolumeLocks.{has}
use csi_runtime.Csi.{NodeUnstageVolumeRequest}
use csi_runtime.Node.Calls.{
  FileInfo, MountPoint, unmount, stat, eval_symlinks, list_mounts, detach_block, Handler,
  is_likely_not_mount_point,
}
use csi_runtime.Node.Devices.{mode_device, device_at, get_device_from_path, get_device_from_mount}
use csi_runtime.Node.Server.{Server, is_empty, require_text}
use csi_runtime.Node.Unstage.{node_unstage_volume, unstage, unstage_mount, unmount_and_detach}
use csi_runtime.Node.World.{Event, Oracle, World, run, run-bind, semantics}
use csi_runtime.Node.World.EndsWith.{run-locked}

succeeds->>= :
    {A B : Type 0} (o : Oracle) (m : Handler A) (f : A → Handler B) (a : A) (b : B) (v : World)
    → (run o m v).0 ≡ ok a
    → ((u : World) → (run o (f a) u).0 ≡ ok b)
    → (run o (m >>= f) v).0 ≡ ok b
unfolding ◌>>=◌
succeeds->>= o m f a b v is rest = rw (run-bind o m (continue f) v, is) (rest (run o m v).1)

-- A device is mounted on the staging path, which is none, and the calls answer so.
module _ (o : Oracle) (ns : Server) (req : NodeUnstageVolumeRequest) (path : String)
    (file : FileInfo) (mps : List MountPoint) (ne : file.mode ≢ mode_device)
    (dv : is_empty (device_at path mps) ≡ false)
    (ev : (h : List Event) → o h (eval_symlinks req.staging_target_path) ≡ ok path)
    (st : (h : List Event) → o h (stat path) ≡ ok file)
    (nm : (h : List Event) → o h (is_likely_not_mount_point path) ≡ ok false)
    (ls : (h : List Event) → o h list_mounts ≡ ok mps)
    (um : (h : List Event) → o h (unmount req.staging_target_path) ≡ ok tt)
    (de : (h : List Event) (d : String) → o h (detach_block d) ≡ ok tt) where
  no_device : (v : World) → (run o (get_device_from_path req.staging_target_path) v).0 ≡ ok ""
  unfolding semantics get_device_from_path
  no_device v =
      let h =
        (eval_symlinks req.staging_target_path, o v.history (eval_symlinks req.staging_target_path))
        ∷ v.history in
      ground (arith, ev v.history, st h)

  mounted_device :
      (v : World)
      → (run o (get_device_from_mount req.staging_target_path) v).0 ≡ ok (device_at path mps)
  unfolding semantics get_device_from_mount
  mounted_device v =
      let h =
        (eval_symlinks req.staging_target_path, o v.history (eval_symlinks req.staging_target_path))
        ∷ v.history in
      let h' = (is_likely_not_mount_point path, o h (is_likely_not_mount_point path)) ∷ h in
      ground (arith, ev v.history, nm h, ls h')

  detaches : (v : World) → (run o (unmount_and_detach ns req (device_at path mps)) v).0 ≡ ok tt
  unfolding semantics unmount_and_detach
  detaches v =
      let c = unmount req.staging_target_path in
      ground (arith, um v.history, de ((c, o v.history c) ∷ v.history) (device_at path mps))

  unstages : (v : World) → (run o (unstage ns req) v).0 ≡ ok tt
  unfolding unstage unstage_mount when◌then◌else◌
  unstages v =
      succeeds->>= o _ _ "" tt v (no_device v)
        λ u. succeeds->>= o _ _ (device_at path mps) tt u (mounted_device u) detaches

  -- `NodeUnstageVolume` succeeds for a complete request on a free volume when the staging path is no
  -- device, a device is mounted on it, and the unmount and the manager's `DetachBlock`, if it has it,
  -- do.
  pub unstage_succeeds :
      (w : World)
      → is_empty req.volume_id ≡ false
      → is_empty req.staging_target_path ≡ false
      → has req.volume_id w.locks.locks ≡ false
      → (run o (node_unstage_volume ns req) w).0 ≡ ok tt
  unfolding node_unstage_volume ◌>>=◌ bind require_text
  unstage_succeeds w i p free = ground (
    arith,
    run-locked o req.volume_id (unstage ns req) w,
    unstages (record w { locks = record { locks = req.volume_id ∷ w.locks.locks } }),
  )
