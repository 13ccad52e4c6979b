-- ===== src/Node/Unstaged.antt =====
-- What NodeUnstageVolume unmounts.
use csi_runtime.Base.{
  String, ◌≡◌, refl, ◌∙◌, sym, ap, true, false, ◌==◌, inl, inr, Bool-cases, List, [], ◌∷◌, ok,
  arith, if◌then◌else◌,
}
use csi_runtime.VolumeLocks.{has}
use csi_runtime.Csi.{NodeUnstageVolumeRequest}
use csi_runtime.Node.Calls.{
  Handler, is_likely_not_mount_point, MountPoint, FileInfo, stat, eval_symlinks, list_mounts,
}
use csi_runtime.Node.Devices.{mode_device, device_at, get_device_from_path, get_device_from_mount}
use csi_runtime.Node.Server.{Server, is_empty, require_text, locked}
use csi_runtime.Node.Unstage.{node_unstage_volume, unstage, unstage_mount, unmount_and_detach}
use csi_runtime.Node.Mounts.{mounts, unmounted, is_mounted, TellsMounts}
use csi_runtime.Node.World.{Event, Oracle, World, run, run-bind, semantics}
use csi_runtime.Base.Prog.{continue, when◌then◌else◌, ◌>>=◌}
use csi_runtime.Node.World.EndsWith.{run-locked}

-- `path` is no device and no link, and the list of the mounts tells the source that was mounted there.
abbrev pub TellsSource : Oracle → String → Type 0
TellsSource o path =
    (h : List Event)
    → (o h (eval_symlinks path) ≡ ok path)
      × ((file : FileInfo) × (o h (stat path) ≡ ok file) × ((file.mode == mode_device) ≡ false))
      × ((mps : List MountPoint) × (o h list_mounts ≡ ok mps)
          × (device_at path mps ≡ device_at path (mounts h)))

-- What is mounted on `path` has a source with a name.
abbrev pub HasSource : String → List MountPoint → Type 0
HasSource path mps = is_mounted path mps ≡ true → is_empty (device_at path mps) ≡ false

pub unmounted-free :
    (p : String) (mps : List MountPoint) → is_mounted p mps ≡ false → unmounted p mps ≡ mps
unfolding unmounted is_mounted
unmounted-free p [] free = refl
unmounted-free p (mp ∷ mps) free = ground (arith, unmounted-free p mps)

-- What follows a success.
run->>=-ok :
    {A B : Type 0} (o : Oracle) (m : Handler A) (f : A → Handler B) (w : World) (a : A)
    → (run o m w).0 ≡ ok a
    → run o (m >>= f) w ≡ run o (f a) (run o m w).1
unfolding ◌>>=◌
run->>=-ok o m f w a e =
    run-bind o m (continue f) w ∙ ap (λ r. run o (continue f r) (run o m w).1) e

module _ (o : Oracle) (path : String) (source : TellsSource o path) where
  path_is_no_device :
      (w : World)
      → ((run o (get_device_from_path path) w).0 ≡ ok "")
        × (mounts (run o (get_device_from_path path) w).1.history ≡ mounts w.history)
  unfolding semantics get_device_from_path mounts
  path_is_no_device w =
      ground (arith, source w.history, source ((eval_symlinks path, ok path) ∷ w.history))

  device_of_mount :
      TellsMounts o
      → (w : World)
      → ((run o (get_device_from_mount path) w).0
          ≡ ok (
              if is_mounted path (mounts w.history) then device_at path (mounts w.history) else ""))
        × (mounts (run o (get_device_from_mount path) w).1.history ≡ mounts w.history)
  unfolding semantics get_device_from_mount mounts
  device_of_mount tells w =
      let linked = (eval_symlinks path, ok path) ∷ w.history in
      ground (
        arith,
        source w.history,
        tells linked path,
        source ((is_likely_not_mount_point path, ok false) ∷ linked),
      )

module _ (o : Oracle) (ns : Server) (req : NodeUnstageVolumeRequest) (tells : TellsMounts o)
    (source : TellsSource o req.staging_target_path) where
  detach-unmounts :
      (device : String) (w : World)
      → (run o (unmount_and_detach ns req device) w).0 ≡ ok tt
      → mounts (run o (unmount_and_detach ns req device) w).1.history ≡ (
          if is_empty device
          then mounts w.history
          else unmounted req.staging_target_path (mounts w.history))
  unfolding semantics unmount_and_detach mounts
  detach-unmounts device w e = ground arith

  unmounted-source :
      (w : World)
      → HasSource req.staging_target_path (mounts w.history)
      → (if is_empty (
            if is_mounted req.staging_target_path (mounts w.history)
            then device_at req.staging_target_path (mounts w.history)
            else "")
          then mounts w.history
          else unmounted req.staging_target_path (mounts w.history))
        ≡ unmounted req.staging_target_path (mounts w.history)
  unmounted-source w has =
      elim (Bool-cases (is_mounted req.staging_target_path (mounts w.history))) [
        | inl is ↦ rw (is, has is)
        | inr free ↦ rw (free, unmounted-free _ _ free)
      ]

  abbrev Unmounts : Handler (Unit {0}) → Type 0
  Unmounts p =
      (w : World)
      → HasSource req.staging_target_path (mounts w.history)
      → (run o p w).0 ≡ ok tt
      → mounts (run o p w).1.history ≡ unmounted req.staging_target_path (mounts w.history)

  Unmounts-require_text :
      (t message : String) (f : Unit {0} → Handler (Unit {0}))
      → Unmounts (f tt)
      → Unmounts (require_text t message >>= f)
  unfolding semantics
  Unmounts-require_text t message f h w has e = elim (Bool-cases (is_empty t)) [
    | inl empty ↦ absurd (cc (rw empty at e))
    | inr given ↦ rw given (h w has (rw given at e))
  ]

  Unmounts-locked :
      (id : String) (body : Handler (Unit {0})) → Unmounts body → Unmounts (locked id body)
  Unmounts-locked id body h w source e = elim (Bool-cases (has id w.locks.locks)) [
    | inl busy ↦ absurd (cc (rw (run-locked o id body w, busy) at e))
    | inr free ↦
        let same = run-locked o id body w in rw (same, free) (h _ source (rw (same, free) at e))
  ]

  unstage_mount-Unmounts : Unmounts (unstage_mount ns req)
  unfolding unstage_mount
  unstage_mount-Unmounts w has e =
      let (answer, same) = device_of_mount o req.staging_target_path source tells w in
      let step = run->>=-ok o _ (unmount_and_detach ns req) w _ answer in
      ap (λ r. mounts r.1.history) step
      ∙ detach-unmounts _ _ (ap (λ r. r.0) (sym step) ∙ e)
      ∙ rw same (unmounted-source w has)

  unstage-Unmounts : Unmounts (unstage ns req)
  unfolding unstage when◌then◌else◌
  unstage-Unmounts w has e =
      let (answer, same) = path_is_no_device o req.staging_target_path source w in
      let step = run->>=-ok o _ _ w _ answer in
      ap (λ r. mounts r.1.history) step
      ∙ unstage_mount-Unmounts _ (rw same has) (ap (λ r. r.0) (sym step) ∙ e)
      ∙ ap (unmounted req.staging_target_path) same

  -- A successful unstage takes the newest mount away from the staging path, if there is one.
  pub node_unstage_volume-Unmounts : Unmounts (node_unstage_volume ns req)
  unfolding node_unstage_volume
  node_unstage_volume-Unmounts =
      Unmounts-require_text _ _ _
        (Unmounts-require_text _ _ _ (Unmounts-locked _ _ unstage-Unmounts))
