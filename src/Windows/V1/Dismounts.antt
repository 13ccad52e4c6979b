-- ===== src/Windows/V1/Dismounts.antt =====
-- mount-manager/safe-mounter-v1_windows.go: what `UnmountDevice` has done.
use csi_runtime.Base.{ℕ, String, ◌≡◌, refl, Bool, true, false, List, [], ◌∷◌, ok, ap}
use csi_runtime.Base.Prog.{succeed}
use csi_runtime.Base.Exec.{exec}
use csi_runtime.Base.Yields.{
  Newest, Yields-newest, Yields, Yields->>=, Yields-ask, Yields-ret, Yields-when,
}
use csi_runtime.Windows.Proxy.{Paths}
use csi_runtime.Windows.V1.{unmount_device, dismount, exists_path}
use csi_runtime.Windows.V1.Calls.{
  path_exists, set_disk_state, rmdir, get_volume_id_from_target_path, unmount_volume,
  get_disk_number_from_volume_id, Event, Oracle,
}

-- The volume at the path was unmounted, the path removed, and the disk of the volume set offline.
abbrev pub Dismounted : String → List Event → Type 0
Dismounted path
      ((set_disk_state n false, ok _)
        ∷ (get_disk_number_from_volume_id v, ok m)
        ∷ (rmdir p forced, ok _)
        ∷ (unmount_volume w t, ok _)
        ∷ (get_volume_id_from_target_path t', ok u)
        ∷ h) =
    (n ≡ m) × (u ≡ v) × (w ≡ v) × (p ≡ path) × (t ≡ path) × (t' ≡ path) × (forced ≡ true)
Dismounted path _ = ⊥

-- There was nothing at the path, or it was dismounted.
abbrev pub Gone : String → String → List Event → Type 0
Gone asked path ((path_exists p, ok false) ∷ h) = p ≡ asked
Gone asked path h = Dismounted path h

abbrev dismounting : String → String → ℕ → List Event → List Event
dismounting target v m es =
    (set_disk_state m false, ok tt)
    ∷ (get_disk_number_from_volume_id v, ok m)
    ∷ (rmdir target true, ok tt)
    ∷ (unmount_volume v target, ok tt)
    ∷ (get_volume_id_from_target_path target, ok v)
    ∷ es

dismounting-Gone :
    (asked target v : String) (m : ℕ) (es h : List Event)
    → Newest (dismounting target v m es) h
    → Gone asked target h
dismounting-Gone asked target v m es h n = rw (n.newest) (refl, refl, refl, refl, refl, refl, refl)

module _ (paths : Paths) where
  dismounts :
      (asked target : String) (es : List Event)
      → Yields (Newest es) (dismount paths target) (λ _. Gone asked target)
  unfolding dismount
  dismounts asked target es =
      Yields->>= _ _ (Yields-newest (get_volume_id_from_target_path target) es) λ v.
        Yields->>= _ _ (Yields-newest (unmount_volume v target) _) λ _.
          Yields->>= _ _ (Yields-newest (rmdir target true) _) λ _.
            Yields->>= _ _ (Yields-newest (get_disk_number_from_volume_id v) _) λ m.
              Yields-ask (set_disk_state m false) {Q = λ _. Gone asked target} λ h u n.
                dismounting-Gone asked target v m es _ (record {
                  before = n.before;
                  newest = ap (λ x. (set_disk_state m false, ok tt) ∷ x) n.newest;
                })

  not_there :
      (b : Bool) (p path : String) (h : List Event)
      → Newest ((path_exists p, ok b) ∷ []) h
      → b ≡ false
      → Gone p path h
  not_there b p path h n e = rw (n.newest, e) refl

  -- When `UnmountDevice` succeeds, there was nothing at the path, or its volume was unmounted, the
  -- path removed by force and the disk of the volume set offline, in that order.
  pub unmount_device_ok :
      (o : Oracle) (target : String) (h : List Event)
      → (exec o (unmount_device paths target) h).0 ≡ ok tt
      → Gone
          (paths.normalize (paths.normalize target))
          (paths.normalize target)
          (exec o (unmount_device paths target) h).1
  unfolding unmount_device exists_path succeed
  unmount_device_ok o target h done =
      let at = paths.normalize target in
      let asked = paths.normalize at in
      (Yields->>= {S = λ _. Gone asked at} _ _ (Yields-newest (path_exists asked) []) λ b.
          Yields-when b _ _ (λ t. dismounts asked at _)
            (λ f. Yields-ret _ λ h' u n e. not_there b asked at h' n f)).yields
        o h tt (record { before = h; newest = refl }) done
