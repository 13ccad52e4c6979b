-- ===== src/Windows/V1beta/Dismounts.antt =====
-- mount-manager/safe-mounter-v1beta_windows.go: what `UnmountDevice` has done.
use csi_runtime.Base.{String, ◌≡◌, refl, Bool, true, false, List, [], ◌∷◌, ok, ℤ, ap}
use csi_runtime.Base.Prog.{succeed}
use csi_runtime.Base.Exec.{exec}
use csi_runtime.Base.Yields.{
  Newest, Yields-newest, Yields, Yields->>=, Yields-ask, Yields-ret, Yields-when,
}
use csi_runtime.Text.Decimal.{format_int}
use csi_runtime.Windows.Proxy.{Paths}
use csi_runtime.Windows.V1beta.{unmount_device, dismount, exists_path}
use csi_runtime.Windows.V1beta.Calls.{
  plugin, path_exists, set_attach_state, rmdir, get_volume_id_from_mount, dismount_volume,
  get_volume_disk_number, Event, Oracle,
}

-- The volume at the path was unmounted, the path removed, and the disk of the volume set offline.
abbrev pub Dismounted : String → List Event → Type 0
Dismounted path
      ((set_attach_state n false, ok _)
        ∷ (get_volume_disk_number v, ok m)
        ∷ (rmdir p plugin forced, ok _)
        ∷ (dismount_volume w t, ok _)
        ∷ (get_volume_id_from_mount t', ok u)
        ∷ h) =
    (n ≡ format_int m) × (u ≡ v) × (w ≡ v) × (p ≡ path) × (t ≡ path) × (t' ≡ path) × (forced ≡ true)
Dismounted path _ = ⊥

-- There was nothing at the path, or it was dismounted.
abbrev pub Gone : String → String → List Event → Type 0
Gone asked path ((path_exists p, ok false) ∷ h) = p ≡ asked
Gone asked path h = Dismounted path h

abbrev dismounting : String → String → ℤ → List Event → List Event
dismounting target v m es =
    (set_attach_state (format_int m) false, ok tt)
    ∷ (get_volume_disk_number v, ok m)
    ∷ (rmdir target plugin true, ok tt)
    ∷ (dismount_volume v target, ok tt)
    ∷ (get_volume_id_from_mount target, ok v)
    ∷ es

dismounting-Gone :
    (asked target v : String) (m : ℤ) (es h : List Event)
    → Newest (dismounting target v m es) h
    → Gone asked target h
dismounting-Gone asked target v m es h n = rw (n.newest) (refl, refl, refl, refl, refl, refl, refl)

module _ (paths : Paths) where
  dismounts :
      (asked target : String) (es : List Event)
      → Yields (Newest es) (dismount paths target) (λ _. Gone asked target)
  unfolding dismount
  dismounts asked target es =
      Yields->>= _ _ (Yields-newest (get_volume_id_from_mount target) es) λ v.
        Yields->>= _ _ (Yields-newest (dismount_volume v target) _) λ _.
          Yields->>= _ _ (Yields-newest (rmdir target plugin true) _) λ _.
            Yields->>= _ _ (Yields-newest (get_volume_disk_number v) _) λ m.
              Yields-ask (set_attach_state (format_int m) false) {Q = λ _. Gone asked target}
                λ h u n. dismounting-Gone asked target v m es _ (record {
                  before = n.before;
                  newest = ap (λ x. (set_attach_state (format_int m) false, ok tt) ∷ x) n.newest;
                })

  not_there :
      (b : Bool) (p path : String) (h : List Event)
      → Newest ((path_exists p, ok b) ∷ []) h
      → b ≡ false
      → Gone p path h
  not_there b p path h n e = rw (n.newest, e) refl

  -- When `UnmountDevice` succeeds, there was nothing at the path, or its volume was unmounted, the
  -- path removed by force and the disk of the volume set offline, in that order.
  unmount_device_ok_beta :
      (o : Oracle) (target : String) (h : List Event)
      → (exec o (unmount_device paths target) h).0 ≡ ok tt
      → Gone
          (paths.normalize (paths.normalize target))
          (paths.normalize target)
          (exec o (unmount_device paths target) h).1
  unfolding unmount_device exists_path succeed
  unmount_device_ok_beta o target h done =
      let at = paths.normalize target in
      let asked = paths.normalize at in
      (Yields->>= {S = λ _. Gone asked at} _ _ (Yields-newest (path_exists asked) []) λ b.
          Yields-when b _ _ (λ t. dismounts asked at _)
            (λ f. Yields-ret _ λ h' u n e. not_there b asked at h' n f)).yields
        o h tt (record { before = h; newest = refl }) done
