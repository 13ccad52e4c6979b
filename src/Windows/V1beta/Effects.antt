-- ===== src/Windows/V1beta/Effects.antt =====
-- mount-manager/safe-mounter-v1beta_windows.go: what its calls have done.
use csi_runtime.Base.{
  String, ◌≡◌, refl, Bool, true, false, not, List, [], ◌∷◌, ◌++◌, Result, ok, err, arith,
}
use csi_runtime.Base.Prog.{ask, succeed}
use csi_runtime.Base.Exec.{exec}
use csi_runtime.Base.Yields.{
  Newest, Yields-newest, Yields, Yields->>=, Yields-ask, Yields-ret, Leaves, Leaves->>=,
  Leaves-same->>=, Leaves-ask, Leaves-ret, Leaves-when, Yields-when,
}
use csi_runtime.Windows.Proxy.{Fault}
use csi_runtime.Windows.V1beta.{format_and_mount, format_volume_and_mount, first_volume}
use csi_runtime.Windows.V1beta.Calls.{
  partition_disk, set_attach_state, list_volumes_on_disk, is_volume_formatted, format_volume,
  mount_volume, Event, Oracle, Call, Answer,
}

-- Only a volume that was just found not to be formatted is ever formatted.
abbrev pub FormatsOnlyBlank : List Event → Type 0
FormatsOnlyBlank [] = Unit {0}
FormatsOnlyBlank ((format_volume v, _) ∷ (is_volume_formatted w, ok formatted) ∷ h) =
    (v ≡ w) × (formatted ≡ false) × FormatsOnlyBlank h
FormatsOnlyBlank ((format_volume v, _) ∷ h) = ⊥
FormatsOnlyBlank (_ ∷ h) = FormatsOnlyBlank h

-- The volume is the first on the disk, which was partitioned and brought online.
abbrev pub OnDisk : String → String → List Event → Type 0
OnDisk n v
      ((list_volumes_on_disk a, ok (u ∷ _))
        ∷ (set_attach_state b true, ok _)
        ∷ (partition_disk c, ok _)
        ∷ h) =
    (u ≡ v) × (a ≡ n) × (b ≡ n) × (c ≡ n)
OnDisk n v _ = ⊥

-- The volume was formatted, or has been now.
abbrev pub Ready : String → String → List Event → Type 0
Ready n v ((is_volume_formatted w, ok true) ∷ h) = (w ≡ v) × OnDisk n v h
Ready n v ((format_volume w, ok _) ∷ (is_volume_formatted u, ok false) ∷ h) =
    (w ≡ v) × (u ≡ v) × OnDisk n v h
Ready n v _ = ⊥

-- The last call mounted a volume that was ready.
abbrev pub Mounted : String → String → List Event → Type 0
Mounted n target ((mount_volume v t, ok _) ∷ h) = (t ≡ target) × Ready n v h
Mounted n target _ = ⊥

-- The last call said whether the volume is formatted, after a history with `P`.
abbrev Found : (List Event → Type 0) → String → Bool → List Event → Type 0
Found P v b h = (h' : List Event) × (h ≡ (is_volume_formatted v, ok b) ∷ h') × P h'

abbrev Checked : String → Result Fault Bool → List Event → Type 0
Checked v (ok b) h = Found FormatsOnlyBlank v b h
Checked v (err e) h = FormatsOnlyBlank h

after_check :
    (v : String) (h : List Event) (r : Result Fault Bool)
    → FormatsOnlyBlank h
    → Checked v r ((is_volume_formatted v, r) ∷ h)
after_check v h (ok b) p = (h, refl, p)
after_check v h (err e) p = p

not-false : (b : Bool) → not b ≡ false → b ≡ true
not-false b e = ground arith

not-true : (b : Bool) → not b ≡ true → b ≡ false
not-true b e = ground arith

volume_yields :
    (n : String) (v target : String)
    → Yields (OnDisk n v) (format_volume_and_mount v target) (λ _. Mounted n target)
unfolding format_volume_and_mount succeed
volume_yields n v target =
    Yields->>= {Q = Found (OnDisk n v) v} _ _
      (Yields-ask (is_volume_formatted v) {Q = Found (OnDisk n v) v} λ h b on. (h, refl, on))
      λ b.
        Yields->>= {Q = λ _. Ready n v} _ _
          (Yields-when (not b) _ _
            (λ u.
              Yields-ask {P = Found (OnDisk n v) v b} (format_volume v) {Q = λ _. Ready n v}
                λ h r (h', e, on). rw (e, not-true b u) (refl, refl, on))
            (λ f.
              Yields-ret {P = Found (OnDisk n v) v b} _
                λ h r (h', e, on) done. rw (e, not-false b f) (refl, on)))
          (λ _.
            Yields-ask (mount_volume v target) {Q = λ _. Mounted n target}
              λ h u ready. (refl, ready))

safe_ask :
    (c : Call)
    → ((h : List Event) (r : Answer c) → FormatsOnlyBlank h → FormatsOnlyBlank ((c, r) ∷ h))
    → Leaves FormatsOnlyBlank (ask c) (λ _. FormatsOnlyBlank)
safe_ask c k = Leaves-ask c k

volume_leaves :
    (v target : String)
    → Leaves FormatsOnlyBlank (format_volume_and_mount v target) (λ _. FormatsOnlyBlank)
unfolding format_volume_and_mount succeed
volume_leaves v target =
    Leaves->>= {Q = Checked v} _ _
      (Leaves-ask {P = FormatsOnlyBlank} (is_volume_formatted v) {Q = Checked v} (after_check v))
      (λ b.
        Leaves->>= {Q = λ _. FormatsOnlyBlank} _ _
          (Leaves-when (not b) _ _
            (λ u.
              Leaves-ask {P = Found FormatsOnlyBlank v b} (format_volume v)
                λ h r (h', e, safe). rw (e, not-true b u) (refl, refl, safe))
            (λ f. Leaves-ret {P = Found FormatsOnlyBlank v b} _ λ h (h', e, safe). rw e safe))
          (λ _. safe_ask (mount_volume v target) λ h r safe. safe) (λ e h p. p))
      (λ e h p. p)

-- What the calls before `format_volume_and_mount` leave.
abbrev listing : String → List String → List Event
listing k vs =
    (list_volumes_on_disk k, ok vs)
    ∷ (set_attach_state k true, ok tt)
    ∷ (partition_disk k, ok tt)
    ∷ []

first_on :
    (k : String) (vs : List String) (v : String) (h : List Event)
    → first_volume vs ≡ ok v
    → OnDisk k v (listing k vs ++ h)
first_on k [] v h f = absurd (cc f)
first_on k (u ∷ us) v h f = (cc f, refl, refl, refl)

listing-OnDisk :
    (k : String) (vs : List String) (h : List Event) (v : String)
    → Newest (listing k vs) h
    → first_volume vs ≡ ok v
    → OnDisk k v h
listing-OnDisk k vs h v n f = rw (n.newest) (first_on k vs v n.before f)

mounts :
    (source target fstype : String) (options : List String)
    → Yields
        (Newest [])
        (format_and_mount source target fstype options)
        (λ _. Mounted source target)
unfolding format_and_mount
mounts source target fstype options = Yields->>= _ _ (Yields-newest (partition_disk source) []) λ _.
    Yields->>= _ _ (Yields-newest (set_attach_state source true) _) λ _.
      Yields->>= _ _ (Yields-newest (list_volumes_on_disk source) _) λ vs.
        Yields->>= {Q = OnDisk source} _ _
          (Yields-ret (first_volume vs) λ h v l f. listing-OnDisk source vs h v l f)
          λ v. volume_yields source v target

keeps :
    (source target fstype : String) (options : List String)
    → Leaves FormatsOnlyBlank
        (format_and_mount source target fstype options)
        (λ _. FormatsOnlyBlank)
unfolding format_and_mount
keeps source target fstype options =
    Leaves-same->>= _ _ (safe_ask (partition_disk source) λ h r p. p) λ _.
      Leaves-same->>= _ _ (safe_ask (set_attach_state source true) λ h r p. p) λ _.
        Leaves-same->>= _ _ (safe_ask (list_volumes_on_disk source) λ h r p. p) λ vs.
          Leaves-same->>= _ _ (Leaves-ret {Q = λ _. FormatsOnlyBlank} (first_volume vs) λ h p. p)
            λ v. volume_leaves v target

-- Whatever the calls answer, `FormatAndMount` keeps it so that no volume was formatted but one that
-- `IsVolumeFormatted` had just said to be unformatted.
keeps_data_beta :
    (o : Oracle) (source target fstype : String) (options : List String) (h : List Event)
    → FormatsOnlyBlank h
    → FormatsOnlyBlank (exec o (format_and_mount source target fstype options) h).1
keeps_data_beta o source target fstype options h safe =
    (keeps source target fstype options).leaves o h safe

-- When `FormatAndMount` succeeds, its last call mounted at the target the first volume of the disk
-- of that ID, which was partitioned and brought online; the volume was formatted before, or
-- was formatted now.
format_and_mount_ok_beta :
    (o : Oracle) (source target fstype : String) (options : List String) (h : List Event)
    → (exec o (format_and_mount source target fstype options) h).0 ≡ ok tt
    → Mounted source target (exec o (format_and_mount source target fstype options) h).1
format_and_mount_ok_beta o source target fstype options h done =
    (mounts source target fstype options).yields o h tt (record { before = h; newest = refl }) done
