-- ===== src/Windows/V1/Effects.antt =====
-- mount-manager/safe-mounter-v1_windows.go: what its calls have done.
use csi_runtime.Base.{
  ℕ, String, ◌≡◌, refl, Bool, true, false, not, List, [], ◌∷◌, ◌++◌, Result, ok, err, arith,
}
use csi_runtime.Base.Prog.{ask, ◌>>=◌, bind, ret, ◌>>◌, succeed}
use csi_runtime.Base.Exec.{exec}
use csi_runtime.Base.Yields.{
  Newest, Yields-newest, Yields, Yields->>=, Yields-ask, Yields-ret, Leaves, Leaves->>=,
  Leaves-same->>=, Leaves-ask, Leaves-ret, Leaves-when, Yields-when,
}
use csi_runtime.Text.Decimal.{parse_uint}
use csi_runtime.Windows.Proxy.{Fault, uint32, checked}
use csi_runtime.Windows.V1.{format_and_mount, format_volume_and_mount, first_volume}
use csi_runtime.Windows.V1.Calls.{
  partition_disk, set_disk_state, list_volumes_on_disk, is_volume_formatted, format_volume,
  mount_volume, Event, Oracle, Call, Answer,
}

-- Only a volume that was just found not to be formatted is ever formatted.
abbrev pub FormatsOnlyBlank : List Event → Type 0
FormatsOnlyBlank [] = Unit {0}
FormatsOnlyBlank ((format_volume v, _) ∷ (is_volume_formatted w, ok formatted) ∷ h) =
    (v ≡ w) × (formatted ≡ false) × FormatsOnlyBlank h
FormatsOnlyBlank ((format_volume v, _) ∷ h) = ⊥
FormatsOnlyBlank (_ ∷ h) = FormatsOnlyBlank h

-- The volume is the first on the disk, which was partitioned and brought online.
abbrev pub OnDisk : ℕ → String → List Event → Type 0
OnDisk n v
      ((list_volumes_on_disk a, ok (u ∷ _))
        ∷ (set_disk_state b true, ok _)
        ∷ (partition_disk c, ok _)
        ∷ h) =
    (u ≡ v) × (a ≡ n) × (b ≡ n) × (c ≡ n)
OnDisk n v _ = ⊥

-- The volume was formatted, or has been now.
abbrev pub Ready : ℕ → String → List Event → Type 0
Ready n v ((is_volume_formatted w, ok true) ∷ h) = (w ≡ v) × OnDisk n v h
Ready n v ((format_volume w, ok _) ∷ (is_volume_formatted u, ok false) ∷ h) =
    (w ≡ v) × (u ≡ v) × OnDisk n v h
Ready n v _ = ⊥

-- The last call mounted a volume that was ready.
abbrev pub Mounted : ℕ → String → List Event → Type 0
Mounted n target ((mount_volume v t, ok _) ∷ h) = (t ≡ target) × Ready n v h
Mounted n target _ = ⊥

-- The last call said whether the volume is formatted, after a history with `P`.
abbrev Found : (List Event → Type 0) → String → Bool → List Event → Type 0
Found P v b h = (h' : List Event) × (h ≡ (is_volume_formatted v, ok b) ∷ h') × P h'

abbrev Checked : String → Result Fault Bool → List Event → Type 0
Checked v (ok b) h = Found FormatsOnlyBlank v b h
Checked v (err e) h = FormatsOnlyBlank h

after_check :
    (v : String) (h : List Event) (r : Result Fault Bool)
    → FormatsOnlyBlank h
    → Checked v r ((is_volume_formatted v, r) ∷ h)
after_check v h (ok b) p = (h, refl, p)
after_check v h (err e) p = p

not-false : (b : Bool) → not b ≡ false → b ≡ true
not-false b e = ground arith

not-true : (b : Bool) → not b ≡ true → b ≡ false
not-true b e = ground arith

volume_yields :
    (n : ℕ) (v target : String)
    → Yields (OnDisk n v) (format_volume_and_mount v target) (λ _. Mounted n target)
unfolding format_volume_and_mount succeed
volume_yields n v target =
    Yields->>= {Q = Found (OnDisk n v) v} _ _
      (Yields-ask (is_volume_formatted v) {Q = Found (OnDisk n v) v} λ h b on. (h, refl, on))
      λ b.
        Yields->>= {Q = λ _. Ready n v} _ _
          (Yields-when (not b) _ _
            (λ u.
              Yields-ask {P = Found (OnDisk n v) v b} (format_volume v) {Q = λ _. Ready n v}
                λ h r (h', e, on). rw (e, not-true b u) (refl, refl, on))
            (λ f.
              Yields-ret {P = Found (OnDisk n v) v b} _
                λ h r (h', e, on) done. rw (e, not-false b f) (refl, on)))
          (λ _.
            Yields-ask (mount_volume v target) {Q = λ _. Mounted n target}
              λ h u ready. (refl, ready))

safe_ask :
    (c : Call)
    → ((h : List Event) (r : Answer c) → FormatsOnlyBlank h → FormatsOnlyBlank ((c, r) ∷ h))
    → Leaves FormatsOnlyBlank (ask c) (λ _. FormatsOnlyBlank)
safe_ask c k = Leaves-ask c k

volume_leaves :
    (v target : String)
    → Leaves FormatsOnlyBlank (format_volume_and_mount v target) (λ _. FormatsOnlyBlank)
unfolding format_volume_and_mount succeed
volume_leaves v target =
    Leaves->>= {Q = Checked v} _ _
      (Leaves-ask {P = FormatsOnlyBlank} (is_volume_formatted v) {Q = Checked v} (after_check v))
      (λ b.
        Leaves->>= {Q = λ _. FormatsOnlyBlank} _ _
          (Leaves-when (not b) _ _
            (λ u.
              Leaves-ask {P = Found FormatsOnlyBlank v b} (format_volume v)
                λ h r (h', e, safe). rw (e, not-true b u) (refl, refl, safe))
            (λ f. Leaves-ret {P = Found FormatsOnlyBlank v b} _ λ h (h', e, safe). rw e safe))
          (λ _. safe_ask (mount_volume v target) λ h r safe. safe) (λ e h p. p))
      (λ e h p. p)

-- What the calls before `format_volume_and_mount` leave.
abbrev listing : ℕ → List String → List Event
listing k vs =
    (list_volumes_on_disk k, ok vs)
    ∷ (set_disk_state k true, ok tt)
    ∷ (partition_disk k, ok tt)
    ∷ []

first_on :
    (k : ℕ) (vs : List String) (v : String) (h : List Event)
    → first_volume vs ≡ ok v
    → OnDisk k v (listing k vs ++ h)
first_on k [] v h f = absurd (cc f)
first_on k (u ∷ us) v h f = (cc f, refl, refl, refl)

listing-OnDisk :
    (k : ℕ) (vs : List String) (h : List Event) (v : String)
    → Newest (listing k vs) h
    → first_volume vs ≡ ok v
    → OnDisk k v h
listing-OnDisk k vs h v n f = rw (n.newest) (first_on k vs v n.before f)

-- From a parsed number on.
mounts_number :
    (n : ℕ) (target : String)
    → Yields
        (Newest [])
        (do
          ask (partition_disk (uint32 n))
          ask (set_disk_state (uint32 n) true)
          volume_ids ← ask (list_volumes_on_disk (uint32 n))
          volume_id ← ret (first_volume volume_ids)
          format_volume_and_mount volume_id target)
        (λ _. Mounted (uint32 n) target)
mounts_number n target = Yields->>= _ _ (Yields-newest (partition_disk (uint32 n)) []) λ _.
    Yields->>= _ _ (Yields-newest (set_disk_state (uint32 n) true) _) λ _.
      Yields->>= _ _ (Yields-newest (list_volumes_on_disk (uint32 n)) _) λ vs.
        Yields->>= {Q = OnDisk (uint32 n)} _ _
          (Yields-ret (first_volume vs) λ h v l f. listing-OnDisk (uint32 n) vs h v l f)
          λ v. volume_yields (uint32 n) v target

mounts :
    (source target fstype : String) (options : List String) (n : ℕ)
    → parse_uint source ≡ ok n
    → Yields
        (Newest [])
        (format_and_mount source target fstype options)
        (λ _. Mounted (uint32 n) target)
unfolding format_and_mount ◌>>=◌ bind
mounts source target fstype options n is = rw is (mounts_number n target)

keeps :
    (source target fstype : String) (options : List String)
    → Leaves FormatsOnlyBlank
        (format_and_mount source target fstype options)
        (λ _. FormatsOnlyBlank)
unfolding format_and_mount
keeps source target fstype options =
    Leaves-same->>= _ _
      (Leaves-ret {Q = λ _. FormatsOnlyBlank} (checked (parse_uint source)) λ h p. p)
      λ number. Leaves-same->>= _ _ (safe_ask (partition_disk (uint32 number)) λ h r p. p) λ _.
        Leaves-same->>= _ _ (safe_ask (set_disk_state (uint32 number) true) λ h r p. p) λ _.
          Leaves-same->>= _ _ (safe_ask (list_volumes_on_disk (uint32 number)) λ h r p. p) λ vs.
            Leaves-same->>= _ _ (Leaves-ret {Q = λ _. FormatsOnlyBlank} (first_volume vs) λ h p. p)
              λ v. volume_leaves v target

-- Whatever the calls answer, `FormatAndMount` keeps it so that no volume was formatted but one that
-- `IsVolumeFormatted` had just said to be unformatted.
pub keeps_data :
    (o : Oracle) (source target fstype : String) (options : List String) (h : List Event)
    → FormatsOnlyBlank h
    → FormatsOnlyBlank (exec o (format_and_mount source target fstype options) h).1
keeps_data o source target fstype options h safe =
    (keeps source target fstype options).leaves o h safe

-- When the source is the number n and `FormatAndMount` succeeds, its last call mounted at the
-- target the first volume of the disk n modulo 2 ^ 32, which was partitioned and brought online;
-- the volume was formatted before, or was formatted now.
pub format_and_mount_ok :
    (o : Oracle) (source target fstype : String) (options : List String) (n : ℕ) (h : List Event)
    → parse_uint source ≡ ok n
    → (exec o (format_and_mount source target fstype options) h).0 ≡ ok tt
    → Mounted (uint32 n) target (exec o (format_and_mount source target fstype options) h).1
format_and_mount_ok o source target fstype options n h is done =
    (mounts source target fstype options n is).yields o h tt (record { before = h; newest = refl })
      done
