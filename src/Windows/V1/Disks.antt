-- ===== src/Windows/V1/Disks.antt =====
-- mount-manager/safe-mounter-v1_windows.go: which disk `GetDiskNumber` finds, and which
-- `FormatAndMount` takes.
use csi_runtime.Base.{
  ℕ, ◌+◌, ◌^◌, ◌<◌, String, ◌≡◌, ◌≢◌, refl, true, Bool-cases, List, [], ◌∷◌, ◌++◌, none, some,
  Option, ap, sym, ◌∙◌, ◌⊎◌, Result, ok, err, arith, str_eq, eq_iff, inl, inr,
}
use csi_runtime.Base.Prog.{◌>>=◌, ◌>>◌, ask, ret, bind}
use csi_runtime.Text.Decimal.{parse_uint, format_uint, parse-format_uint}
use csi_runtime.Text.Fields.{fields, last_of}
use csi_runtime.Windows.Proxy.{Fault, uint32, panics}
use csi_runtime.Windows.V1.{
  find_disk, match_names, format_and_mount, first_volume, format_volume_and_mount,
}
use csi_runtime.Windows.V1.Calls.{partition_disk, set_disk_state, list_volumes_on_disk, Io}

-- The disk has a number of 32 bits, as the response holds it, and an ID whose last field is the name.
abbrev pub Named : String → ℕ × String → Type 0
Named name (number, id_value) =
    (number < 2 ^ 32) × (id_value ≢ "") × (last_of (fields id_value) ≡ some name)

-- Every number has 32 bits.
abbrev pub Numbers : List (ℕ × String) → Type 0
Numbers [] = Unit {0}
Numbers ((number, _) ∷ ids) = (number < 2 ^ 32) × Numbers ids

-- The disks before the one found, the one found, and those after it.
abbrev pub Split : String → List (ℕ × String) → ℕ → Type 0
Split name ids number =
    (before : List (ℕ × String)) × (id_value : String) × (after : List (ℕ × String)) × (ids
      ≡ before ++ ((number, id_value) ∷ after))
    × Named name (number, id_value)

next_disk :
    (name : String) (d : ℕ × String) (ids : List (ℕ × String)) (number : ℕ)
    → Split name ids number
    → Split name (d ∷ ids) number
next_disk name d ids number (before, id_value, after, e, named) =
    (d ∷ before, id_value, after, ap (λ x. d ∷ x) e, named)

match_cases :
    (name : String) (number : ℕ) (o : Option String) (rest : Result Fault String) (r : String)
    → match_names name number o rest ≡ ok r
    → (rest ≡ ok r) ⊎ ((r ≡ format_uint number) × (o ≡ some name))
match_cases name number none rest r e = absurd (cc e)
match_cases name number (some x) rest r e = elim (Bool-cases (str_eq x name)) [
  | inl same ↦ inr (ground (arith, e, same), ap some (ground (arith, same, eq_iff x name)))
  | inr other ↦ inl (ground (arith, e, other))
]

find_cases :
    (name id_value : String) (number : ℕ) (ids : List (ℕ × String)) (r : String)
    → find_disk name ((number, id_value) ∷ ids) ≡ ok r
    → (find_disk name ids ≡ ok r)
      ⊎ ((r ≡ format_uint number) × (id_value ≢ "") × (last_of (fields id_value) ≡ some name))
unfolding find_disk
find_cases name id_value number ids r e = elim (Bool-cases (str_eq id_value "")) [
  | inl empty ↦ inl (rw empty at e)
  | inr full ↦
      elim (match_cases name number (last_of (fields id_value)) (find_disk name ids) r
        (rw full at e)) [
          | inl later ↦ inl later
          | inr (here, last) ↦
              inr (here, (λ empty. ground (arith, full, eq_iff id_value "", empty)), last)
        ]
]

-- When the listed disks have numbers of 32 bits, a number that `GetDiskNumber` finds is read by
-- `FormatAndMount` and `GetDiskTotalBytes` as the number of a disk that was listed, and the last
-- field of the ID of that disk, which is not empty, is the device name.
pub find_disk_sound :
    (name : String) (ids : List (ℕ × String)) (r : String)
    → Numbers ids
    → find_disk name ids ≡ ok r
    → (n : ℕ) × (parse_uint r ≡ ok n) × (uint32 n ≡ n) × Split name ids n
unfolding find_disk
find_disk_sound name [] r small found = absurd (cc found)
find_disk_sound name ((number, id_value) ∷ ids) r (s, small) found =
    elim (find_cases name id_value number ids r found) [
      | inl later ↦
          let (n, p, u, split) = find_disk_sound name ids r small later in
          (n, p, u, next_disk name (number, id_value) ids n split)
      | inr (here, named, last) ↦ (
        number,
        rw here (parse-format_uint number (omega arith)),
        omega arith,
        ([], id_value, ids, refl, (s, named, last)),
      )
    ]

-- A blank ID, that is one of spaces only, makes `GetDiskNumber` panic when the disks before it do not
-- match: its fields are none, and their last is taken.
blank_id_panics :
    (name id_value : String) (number : ℕ) (ids : List (ℕ × String))
    → id_value ≢ ""
    → fields id_value ≡ []
    → find_disk name ((number, id_value) ∷ ids) ≡ err (panics "index out of range [-1]")
unfolding find_disk
blank_id_panics name id_value number ids full blank =
    rw blank (ground (arith, eq_iff id_value "", full))

-- What `FormatAndMount` does after it has read the number.
abbrev from_number : ℕ → String → Io (Unit {0})
from_number disk_number target = do
  ask (partition_disk disk_number)
  ask (set_disk_state disk_number true)
  volume_ids ← ask (list_volumes_on_disk disk_number)
  volume_id ← ret (first_volume volume_ids)
  format_volume_and_mount volume_id target

format_and_mount-format_uint :
    (n : ℕ) (target fstype : String) (options : List String)
    → n < 2 ^ 64
    → format_and_mount (format_uint n) target fstype options ≡ from_number (uint32 n) target
unfolding format_and_mount ◌>>=◌ bind
format_and_mount-format_uint n target fstype options small = rw (parse-format_uint n small) refl

-- The number is cut to 32 bits: for n below 2 ^ 32, `FormatAndMount` for the number 2 ^ 32 + n is
-- that for n.
disk_number_wraps :
    (n : ℕ) (target fstype : String) (options : List String)
    → n < 2 ^ 32
    → format_and_mount (format_uint (2 ^ 32 + n)) target fstype options
      ≡ format_and_mount (format_uint n) target fstype options
disk_number_wraps n target fstype options small =
    format_and_mount-format_uint (2 ^ 32 + n) target fstype options (omega arith)
    ∙ ap (λ k. from_number k target) (omega arith)
    ∙ sym (format_and_mount-format_uint n target fstype options (omega arith))
