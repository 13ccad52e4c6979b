-- ===== src/Device/Exact.antt =====
-- mount-manager/device-utils.go: which outputs of `scsi_id` and `google_nvme_id` are accepted.
use Prim.Native.String.{String, ◌++◌ as text_append}
use csi_runtime.Base.{◌≡◌, ◌≢◌, ◌↔◌, refl, true, Option, none, some, ok, arith, eq_iff}
use csi_runtime.Text.Match.{
  then_match, literal, blanks, span_word, word_of, to_end, all_blank, no_blank, skip_blanks,
}
use csi_runtime.Text.Found.{
  literal_found, blanks_found, span_word_found, ends_word, all_blank-skip_blanks,
}
use csi_runtime.Device.Serial.{scsi_match, parse_scsi_serial, scsi_round_trip}

-- A match that went on from a match.
pub matched :
    {A B : Type 0} (o : Option A) (f : A → Option B) (b : B)
    → then_match o f ≡ some b
    → (a : A) × (o ≡ some a) × (f a ≡ some b)
matched none f b h = cc
matched (some a) f b h = (a, refl, h)

-- A word of one character or more, at the start of a text.
abbrev pub IsWordOf : String → String → String → Type 0
IsWordOf s word rest =
    (s ≡ text_append word rest) × (no_blank word ≡ true) × (word ≢ "") × (ends_word rest ≡ true)

pub word_found :
    (s word rest : String) → word_of (span_word s) ≡ some (word, rest) → IsWordOf s word rest
word_found s word rest h =
    let (e, w, r) = span_word_found s in ground (arith, eq_iff (span_word s).0 "")

end_found :
    (word rest name : String)
    → to_end (word, rest) ≡ some name
    → (word ≡ name) × (all_blank rest ≡ true)
end_found word rest name h =
    ground (arith, eq_iff (skip_blanks rest) "", all_blank-skip_blanks rest)

-- What `scsi_id` prints for a disk: the three fields, with blanks between them and maybe at the end.
abbrev pub IsScsiOutput : String → String → Type 0
IsScsiOutput out name =
    (b : String) × (c : String) × (d : String) × (out
      ≡ text_append "0Google"
          (text_append b (text_append "PersistentDisk" (text_append c (text_append name d)))))
    × (all_blank b ≡ true)
    × (b ≢ "")
    × (all_blank c ≡ true)
    × (c ≢ "")
    × (all_blank d ≡ true)
    × (no_blank name ≡ true)
    × (name ≢ "")

fields :
    (out a s t u b c word d name : String)
    → out ≡ text_append "0Google" a
    → a ≡ text_append b s
    → s ≡ text_append "PersistentDisk" t
    → t ≡ text_append c u
    → u ≡ text_append word d
    → word ≡ name
    → out
      ≡ text_append "0Google"
          (text_append b (text_append "PersistentDisk" (text_append c (text_append name d))))
fields out a s t u b c word d name h1 h2 h3 h4 h5 h6 = rw (h1, h2, h3, h4, h5, h6)

scsi_sound : (out name : String) → scsi_match out ≡ some name → IsScsiOutput out name
unfolding scsi_match
scsi_sound out name h =
    let (a, ea, ha) = matched (literal "0Google" out) _ name h in
    let (s, es, hs) = matched (blanks a) _ name ha in
    let (t, et, ht) = matched (literal "PersistentDisk" s) _ name hs in
    let (u, eu, hu) = matched (blanks t) _ name ht in
    let ((word, d), ew, hw) = matched (word_of (span_word u)) _ name hu in
    let (b, is_b, blank_b, some_b) = blanks_found a s es in
    let (c, is_c, blank_c, some_c) = blanks_found t u eu in
    let (is_u, plain, given, _) = word_found u word d ew in
    let (same, blank_d) = end_found word d name hw in
    (
      b,
      c,
      d,
      fields out a s t u b c word d name (literal_found "0Google" out a ea) is_b
          (literal_found "PersistentDisk" s t et) is_c is_u same,
      blank_b,
      some_b,
      blank_c,
      some_c,
      blank_d,
      rw same at plain,
      rw same at given,
    )

accepted : (out name : String) → parse_scsi_serial out ≡ ok name → scsi_match out ≡ some name
unfolding parse_scsi_serial
accepted out name h = ground arith

-- `parseScsiSerial` gives a name exactly for the outputs of the form that the comment of the pattern
-- shows: the field `0Google`, blanks, the field `PersistentDisk`, blanks, the name, which is not empty
-- and has no blank, and maybe blanks.
pub scsi_exact : (out name : String) → (parse_scsi_serial out ≡ ok name) ↔ IsScsiOutput out name
scsi_exact out name = (
  (λ h. scsi_sound out name (accepted out name h)),
  λ (b, c, d, e, hb, nb, hc, nc, hd, w, ne). rw e (scsi_round_trip name b c d w ne hb nb hc nc hd),
)
