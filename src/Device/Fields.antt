-- ===== src/Device/Fields.antt =====
-- mount-manager/device-utils.go: the field that is found in what `google_nvme_id` prints.
use Prim.Native.Char.{Char}
use Prim.Native.String.{String, ◌++◌ as text_append}
use text.Mathlib.TextLemmas.{nil-append, cons-append}
use csi_runtime.Base.{
  ◌≡◌, ◌≢◌, ◌∙◌, ◌⊎◌, inl, inr, [], ◌∷◌, refl, ap, sym, true, Option, none, some, ok, err, arith,
  eq_iff,
}
use csi_runtime.Text.Match.{literal, no_blank, literal-append}
use csi_runtime.Text.Found.{literal_found, ends_word, span_word-ends}
use csi_runtime.Device.Serial.{nvme_here, nvme_match, or_later, errorf, parse_nvme_serial}
use csi_runtime.Device.Exact.{matched, word_found}

-- A line of `google_nvme_id`: the field, the name, and what is after it.
abbrev pub IsNvmeField : String → String → String → Type 0
IsNvmeField s name rest =
    (s ≡ text_append "ID_SERIAL_SHORT=" (text_append name rest))
    × (no_blank name ≡ true)
    × (name ≢ "")
    × (ends_word rest ≡ true)

nvme_here_found : (s name rest : String) → nvme_here s ≡ some (name, rest) → IsNvmeField s name rest
unfolding nvme_here
nvme_here_found s name rest h =
    let (t, et, ht) = matched (literal "ID_SERIAL_SHORT=" s) _ (name, rest) h in
    let (e, w, ne, r) = word_found t name rest ht in
    (literal_found "ID_SERIAL_SHORT=" s t et ∙ ap (text_append "ID_SERIAL_SHORT=") e, w, ne, r)

-- The name is that of a field somewhere in the output.
abbrev pub HasField : String → String → Type 0
HasField out name =
    (before : String) × (field : String) × (rest : String) × (out ≡ text_append before field)
    × IsNvmeField field name rest

Option-cases : {A : Type 0} (o : Option A) → ((a : A) × (o ≡ some a)) ⊎ (o ≡ none)
Option-cases none = inr refl
Option-cases (some a) = inl (a, refl)

later :
    (c : Char) (s : String) (r : Option (String × String)) (name : String)
    → nvme_here (String.◌∷◌ c s) ≡ r
    → or_later r (nvme_match s) ≡ some name
    → (nvme_match s ≡ some name → HasField s name)
    → HasField (String.◌∷◌ c s) name
later c s none name e h below =
    let (before, field, rest, is, f) = below h in
    (String.◌∷◌ c before, field, rest, ap (String.◌∷◌ c) is ∙ sym (cons-append c before field), f)
later c s (some (word, rest)) name e h below =
    let same : word ≡ name = cc in
    (
      "",
      String.◌∷◌ c s,
      rest,
      sym (nil-append _),
      rw same at (nvme_here_found (String.◌∷◌ c s) word rest e),
    )

nvme_sound : (out name : String) → nvme_match out ≡ some name → HasField out name
unfolding nvme_match
nvme_sound String.[] name h = cc
nvme_sound (String.◌∷◌ c s) name h =
    later c s (nvme_here (String.◌∷◌ c s)) name refl h (nvme_sound s name)

nothing_here : nvme_here "" ≡ none
unfolding nvme_here literal
nothing_here = refl

-- A match here is a match.
nvme_match_here :
    (s name rest : String) → nvme_here s ≡ some (name, rest) → nvme_match s ≡ some name
unfolding nvme_match
nvme_match_here String.[] name rest h = cc (nothing_here)
nvme_match_here (String.◌∷◌ c s) name rest h = rw h

nvme_here_field : (s name rest : String) → IsNvmeField s name rest → nvme_here s ≡ some (name, rest)
unfolding nvme_here
nvme_here_field s name rest (e, w, ne, r) =
    rw (e, literal-append "ID_SERIAL_SHORT=" (text_append name rest), span_word-ends name rest w r)
      (ground (arith, eq_iff name ""))

or_later_found :
    (r : Option (String × String)) (l : Option String) (found : String)
    → l ≡ some found
    → (first : String) × (or_later r l ≡ some first)
or_later_found none l found h = (found, h)
or_later_found (some (word, rest)) l found h = (word, refl)

nvme_complete :
    (before field name rest : String)
    → IsNvmeField field name rest
    → (found : String) × (nvme_match (text_append before field) ≡ some found)
unfolding nvme_match
nvme_complete String.[] field name rest f =
    (name, rw nil-append (nvme_match_here field name rest (nvme_here_field field name rest f)))
nvme_complete (String.◌∷◌ c before) field name rest f =
    let (found, e) = nvme_complete before field name rest f in
    rw cons-append (or_later_found _ _ found e)

serial_given : (out name : String) → nvme_match out ≡ some name → parse_nvme_serial out ≡ ok name
unfolding parse_nvme_serial
serial_given out name h = rw h

serial_refused :
    (out : String)
    → nvme_match out ≡ none
    → parse_nvme_serial out ≡ err (errorf "google_nvme_id output cannot be parsed: %q" (out ∷ []))
unfolding parse_nvme_serial
serial_refused out h = rw h

no_field : (out name : String) → nvme_match out ≡ none → ¬ HasField out name
no_field out name h (before, field, rest, e, f) =
    let (found, is) = nvme_complete before field name rest f in cc

-- `parseNvmeSerial` gives the name of a field `ID_SERIAL_SHORT=` somewhere in the output, which goes to
-- the next blank or to the end and is not empty, or it fails and there is no such field.
pub nvme_exact :
    (out : String)
    → ((name : String) × (parse_nvme_serial out ≡ ok name) × HasField out name)
      ⊎ ((parse_nvme_serial out
            ≡ err (errorf "google_nvme_id output cannot be parsed: %q" (out ∷ [])))
          × ((name : String) → ¬ HasField out name))
nvme_exact out = elim (Option-cases (nvme_match out)) [
  | inl (name, e) ↦ inl (name, serial_given out name e, nvme_sound out name e)
  | inr e ↦ inr (serial_refused out e, λ name. no_field out name e)
]
