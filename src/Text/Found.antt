-- ===== src/Text/Found.antt =====
-- What a successful match says of the text, for the parts of the regular expressions.
use Prim.Native.String.{String, ◌++◌ as text_append}
use text.Mathlib.TextLemmas.{nil-append, cons-append, cons-ne-nil}
use text.Mathlib.TextEquality.{Char-path}
use csi_runtime.Base.{◌≡◌, ◌≢◌, refl, ap, sym, Bool, true, some, arith, Bool-cases, inl, inr}
use csi_runtime.Text.Match.{is_blank, literal, skip_blanks, blanks, span_word, all_blank, no_blank}

pub literal_found : (p s r : String) → literal p s ≡ some r → s ≡ text_append p r
unfolding literal
literal_found String.[] s r h = cc (nil-append r)
literal_found (String.◌∷◌ p ps) String.[] r h = cc
literal_found (String.◌∷◌ p ps) (String.◌∷◌ c s) r h =
    ground (arith, literal_found ps s r, cons-append p ps r, Char-path c p)

-- A text ends or has a blank first.
abbrev pub ends_word : String → Bool
ends_word String.[] = true
ends_word (String.◌∷◌ c s) = is_blank c

pub span_word_found :
    (s : String)
    → (s ≡ text_append (span_word s).0 (span_word s).1)
      × (no_blank (span_word s).0 ≡ true)
      × (ends_word (span_word s).1 ≡ true)
unfolding span_word no_blank
span_word_found String.[] = (sym (nil-append ""), refl, refl)
span_word_found (String.◌∷◌ c s) = elim (Bool-cases (is_blank c)) [
  | inl blank ↦ rw (blank, nil-append) (refl, refl, blank)
  | inr other ↦
      let (e, w, r) = span_word_found s in
      rw (other, cons-append) (ap (String.◌∷◌ c) e, ground (arith, w, other), r)
]

pub skip_blanks_found :
    (s : String) → (b : String) × (s ≡ text_append b (skip_blanks s)) × (all_blank b ≡ true)
unfolding skip_blanks all_blank
skip_blanks_found String.[] = ("", sym (nil-append ""), refl)
skip_blanks_found (String.◌∷◌ c s) = elim (Bool-cases (is_blank c)) [
  | inl blank ↦
      let (b, e, h) = skip_blanks_found s in
      (String.◌∷◌ c b, rw (blank, cons-append) (ap (String.◌∷◌ c) e), ground (arith, blank))
  | inr other ↦ ("", rw (other, nil-append), refl)
]

pub blanks_found :
    (s r : String)
    → blanks s ≡ some r
    → (b : String) × (s ≡ text_append b r) × (all_blank b ≡ true) × (b ≢ "")
unfolding all_blank
blanks_found String.[] r h = cc
blanks_found (String.◌∷◌ c s) r h = elim (Bool-cases (is_blank c)) [
  | inl blank ↦
      let (b, e, a) = skip_blanks_found s in
      let is : skip_blanks s ≡ r = ground (arith, blank) in
      (
        String.◌∷◌ c b,
        rw cons-append (ap (String.◌∷◌ c) (rw is at e)),
        ground (arith, blank),
        λ n. cons-ne-nil c b n,
      )
  | inr other ↦ absurd (ground (arith, other))
]

-- A text of which nothing is left but blanks has blanks only.
pub all_blank-skip_blanks : (s : String) → skip_blanks s ≡ "" → all_blank s ≡ true
unfolding skip_blanks all_blank
all_blank-skip_blanks String.[] h = refl
all_blank-skip_blanks (String.◌∷◌ c s) h = elim (Bool-cases (is_blank c)) [
  | inl blank ↦ ground (arith, all_blank-skip_blanks s, blank)
  | inr other ↦ absurd (cons-ne-nil c s (rw other at h))
]

-- A word, with what ends it after it.
pub span_word-ends :
    (word rest : String)
    → no_blank word ≡ true
    → ends_word rest ≡ true
    → span_word (text_append word rest) ≡ (word, rest)
unfolding span_word no_blank
span_word-ends String.[] String.[] hw he = ap span_word (nil-append "")
span_word-ends String.[] (String.◌∷◌ c b) hw he =
    rw (nil-append (String.◌∷◌ c b)) (ground (arith, he))
span_word-ends (String.◌∷◌ c word) rest hw he =
    rw (cons-append c word rest, span_word-ends word rest (ground (arith, hw)) he)
      (ground (arith, hw))
