-- ===== src/Text/Match.antt =====
-- What the regular expressions of the repository are made of, on texts from the left: a literal,
-- `\s*`, `\s+` and `([\S]+)`, with `\s` as package regexp has it. What may follow each of these
-- never starts like it, so that the first way to match is the only one.
use Prim.Native.Char.{Char, code}
use Prim.Native.String.{String, ◌++◌ as text_append}
use text.Mathlib.TextLemmas.{nil-append, cons-append}
use csi_runtime.Base.{
  ◌≡◌, ◌≢◌, refl, ap, Bool, true, false, not, ◌&&◌, ◌||◌, Option, none, some, arith, ◌==◌, str_eq,
  if◌then◌else◌,
}

-- `\s`
abbrev pub is_blank : Char → Bool
is_blank c = code c == 9 || (code c == 10 || (code c == 12 || (code c == 13 || code c == 32)))

abbrev pub then_match : {A B : Type 0} → Option A → (A → Option B) → Option B
then_match none f = none
then_match (some a) f = f a

-- A literal; what is left after it.
unfoldable pub literal : String → String → Option String
literal String.[] s = some s
literal (String.◌∷◌ p ps) String.[] = none
literal (String.◌∷◌ p ps) (String.◌∷◌ c s) =
    let rest = literal ps s in if code c == code p then rest else none

abbrev is_found : Option String → Bool
is_found none = false
is_found (some _) = true

-- `strings.HasPrefix`
unfoldable pub has_prefix : String → String → Bool
unfolding literal
has_prefix s prefix = is_found (literal prefix s)

-- `\s*`
unfoldable pub skip_blanks : String → String
skip_blanks String.[] = ""
skip_blanks (String.◌∷◌ c s) =
    let rest = skip_blanks s in if is_blank c then rest else String.◌∷◌ c s

-- `\s+`
abbrev pub blanks : String → Option String
blanks String.[] = none
blanks (String.◌∷◌ c s) = if is_blank c then some (skip_blanks s) else none

-- `[\S]*`; what matched, and what is left.
unfoldable pub span_word : String → String × String
span_word String.[] = ("", "")
span_word (String.◌∷◌ c s) =
    let (word, rest) = span_word s in
    if is_blank c then ("", String.◌∷◌ c s) else (String.◌∷◌ c word, rest)

-- `([\S]+)`
abbrev pub word_of : String × String → Option (String × String)
word_of (word, rest) = if str_eq word "" then none else some (word, rest)

-- `\s*$` after the word
abbrev pub to_end : String × String → Option String
to_end (word, rest) = if str_eq (skip_blanks rest) "" then some word else none

-- Blanks only, and no blank.
unfoldable pub all_blank : String → Bool
all_blank String.[] = true
all_blank (String.◌∷◌ c s) = is_blank c && all_blank s

unfoldable pub no_blank : String → Bool
no_blank String.[] = true
no_blank (String.◌∷◌ c s) = not (is_blank c) && no_blank s

pub literal-append : (p s : String) → literal p (text_append p s) ≡ some s
unfolding literal
literal-append String.[] s = ap some (nil-append s)
literal-append (String.◌∷◌ p ps) s = rw (cons-append p ps s, literal-append ps s) (ground arith)

pub skip_blanks-append :
    (b s : String) → all_blank b ≡ true → skip_blanks (text_append b s) ≡ skip_blanks s
unfolding skip_blanks all_blank
skip_blanks-append String.[] s h = ap skip_blanks (nil-append s)
skip_blanks-append (String.◌∷◌ c b) s h =
    rw (cons-append c b s, skip_blanks-append b s (ground (arith, h))) (ground (arith, h))

-- Blanks before what does not start with one.
pub blanks-append :
    (b s : String)
    → all_blank b ≡ true
    → b ≢ ""
    → skip_blanks s ≡ s
    → blanks (text_append b s) ≡ some s
unfolding all_blank
blanks-append String.[] s h ne stops = absurd (ne refl)
blanks-append (String.◌∷◌ c b) s h ne stops =
    rw (cons-append c b s, skip_blanks-append b s (ground (arith, h)), stops) (ground (arith, h))

-- A word, with blanks after it.
pub span_word-append :
    (word b : String)
    → no_blank word ≡ true
    → all_blank b ≡ true
    → span_word (text_append word b) ≡ (word, b)
unfolding span_word no_blank all_blank
span_word-append String.[] String.[] hw hb = ap span_word (nil-append "")
span_word-append String.[] (String.◌∷◌ c b) hw hb =
    rw (nil-append (String.◌∷◌ c b)) (ground (arith, hb))
span_word-append (String.◌∷◌ c word) b hw hb =
    rw (cons-append c word b, span_word-append word b (ground (arith, hw)) hb) (ground (arith, hw))

pub skip_blanks-all_blank : (b : String) → all_blank b ≡ true → skip_blanks b ≡ ""
unfolding skip_blanks all_blank
skip_blanks-all_blank String.[] h = refl
skip_blanks-all_blank (String.◌∷◌ c b) h =
    rw (skip_blanks-all_blank b (ground (arith, h))) (ground (arith, h))

pub skip_blanks-word :
    (word s : String)
    → no_blank word ≡ true
    → word ≢ ""
    → skip_blanks (text_append word s) ≡ text_append word s
unfolding skip_blanks no_blank
skip_blanks-word String.[] s h ne = absurd (ne refl)
skip_blanks-word (String.◌∷◌ c word) s h ne = rw (cons-append c word s) (ground (arith, h))
