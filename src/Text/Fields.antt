-- ===== src/Text/Fields.antt =====
-- The fields of a text: `strings.Fields`.
use Prim.Native.Char.{Char, code}
use Prim.Native.String.{String, ◌++◌ as text_append}
use text.Mathlib.TextLemmas.{nil-append, cons-append, append_assoc, append-nil}
use csi_runtime.Base.{
  ℕ, ◌≡◌, ◌≢◌, ap, sym, ◌∙◌, Bool, true, not, ◌&&◌, ◌||◌, List, [], ◌∷◌, Option, none, some, arith,
  leb, ◌==◌, str_eq, eq_iff, if◌then◌else◌, Bool-cases, inl, inr,
}

-- `unicode.IsSpace`
unfoldable pub is_space : ℕ → Bool
is_space c =
    (leb 9 c && leb c 13)
    || (c == 32
        || (c == 0x85
            || (c == 0xa0
                || (c == 0x1680
                    || ((leb 0x2000 c && leb c 0x200a)
                        || (c == 0x2028
                            || (c == 0x2029 || (c == 0x202f || (c == 0x205f || c == 0x3000)))))))))

abbrev pub one_char : Char → String
one_char c = String.◌∷◌ c String.[]

-- The fields of a text, after what was read of the field under way.
unfoldable pub fields_from : String → String → List String
fields_from cur String.[] = if str_eq cur "" then [] else cur ∷ []
fields_from cur (String.◌∷◌ c s) =
    let next = fields_from "" s in
    let more = fields_from (text_append cur (one_char c)) s in
    if is_space (code c) then (if str_eq cur "" then next else cur ∷ next) else more

-- `strings.Fields`
unfoldable pub fields : String → List String
unfolding fields_from
fields s = fields_from "" s

-- `names[len(names)-1]`; `none` where the index is out of range.
abbrev pub last_of : List String → Option String
last_of [] = none
last_of (x ∷ []) = some x
last_of (x ∷ y ∷ ys) = last_of (y ∷ ys)

-- No character is a space.
unfoldable pub is_word : String → Bool
is_word String.[] = true
is_word (String.◌∷◌ c s) = not (is_space (code c)) && is_word s

append-one_char :
    (cur : String) (c : Char) (s : String)
    → text_append (text_append cur (one_char c)) s ≡ text_append cur (String.◌∷◌ c s)
append-one_char cur c s =
    append_assoc cur (one_char c) s
    ∙ ap (text_append cur) (cons-append c "" s ∙ ap (String.◌∷◌ c) (nil-append s))

fields_from-word :
    (cur s : String)
    → is_word s ≡ true
    → text_append cur s ≢ ""
    → fields_from cur s ≡ text_append cur s ∷ []
unfolding fields_from is_word
fields_from-word cur String.[] h ne =
    let e = append-nil cur in ground (arith, e, ap (λ x. x ∷ []) e, eq_iff cur "")
fields_from-word cur (String.◌∷◌ c s) h ne = elim (Bool-cases (is_space (code c))) [
  | inl space ↦ ground (arith, space, h)
  | inr no_space ↦ rw no_space (
      fields_from-word (text_append cur (one_char c)) s (ground (arith, h))
        (λ e. ne (sym (append-one_char cur c s) ∙ e))
      ∙ ap (λ x. x ∷ []) (append-one_char cur c s))
]

last_of-cons :
    (x : String) (xs : List String) (y : String) → last_of xs ≡ some y → last_of (x ∷ xs) ≡ some y
last_of-cons x [] y h = ground arith
last_of-cons x (z ∷ zs) y h = h

last_of-space :
    (cur name : String)
    → is_word name ≡ true
    → name ≢ ""
    → last_of (fields_from cur (String.◌∷◌ " " name)) ≡ some name
unfolding fields_from is_space
last_of-space cur name w ne =
    let word =
      fields_from-word "" name w (λ e. ne (sym (nil-append name) ∙ e))
      ∙ ap (λ x. x ∷ []) (nil-append name) in
    rw word (ground arith)

-- A character more in front, whatever it is.
last_of-char :
    (cur : String) (c : Char) (s name : String)
    → ((next : String) → last_of (fields_from next s) ≡ some name)
    → last_of (fields_from cur (String.◌∷◌ c s)) ≡ some name
unfolding fields_from
last_of-char cur c s name h =
    ground (
      arith,
      h "",
      h (text_append cur (one_char c)),
      last_of-cons cur (fields_from "" s) name (h ""),
    )

last-fields_from :
    (cur s name : String)
    → is_word name ≡ true
    → name ≢ ""
    → last_of (fields_from cur (text_append s (text_append " " name))) ≡ some name
unfolding fields_from
last-fields_from cur String.[] name w ne =
    ap (λ x. last_of (fields_from cur x))
      (nil-append (text_append " " name)
        ∙ cons-append " " "" name
        ∙ ap (String.◌∷◌ " ") (nil-append name))
    ∙ last_of-space cur name w ne
last-fields_from cur (String.◌∷◌ c s) name w ne =
    ap (λ x. last_of (fields_from cur x)) (cons-append c s (text_append " " name))
    ∙ last_of-char cur c (text_append s (text_append " " name)) name
        (λ next. last-fields_from next s name w ne)

-- The last field of a text that ends in a space and a word is that word.
pub last-fields :
    (s name : String)
    → is_word name ≡ true
    → name ≢ ""
    → last_of (fields (text_append s (text_append " " name))) ≡ some name
unfolding fields
last-fields s name w ne = last-fields_from "" s name w ne

-- `strings.TrimSpace`
unfoldable pub trim_left : String → String
trim_left String.[] = ""
trim_left (String.◌∷◌ c s) =
    let rest = trim_left s in if is_space (code c) then rest else String.◌∷◌ c s

unfoldable pub trim_right : String → String
trim_right String.[] = ""
trim_right (String.◌∷◌ c s) =
    let rest = trim_right s in if is_space (code c) && str_eq rest "" then "" else String.◌∷◌ c rest

unfoldable pub trim_space : String → String
unfolding trim_left trim_right
trim_space s = trim_right (trim_left s)
