-- ===== src/Text/Decimal.antt =====
-- Unsigned numbers as texts: `strconv.ParseUint(s, 10, 64)` and `strconv.FormatUint(n, 10)`.
use Prim.Native.Char.{code}
use Prim.Native.String.{String, ◌++◌ as text_append}
use text.Mathlib.TextLemmas.{nil-append, cons-append, append-ne-nil_of_right_ne-nil}
use mathlib.Core.Path.{fun_ext}
use csi_runtime.Base.{
  ℤ, pos, negsuc, ap, sym, ◌∙◌, ◌≢◌, Bool-cases, inl, inr, ℕ, zero, suc, ◌+◌, ◌-◌, ◌*◌, ◌/◌, ◌%◌,
  ◌^◌, ◌<◌, ◌≡◌, refl, ◌&&◌, Option, none, some, Result, ok, err, arith, ltb, leb, ◌==◌,
  if◌then◌else◌,
}
use csi_runtime.Rpc.{Error, other}

abbrev pub and_then : Option ℕ → (ℕ → Option ℕ) → Option ℕ
and_then none f = none
and_then (some n) f = f n

and_then_assoc :
    (o : Option ℕ) (f g : ℕ → Option ℕ)
    → and_then (and_then o f) g ≡ and_then o (λ d. and_then (f d) g)
and_then_assoc none f g = refl
and_then_assoc (some n) f g = refl

abbrev pub digit_value : ℕ → Option ℕ
digit_value c = if leb 48 c && leb c 57 then some (c - 48) else none

-- The value of the digits that follow a number; `none` at anything else.
unfoldable pub value_from : ℕ → String → Option ℕ
value_from acc String.[] = some acc
value_from acc (String.◌∷◌ c s) = and_then (digit_value (code c)) (λ d. value_from (acc * 10 + d) s)

abbrev pub check_range : Option ℕ → Result Error ℕ
check_range none = err (other "invalid syntax")
check_range (some n) = if ltb n (2 ^ 64) then ok n else err (other "value out of range")

-- `strconv.ParseUint(s, 10, 64)`; of the error only its kind is kept.
unfoldable pub parse_uint : String → Result Error ℕ
unfolding value_from
parse_uint String.[] = err (other "invalid syntax")
parse_uint (String.◌∷◌ c s) = check_range (value_from 0 (String.◌∷◌ c s))

abbrev digit : ℕ → String
digit d =
    if d == 0
    then "0"
    else if d == 1
    then "1"
    else if d == 2
    then "2"
    else if d == 3
    then "3"
    else if d == 4
    then "4"
    else if d == 5
    then "5"
    else if d == 6
    then "6"
    else if d == 7
    then "7"
    else if d == 8
    then "8"
    else "9"

-- The decimal digits of a number below `10 ^ fuel`.
unfoldable pub digits : ℕ → ℕ → String
digits zero n = ""
digits (suc fuel) n =
    let rest = digits fuel (n / 10) in
    if ltb n 10 then digit n else text_append rest (digit (n % 10))

-- `strconv.FormatUint(n, 10)` of a 64-bit number, which has at most twenty digits.
unfoldable pub format_uint : ℕ → String
unfolding digits
format_uint n = digits 20 n

value-append :
    (acc : ℕ) (s t : String)
    → value_from acc (text_append s t) ≡ and_then (value_from acc s) (λ n. value_from n t)
unfolding value_from
value-append acc String.[] t = ap (value_from acc) (nil-append t)
value-append acc (String.◌∷◌ c s) t =
    ap (value_from acc) (cons-append c s t)
    ∙ ap (and_then (digit_value (code c))) (fun_ext λ d. value-append (acc * 10 + d) s t)
    ∙ sym (and_then_assoc (digit_value (code c)) _ _)

digit_texts :
    (acc : ℕ)
    → (value_from acc "0" ≡ some (acc * 10 + 0))
      × (value_from acc "1" ≡ some (acc * 10 + 1))
      × (value_from acc "2" ≡ some (acc * 10 + 2))
      × (value_from acc "3" ≡ some (acc * 10 + 3))
      × (value_from acc "4" ≡ some (acc * 10 + 4))
      × (value_from acc "5" ≡ some (acc * 10 + 5))
      × (value_from acc "6" ≡ some (acc * 10 + 6))
      × (value_from acc "7" ≡ some (acc * 10 + 7))
      × (value_from acc "8" ≡ some (acc * 10 + 8))
      × (value_from acc "9" ≡ some (acc * 10 + 9))
unfolding value_from
digit_texts acc = (refl, refl, refl, refl, refl, refl, refl, refl, refl, refl)

value-digit : (acc d : ℕ) → d < 10 → value_from acc (digit d) ≡ some (acc * 10 + d)
value-digit acc d h = ground (arith, digit_texts acc)

digit-ne-nil : (d : ℕ) → d < 10 → digit d ≢ ""
unfolding value_from
digit-ne-nil d h e = ground (arith, value-digit 1 d h, ap (value_from 1) e)

value-nil : (acc : ℕ) → value_from acc "" ≡ some acc
unfolding value_from
value-nil acc = refl

value-digits : (fuel n : ℕ) → n < 10 ^ fuel → value_from 0 (digits fuel n) ≡ some n
unfolding digits
value-digits zero n h = ground (arith, value-nil 0)
value-digits (suc fuel) n h = elim (Bool-cases (ltb n 10)) [
  | inl small ↦ rw small (value-digit 0 n (ground arith) ∙ ap some (omega arith))
  | inr big ↦
      rw
        (
          big,
          value-append 0 (digits fuel (n / 10)) (digit (n % 10)),
          value-digits fuel (n / 10) (omega arith),
          value-digit (n / 10) (n % 10) (omega arith),
        )
        (ground arith)
]

digits-ne-nil : (fuel n : ℕ) → digits (suc fuel) n ≢ ""
unfolding digits
digits-ne-nil fuel n = elim (Bool-cases (ltb n 10)) [
  | inl small ↦ rw small (digit-ne-nil n (ground arith))
  | inr big ↦
      rw big
        (append-ne-nil_of_right_ne-nil (digits fuel (n / 10)) (digit-ne-nil (n % 10) (omega arith)))
]

parse_of_value :
    (s : String) (n : ℕ) → s ≢ "" → value_from 0 s ≡ some n → n < 2 ^ 64 → parse_uint s ≡ ok n
unfolding parse_uint
parse_of_value String.[] n ne e h = absurd (ne refl)
parse_of_value (String.◌∷◌ c s) n ne e h = rw e (ground arith)

-- The text of a 64-bit number parses as that number.
pub parse-format_uint : (n : ℕ) → n < 2 ^ 64 → parse_uint (format_uint n) ≡ ok n
unfolding format_uint
parse-format_uint n h =
    parse_of_value (digits 20 n) n (digits-ne-nil 19 n) (value-digits 20 n (omega arith)) h

-- `strconv.FormatInt(z, 10)` of a 64-bit number.
unfoldable pub format_int : ℤ → String
unfolding format_uint
format_int (pos n) = format_uint n
format_int (negsuc n) = text_append "-" (format_uint (n + 1))

-- The sign that `strconv.ParseInt` takes off, with the range of the numbers left.
abbrev signed_value : Result Error ℕ → Result Error ℤ
signed_value (err e) = err e
signed_value (ok n) = if ltb n (2 ^ 63) then ok (pos n) else err (other "value out of range")

abbrev negated_value : Result Error ℕ → Result Error ℤ
negated_value (err e) = err e
negated_value (ok zero) = ok (pos zero)
negated_value (ok (suc n)) =
    if ltb n (2 ^ 63) then ok (negsuc n) else err (other "value out of range")

-- `strconv.ParseInt(s, 10, 64)`; of the error only its kind is kept.
unfoldable pub parse_int : String → Result Error ℤ
unfolding parse_uint
parse_int String.[] = err (other "invalid syntax")
parse_int (String.◌∷◌ c s) =
    let unsigned = signed_value (parse_uint s) in
    if code c == 45
    then negated_value (parse_uint s)
    else if code c == 43
    then unsigned
    else signed_value (parse_uint (String.◌∷◌ c s))
