-- ===== src/Base/Prog.antt =====
-- Go functions with effects, as trees of the calls that they make. A function with results
-- `(A, error)` is a tree that returns a `Result`, and `m >>= f` is the code that returns early on an
-- error of `m`.
use csi_runtime.Base.Tests.{Result, ok, err, if◌then◌else◌}
use mathlib.Core.Bool.{Bool}

abbrev pub on_error : {E F A : Type 0} → (E → F) → Result E A → Result F A
on_error f (ok a) = ok a
on_error f (err e) = err (f e)

pub data Prog (C : Type 0) (R : C → Type 0) (A : Type 0) : Type 0 where
  ret : A → Prog C R A
  call : (c : C) → (R c → Prog C R A) → Prog C R A

module _ {C : Type 0} {R : C → Type 0} where
  -- One call, with its answer.
  unfoldable pub ask : (c : C) → Prog C R (R c)
  ask c = call c ret

module _ {C : Type 0} {R : C → Type 0} {A B : Type 0} where
  -- The answer of `m`, an error too, goes on to `f`.
  unfoldable pub bind : Prog C R A → (A → Prog C R B) → Prog C R B
  bind (ret a) f = f a
  bind (call c k) f = call c (λ r. bind (k r) f)

module _ {C : Type 0} {R : C → Type 0} {A : Type 0} where
  -- A conditional on programs, which does not unfold by itself.
  infix 1 when◌then◌else◌
  unfoldable pub when◌then◌else◌ : Bool → Prog C R A → Prog C R A → Prog C R A
  when test then m else n = if test then m else n

module _ {C : Type 0} {R : C → Type 0} {E A : Type 0} where
  unfoldable pub succeed : A → Prog C R (Result E A)
  succeed a = ret (ok a)

  unfoldable pub fail : E → Prog C R (Result E A)
  fail e = ret (err e)

  -- `if err != nil { return f(err) }`
  unfoldable pub map_err : (E → E) → Prog C R (Result E A) → Prog C R (Result E A)
  unfolding bind
  map_err f m = bind m (λ r. ret (on_error f r))

module _ {C : Type 0} {R : C → Type 0} {E : Type 0} where
  -- `if !test { return e }`
  unfoldable pub require : Bool → E → Prog C R (Result E (Unit {0}))
  require test e = ret (if test then ok tt else err e)

module _ {C : Type 0} {R : C → Type 0} {E A B : Type 0} where
  abbrev pub continue : (A → Prog C R (Result E B)) → Result E A → Prog C R (Result E B)
  continue f (ok a) = f a
  continue f (err e) = ret (err e)

  infixl 5 ◌>>=◌ ◌>>◌
  unfoldable pub ◌>>=◌ : Prog C R (Result E A) → (A → Prog C R (Result E B)) → Prog C R (Result E B)
  unfolding bind succeed fail map_err require ask when◌then◌else◌
  m >>= f = bind m (continue f)

  abbrev pub ◌>>◌ : Prog C R (Result E A) → Prog C R (Result E B) → Prog C R (Result E B)
  m >> n = m >>= λ _. n
