-- ===== src/Base/AllCalls.antt =====
-- A property of every call that a program can make, whatever the answers: one rule for each way to
-- build a program.
use csi_runtime.Base.Tests.{Result, ok, err, if◌then◌else◌}
use csi_runtime.Base.Prog.{
  when◌then◌else◌, Prog, ret, call, ask, bind, succeed, fail, on_error, map_err, require, continue,
  ◌>>=◌,
}
use mathlib.Core.Bool.{Bool, true, false}

pub data AllCalls {C : Type 0} {R : C → Type 0} (P : C → Type 0) {A : Type 0}
    : Prog C R A → Type 0 where
  all_ret : (a : A) → AllCalls P (ret a)
  all_call :
      (c : C) (k : R c → Prog C R A) → P c → ((r : R c) → AllCalls P (k r)) → AllCalls P (call c k)

module _ {C : Type 0} {R : C → Type 0} {P : C → Type 0} where
  pub AllCalls-ask : (c : C) → P c → AllCalls P (ask {R = R} c)
  unfolding ask
  AllCalls-ask c h = all_call c ret h (λ r. all_ret r)

  pub AllCalls-bind :
      {A B : Type 0} (m : Prog C R A) (f : A → Prog C R B)
      → AllCalls P m
      → ((a : A) → AllCalls P (f a))
      → AllCalls P (bind m f)
  unfolding bind
  AllCalls-bind (ret a) f h hf = hf a
  AllCalls-bind (call c k) f (all_call _ _ h hk) hf =
      all_call c (λ r. bind (k r) f) h (λ r. AllCalls-bind (k r) f (hk r) hf)

  pub AllCalls-succeed : {E A : Type 0} (a : A) → AllCalls P (succeed {R = R} {E = E} a)
  unfolding succeed
  AllCalls-succeed a = all_ret (ok a)

  pub AllCalls-fail : {E A : Type 0} (e : E) → AllCalls P (fail {R = R} {A = A} e)
  unfolding fail
  AllCalls-fail e = all_ret (err e)

  pub AllCalls-require : {E : Type 0} (b : Bool) (e : E) → AllCalls P (require {R = R} b e)
  unfolding require
  AllCalls-require b e = all_ret (if b then ok tt else err e)

  pub AllCalls-map_err :
      {E A : Type 0} (f : E → E) (m : Prog C R (Result E A))
      → AllCalls P m
      → AllCalls P (map_err f m)
  unfolding map_err
  AllCalls-map_err f m h = AllCalls-bind m (λ r. ret (on_error f r)) h (λ r. all_ret (on_error f r))

  pub AllCalls-if :
      {A : Type 0} (b : Bool) (m n : Prog C R A)
      → AllCalls P m
      → AllCalls P n
      → AllCalls P (when b then m else n)
  unfolding when◌then◌else◌
  AllCalls-if true m n hm hn = hm
  AllCalls-if false m n hm hn = hn

  AllCalls-continue :
      {E A B : Type 0} (f : A → Prog C R (Result E B))
      → ((a : A) → AllCalls P (f a))
      → (r : Result E A) → AllCalls P (continue f r)
  AllCalls-continue f hf (ok a) = hf a
  AllCalls-continue f hf (err e) = all_ret (err e)

  pub AllCalls->>= :
      {E A B : Type 0} (m : Prog C R (Result E A)) (f : A → Prog C R (Result E B))
      → AllCalls P m
      → ((a : A) → AllCalls P (f a))
      → AllCalls P (m >>= f)
  unfolding ◌>>=◌
  AllCalls->>= m f h hf = AllCalls-bind m (continue f) h (AllCalls-continue f hf)

pub ruleset all_calls = (
  all_ret, AllCalls-ask, AllCalls-succeed, AllCalls-fail, AllCalls-require, AllCalls-map_err,
  AllCalls-if, AllCalls->>=, AllCalls-bind,
)
