-- ===== src/Base/Within.antt =====
-- How many calls a program makes at most, whatever the answers: one rule for each way to
-- build a program. The numbers are those of the library, counted one by one.
use mathlib.Core.Nat.{ℕ, zero, suc}
use csi_runtime.Base.Tests.{Result, ok, err, if◌then◌else◌}
use csi_runtime.Base.Prog.{
  when◌then◌else◌, Prog, ret, call, ask, bind, succeed, fail, on_error, map_err, require, continue,
  ◌>>=◌,
}
use mathlib.Core.Bool.{Bool, true, false}

pub data Within {C : Type 0} {R : C → Type 0} {A : Type 0} : ℕ → Prog C R A → Type 0 where
  within_ret : (n : ℕ) (a : A) → Within n (ret a)
  within_call :
      (n : ℕ) (c : C) (k : R c → Prog C R A)
      → ((r : R c) → Within n (k r))
      → Within (suc n) (call c k)

module _ {C : Type 0} {R : C → Type 0} where
  pub Within-ask : (n : ℕ) (c : C) → Within (suc n) (ask {R = R} c)
  unfolding ask
  Within-ask n c = within_call n c ret (λ r. within_ret n r)

module _ {C : Type 0} {R : C → Type 0} {A : Type 0} where
  pub Within-suc : (n : ℕ) (m : Prog C R A) → Within n m → Within (suc n) m
  Within-suc n (ret a) w = within_ret (suc n) a
  Within-suc _ (call c k) (within_call n _ _ w) =
      within_call (suc n) c k (λ r. Within-suc n (k r) (w r))

  pub Within-when :
      (n : ℕ) (b : Bool) (l m : Prog C R A)
      → Within n l
      → Within n m
      → Within n (when b then l else m)
  unfolding when◌then◌else◌
  Within-when n true l m wl wm = wl
  Within-when n false l m wl wm = wm

module _ {C : Type 0} {R : C → Type 0} {A B : Type 0} where
  -- After a program that makes no call, after one that makes one, and after one that makes two.
  pub Within-bind_none :
      (n : ℕ) (m : Prog C R A) (f : A → Prog C R B)
      → Within zero m
      → ((x : A) → Within n (f x))
      → Within n (bind m f)
  unfolding bind
  Within-bind_none n (ret x) f w wf = wf x
  Within-bind_none n (call c k) f w wf = elim w [ ]

  pub Within-bind_one :
      (n : ℕ) (m : Prog C R A) (f : A → Prog C R B)
      → Within (suc zero) m
      → ((x : A) → Within n (f x))
      → Within (suc n) (bind m f)
  unfolding bind
  Within-bind_one n (ret x) f w wf = Within-suc n (f x) (wf x)
  Within-bind_one n (call c k) f (within_call _ _ _ w) wf =
      within_call n c _ (λ r. Within-bind_none n (k r) f (w r) wf)

  pub Within-bind_two :
      (n : ℕ) (m : Prog C R A) (f : A → Prog C R B)
      → Within (suc (suc zero)) m
      → ((x : A) → Within n (f x))
      → Within (suc (suc n)) (bind m f)
  unfolding bind
  Within-bind_two n (ret x) f w wf = Within-suc (suc n) (f x) (Within-suc n (f x) (wf x))
  Within-bind_two n (call c k) f (within_call _ _ _ w) wf =
      within_call (suc n) c _ (λ r. Within-bind_one n (k r) f (w r) wf)

  pub Within-bind_three :
      (n : ℕ) (m : Prog C R A) (f : A → Prog C R B)
      → Within (suc (suc (suc zero))) m
      → ((x : A) → Within n (f x))
      → Within (suc (suc (suc n))) (bind m f)
  unfolding bind
  Within-bind_three n (ret x) f w wf =
      Within-suc (suc (suc n)) (f x) (Within-suc (suc n) (f x) (Within-suc n (f x) (wf x)))
  Within-bind_three n (call c k) f (within_call _ _ _ w) wf =
      within_call (suc (suc n)) c _ (λ r. Within-bind_two n (k r) f (w r) wf)

  -- One call at the end.
  pub Within-bind_last :
      (n : ℕ) (m : Prog C R A) (f : A → Prog C R B)
      → Within n m
      → ((x : A) (k : ℕ) → Within (suc k) (f x))
      → Within (suc n) (bind m f)
  unfolding bind
  Within-bind_last n (ret x) f w wf = wf x n
  Within-bind_last _ (call c k) f (within_call n _ _ w) wf =
      within_call (suc n) c _ (λ r. Within-bind_last n (k r) f (w r) wf)

module _ {C : Type 0} {R : C → Type 0} {E A : Type 0} where
  pub Within-succeed : (n : ℕ) (a : A) → Within n (succeed {R = R} {E = E} a)
  unfolding succeed
  Within-succeed n a = within_ret n (ok a)

  pub Within-fail : (n : ℕ) (e : E) → Within n (fail {R = R} {A = A} e)
  unfolding fail
  Within-fail n e = within_ret n (err e)

  pub Within-map_err :
      (n : ℕ) (f : E → E) (m : Prog C R (Result E A)) → Within n m → Within n (map_err f m)
  unfolding map_err bind
  Within-map_err n f (ret a) w = within_ret n (on_error f a)
  Within-map_err _ f (call c k) (within_call n _ _ w) =
      within_call n c _ (λ r. Within-map_err n f (k r) (w r))

module _ {C : Type 0} {R : C → Type 0} {E : Type 0} where
  pub Within-require : (n : ℕ) (b : Bool) (e : E) → Within n (require {R = R} b e)
  unfolding require
  Within-require n b e = within_ret n (if b then ok tt else err e)

module _ {C : Type 0} {R : C → Type 0} {E A B : Type 0} where
  Within-continue :
      (n : ℕ) (f : A → Prog C R (Result E B))
      → ((x : A) → Within n (f x))
      → (r : Result E A) → Within n (continue f r)
  Within-continue n f w (ok a) = w a
  Within-continue n f w (err e) = within_ret n (err e)

  pub Within->>=_none :
      (n : ℕ) (m : Prog C R (Result E A)) (f : A → Prog C R (Result E B))
      → Within zero m
      → ((x : A) → Within n (f x))
      → Within n (m >>= f)
  unfolding ◌>>=◌
  Within->>=_none n m f w wf = Within-bind_none n m (continue f) w (Within-continue n f wf)

  pub Within->>=_one :
      (n : ℕ) (m : Prog C R (Result E A)) (f : A → Prog C R (Result E B))
      → Within (suc zero) m
      → ((x : A) → Within n (f x))
      → Within (suc n) (m >>= f)
  unfolding ◌>>=◌
  Within->>=_one n m f w wf = Within-bind_one n m (continue f) w (Within-continue n f wf)

  pub Within->>=_two :
      (n : ℕ) (m : Prog C R (Result E A)) (f : A → Prog C R (Result E B))
      → Within (suc (suc zero)) m
      → ((x : A) → Within n (f x))
      → Within (suc (suc n)) (m >>= f)
  unfolding ◌>>=◌
  Within->>=_two n m f w wf = Within-bind_two n m (continue f) w (Within-continue n f wf)

module _ {C : Type 0} {R : C → Type 0} {E A B : Type 0} where
  pub Within->>=_three :
      (n : ℕ) (m : Prog C R (Result E A)) (f : A → Prog C R (Result E B))
      → Within (suc (suc (suc zero))) m
      → ((x : A) → Within n (f x))
      → Within (suc (suc (suc n))) (m >>= f)
  unfolding ◌>>=◌
  Within->>=_three n m f w wf = Within-bind_three n m (continue f) w (Within-continue n f wf)

pub ruleset within = (
  within_ret, Within-ask, Within-when, Within-succeed, Within-fail, Within-map_err, Within-require,
  Within->>=_none, Within->>=_one, Within->>=_two, Within->>=_three,
)
