-- ===== src/Base/Gives.antt =====
-- What a program returns from whatever history, one rule for each way to build a program.
use csi_runtime.Base.Tests.{Result, ok, if◌then◌else◌}
use mathlib.Core.Path.{◌≡◌, refl}
use mathlib.Core.Bool.{Bool, true, false}
use mathlib.Core.List.{List}
use csi_runtime.Base.Prog.{
  Prog, ret, ask, bind, continue, on_error, map_err, when◌then◌else◌, ◌>>=◌,
}
use csi_runtime.Base.Exec.{EventOf, OracleOf, exec, exec-bind}

module _ {C : Type 0} {R : C → Type 0} where
  pub record Gives {A : Type 0} (o : OracleOf C R) (m : Prog C R A) (a : A) : Type 0 where
    pub gives : (h : List (EventOf C R)) → (exec o m h).0 ≡ a

module _ {C : Type 0} {R : C → Type 0} {o : OracleOf C R} where
  pub Gives-ret : {A : Type 0} (a b : A) → a ≡ b → Gives o (ret a) b
  unfolding exec
  Gives-ret a b e = record { gives = λ h. e }

  pub Gives-ask : (c : C) (r : R c) → ((h : List (EventOf C R)) → o h c ≡ r) → Gives o (ask c) r
  unfolding exec ask
  Gives-ask c r e = record { gives = λ h. e h }

  pub Gives-bind :
      {A B : Type 0} (m : Prog C R A) (f : A → Prog C R B) (a : A) (b : B)
      → Gives o m a
      → Gives o (f a) b
      → Gives o (bind m f) b
  Gives-bind m f a b first second = record {
    gives = λ h. rw (exec-bind o m f h, first.gives h) (second.gives (exec o m h).1);
  }

  pub Gives-when_true :
      {A : Type 0} (b : Bool) (m n : Prog C R A) (a : A)
      → b ≡ true
      → Gives o m a
      → Gives o (when b then m else n) a
  unfolding when◌then◌else◌
  Gives-when_true true m n a e g = g
  Gives-when_true false m n a e g = absurd (cc e)

  pub Gives-when_false :
      {A : Type 0} (b : Bool) (m n : Prog C R A) (a : A)
      → b ≡ false
      → Gives o n a
      → Gives o (when b then m else n) a
  unfolding when◌then◌else◌
  Gives-when_false false m n a e g = g
  Gives-when_false true m n a e g = absurd (cc e)

  pub Gives->>= :
      {F A B : Type 0} (m : Prog C R (Result F A)) (f : A → Prog C R (Result F B)) (a : A)
      (b : Result F B)
      → Gives o m (ok a)
      → Gives o (f a) b
      → Gives o (m >>= f) b
  unfolding ◌>>=◌
  Gives->>= m f a b first second = Gives-bind m (continue f) (ok a) b first second

  pub Gives-map_err :
      {F A : Type 0} (f : F → F) (m : Prog C R (Result F A)) (a : A)
      → Gives o m (ok a)
      → Gives o (map_err f m) (ok a)
  unfolding map_err
  Gives-map_err f m a g =
      Gives-bind m (λ r. ret (on_error f r)) (ok a) (ok a) g
        (Gives-ret (on_error f (ok a)) (ok a) refl)
