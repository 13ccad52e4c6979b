-- ===== src/Base/Yields.antt =====
-- What holds of the history of a program: when it succeeds (`Yields`), and however it ends (`Leaves`);
-- one rule for each way to build a program.
use csi_runtime.Base.Tests.{Result, ok, err, if◌then◌else◌}
use mathlib.Core.Path.{◌≡◌, refl, ap}
use native.Mathlib.Omega.{arith}
use mathlib.Core.Bool.{Bool, true, false}
use mathlib.Core.List.{List, ◌∷◌, ◌++◌}
use csi_runtime.Base.Prog.{
  map_err, on_error, Prog, ret, ask, bind, continue, when◌then◌else◌, ◌>>=◌,
}
use csi_runtime.Base.Exec.{EventOf, OracleOf, exec, exec-bind}

on_error_ok : {E F A : Type 0} (f : E → F) (r : Result E A) (a : A) → on_error f r ≡ ok a → r ≡ ok a
on_error_ok f (ok b) a e = ground arith
on_error_ok f (err x) a e = absurd (cc e)

module _ {C : Type 0} {R : C → Type 0} {F A : Type 0} where
  -- From a history with `P`, a success with `a` leaves one with `Q a`.
  pub record Yields (P : List (EventOf C R) → Type 0) (m : Prog C R (Result F A))
      (Q : A → List (EventOf C R) → Type 0) : Type 0 where
    pub yields :
        (o : OracleOf C R) (h : List (EventOf C R)) (a : A)
        → P h
        → (exec o m h).0 ≡ ok a
        → Q a (exec o m h).1

  pub Yields-ret :
      {P : List (EventOf C R) → Type 0} {Q : A → List (EventOf C R) → Type 0} (r : Result F A)
      → ((h : List (EventOf C R)) (a : A) → P h → r ≡ ok a → Q a h)
      → Yields P (ret r) Q
  unfolding exec
  Yields-ret r k = record { yields = λ o h a p e. k h a p e }

  pub Yields-when :
      {P : List (EventOf C R) → Type 0} {Q : A → List (EventOf C R) → Type 0} (b : Bool)
      (m n : Prog C R (Result F A))
      → (b ≡ true → Yields P m Q)
      → (b ≡ false → Yields P n Q)
      → Yields P (when b then m else n) Q
  unfolding when◌then◌else◌
  Yields-when true m n hm hn = hm refl
  Yields-when false m n hm hn = hn refl

module _ {C : Type 0} {F : Type 0} {V : C → Type 0} where
  pub Yields-ask :
      {P : List (EventOf C (λ c. Result F (V c))) → Type 0} (c : C)
      {Q : V c → List (EventOf C (λ c. Result F (V c))) → Type 0}
      → ((h : List (EventOf C (λ c. Result F (V c)))) (a : V c) → P h → Q a ((c, ok a) ∷ h))
      → Yields P (ask c) Q
  unfolding exec ask
  Yields-ask c {Q = Q} k = record { yields = λ o h a p e. rw e (k h a p) }

module _ {C : Type 0} {R : C → Type 0} {F A B : Type 0} {Q : A → List (EventOf C R) → Type 0}
    {S : B → List (EventOf C R) → Type 0} where
  continue_yields :
      (o : OracleOf C R) (f : A → Prog C R (Result F B)) (r : Result F A) (h : List (EventOf C R))
      (b : B)
      → ((a : A) → Yields (Q a) (f a) S)
      → ((a : A) → r ≡ ok a → Q a h)
      → (exec o (continue f r) h).0 ≡ ok b
      → S b (exec o (continue f r) h).1
  unfolding exec
  continue_yields o f (ok a) h b next q e = (next a).yields o h b (q a refl) e
  continue_yields o f (err x) h b next q e = cc

  pub Yields->>= :
      {P : List (EventOf C R) → Type 0} (m : Prog C R (Result F A)) (f : A → Prog C R (Result F B))
      → Yields P m Q
      → ((a : A) → Yields (Q a) (f a) S)
      → Yields P (m >>= f) S
  unfolding ◌>>=◌
  Yields->>= m f first next = record {
    yields = λ o h b p e. rw (exec-bind o m (continue f) h) (
        continue_yields o f (exec o m h).0 (exec o m h).1 b next (λ a q. first.yields o h a p q)
          (rw (exec-bind o m (continue f) h) at e));
  }

module _ {C : Type 0} {R : C → Type 0} where
  -- From a history with `P`, an end with `r`, an error too, leaves one with `Q r`.
  pub record Leaves {A : Type 0} (P : List (EventOf C R) → Type 0) (m : Prog C R A)
      (Q : A → List (EventOf C R) → Type 0) : Type 0 where
    pub leaves : (o : OracleOf C R) (h : List (EventOf C R)) → P h → Q (exec o m h).0 (exec o m h).1

  pub Leaves-ret :
      {A : Type 0} {P : List (EventOf C R) → Type 0} {Q : A → List (EventOf C R) → Type 0} (a : A)
      → ((h : List (EventOf C R)) → P h → Q a h)
      → Leaves P (ret a) Q
  unfolding exec
  Leaves-ret a k = record { leaves = λ o h p. k h p }

  pub Leaves-ask :
      {P : List (EventOf C R) → Type 0} (c : C) {Q : R c → List (EventOf C R) → Type 0}
      → ((h : List (EventOf C R)) (a : R c) → P h → Q a ((c, a) ∷ h))
      → Leaves P (ask c) Q
  unfolding exec ask
  Leaves-ask c k = record { leaves = λ o h p. k h (o h c) p }

  pub Leaves-bind :
      {A B : Type 0} {P : List (EventOf C R) → Type 0} {Q : A → List (EventOf C R) → Type 0}
      {S : B → List (EventOf C R) → Type 0} (m : Prog C R A) (f : A → Prog C R B)
      → Leaves P m Q
      → ((a : A) → Leaves (Q a) (f a) S)
      → Leaves P (bind m f) S
  Leaves-bind m f first next = record {
    leaves = λ o h p.
        rw (exec-bind o m f h) ((next (exec o m h).0).leaves o (exec o m h).1 (first.leaves o h p));
  }

  pub Leaves-when :
      {A : Type 0} {P : List (EventOf C R) → Type 0} {Q : A → List (EventOf C R) → Type 0}
      (b : Bool) (m n : Prog C R A)
      → (b ≡ true → Leaves P m Q)
      → (b ≡ false → Leaves P n Q)
      → Leaves P (when b then m else n) Q
  unfolding when◌then◌else◌
  Leaves-when true m n hm hn = hm refl
  Leaves-when false m n hm hn = hn refl

module _ {C : Type 0} {R : C → Type 0} {F A B : Type 0} {S : List (EventOf C R) → Type 0} where
  continue_leaves :
      (Q : Result F A → List (EventOf C R) → Type 0) (f : A → Prog C R (Result F B))
      (r : Result F A)
      → ((a : A) → Leaves (Q (ok a)) (f a) (λ _. S))
      → ((e : F) (h : List (EventOf C R)) → Q (err e) h → S h)
      → Leaves (Q r) (continue f r) (λ _. S)
  continue_leaves Q f (ok a) next ends = next a
  continue_leaves Q f (err x) next ends = Leaves-ret (err x) (λ h p. ends x h p)

  pub Leaves->>= :
      {P : List (EventOf C R) → Type 0} {Q : Result F A → List (EventOf C R) → Type 0}
      (m : Prog C R (Result F A)) (f : A → Prog C R (Result F B))
      → Leaves P m Q
      → ((a : A) → Leaves (Q (ok a)) (f a) (λ _. S))
      → ((e : F) (h : List (EventOf C R)) → Q (err e) h → S h)
      → Leaves P (m >>= f) (λ _. S)
  unfolding ◌>>=◌
  Leaves->>= {Q = Q} m f first next ends =
      Leaves-bind m (continue f) first (λ r. continue_leaves Q f r next ends)

module _ {C : Type 0} {R : C → Type 0} {F A B : Type 0} {P : List (EventOf C R) → Type 0} where
  -- What every step keeps.
  pub Leaves-same->>= :
      (m : Prog C R (Result F A)) (f : A → Prog C R (Result F B))
      → Leaves P m (λ _. P)
      → ((a : A) → Leaves P (f a) (λ _. P))
      → Leaves P (m >>= f) (λ _. P)
  Leaves-same->>= m f first next = Leaves->>= m f first next (λ e h p. p)

-- The last events, the newest first.
pub record Newest {X : Type 0} (es h : List X) : Type 0 where
  pub before : List X
  pub newest : h ≡ es ++ before

module _ {C : Type 0} {F : Type 0} {V : C → Type 0} where
  -- One call more.
  pub Yields-newest :
      (c : C) (es : List (EventOf C (λ c. Result F (V c))))
      → Yields (Newest es) (ask c) (λ a. Newest ((c, ok a) ∷ es))
  Yields-newest c es =
      Yields-ask c {Q = λ a. Newest ((c, ok a) ∷ es)}
        λ h a n. record { before = n.before; newest = ap (λ x. (c, ok a) ∷ x) n.newest }

module _ {C : Type 0} {R : C → Type 0} {F A : Type 0} where
  pub Yields-weaken :
      {P P' : List (EventOf C R) → Type 0} {Q : A → List (EventOf C R) → Type 0}
      (m : Prog C R (Result F A))
      → ((h : List (EventOf C R)) → P h → P' h)
      → Yields P' m Q
      → Yields P m Q
  Yields-weaken m w y = record { yields = λ o h a p e. y.yields o h a (w h p) e }

  pub Yields-any :
      {P : List (EventOf C R) → Type 0} (m : Prog C R (Result F A)) → Yields P m (λ _ _. Unit {0})
  Yields-any m = record { yields = λ o h a p e. tt }

  pub Leaves-Yields :
      {P : List (EventOf C R) → Type 0} {Q : Result F A → List (EventOf C R) → Type 0}
      (m : Prog C R (Result F A))
      → Leaves P m Q
      → Yields P m (λ a. Q (ok a))
  Leaves-Yields {Q = Q} m l = record { yields = λ o h a p e. rw e at (l.leaves o h p) }

  pub Yields-map_err :
      {P : List (EventOf C R) → Type 0} {Q : A → List (EventOf C R) → Type 0} (f : F → F)
      (m : Prog C R (Result F A))
      → Yields P m Q
      → Yields P (map_err f m) Q
  unfolding map_err exec
  Yields-map_err f m y = record {
    yields = λ o h a p e. rw (exec-bind o m (λ r. ret (on_error f r)) h) (
        y.yields o h a p (on_error_ok f _ a (rw (exec-bind o m (λ r. ret (on_error f r)) h) at e)));
  }

  -- What holds whatever the result.
  pub Leaves-map_err :
      {P S : List (EventOf C R) → Type 0} (f : F → F) (m : Prog C R (Result F A))
      → Leaves P m (λ _. S)
      → Leaves P (map_err f m) (λ _. S)
  unfolding map_err
  Leaves-map_err {S = S} f m l =
      Leaves-bind m (λ r. ret (on_error f r)) l
        (λ r. Leaves-ret {Q = λ _. S} (on_error f r) (λ h p. p))

module _ {C : Type 0} {R : C → Type 0} {A : Type 0} where
  pub Leaves-weaken :
      {P P' : List (EventOf C R) → Type 0} {Q : A → List (EventOf C R) → Type 0} (m : Prog C R A)
      → ((h : List (EventOf C R)) → P h → P' h)
      → Leaves P' m Q
      → Leaves P m Q
  Leaves-weaken m w l = record { leaves = λ o h p. l.leaves o h (w h p) }
