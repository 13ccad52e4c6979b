-- ===== src/Base/Exec.antt =====
-- Running a program against an oracle that answers each call, with the history of the calls so far.
use mathlib.Core.Path.{◌≡◌, refl}
use mathlib.Core.List.{List, ◌∷◌}
use csi_runtime.Base.Prog.{Prog, ret, call, bind}

module _ (C : Type 0) (R : C → Type 0) where
  -- A call, with what it answered.
  abbrev pub EventOf : Type 0
  EventOf = (c : C) × R c

  abbrev pub OracleOf : Type 0
  OracleOf = List EventOf → (c : C) → R c

module _ {C : Type 0} {R : C → Type 0} where
  -- The newest event is the first.
  unfoldable pub exec :
      {A : Type 0} → OracleOf C R → Prog C R A → List (EventOf C R) → A × List (EventOf C R)
  exec o (ret a) h = (a, h)
  exec o (call c k) h = exec o (k (o h c)) ((c, o h c) ∷ h)

  -- Running `m` and then what follows.
  pub exec-bind :
      {A B : Type 0} (o : OracleOf C R) (m : Prog C R A) (k : A → Prog C R B)
      (h : List (EventOf C R))
      → exec o (bind m k) h ≡ exec o (k (exec o m h).0) (exec o m h).1
  unfolding exec bind
  exec-bind o (ret a) k h = refl
  exec-bind o (call c n) k h = exec-bind o (n (o h c)) k ((c, o h c) ∷ h)
