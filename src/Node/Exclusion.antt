-- ===== src/Node/Exclusion.antt =====
-- What the locking discipline gives for any number of requests at once.
use csi_runtime.Base.{
  ap, String, ◌≡◌, ◌≢◌, refl, Bool, true, false, List, [], ◌∷◌, ◌++◌, Result, arith, eq_iff,
}
use mathlib.Core.Path.{subst}
use csi_runtime.Base.Prog.{ret, call}
use csi_runtime.Rpc.{Error}
use csi_runtime.VolumeLocks.{has}
use csi_runtime.Node.Calls.{Call, Answer, ext, Handler}
use csi_runtime.Node.Guarded.{Guarded, returns, queries, calls, mutates}
use csi_runtime.Node.Requests.{Service}
use csi_runtime.Node.Interleaving.{
  Thread, System, Reach, Inv-Reach, holders, holders-append, AllGuarded, AllGuarded-right,
}

-- A thread whose next call mutates holds its lock.
held_to_mutate :
    {id : String} {held : Bool} {c : Call} {k : Answer c → Handler (Unit {0})}
    → Guarded id held (call (ext c) k)
    → mutates c ≡ true
    → held ≡ true
held_to_mutate (queries c k q h) m = cc
held_to_mutate (calls c k h) m = refl

abbrev pub Mutates : Thread → Call → Type 0
Mutates t c = (k : Answer c → Handler (Unit {0})) × (t.rest ≡ call (ext c) k) × (mutates c ≡ true)

Mutates-held : (t : Thread) (c : Call) → Guarded t.id t.held t.rest → Mutates t c → t.held ≡ true
Mutates-held t c g (k, e, m) = held_to_mutate (subst (Guarded t.id t.held) e g) m

-- However the requests are scheduled and answered, two requests that are both about to make a call
-- that mutates are for different volumes.
pub no_race :
    (service : Service) (s : System) (xs ys zs : List Thread) (t u : Thread) (c d : Call)
    → Reach service s
    → s.threads ≡ xs ++ (t ∷ (ys ++ (u ∷ zs)))
    → Mutates t c
    → Mutates u d
    → t.id ≢ u.id
unfolding holders
no_race service s xs ys zs t u c d r e mt mu same = ground (
  arith,
  (Inv-Reach service r).counted t.id,
  ap (holders t.id) e,
  holders-append t.id xs (t ∷ (ys ++ (u ∷ zs))),
  holders-append t.id ys (u ∷ zs),
  Mutates-held t c own.0 mt,
  Mutates-held u d (AllGuarded-right ys (u ∷ zs) own.1).0 mu,
  eq_iff t.id t.id,
  eq_iff u.id t.id,
)
  where
    own : AllGuarded (t ∷ (ys ++ (u ∷ zs)))
    own = AllGuarded-right xs _ (subst AllGuarded e (Inv-Reach service r).guarded)

-- A request whose handler has returned.
abbrev pub IsDone : Thread → Type 0
IsDone t = (a : Result Error (Unit {0})) × (t.rest ≡ ret a)

abbrev pub AllDone : List Thread → Type 0
AllDone [] = Unit {0}
AllDone (t ∷ ts) = IsDone t × AllDone ts

done_holds_nothing :
    {id : String} {held : Bool} {a : Result Error (Unit {0})}
    → Guarded id held (ret a)
    → held ≡ false
done_holds_nothing (returns a) = refl

holders-AllDone : (id : String) (ts : List Thread) → AllGuarded ts → AllDone ts → holders id ts ≡ 0
unfolding holders
holders-AllDone id [] g d = refl
holders-AllDone id (t ∷ ts) g d = ground (
  arith,
  done_holds_nothing (subst (Guarded t.id t.held) d.0.1 g.0),
  holders-AllDone id ts g.1 d.1,
)

-- When every handler has returned, whatever its result, no volume is locked.
pub all_released :
    (service : Service) (s : System) (id : String)
    → Reach service s
    → AllDone s.threads
    → has id s.locks.locks ≡ false
all_released service s id r d = ground (
  arith,
  (Inv-Reach service r).counted id,
  holders-AllDone id s.threads (Inv-Reach service r).guarded d,
)
