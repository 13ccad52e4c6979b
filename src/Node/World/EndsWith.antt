-- ===== src/Node/World/EndsWith.antt =====
-- What holds of the history when a handler succeeds, one rule for each way to build a handler.
use csi_runtime.Base.{
  [], if◌then◌else◌, String, ◌≡◌, Bool, true, false, Bool-cases, inl, inr, List, Option, some, refl,
  Result, ok, err, ◌∷◌,
}
use csi_runtime.Base.Prog.{when◌then◌else◌, ret, call, bind, continue, ◌>>=◌}
use csi_runtime.Rpc.{Error, status, aborted}
use csi_runtime.VolumeLocks
use csi_runtime.VolumeLocks.{has}
use csi_runtime.Node.Calls.{release, Handler}
use csi_runtime.Node.Server.{locked, require_some}
use csi_runtime.Node.World.{Event, Oracle, World, run, run-bind, run-try_acquire}

pub record EndsWith {A : Type 0} (Q : List Event → Type 0) (p : Handler A) : Type 0 where
  pub at : (o : Oracle) (w : World) (a : A) → (run o p w).0 ≡ ok a → Q (run o p w).1.history

module _ {A B : Type 0} {Q : List Event → Type 0} where
  continue_ends :
      (f : A → Handler B)
      → ((a : A) → EndsWith Q (f a))
      → (r : Result Error A) → EndsWith Q (continue f r)
  unfolding run
  continue_ends f h (ok a) = h a
  continue_ends f h (err e) = record { at = λ o w b bad. cc }

  pub EndsWith->>= :
      (m : Handler A) (f : A → Handler B) → ((a : A) → EndsWith Q (f a)) → EndsWith Q (m >>= f)
  unfolding ◌>>=◌
  EndsWith->>= m f h = record {
    at = λ o w b e. rw (run-bind o m (continue f) w) (
        (continue_ends f h (run o m w).0).at o (run o m w).1 b
          (rw (run-bind o m (continue f) w) at e));
  }

  pub EndsWith-require_some :
      (p : Option A) (e : Error) (a : A) (f : A → Handler B)
      → p ≡ some a
      → EndsWith Q (f a)
      → EndsWith Q (require_some p e >>= f)
  unfolding require_some ◌>>=◌ bind
  EndsWith-require_some p e a f is h = rw is h

released :
    {A : Type 0} (o : Oracle) (id : String) (body : Handler A) (w : World)
    → run o (bind body (λ r. call (release id) (λ _. ret r))) w ≡ (
      (run o body w).0,
      record (run o body w).1 { locks = VolumeLocks.release id (run o body w).1.locks },
    )
unfolding run
released o id body w = run-bind o body _ w

-- Running a body under the lock of a volume.
pub run-locked :
    {A : Type 0} (o : Oracle) (id : String) (body : Handler A) (w : World)
    → let w' = record w { locks = record { locks = id ∷ w.locks.locks } } in
      run o (locked id body) w ≡ (
        if has id w.locks.locks
        then (
          err (status aborted "An operation with the given Volume ID %s already exists" (id ∷ [])),
          w,
        )
        else (
          (run o body w').0,
          record (run o body w').1 { locks = VolumeLocks.release id (run o body w').1.locks },
        ))
unfolding locked run
run-locked o id body w = rw (run-try_acquire o id _ w) (rw (released o id body _))

module _ {A : Type 0} {Q : List Event → Type 0} where
  pub EndsWith-when :
      (b : Bool) (m n : Handler A) → EndsWith Q m → EndsWith Q n → EndsWith Q (when b then m else n)
  unfolding when◌then◌else◌
  EndsWith-when true m n hm hn = hm
  EndsWith-when false m n hm hn = hn

  pub EndsWith-locked :
      (id : String) (body : Handler A) → EndsWith Q body → EndsWith Q (locked id body)
  EndsWith-locked id body h = record {
    at = λ o w a e. elim (Bool-cases (has id w.locks.locks)) [
      | inl busy ↦ absurd (cc (rw (run-locked o id body w, busy) at e))
      | inr free ↦
          let same = run-locked o id body w in rw (same, free) (h.at o _ a (rw (same, free) at e))
    ];
  }

module _ {A B : Type 0} (o : Oracle) (Q : List Event → Type 0) where
  continue_given :
      (f : A → Handler B) (r : Result Error A) (w : World) (b : B)
      → ((a : A) → r ≡ ok a → (run o (f a) w).0 ≡ ok b → Q (run o (f a) w).1.history)
      → (run o (continue f r) w).0 ≡ ok b
      → Q (run o (continue f r) w).1.history
  unfolding run
  continue_given f (ok a) w b h e = h a refl e
  continue_given f (err x) w b h e = absurd (cc e)

  -- What follows may use what was answered, and the history at that point.
  pub ends_given :
      (m : Handler A) (f : A → Handler B) (w : World) (b : B)
      → ((a : A)
          → (run o m w).0 ≡ ok a
          → (run o (f a) (run o m w).1).0 ≡ ok b
          → Q (run o (f a) (run o m w).1).1.history)
      → (run o (m >>= f) w).0 ≡ ok b
      → Q (run o (m >>= f) w).1.history
  unfolding ◌>>=◌
  ends_given m f w b h e =
      rw (run-bind o m (continue f) w)
        (continue_given f (run o m w).0 (run o m w).1 b h (rw (run-bind o m (continue f) w) at e))
