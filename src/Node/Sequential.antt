-- ===== src/Node/Sequential.antt =====
-- One handler in a world where nobody else takes or releases locks meanwhile.
use csi_runtime.Base.{
  String, ◌≡◌, refl, ◌∙◌, ap, Bool, true, false, Bool-cases, inl, inr, List, [], ◌∷◌, ◌++◌,
}
use csi_runtime.Base.Prog.{Prog, ret, call}
use csi_runtime.VolumeLocks
use csi_runtime.VolumeLocks.{VolumeLocks, has, delete-cons_self}
use csi_runtime.Node.Calls.{Op, ext, try_acquire, release, OpAnswer}
use csi_runtime.Node.Guarded.{Guarded, returns, acquires, releases, queries, calls, mutates}
use csi_runtime.Node.Requests.{Request, volume_id, Service, handle, handle-Guarded}
use csi_runtime.Node.World.{Event, Oracle, World, run}

-- What a program owes at its end: to have released the lock that it holds.
abbrev owed : Bool → String → VolumeLocks → VolumeLocks
owed true id vl = VolumeLocks.release id vl
owed false id vl = vl

after_try_acquire :
    {A : Type 0} (o : Oracle) (id : String) (k : Bool → Prog Op OpAnswer A) (w : World)
    → ((w : World) → (run o (k true) w).1.locks ≡ VolumeLocks.release id w.locks)
    → ((w : World) → (run o (k false) w).1.locks ≡ w.locks)
    → (run o (call (try_acquire id) k) w).1.locks ≡ w.locks
unfolding run VolumeLocks.try_acquire VolumeLocks.release
after_try_acquire o id k w got failed = elim (Bool-cases (has id w.locks.locks)) [
  | inl busy ↦ rw (busy, run) (failed _)
  | inr free ↦
      rw (free, run)
        (got _ ∙ ap (λ l. record { locks = l }) (delete-cons_self id w.locks.locks free))
]

run-locks :
    {A : Type 0} (o : Oracle) (id : String) (held : Bool) (p : Prog Op OpAnswer A) (w : World)
    → Guarded id held p
    → (run o p w).1.locks ≡ owed held id w.locks
unfolding run
run-locks o id _ (ret a) w (returns _) = refl
run-locks o id _ (call (ext c) k) w (queries _ _ _ h) =
    run-locks o id false (k (o w.history c)) _ (h (o w.history c))
run-locks o id _ (call (ext c) k) w (calls _ _ h) =
    run-locks o id true (k (o w.history c)) _ (h (o w.history c))
run-locks o id _ (call (try_acquire _) k) w (acquires _ g f) =
    after_try_acquire o id k w (λ v. run-locks o id true (k true) v g)
      (λ v. run-locks o id false (k false) v f)
run-locks o id _ (call (release _) k) w (releases _ h) = run-locks o id false (k tt) _ h

-- Whatever the request, the answers and the result, a handler leaves the volume locks as it found
-- them.
pub handle-locks :
    (o : Oracle) (s : Service) (r : Request) (w : World) → (run o (handle s r) w).1.locks ≡ w.locks
handle-locks o s r w = run-locks o (volume_id r) false (handle s r) w (handle-Guarded s r)

-- The events of a run that only asks.
abbrev pub AllQueries : List Event → Type 0
AllQueries [] = Unit {0}
AllQueries ((c, _) ∷ es) = (mutates c ≡ false) × AllQueries es

-- The history of `v` is that of `w` with queries put before it.
abbrev pub OnlyAsked : World → World → Type 0
OnlyAsked w v = (es : List Event) × (v.history ≡ es ++ w.history) × AllQueries es
