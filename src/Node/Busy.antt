-- ===== src/Node/Busy.antt =====
-- A request for a volume that is locked.
use csi_runtime.Base.{
  String, ◌≡◌, refl, sym, ◌∙◌, Bool, true, false, List, [], ◌∷◌, ◌++◌, Result, ok, err,
}
use mathlib.Core.List.{append_assoc}
use csi_runtime.Base.Prog.{ret, call, bind, continue, ◌>>=◌}
use csi_runtime.Base.AllCalls.{AllCalls, all_call}
use csi_runtime.Rpc.{Error}
use csi_runtime.VolumeLocks
use csi_runtime.VolumeLocks.{VolumeLocks, has}
use csi_runtime.Node.Calls.{Call, Answer, ext, try_acquire, release, Handler}
use csi_runtime.Node.Server.{locked}
use csi_runtime.Node.Unpublish.{node_unpublish_volume}
use csi_runtime.Node.Unstage.{node_unstage_volume}
use csi_runtime.Node.Publish.{node_publish_volume}
use csi_runtime.Node.Stage.{node_stage_volume}
use csi_runtime.Node.Guarded.{mutates, IsQuery}
use csi_runtime.Node.Handlers.{handlers, AllCalls-check_stage}
use csi_runtime.Node.Requests.{
  Request, publish, stage, unstage, unpublish, volume_id, Service, handle,
}
use csi_runtime.Node.World.{Event, Oracle, World, run}
use csi_runtime.Node.Sequential.{AllQueries, OnlyAsked}

-- A program that only asks, and fails unless it gets the lock `id`.
data Refuses (id : String) {A : Type 0} : Handler A → Type 0 where
  fails : (e : Error) → Refuses id (ret (err e))
  asks :
      (c : Call) (k : Answer c → Handler A)
      → mutates c ≡ false
      → ((r : Answer c) → Refuses id (k r))
      → Refuses id (call (ext c) k)
  wants : (k : Bool → Handler A) → Refuses id (k false) → Refuses id (call (try_acquire id) k)

module _ (id : String) where
  Refuses-locked : {A : Type 0} (body : Handler A) → Refuses id (locked id body)
  unfolding locked
  Refuses-locked body = wants _ (fails _)

  Refuses-continue :
      {A B : Type 0} (f : A → Handler B)
      → ((a : A) → Refuses id (f a))
      → (r : Result Error A) → Refuses id (continue f r)
  Refuses-continue f hf (ok a) = hf a
  Refuses-continue f hf (err e) = fails e

  Refuses-bind :
      {A B : Type 0} (m : Handler A) (f : A → Handler B)
      → AllCalls IsQuery m
      → ((a : A) → Refuses id (f a))
      → Refuses id (bind m (continue f))
  unfolding bind
  Refuses-bind (ret r) f h hf = Refuses-continue f hf r
  Refuses-bind (call (ext c) k) f (all_call _ _ q hk) hf =
      asks c (λ r. bind (k r) (continue f)) q (λ r. Refuses-bind (k r) f (hk r) hf)
  Refuses-bind (call (try_acquire _) k) f (all_call _ _ h hk) hf = absurd h
  Refuses-bind (call (release _) k) f (all_call _ _ h hk) hf = absurd h

  Refuses->>= :
      {A B : Type 0} (m : Handler A) (f : A → Handler B)
      → AllCalls IsQuery m
      → ((a : A) → Refuses id (f a))
      → Refuses id (m >>= f)
  unfolding ◌>>=◌
  Refuses->>= m f h hf = Refuses-bind m f h hf

ruleset refuses = (handlers, Refuses-locked, Refuses->>=)

handle-Refuses : (s : Service) (r : Request) → Refuses (volume_id r) (handle s r)
unfolding node_publish_volume node_stage_volume node_unstage_volume node_unpublish_volume
handle-Refuses s (publish r) = search refuses depth 14
handle-Refuses s (stage r) = search (refuses, AllCalls-check_stage) depth 14
handle-Refuses s (unstage r) = search refuses depth 12
handle-Refuses s (unpublish r) = search refuses depth 12

abbrev pub Refused : World → Result Error (Unit {0}) × World → Type 0
Refused w (r, v) = ((e : Error) × (r ≡ err e)) × OnlyAsked w v

Refused-event :
    (c : Call) (a : Answer c) (w : World) (x : Result Error (Unit {0}) × World)
    → mutates c ≡ false
    → Refused (record w { history = (c, a) ∷ w.history }) x
    → Refused w x
Refused-event c a w (r, v) q (failed, (es, e, asked)) = (
  failed,
  (es ++ (c, a) ∷ [], e ∙ sym (append_assoc es ((c, a) ∷ []) w.history), AllQueries-snoc es asked),
)
  where
    AllQueries-snoc : (es : List Event) → AllQueries es → AllQueries (es ++ (c, a) ∷ [])
    AllQueries-snoc [] h = (q, tt)
    AllQueries-snoc (d ∷ es) h = (h.0, AllQueries-snoc es h.1)

run-Refuses :
    (o : Oracle) (id : String) (p : Handler (Unit {0})) (w : World)
    → Refuses id p
    → has id w.locks.locks ≡ true
    → Refused w (run o p w)
unfolding run VolumeLocks.try_acquire
run-Refuses o id (ret (ok _)) w h busy = elim h [ ]
run-Refuses o id (call (release _) k) w h busy = elim h [ ]
run-Refuses o id (ret (err e)) w (fails _) busy = ((e, refl), ([], refl, tt))
run-Refuses o id (call (ext c) k) w (asks _ _ q h) busy =
    let w' = record w { history = (c, o w.history c) ∷ w.history } in
    Refused-event c (o w.history c) w (run o (k (o w.history c)) w') q
      (run-Refuses o id (k (o w.history c)) w' (h (o w.history c)) busy)
run-Refuses o id (call (try_acquire _) k) w (wants _ h) busy =
    rw (busy, run) (run-Refuses o id (k false) (record w { locks = w.locks }) h busy)

-- While a volume is locked every request for it fails, and the only calls made meanwhile change
-- nothing.
pub busy_volume :
    (o : Oracle) (s : Service) (r : Request) (w : World)
    → has (volume_id r) w.locks.locks ≡ true
    → Refused w (run o (handle s r) w)
busy_volume o s r w busy = run-Refuses o (volume_id r) (handle s r) w (handle-Refuses s r) busy
