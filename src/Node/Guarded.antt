-- ===== src/Node/Guarded.antt =====
-- The discipline of the volume locks: a program that changes something only while it holds its lock.
use csi_runtime.Base.{String, ◌≡◌, Bool, true, false, Result, ok, err}
use csi_runtime.Base.Prog.{Prog, ret, call, bind, continue, ◌>>=◌}
use csi_runtime.Base.AllCalls.{
  AllCalls, all_ret, all_call, all_calls, AllCalls->>=, AllCalls-map_err,
}
use csi_runtime.Rpc.{Error}
use csi_runtime.Node.Calls.{
  Call, stat, eval_symlinks, is_likely_not_mount_point, list_mounts, validate_capability, Op, ext,
  try_acquire, release, OpAnswer, Answer, Handler,
}
use csi_runtime.Node.Asks.{asks}
use csi_runtime.Node.Server.{locked}

-- Does a call change the node, or the state that the manager keeps?
unfoldable pub mutates : Call → Bool
mutates (stat _) = false
mutates (eval_symlinks _) = false
mutates (is_likely_not_mount_point _) = false
mutates list_mounts = false
mutates (validate_capability _) = false
mutates _ = true

abbrev pub IsExt : Op → Type 0
IsExt (ext c) = Unit {0}
IsExt (try_acquire _) = ⊥
IsExt (release _) = ⊥

abbrev pub IsQuery : Op → Type 0
IsQuery (ext c) = mutates c ≡ false
IsQuery (try_acquire _) = ⊥
IsQuery (release _) = ⊥

-- A program that takes and releases the lock `id` only, releases it exactly once after each time it
-- got it, before it returns, and makes no call that mutates without it. The index says whether the
-- program holds the lock where it begins.
pub data Guarded (id : String) {A : Type 0} : Bool → Prog Op OpAnswer A → Type 0 where
  returns : (a : A) → Guarded id false (ret a)
  acquires :
      (k : Bool → Prog Op OpAnswer A)
      → Guarded id true (k true)
      → Guarded id false (k false)
      → Guarded id false (call (try_acquire id) k)
  releases :
      (k : Unit {0} → Prog Op OpAnswer A)
      → Guarded id false (k tt)
      → Guarded id true (call (release id) k)
  queries :
      (c : Call) (k : Answer c → Prog Op OpAnswer A)
      → mutates c ≡ false
      → ((r : Answer c) → Guarded id false (k r))
      → Guarded id false (call (ext c) k)
  calls :
      (c : Call) (k : Answer c → Prog Op OpAnswer A)
      → ((r : Answer c) → Guarded id true (k r))
      → Guarded id true (call (ext c) k)

module _ (id : String) where
  Guarded-bind :
      {A B : Type 0} (m : Prog Op OpAnswer A) (f : A → Prog Op OpAnswer B)
      → AllCalls IsExt m
      → ((a : A) → Guarded id true (f a))
      → Guarded id true (bind m f)
  unfolding bind
  Guarded-bind (ret a) f h hf = hf a
  Guarded-bind (call (ext c) k) f (all_call _ _ _ hk) hf =
      calls c (λ r. bind (k r) f) (λ r. Guarded-bind (k r) f (hk r) hf)
  Guarded-bind (call (try_acquire _) k) f (all_call _ _ h hk) hf = absurd h
  Guarded-bind (call (release _) k) f (all_call _ _ h hk) hf = absurd h

  -- A body that leaves the locks alone.
  pub Guarded-locked :
      {A : Type 0} (body : Handler A) → AllCalls IsExt body → Guarded id false (locked id body)
  unfolding locked
  Guarded-locked body h =
      acquires _ (Guarded-bind body _ h (λ r. releases _ (returns r))) (returns _)

  bind-queries :
      {A B : Type 0} (m : Prog Op OpAnswer A) (f : A → Prog Op OpAnswer B)
      → AllCalls IsQuery m
      → ((a : A) → Guarded id false (f a))
      → Guarded id false (bind m f)
  unfolding bind
  bind-queries (ret a) f h hf = hf a
  bind-queries (call (ext c) k) f (all_call _ _ q hk) hf =
      queries c (λ r. bind (k r) f) q (λ r. bind-queries (k r) f (hk r) hf)
  bind-queries (call (try_acquire _) k) f (all_call _ _ h hk) hf = absurd h
  bind-queries (call (release _) k) f (all_call _ _ h hk) hf = absurd h

  Guarded-continue :
      {A B : Type 0} (f : A → Handler B)
      → ((a : A) → Guarded id false (f a))
      → (r : Result Error A) → Guarded id false (continue f r)
  Guarded-continue f hf (ok a) = hf a
  Guarded-continue f hf (err e) = returns (err e)

  -- What runs before the lock only asks.
  pub Guarded->>= :
      {A B : Type 0} (m : Handler A) (f : A → Handler B)
      → AllCalls IsQuery m
      → ((a : A) → Guarded id false (f a))
      → Guarded id false (m >>= f)
  unfolding ◌>>=◌
  Guarded->>= m f h hf = bind-queries m (continue f) h (Guarded-continue f hf)

pub ruleset guarded = (all_calls, asks, Guarded-locked, Guarded->>=)
