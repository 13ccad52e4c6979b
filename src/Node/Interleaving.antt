-- ===== src/Node/Interleaving.antt =====
-- Any number of requests at once. Each runs its handler one call at a time, the scheduler picks who
-- is next, and what is outside may answer each call in any way.
use csi_runtime.Base.{
  ℕ, ◌+◌, String, ◌≡◌, refl, Bool, true, false, ◌&&◌, ◌||◌, List, [], ◌∷◌, ◌++◌, arith, str_eq,
  eq_iff, if◌then◌else◌,
}
use csi_runtime.Base.Prog.{ret, call}
use csi_runtime.VolumeLocks
use csi_runtime.VolumeLocks.{VolumeLocks, new_volume_locks, has, has-cons, has-delete}
use csi_runtime.Node.Calls.{Call, Answer, ext, try_acquire, release, Handler}
use csi_runtime.Node.Guarded.{Guarded, returns, acquires, releases, queries, calls}
use csi_runtime.Node.Requests.{Request, volume_id, Service, handle, handle-Guarded}

-- A request under way: its volume, whether it holds the lock, and what is left to run. Only the proof
-- looks at `held`.
pub record Thread : Type 0 where
  pub id : String
  pub held : Bool
  pub rest : Handler (Unit {0})

pub record System : Type 0 where
  pub locks : VolumeLocks
  pub threads : List Thread

-- A thread makes its next call.
unfoldable pub advance :
    ((c : Call) → Answer c)
    → String
    → Bool
    → Handler (Unit {0})
    → VolumeLocks
    → Thread × VolumeLocks
advance answer id held (ret a) vl = (record { id = id; held = held; rest = ret a }, vl)
advance answer id held (call (ext c) k) vl =
    (record { id = id; held = held; rest = k (answer c) }, vl)
advance answer id held (call (try_acquire j) k) vl =
    let (acquired, vl') = VolumeLocks.try_acquire j vl in
    (record { id = id; held = acquired || held; rest = k acquired }, vl')
advance answer id held (call (release j) k) vl =
    (record { id = id; held = false; rest = k tt }, VolumeLocks.release j vl)

module _ (service : Service) where
  unfoldable pub start : Request → Thread
  start r = record { id = volume_id r; held = false; rest = handle service r }

  pub data Step : System → System → Type 0 where
    arrives : (r : Request) (s : System) → Step s (record s { threads = start r ∷ s.threads })
    runs :
        (answer : (c : Call) → Answer c) (vl : VolumeLocks) (xs ys : List Thread) (t : Thread)
        → Step
            (record { locks = vl; threads = xs ++ (t ∷ ys) })
            (record {
              locks = (advance answer t.id t.held t.rest vl).1;
              threads = xs ++ ((advance answer t.id t.held t.rest vl).0 ∷ ys);
            })

  pub data Reach : System → Type 0 where
    idle : Reach (record { locks = new_volume_locks; threads = [] })
    next : {s t : System} → Reach s → Step s t → Reach t

-- How many threads hold the lock `id`.
abbrev pub holds : String → Thread → ℕ
holds id t = if t.held && str_eq t.id id then 1 else 0

unfoldable pub holders : String → List Thread → ℕ
holders id [] = 0
holders id (t ∷ ts) = holds id t + holders id ts

pub holders-append :
    (id : String) (xs ys : List Thread) → holders id (xs ++ ys) ≡ holders id xs + holders id ys
unfolding holders
holders-append id [] ys = omega arith
holders-append id (x ∷ xs) ys = omega (arith, holders-append id xs ys)

abbrev pub locked_once : String → VolumeLocks → ℕ
locked_once id vl = if has id vl.locks then 1 else 0

abbrev pub IsGuarded : Thread → Type 0
IsGuarded t = Guarded t.id t.held t.rest

abbrev pub AllGuarded : List Thread → Type 0
AllGuarded [] = Unit {0}
AllGuarded (t ∷ ts) = IsGuarded t × AllGuarded ts

AllGuarded-append : (xs ys : List Thread) → AllGuarded xs → AllGuarded ys → AllGuarded (xs ++ ys)
AllGuarded-append [] ys hx hy = hy
AllGuarded-append (x ∷ xs) ys hx hy = (hx.0, AllGuarded-append xs ys hx.1 hy)

AllGuarded-left : (xs ys : List Thread) → AllGuarded (xs ++ ys) → AllGuarded xs
AllGuarded-left [] ys h = tt
AllGuarded-left (x ∷ xs) ys h = (h.0, AllGuarded-left xs ys h.1)

pub AllGuarded-right : (xs ys : List Thread) → AllGuarded (xs ++ ys) → AllGuarded ys
AllGuarded-right [] ys h = h
AllGuarded-right (x ∷ xs) ys h = AllGuarded-right xs ys h.1

-- A thread goes on by what `TryAcquire` answered.
acquired-Guarded :
    (id : String) (k : Bool → Handler (Unit {0})) (acquired : Bool)
    → Guarded id true (k true)
    → Guarded id false (k false)
    → Guarded id (acquired || false) (k acquired)
acquired-Guarded id k true g f = g
acquired-Guarded id k false g f = f

-- The next call of a thread keeps its discipline.
advance-IsGuarded :
    (answer : (c : Call) → Answer c) (id : String) (held : Bool) (p : Handler (Unit {0}))
    (vl : VolumeLocks)
    → Guarded id held p
    → IsGuarded (advance answer id held p vl).0
unfolding advance
advance-IsGuarded answer id _ (ret a) vl (returns _) = returns a
advance-IsGuarded answer id _ (call (ext c) k) vl (queries _ _ q h) = h (answer c)
advance-IsGuarded answer id _ (call (ext c) k) vl (calls _ _ h) = h (answer c)
advance-IsGuarded answer id _ (call (try_acquire _) k) vl (acquires _ g f) =
    acquired-Guarded id k (VolumeLocks.try_acquire id vl).0 g f
advance-IsGuarded answer id _ (call (release _) k) vl (releases _ h) = h

-- The locks change with the threads that hold them.
holds-advance :
    (answer : (c : Call) → Answer c) (id : String) (held : Bool) (p : Handler (Unit {0}))
    (vl : VolumeLocks)
    → Guarded id held p
    → (held ≡ true → has id vl.locks ≡ true)
    → (j : String)
    → holds j (advance answer id held p vl).0 + locked_once j vl
      ≡ (if held && str_eq id j then 1 else 0) + locked_once j (advance answer id held p vl).1
unfolding advance VolumeLocks.try_acquire VolumeLocks.release
holds-advance answer id _ (ret a) vl (returns _) h j = refl
holds-advance answer id _ (call (ext c) k) vl (queries _ _ _ _) h j = refl
holds-advance answer id _ (call (ext c) k) vl (calls _ _ _) h j = refl
holds-advance answer id _ (call (try_acquire _) k) vl (acquires _ _ _) h j =
    ground (arith, has-cons j id vl.locks, eq_iff id j)
holds-advance answer id _ (call (release _) k) vl (releases _ _) h j =
    ground (arith, h refl, has-delete j id vl.locks, eq_iff id j)

-- Each lock that is set is held by exactly one thread, and no other lock is held.
pub record Inv (s : System) : Type 0 where
  pub counted : (id : String) → holders id s.threads ≡ locked_once id s.locks
  pub guarded : AllGuarded s.threads

-- A thread that holds its lock finds it set.
held_is_set :
    (vl : VolumeLocks) (xs ys : List Thread) (t : Thread)
    → Inv (record { locks = vl; threads = xs ++ (t ∷ ys) })
    → t.held ≡ true
    → has t.id vl.locks ≡ true
unfolding holders
held_is_set vl xs ys t inv held =
    ground (arith, inv.counted t.id, holders-append t.id xs (t ∷ ys), eq_iff t.id t.id)

module _ (service : Service) where
  Inv-start :
      (s : System) (r : Request) → Inv s → Inv (record s { threads = start service r ∷ s.threads })
  unfolding holders start
  Inv-start s r inv = record {
    counted = λ id. omega (arith, inv.counted id);
    guarded = (handle-Guarded service r, inv.guarded);
  }

  Inv-runs :
      (answer : (c : Call) → Answer c) (vl : VolumeLocks) (xs ys : List Thread) (t : Thread)
      → Inv (record { locks = vl; threads = xs ++ (t ∷ ys) })
      → Inv (record {
        locks = (advance answer t.id t.held t.rest vl).1;
        threads = xs ++ ((advance answer t.id t.held t.rest vl).0 ∷ ys);
      })
  unfolding holders
  Inv-runs answer vl xs ys t inv = record {
    counted = λ id. omega (
      arith,
      inv.counted id,
      holders-append id xs (t ∷ ys),
      holders-append id xs ((advance answer t.id t.held t.rest vl).0 ∷ ys),
      holds-advance answer t.id t.held t.rest vl own.0 (held_is_set vl xs ys t inv) id,
    );
    guarded =
        AllGuarded-append xs _ (AllGuarded-left xs (t ∷ ys) inv.guarded)
          (advance-IsGuarded answer t.id t.held t.rest vl own.0, own.1);
  }
    where
      own : AllGuarded (t ∷ ys)
      own = AllGuarded-right xs (t ∷ ys) inv.guarded

  Inv-Step : {s t : System} → Step service s t → Inv s → Inv t
  Inv-Step (arrives r s) inv = Inv-start s r inv
  Inv-Step (runs answer vl xs ys t) inv = Inv-runs answer vl xs ys t inv

  pub Inv-Reach : {s : System} → Reach service s → Inv s
  unfolding holders new_volume_locks has
  Inv-Reach idle = record { counted = λ id. refl; guarded = tt }
  Inv-Reach (next r st) = Inv-Step st (Inv-Reach r)
