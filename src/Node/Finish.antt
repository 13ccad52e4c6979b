-- ===== src/Node/Finish.antt =====
-- Any number of requests at once: how many calls they make, and that none of them waits for another.
use mathlib.Core.Nat
use csi_runtime.Base.{ℕ, ◌+◌, ◌*◌, ◌≤◌, String, ◌≡◌, refl, ap, Bool, List, [], ◌∷◌, ◌++◌, arith}
use csi_runtime.Base.Prog.{ret, call}
use csi_runtime.Base.Within.{Within, within_call}
use csi_runtime.VolumeLocks
use csi_runtime.VolumeLocks.{VolumeLocks, has}
use csi_runtime.Node.Calls.{Call, Answer, Op, OpAnswer, ext, try_acquire, release, Handler}
use csi_runtime.Node.Bounded.{nine}
use csi_runtime.Node.Returns.{handle-Within}
use csi_runtime.Node.Requests.{Request, Service}
use csi_runtime.Node.Interleaving.{Thread, System, advance, start, arrives, runs, Reach, idle, next}

-- The calls that a thread makes when it is next: none, when its handler has returned.
abbrev pub makes : Handler (Unit {0}) → ℕ
makes (ret a) = 0
makes (call c k) = 1

module _ {service : Service} where
  -- The requests that came, and the calls that their threads made.
  unfoldable pub arrivals : {s : System} → Reach service s → ℕ
  arrivals idle = 0
  arrivals (next r (arrives q s)) = arrivals r + 1
  arrivals (next r (runs answer vl xs ys t)) = arrivals r

  unfoldable pub calls_made : {s : System} → Reach service s → ℕ
  calls_made idle = 0
  calls_made (next r (arrives q s)) = calls_made r
  calls_made (next r (runs answer vl xs ys t)) = calls_made r + makes t.rest

-- A number of the library, as a native one.
count : Nat.ℕ → ℕ
count Nat.zero = 0
count (Nat.suc n) = count n + 1

-- A handler that has at most `b` calls left to make, and threads that have at most `b` together.
record HasLeft (p : Handler (Unit {0})) (b : ℕ) : Type 0 where
  bound : Nat.ℕ
  within : Within bound p
  counted : count bound ≤ b

data AllLeft : List Thread → ℕ → Type 0 where
  none_left : (b : ℕ) → AllLeft [] b
  also :
      (t : Thread) (ts : List Thread) (a b c : ℕ)
      → HasLeft t.rest a
      → AllLeft ts b
      → a + b ≤ c
      → AllLeft (t ∷ ts) c

-- A program after one of its calls.
after_call :
    {c : Op} {k : OpAnswer c → Handler (Unit {0})} {n : Nat.ℕ}
    → Within n (call c k)
    → (r : OpAnswer c) → (m : Nat.ℕ) × Within m (k r) × (n ≡ Nat.suc m)
after_call (within_call m _ _ w) r = (m, w r, refl)

-- A call is one less to make.
called :
    {c : Op} {k : OpAnswer c → Handler (Unit {0})} {b : ℕ} (r : OpAnswer c)
    → HasLeft (call c k) b
    → (d : ℕ) × HasLeft (k r) d × (d + 1 ≤ b)
unfolding count
called r h =
    let (m, w, e) = after_call h.within r in
    (
      count m,
      record { bound = m; within = w; counted = omega arith },
      omega (arith, h.counted, ap count e),
    )

advance-HasLeft :
    (answer : (c : Call) → Answer c) (id : String) (held : Bool) (p : Handler (Unit {0}))
    (vl : VolumeLocks) (b : ℕ)
    → HasLeft p b
    → (d : ℕ) × HasLeft (advance answer id held p vl).0.rest d × (d + makes p ≤ b)
unfolding advance
advance-HasLeft answer id held (ret a) vl b h = (b, h, omega arith)
advance-HasLeft answer id held (call (ext c) k) vl b h = called (answer c) h
advance-HasLeft answer id held (call (try_acquire j) k) vl b h =
    called (VolumeLocks.try_acquire j vl).0 h
advance-HasLeft answer id held (call (release j) k) vl b h = called tt h

-- One thread makes `m` calls, and the others none.
AllLeft-replace :
    (xs ys : List Thread) (t u : Thread) (m b : ℕ)
    → ((a : ℕ) → HasLeft t.rest a → (d : ℕ) × HasLeft u.rest d × (d + m ≤ a))
    → AllLeft (xs ++ (t ∷ ys)) b
    → (d : ℕ) × AllLeft (xs ++ (u ∷ ys)) d × (d + m ≤ b)
AllLeft-replace [] ys t u m b step (also _ _ a c _ h hs le) =
    let (d, h', le') = step a h in (d + c, also u ys d c (d + c) h' hs (omega arith), omega arith)
AllLeft-replace (x ∷ xs) ys t u m b step (also _ _ a c _ h hs le) =
    let (d, hs', le') = AllLeft-replace xs ys t u m c step hs in
    (a + d, also x (xs ++ (u ∷ ys)) a d (a + d) h hs' (omega arith), omega arith)

start-HasLeft : (service : Service) (q : Request) → HasLeft (start service q).rest 9
unfolding start count
start-HasLeft service q = record {
  bound = nine;
  within = handle-Within service q;
  counted = omega arith;
}

module _ {service : Service} where
  -- What is left to make and what was made is at most nine calls for each request.
  left :
      {s : System} (r : Reach service s)
      → (b : ℕ) × AllLeft s.threads b × (b + calls_made r ≤ 9 * arrivals r)
  unfolding arrivals calls_made
  left idle = (0, none_left 0, omega arith)
  left (next r (arrives q s)) =
      let (b, h, le) = left r in
      (
        9 + b,
        also (start service q) s.threads 9 b (9 + b) (start-HasLeft service q) h (omega arith),
        omega arith,
      )
  left (next r (runs answer vl xs ys t)) =
      let (b, h, le) = left r in
      let (d, h', le') =
        AllLeft-replace xs ys t (advance answer t.id t.held t.rest vl).0 (makes t.rest) b
          (advance-HasLeft answer t.id t.held t.rest vl) h in
      (d, h', omega arith)

-- However the requests are interleaved and answered, their handlers make at most nine calls for each
-- request that came, those to the volume locks among them.
pub calls_bounded :
    (service : Service) (s : System) (r : Reach service s) → calls_made r ≤ 9 * arrivals r
calls_bounded service s r = let (b, h, le) = left r in omega arith
