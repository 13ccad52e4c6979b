-- ===== src/Driver/Lifecycle.antt =====
-- driver/driver.go: `Driver.Start` and `Driver.Stop`, as the steps of the two goroutines of `Start` and
-- of the world around them: the context may be cancelled at any time, the server may return from
-- serving at any time, and `Driver.Stop` may be called at any time and any number of times.
use csi_runtime.Base.{
  ℕ, suc, ◌≡◌, refl, Bool, true, false, List, [], ◌∷◌, Option, none, some, ◌⊎◌, inl, inr, ap,
}
use csi_runtime.Rpc.{Error}
use csi_runtime.Grpc.{GrpcCall, serve, graceful_stop, start, stop}

-- The goroutine that serves: not yet scheduled, in `d.server.Start()`, after it with its error, after
-- the test of that error and its `log.Print`, and after `close(done)`.
pub data Serving : Type 0 where
  spawned serving : Serving
  returned logged closed : Option Error → Serving

-- `Start` itself: in the select, before `d.server.Stop()`, in it, and after it.
pub data Main : Type 0 where
  waiting leaving stopping stopped : Main

-- Who calls the server: `Driver.Start`, or the world by `Driver.Stop`.
pub data Caller : Type 0 where
  by_start by_stop : Caller

pub data Event : Type 0 where
  asked : Caller → GrpcCall → Event
  printed : Error → Event

-- The events, the newest first.
pub record Run : Type 0 where
  pub goroutine : Serving
  pub main : Main
  pub cancelled : Bool
  pub events : List Event

abbrev pub print : Option Error → List Event → List Event
print none es = es
print (some e) es = printed e ∷ es

pub data Step : Run → Run → Type 0 where
  serves :
      (m : Main) (c : Bool) (es : List Event)
      → Step
          (record { goroutine = spawned; main = m; cancelled = c; events = es })
          (record {
            goroutine = serving;
            main = m;
            cancelled = c;
            events = asked by_start start ∷ es;
          })
  serving_ends :
      (r : Option Error) (m : Main) (c : Bool) (es : List Event)
      → Step
          (record { goroutine = serving; main = m; cancelled = c; events = es })
          (record { goroutine = returned r; main = m; cancelled = c; events = es })
  logs :
      (r : Option Error) (m : Main) (c : Bool) (es : List Event)
      → Step
          (record { goroutine = returned r; main = m; cancelled = c; events = es })
          (record { goroutine = logged r; main = m; cancelled = c; events = print r es })
  closes :
      (r : Option Error) (m : Main) (c : Bool) (es : List Event)
      → Step
          (record { goroutine = logged r; main = m; cancelled = c; events = es })
          (record { goroutine = closed r; main = m; cancelled = c; events = es })
  cancels :
      (g : Serving) (m : Main) (es : List Event)
      → Step
          (record { goroutine = g; main = m; cancelled = false; events = es })
          (record { goroutine = g; main = m; cancelled = true; events = es })
  sees_cancel :
      (g : Serving) (es : List Event)
      → Step
          (record { goroutine = g; main = waiting; cancelled = true; events = es })
          (record { goroutine = g; main = leaving; cancelled = true; events = es })
  sees_done :
      (r : Option Error) (c : Bool) (es : List Event)
      → Step
          (record { goroutine = closed r; main = waiting; cancelled = c; events = es })
          (record { goroutine = closed r; main = leaving; cancelled = c; events = es })
  stops :
      (g : Serving) (c : Bool) (es : List Event)
      → Step
          (record { goroutine = g; main = leaving; cancelled = c; events = es })
          (record {
            goroutine = g;
            main = stopping;
            cancelled = c;
            events = asked by_start stop ∷ es;
          })
  stop_returns :
      (g : Serving) (c : Bool) (es : List Event)
      → Step
          (record { goroutine = g; main = stopping; cancelled = c; events = es })
          (record { goroutine = g; main = stopped; cancelled = c; events = es })
  stopped_outside :
      (g : Serving) (m : Main) (c : Bool) (es : List Event)
      → Step
          (record { goroutine = g; main = m; cancelled = c; events = es })
          (record { goroutine = g; main = m; cancelled = c; events = asked by_stop stop ∷ es })

pub data Reach : Run → Type 0 where
  begins : Reach (record { goroutine = spawned; main = waiting; cancelled = false; events = [] })
  next : {r s : Run} → Reach r → Step r s → Reach s

-- How often `Start` asked the server to stop gracefully, how often the server was asked to serve, and
-- what was printed.
unfoldable pub stops_asked : List Event → ℕ
stops_asked [] = 0
stops_asked (asked by_start graceful_stop ∷ es) = suc (stops_asked es)
stops_asked (_ ∷ es) = stops_asked es

unfoldable pub serves_asked : List Event → ℕ
serves_asked [] = 0
serves_asked (asked _ serve ∷ es) = suc (serves_asked es)
serves_asked (_ ∷ es) = serves_asked es

unfoldable pub prints : List Event → List Error
prints [] = []
prints (printed e ∷ es) = e ∷ prints es
prints (_ ∷ es) = prints es

abbrev stops_due : Main → ℕ
stops_due waiting = 0
stops_due leaving = 0
stops_due _ = 1

abbrev serves_due : Serving → ℕ
serves_due spawned = 0
serves_due _ = 1

abbrev prints_due : Serving → List Error
prints_due (logged (some e)) = e ∷ []
prints_due (closed (some e)) = e ∷ []
prints_due _ = []

abbrev Ended : Serving → Type 0
Ended (closed r) = Unit {0}
Ended _ = ⊥

abbrev pub Inv : Run → Type 0
Inv r =
    (stops_asked r.events ≡ stops_due r.main)
    × (serves_asked r.events ≡ serves_due r.goroutine)
    × (prints r.events ≡ prints_due r.goroutine)
    × ((r.main ≡ waiting) ⊎ ((r.cancelled ≡ true) ⊎ Ended r.goroutine))

print-stops : (r : Option Error) (es : List Event) → stops_asked (print r es) ≡ stops_asked es
unfolding stops_asked
print-stops none es = refl
print-stops (some e) es = refl

print-serves : (r : Option Error) (es : List Event) → serves_asked (print r es) ≡ serves_asked es
unfolding serves_asked
print-serves none es = refl
print-serves (some e) es = refl

print-prints :
    (r : Option Error) (es : List Event)
    → prints es ≡ []
    → prints (print r es) ≡ prints_due (logged r)
unfolding prints
print-prints none es h = h
print-prints (some e) es h = ap (λ l. e ∷ l) h

Inv-Step : {r s : Run} → Step r s → Inv r → Inv s
unfolding stops_asked serves_asked prints stop start
Inv-Step (serves m c es) (n, k, p, inl w) = (n, ap suc k, p, inl w)
Inv-Step (serves m c es) (n, k, p, inr (inl w)) = (n, ap suc k, p, inr (inl w))
Inv-Step (serves m c es) (n, k, p, inr (inr x)) = elim x [ ]
Inv-Step (serving_ends r m c es) (n, k, p, inr (inr x)) = elim x [ ]
Inv-Step (serving_ends r m c es) (n, k, p, inl w) = (n, k, p, inl w)
Inv-Step (serving_ends r m c es) (n, k, p, inr (inl w)) = (n, k, p, inr (inl w))
Inv-Step (logs r m c es) (n, k, p, inl w) =
    (rw (print-stops r es) n, rw (print-serves r es) k, print-prints r es p, inl w)
Inv-Step (logs r m c es) (n, k, p, inr (inl w)) =
    (rw (print-stops r es) n, rw (print-serves r es) k, print-prints r es p, inr (inl w))
Inv-Step (logs r m c es) (n, k, p, inr (inr x)) = elim x [ ]
Inv-Step (closes none m c es) (n, k, p, w) = (n, k, p, inr (inr tt))
Inv-Step (closes (some e) m c es) (n, k, p, w) = (n, k, p, inr (inr tt))
Inv-Step (cancels g m es) (n, k, p, w) = (n, k, p, inr (inl refl))
Inv-Step (sees_cancel g es) (n, k, p, w) = (n, k, p, inr (inl refl))
Inv-Step (sees_done r c es) (n, k, p, w) = (n, k, p, inr (inr tt))
Inv-Step (stops g c es) (n, k, p, inl w) = absurd (cc w)
Inv-Step (stops g c es) (n, k, p, inr w) = (ap suc n, k, p, inr w)
Inv-Step (stop_returns g c es) (n, k, p, inl w) = absurd (cc w)
Inv-Step (stop_returns g c es) (n, k, p, inr w) = (n, k, p, inr w)
Inv-Step (stopped_outside g m c es) (n, k, p, w) = (n, k, p, w)

-- However the two goroutines of `Start`, callers of `Driver.Stop` and the context take turns: `Start`
-- has asked the server to stop gracefully exactly once when it is in that call or has returned, and not
-- before; the server was asked to serve exactly once when the goroutine has run, and not before; its
-- error, if there was one, was printed exactly once when the channel is closed, and not before that
-- call had returned; and
-- `Start` leaves its select only when the context is cancelled or the channel is closed.
pub start-Inv : {r : Run} → Reach r → Inv r
unfolding stops_asked serves_asked prints start
start-Inv begins = (refl, refl, refl, inl refl)
start-Inv (next r s) = Inv-Step s (start-Inv r)
