-- ===== src/Tests/Lifecycle.antt =====
-- A run of the driver.
use csi_runtime.Base.{true, [], ◌∷◌}
use csi_runtime.Grpc.{start, stop}
use csi_runtime.Driver.Lifecycle.{
  Run, serving, stopped, asked, by_start, by_stop, Reach, begins, next, serves, cancels,
  sees_cancel, stops, stop_returns, stopped_outside, Inv, start-Inv,
}

-- Cancelled after a `Driver.Stop`.
abbrev cancelled_run : Run
cancelled_run = record {
  goroutine = serving;
  main = stopped;
  cancelled = true;
  events = asked by_start stop ∷ asked by_stop stop ∷ asked by_start start ∷ [];
}

reached : Reach cancelled_run
reached =
    next
      (next
        (next (next (next (next begins (serves _ _ _)) (stopped_outside _ _ _ _)) (cancels _ _ _))
          (sees_cancel _ _))
        (stops _ _ _))
      (stop_returns _ _ _)

start-Inv_example : Inv cancelled_run
start-Inv_example = start-Inv reached
