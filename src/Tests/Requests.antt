-- ===== src/Tests/Requests.antt =====
-- Two requests at once, and requests one at a time.
use csi_runtime.Base.{String, ◌≡◌, ◌≢◌, ◌≤◌, ◌*◌, refl, true, false, [], ◌∷◌, ok}
use csi_runtime.VolumeLocks.{VolumeLocks, new_volume_locks, has}
use csi_runtime.Node.Finish.{arrivals, calls_made, calls_bounded}
use csi_runtime.Node.Calls
use csi_runtime.Node.Calls.{Call, Answer}
use csi_runtime.Node.Guarded.{mutates}
use csi_runtime.Node.Unpublish.{node_unpublish_volume, unmount_and_remove}
use csi_runtime.Node.Requests.{unpublish, publish, handle}
use csi_runtime.Node.Interleaving.{Thread, advance, start, arrives, runs, Reach, idle, next}
use csi_runtime.Node.Exclusion.{Mutates, no_race, all_released, AllDone}
use csi_runtime.Node.World.{run, semantics}
use csi_runtime.Node.Sequential.{handle-locks}
use csi_runtime.Node.Busy.{busy_volume, Refused}
use csi_runtime.Tests.Data.{
  service, unpublish_request, publish_request, mounted, answer, directory, oracle, world,
  busy_world,
}

abbrev reply : (c : Call) → Answer c
reply c = answer directory true c

-- A thread after its next call.
abbrev after : Thread → VolumeLocks → Thread × VolumeLocks
after t vl = advance reply t.id t.held t.rest vl

abbrev arrived : String → Thread
arrived id = start service (unpublish (unpublish_request id))

abbrev first_locked : Thread × VolumeLocks
first_locked = after (arrived "a") new_volume_locks

abbrev second_locked : Thread × VolumeLocks
second_locked = after (arrived "b") first_locked.1

two_locked :
    Reach service
      (record { locks = second_locked.1; threads = first_locked.0 ∷ second_locked.0 ∷ [] })
two_locked =
    next
      (next
        (next (next idle (arrives (unpublish (unpublish_request "b")) _))
          (arrives (unpublish (unpublish_request "a")) _))
        (runs reply new_volume_locks [] (arrived "b" ∷ []) (arrived "a")))
      (runs reply first_locked.1 (first_locked.0 ∷ []) [] (arrived "b"))

about_to_unmount_first : Mutates first_locked.0 (Calls.unmount "/target")
unfolding advance start semantics node_unpublish_volume unmount_and_remove new_volume_locks has
    mutates
about_to_unmount_first = (_, refl, refl)

about_to_unmount_second : Mutates second_locked.0 (Calls.unmount "/target")
unfolding advance start semantics node_unpublish_volume unmount_and_remove new_volume_locks has
    mutates
about_to_unmount_second = (_, refl, refl)

no_race_example : first_locked.0.id ≢ second_locked.0.id
no_race_example =
    no_race service
      (record { locks = second_locked.1; threads = first_locked.0 ∷ second_locked.0 ∷ [] }) [] [] []
      first_locked.0 second_locked.0 (Calls.unmount "/target") (Calls.unmount "/target") two_locked
      refl about_to_unmount_first about_to_unmount_second

abbrev unmounted : Thread × VolumeLocks
unmounted = after first_locked.0 first_locked.1

abbrev removed : Thread × VolumeLocks
removed = after unmounted.0 unmounted.1

abbrev released : Thread × VolumeLocks
released = after removed.0 removed.1

one_done : Reach service (record { locks = released.1; threads = released.0 ∷ [] })
one_done =
    next
      (next
        (next
          (next (next idle (arrives (unpublish (unpublish_request "a")) _))
            (runs reply new_volume_locks [] [] (arrived "a")))
          (runs reply first_locked.1 [] [] first_locked.0))
        (runs reply unmounted.1 [] [] unmounted.0))
      (runs reply removed.1 [] [] removed.0)

is_done : AllDone (released.0 ∷ [])
unfolding advance start semantics node_unpublish_volume unmount_and_remove new_volume_locks has
    mutates
is_done = ((ok tt, refl), tt)

all_released_example : has "a" released.1.locks ≡ false
all_released_example =
    all_released service (record { locks = released.1; threads = released.0 ∷ [] }) "a" one_done
      is_done

handle-locks_example :
    (run (oracle directory true) (handle service (unpublish (unpublish_request "a"))) world).1.locks
    ≡ world.locks
handle-locks_example =
    handle-locks (oracle directory true) service (unpublish (unpublish_request "a")) world

a_is_locked : has "a" busy_world.locks.locks ≡ true
unfolding has
a_is_locked = refl

busy_volume_example :
    Refused busy_world
      (run (oracle directory true) (handle service (publish (publish_request mounted))) busy_world)
busy_volume_example =
    busy_volume (oracle directory true) service (publish (publish_request mounted)) busy_world
      a_is_locked

calls_bounded_example : calls_made two_locked ≤ 9 * arrivals two_locked
calls_bounded_example =
    calls_bounded service
      (record { locks = second_locked.1; threads = first_locked.0 ∷ second_locked.0 ∷ [] })
      two_locked
