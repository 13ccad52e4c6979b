-- ===== src/Node/World.antt =====
-- One handler at a time, in a world with volume locks and the history of the calls made so far. What
-- is outside answers by the oracle, which sees that history.
pub mod EndsWith
use csi_runtime.Base.{
  true, false, String, Bool, Bool-cases, inl, inr, if◌then◌else◌, ◌≡◌, refl, List, ◌∷◌,
}
use csi_runtime.Base.Prog.{Prog, ret, call, bind}
use csi_runtime.VolumeLocks
use csi_runtime.VolumeLocks.{has, VolumeLocks}
use csi_runtime.Node.Asks.{
  do_stat, do_eval_symlinks, do_symlink, do_remove, do_remove_all, do_is_likely_not_mount_point,
  do_list_mounts, do_mount_sensitive, do_mount_sensitive_without_systemd,
  do_format_and_mount_sensitive, do_unmount, do_validate_capability, do_attach_block,
  do_detach_block, do_mount, do_populate,
}
use csi_runtime.Node.Server.{require_text, require_some, locked, is_volume_path_mounted}
use csi_runtime.Base.Prog.{◌>>=◌, bind}
use csi_runtime.Node.Calls.{Call, Answer, Op, ext, try_acquire, release, OpAnswer}

-- A call, with what it answered.
abbrev pub Event : Type 0
Event = (c : Call) × Answer c

abbrev pub Oracle : Type 0
Oracle = List Event → (c : Call) → Answer c

-- The newest event is the first.
pub record World : Type 0 where
  pub locks : VolumeLocks
  pub history : List Event

unfoldable pub run : {A : Type 0} → Oracle → Prog Op OpAnswer A → World → A × World
run o (ret a) w = (a, w)
run o (call (ext c) k) w =
    run o (k (o w.history c)) (record w { history = (c, o w.history c) ∷ w.history })
run o (call (try_acquire id) k) w =
    run o (k (VolumeLocks.try_acquire id w.locks).0)
      (record w { locks = (VolumeLocks.try_acquire id w.locks).1 })
run o (call (release id) k) w = run o (k tt) (record w { locks = VolumeLocks.release id w.locks })

-- Running `m` and then what follows.
pub run-bind :
    {A B : Type 0} (o : Oracle) (m : Prog Op OpAnswer A) (f : A → Prog Op OpAnswer B) (w : World)
    → run o (bind m f) w ≡ run o (f (run o m w).0) (run o m w).1
unfolding run bind
run-bind o (ret a) f w = refl
run-bind o (call (ext c) k) f w = run-bind o (k (o w.history c)) f _
run-bind o (call (try_acquire id) k) f w = run-bind o (k (VolumeLocks.try_acquire id w.locks).0) f _
run-bind o (call (release id) k) f w = run-bind o (k tt) f _

-- Both outcomes of `TryAcquire`.
pub run-try_acquire :
    {A : Type 0} (o : Oracle) (id : String) (k : Bool → Prog Op OpAnswer A) (w : World)
    → run o (call (try_acquire id) k) w ≡ (
        if has id w.locks.locks
        then run o (k false) w
        else run o (k true) (record w { locks = record { locks = id ∷ w.locks.locks } }))
unfolding run VolumeLocks.try_acquire
run-try_acquire o id k w = elim (Bool-cases (has id w.locks.locks)) [
  | inl busy ↦ rw (busy, run)
  | inr free ↦ rw (free, run)
]

-- Names on one line all that a run of a handler's body computes with.
unfoldable pub semantics : Unit {0}
unfolding run ◌>>=◌ bind do_stat do_eval_symlinks do_symlink do_remove do_remove_all
    do_is_likely_not_mount_point do_list_mounts do_mount_sensitive
    do_mount_sensitive_without_systemd do_format_and_mount_sensitive do_unmount
    do_validate_capability do_attach_block do_detach_block do_mount do_populate require_text
    require_some locked is_volume_path_mounted VolumeLocks.try_acquire VolumeLocks.release
semantics = tt
