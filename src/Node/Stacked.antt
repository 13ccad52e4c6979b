-- ===== src/Node/Stacked.antt =====
-- The mounts of the history as the sources on each path.
use mathlib.Core.Path.{fun_ext}
use csi_runtime.Base.{String, ◌≡◌, ◌≢◌, refl, true, false, List, [], ◌∷◌, arith, eq_iff}
use csi_runtime.Node.Calls.{MountPoint}
use csi_runtime.Node.Devices.{device_at}
use csi_runtime.Node.Server.{is_empty}
use csi_runtime.Node.Mounts.{unmounted, is_mounted}
use csi_runtime.Node.Contract.{Stacks, push, pop, named}

abbrev pub mounted_at : List MountPoint → Stacks
mounted_at [] p = []
mounted_at (mp ∷ mps) p = push mp.path mp.device (mounted_at mps) p

pub mounted_at-cons :
    (mp : MountPoint) (mps : List MountPoint)
    → mounted_at (mp ∷ mps) ≡ push mp.path mp.device (mounted_at mps)
mounted_at-cons mp mps = fun_ext λ p. refl

at-unmounted :
    (p q : String) (mps : List MountPoint)
    → mounted_at (unmounted p mps) q ≡ pop p (mounted_at mps) q
unfolding unmounted
at-unmounted p q [] = ground arith
at-unmounted p q (mp ∷ mps) =
    ground (arith, at-unmounted p q mps, eq_iff mp.path p, eq_iff p q, eq_iff mp.path q)

pub mounted_at-unmounted :
    (p : String) (mps : List MountPoint) → mounted_at (unmounted p mps) ≡ pop p (mounted_at mps)
mounted_at-unmounted p mps = fun_ext λ q. at-unmounted p q mps

pub mounted_at-free :
    (p : String) (mps : List MountPoint) → is_mounted p mps ≡ false → mounted_at mps p ≡ []
unfolding is_mounted
mounted_at-free p [] free = refl
mounted_at-free p (mp ∷ mps) free = ground (arith, mounted_at-free p mps)

pub mounted_at-taken :
    (p : String) (mps : List MountPoint) → is_mounted p mps ≡ true → mounted_at mps p ≢ []
unfolding is_mounted
mounted_at-taken p [] taken e = absurd (cc taken)
mounted_at-taken p (mp ∷ mps) taken e = ground (arith, mounted_at-taken p mps)

pub mounted_at-HasSource :
    (p : String) (mps : List MountPoint)
    → named (mounted_at mps p) ≡ true
    → is_mounted p mps ≡ true
    → is_empty (device_at p mps) ≡ false
unfolding is_mounted device_at
mounted_at-HasSource p [] names taken = absurd (cc taken)
mounted_at-HasSource p (mp ∷ mps) names taken = ground (arith, mounted_at-HasSource p mps)
