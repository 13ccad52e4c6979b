-- ===== src/Statter/Sums.antt =====
-- mount-manager/statter_linux.go: the numbers of `StatFS` fit together.
use native.Mathlib.Nat.{add-mul, mul-le-mul_right}
use csi_runtime.Base.{
  ◌-◌, sym, ap, ◌∙◌, ℕ, ◌+◌, ◌*◌, ◌^◌, ◌≤◌, ◌<◌, String, ◌≡◌, refl, List, ok, arith, pos,
}
use csi_runtime.Base.Int64.{signed, mul64, sub64, signed-small}
use csi_runtime.Base.Prog.{ask, bind}
use csi_runtime.Base.Exec.{OracleOf, EventOf, exec}
use csi_runtime.Statter.{Statfs, Usage, Call, Answer, statfs, stat_fs, usage}

-- What the kernel reports of a file system: no more blocks are free than there are, none is
-- available that is not free, no more files are free than there are, and the size in bytes is an
-- `int64`.
abbrev pub IsSane : Statfs → Type 0
IsSane fs =
    (fs.bfree ≤ fs.blocks)
    × (fs.bavail ≤ fs.bfree)
    × (fs.ffree ≤ fs.files)
    × (fs.blocks * fs.bsize < 2 ^ 63)
    × (fs.blocks < 2 ^ 63)
    × (fs.files < 2 ^ 63)

-- The parts of the usage of a file system that was reported so: nothing wraps around, the capacity
-- is the bytes used and the bytes free, what is available is no more than what is not used, and the
-- inodes are the used and the free ones.
abbrev pub FitsTogether : Statfs → Usage → Type 0
FitsTogether fs u =
    (u.capacity ≡ fs.blocks * fs.bsize)
    × (u.used + fs.bfree * fs.bsize ≡ u.capacity)
    × (u.available + u.used ≤ u.capacity)
    × (u.inodes_used + u.inodes_free ≡ u.inodes)
    × (signed u.capacity ≡ pos u.capacity)
    × (signed u.used ≡ pos u.used)

used_bytes :
    (blocks bfree bsize : ℕ)
    → bfree ≤ blocks
    → (blocks - bfree) * bsize + bfree * bsize ≡ blocks * bsize
used_bytes blocks bfree bsize free =
    let e : (blocks - bfree) + bfree ≡ blocks = omega arith in
    sym (add-mul (blocks - bfree) bfree bsize) ∙ ap (λ x. x * bsize) e

usage_fits : (fs : Statfs) → IsSane fs → FitsTogether fs (usage fs)
usage_fits fs (free, avail, files, bytes, small, few) =
    let sum = used_bytes fs.blocks fs.bfree fs.bsize free in
    let available = mul-le-mul_right {m = fs.bavail} {n = fs.bfree} fs.bsize avail in
    let used : sub64 fs.blocks fs.bfree ≡ fs.blocks - fs.bfree = omega arith in
    let inodes : sub64 fs.files fs.ffree ≡ fs.files - fs.ffree = omega arith in
    rw (used, inodes)
      (
        omega arith,
        omega arith,
        omega arith,
        omega arith,
        signed-small (mul64 fs.blocks fs.bsize) (omega arith),
        signed-small (mul64 (fs.blocks - fs.bfree) fs.bsize) (omega arith),
      )

-- On a file system that is reported as `IsSane` says, `StatFS` succeeds with numbers that fit
-- together.
pub stat_fs_fits :
    (o : OracleOf Call Answer) (path : String) (fs : Statfs) (h : List (EventOf Call Answer))
    → o h (statfs path) ≡ ok fs
    → IsSane fs
    → (u : Usage) × ((exec o (stat_fs path) h).0 ≡ ok u) × FitsTogether fs u
unfolding exec stat_fs bind ask
stat_fs_fits o path fs h e sane = (usage fs, rw e refl, usage_fits fs sane)
