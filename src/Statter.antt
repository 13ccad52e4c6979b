-- ===== src/Statter.antt =====
-- mount-manager/statter_linux.go and statter.go: volume usage, and block devices.
use csi_runtime.Base.{ℕ, String, Bool, Result, ok, err, ◌/◌, ◌%◌, ◌==◌}
use csi_runtime.Base.Int64.{mul64, sub64}
use csi_runtime.Base.Prog.{Prog, ask, bind, ret}
use csi_runtime.Rpc.{Error}
pub mod Sums

-- `unix.Statfs_t`: the fields that are read, of 64 bits each.
pub record Statfs : Type 0 where
  pub bavail : ℕ
  pub blocks : ℕ
  pub bfree : ℕ
  pub bsize : ℕ
  pub files : ℕ
  pub ffree : ℕ

-- The results of `StatFS` beside its error, of 64 bits each.
pub record Usage : Type 0 where
  pub available : ℕ
  pub capacity : ℕ
  pub used : ℕ
  pub inodes_free : ℕ
  pub inodes : ℕ
  pub inodes_used : ℕ

-- `Statter`, on the calls `C`.
pub record Statter (C : Type 0) (R : C → Type 0) (E : Type 0) : Type 0 where
  pub stat_fs : String → Prog C R (Result E Usage)
  pub is_block_device : String → Prog C R (Result E Bool)

-- `unix.Stat`, of which only the mode is read, and `unix.Statfs`
pub data Call : Type 0 where
  stat statfs : String → Call

abbrev pub Answer : Call → Type 0
Answer (stat _) = Result Error ℕ
Answer (statfs _) = Result Error Statfs

-- The error of `StatFS` is made of the path and the error of `unix.Statfs`.
pub data Failure : Type 0 where
  outside : Error → Failure
  no_fs_info : String → Error → Failure

abbrev pub usage : Statfs → Usage
usage fs = record {
  available = mul64 fs.bavail fs.bsize;
  capacity = mul64 fs.blocks fs.bsize;
  used = mul64 (sub64 fs.blocks fs.bfree) fs.bsize;
  inodes = fs.files;
  inodes_free = fs.ffree;
  inodes_used = sub64 fs.files fs.ffree;
}

abbrev pub usage_or : String → Result Error Statfs → Result Failure Usage
usage_or path (ok fs) = ok (usage fs)
usage_or path (err e) = err (no_fs_info path e)

-- `StatFS`
unfoldable pub stat_fs : String → Prog Call Answer (Result Failure Usage)
stat_fs path = bind (ask (statfs path)) λ r. ret (usage_or path r)

-- `(st.Mode & unix.S_IFMT) == unix.S_IFBLK`, with the four bits of `S_IFMT` 0o170000 and `S_IFBLK`
-- 0o060000.
abbrev pub is_block : Result Error ℕ → Result Failure Bool
is_block (ok mode) = ok (mode / 4096 % 16 == 6)
is_block (err e) = err (outside e)

-- `IsBlockDevice`
unfoldable pub is_block_device : String → Prog Call Answer (Result Failure Bool)
is_block_device path = bind (ask (stat path)) λ r. ret (is_block r)

abbrev pub real_statter : Statter Call Answer Failure
real_statter = record { stat_fs = stat_fs; is_block_device = is_block_device }

-- `fakeStatter`
unfoldable pub fake_statter : Statter Call Answer Failure
fake_statter = record {
  stat_fs = λ path. ret (
      ok (record {
        available = 1;
        capacity = 1;
        used = 1;
        inodes_free = 1;
        inodes = 1;
        inodes_used = 1;
      }));
  is_block_device = λ path. ret (ok Bool.false);
}
