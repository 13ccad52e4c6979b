-- ===== src/Windows/Proxy.antt =====
-- What the two versions of the csi-proxy mounter share.
use csi_runtime.Base.{ℕ, ◌%◌, ◌^◌, String, Result, ok, err}
use csi_runtime.Base.Prog.{Prog}
use csi_runtime.Rpc.{Error, other}

-- How a function ends that does not return a value: with a Go `error`, or in a panic.
pub data Fault : Type 0 where
  error : Error → Fault
  panics : String → Fault

abbrev pub errorf : String → Fault
errorf m = error (other m)

-- `uint32(n)` of an unsigned number.
abbrev pub uint32 : ℕ → ℕ
uint32 n = n % 2 ^ 32

-- The functions outside that only compute: `mount.NormalizeWindowsPath` of k8s.io/mount-utils, and
-- `filepath.Dir` of Windows.
pub record Paths : Type 0 where
  pub normalize : String → String
  pub dir : String → String

-- A function with an error among its results, that makes the calls `C`.
abbrev pub Io : (C : Type 0) → (C → Type 0) → Type 0 → Type 0
Io C R A = Prog C R (Result Fault A)

-- `if err != nil { return err }` on a pure result
abbrev pub checked : {A : Type 0} → Result Error A → Result Fault A
checked (ok a) = ok a
checked (err e) = err (error e)
