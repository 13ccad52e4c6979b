-- ===== src/Node/Calls.antt =====
-- What the node server calls outside the repository: the operating system, the mounter of
-- k8s.io/mount-utils and the driver's manager (node/interface.go), with the answer to each call.
use csi_runtime.Base.{ℕ, String, Bool, List, Option, Result}
use csi_runtime.Base.Prog.{Prog}
use csi_runtime.Rpc.{Error}
use csi_runtime.Csi.{Context, VolumeCapability}

-- `os.FileInfo`: `Mode()` as a number, and `IsDir()`.
pub record FileInfo : Type 0 where
  pub mode : ℕ
  pub is_dir : Bool

-- `mount.MountPoint`
pub record MountPoint : Type 0 where
  pub device : String
  pub path : String

-- `MountResponse`
pub record MountResponse : Type 0 where
  pub source : String
  pub fstype : String
  pub options : List String
  pub sensitive_options : List String
  pub format : Bool

pub data Call : Type 0 where
  -- package os, and `filepath.EvalSymlinks`
  stat : String → Call
  eval_symlinks : String → Call
  symlink : String → String → Call
  remove : String → Call
  remove_all : String → Call
  -- the mounter: source, target, file system type, options, sensitive options
  is_likely_not_mount_point : String → Call
  list_mounts : Call
  mount_sensitive : String → String → String → List String → List String → Call
  mount_sensitive_without_systemd : String → String → String → List String → List String → Call
  format_and_mount_sensitive : String → String → String → List String → List String → Call
  unmount : String → Call
  -- the manager; the contexts are the volume context, the publish context and the secrets
  validate_capability : VolumeCapability → Call
  attach_block : Context → Context → Context → Call
  detach_block : String → Call
  mount : String → String → Context → Context → Context → Call
  populate : String → Context → Context → Context → Call

-- The value that comes with a nil error.
abbrev pub Value : Call → Type 0
Value (stat _) = FileInfo
Value (eval_symlinks _) = String
Value (is_likely_not_mount_point _) = Bool
Value list_mounts = List MountPoint
Value (attach_block _ _ _) = String
Value (mount _ _ _ _ _) = Option MountResponse
Value _ = Unit {0}

abbrev pub Answer : Call → Type 0
Answer c = Result Error (Value c)

-- A step of a handler: a call outside, or an operation of the volume locks.
pub data Op : Type 0 where
  ext : Call → Op
  try_acquire : String → Op
  release : String → Op

abbrev pub OpAnswer : Op → Type 0
OpAnswer (ext c) = Answer c
OpAnswer (try_acquire id) = Bool
OpAnswer (release id) = Unit {0}

-- A function of the node server with results `(A, error)`.
abbrev pub Handler : Type 0 → Type 0
Handler A = Prog Op OpAnswer (Result Error A)
