-- ===== src/Node/Utils.antt =====
-- node/utils_linux.go: helpers on paths and devices, which nothing calls yet.
use csi_runtime.Base.{
  ℕ, ℤ, negsuc, String, Bool, false, List, [], ◌∷◌, Option, none, some, Result, ok, err,
}
use csi_runtime.Base.Prog.{Prog, ask, bind, ret}
use csi_runtime.Rpc.{Error}
use csi_runtime.Text.Decimal.{parse_int}
use csi_runtime.Text.Fields.{trim_space}
use csi_runtime.Device.Serial.{Failure, outside, errorf, wraps}
use csi_runtime.Device.Calls.{Printed}

pub data Call : Type 0 where
  -- `FormatAndMount` of the mounter: source, target, file system type and options
  format_and_mount_at : String → String → String → List String → Call
  mkdir_all : String → ℕ → Call
  -- `mount.CleanupMountPoint`, with whether the mount is checked thoroughly
  cleanup_mount_point : String → Bool → Call
  -- `m.Exec.Command(…).CombinedOutput()`
  combined_output : List String → Call

abbrev pub Answer : Call → Type 0
Answer (combined_output _) = Printed
Answer _ = Result Error (Unit {0})

-- `formatAndMount`
unfoldable pub format_and_mount :
    String → String → String → List String → Prog Call Answer (Result Error (Unit {0}))
format_and_mount source target fstype options =
    ask (format_and_mount_at source target fstype options)

-- `preparePublishPath`, with the mode 0750
unfoldable pub prepare_publish_path : String → Prog Call Answer (Result Error (Unit {0}))
prepare_publish_path path = ask (mkdir_all path 488)

-- `cleanupPublishPath`
unfoldable pub cleanup_publish_path : String → Prog Call Answer (Result Error (Unit {0}))
cleanup_publish_path path = ask (cleanup_mount_point path false)

-- `cleanupStagePath`
unfoldable pub cleanup_stage_path : String → Prog Call Answer (Result Error (Unit {0}))
cleanup_stage_path path = cleanup_publish_path path

abbrev parsed_size : String → Result Error ℤ → ℤ × Option Failure
parsed_size out (ok n) = (n, none)
parsed_size out (err e) = (negsuc 0, some (errorf "failed to parse %s into an int size" (out ∷ [])))

abbrev pub size_of : String → Printed → ℤ × Option Failure
size_of path p = elim p.error [
  | none ↦ parsed_size (trim_space p.out) (parse_int (trim_space p.out))
  | some e ↦ (
    negsuc 0,
    some (
        wraps "error when getting size of block volume at path %s: output: %s, err: %v"
          (path ∷ p.out ∷ []) (outside e)),
  )
]

-- `getBlockSizeBytes`, which returns -1 beside an error.
unfoldable pub get_block_size_bytes : String → Prog Call Answer (ℤ × Option Failure)
get_block_size_bytes path =
    bind (ask (combined_output ("blockdev" ∷ "--getsize64" ∷ path ∷ []))) λ p. ret (size_of path p)
