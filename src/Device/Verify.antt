-- ===== src/Device/Verify.antt =====
-- mount-manager/device-utils.go: `VerifyDevicePath` and what it calls. The package k8s.io/apimachinery
-- is outside: `wait.Poll` is a parameter.
use csi_runtime.Base.{
  ℕ, zero, suc, String, ◌≡◌, Bool, true, false, not, ◌&&◌, List, [], ◌∷◌, ◌++◌, none, some, Result,
  ok, err, str_eq, if◌then◌else◌,
}
use csi_runtime.Base.Prog.{
  ret, bind, ask, succeed, fail, map_err, on_error, when◌then◌else◌, ◌>>=◌, ◌>>◌,
}
use csi_runtime.Base.Exec.{exec}
use csi_runtime.Rpc.{Error}
use csi_runtime.Text.Match.{has_prefix}
use csi_runtime.Device.Serial.{
  Failure, outside, errorf, wraps, parse_scsi_serial, parse_nvme_serial,
}
use csi_runtime.Device.Calls.{
  scsi_id, google_nvme_id, udevadm_trigger, scsi_id_path, nvme_id_path, Stat, present, absent,
  failed, Printed, exists, stat, eval_symlinks, glob, combined_output, Io, Event, Oracle,
}

-- A call with results `(A, error)`, whose error goes into a format.
abbrev pub or_wrap : {A : Type 0} → String → List String → Result Error A → Result Failure A
or_wrap message texts r = on_error (λ e. wraps message texts (outside e)) r

-- What a command printed, or its error with what it printed.
abbrev pub printed : String → String → Printed → Result Failure String
printed message path p = elim p.error [
  | none ↦ ok p.out
  | some e ↦ err (wraps message (path ∷ p.out ∷ []) (outside e))
]

abbrev pub parsed : (String → Result Failure String) → Result Failure String → Result Failure String
parsed parse (ok out) = parse out
parsed parse (err e) = err e

-- `getScsiSerial`
unfoldable pub get_scsi_serial : String → Io String
get_scsi_serial path = bind (ask (combined_output (scsi_id path))) λ p.
    ret
      (parsed parse_scsi_serial (printed "scsi_id failed for device %q with output %s: %v" path p))

-- `getNvmeSerial`; the format prints the output as a list of its bytes.
unfoldable pub get_nvme_serial : String → Io String
get_nvme_serial path = bind (ask (combined_output (google_nvme_id path))) λ p. ret (
    parsed parse_nvme_serial
      (printed "google_nvme_id failed for device %q with output %v: %v" path p))

-- `getDevFsSerial`
unfoldable pub get_dev_fs_serial : String → Io String
get_dev_fs_serial path =
    when has_prefix path "/dev/sd"
    then get_scsi_serial path
    else when has_prefix path "/dev/nvme"
    then get_nvme_serial path
    else succeed ""

-- The test of `ensureUdevToolExists`; its message names `google_nvme_id` for either tool.
abbrev pub tool_found : String → Result Error Bool → Result Failure (Unit {0})
tool_found tool (err e) = err (wraps "failed to check existence of %q: %v" (tool ∷ []) (outside e))
tool_found tool (ok false) =
    err (errorf "could not find tool at %q, unable to verify device paths" (nvme_id_path ∷ []))
tool_found tool (ok true) = ok tt

-- `ensureUdevToolExists`
unfoldable pub ensure_udev_tool_exists : String → Io (Unit {0})
ensure_udev_tool_exists tool = bind (ask (exists tool)) λ r. ret (tool_found tool r)

-- `ensureUdevToolsExist`
unfoldable pub ensure_udev_tools_exist : Io (Unit {0})
ensure_udev_tools_exist = do
  ensure_udev_tool_exists scsi_id_path
  ensure_udev_tool_exists nvme_id_path

-- `findAvailableDevFsPaths`
unfoldable pub find_available_dev_fs_paths : Io (List String)
find_available_dev_fs_paths = do
  sd ←
      bind (ask (glob "/dev/sd*"))
        λ r. ret (or_wrap "failed to filepath.Glob(\"%s\"): %v" ("/dev/sd*" ∷ []) r)
  nvme ←
      bind (ask (glob "/dev/nvme*"))
        λ r. ret (or_wrap "failed to filepath.Glob(\"%s\"): %v" ("/dev/nvme*" ∷ []) r)
  succeed (sd ++ nvme)

abbrev pub triggered : String → Printed → Result Failure (Unit {0})
triggered path p = elim p.error [
  | none ↦ ok tt
  | some e ↦ err (
      wraps "udevadmChangeToDrive: udevadm trigger failed for drive %q with output %s: %v."
        (path ∷ p.out ∷ []) (outside e))
]

-- `udevadmChangeToDrive`
unfoldable pub udevadm_change_to_drive : String → Io (Unit {0})
udevadm_change_to_drive path =
    bind (ask (combined_output (udevadm_trigger path))) λ p. ret (triggered path p)

-- One round of the loop of `udevadmTriggerForDiskIfExists`; `rest` is the rounds after it.
abbrev pub trigger_round : String → String → Io (Unit {0}) → Result Failure String → Io (Unit {0})
trigger_round name path rest (err e) = rest
trigger_round name path rest (ok serial) =
    when str_eq serial ""
    then rest
    else when str_eq serial name
    then map_err (λ e. wraps "failed to fix disk which has serial numberID %s: %v" (serial ∷ []) e)
        (udevadm_change_to_drive path)
    else rest

-- The loop of `udevadmTriggerForDiskIfExists`.
unfoldable pub trigger_first : String → List String → Io (Unit {0})
trigger_first name [] =
    fail
      (errorf "udevadm --trigger requested to fix disk %s but no such disk was found" (name ∷ []))
trigger_first name (path ∷ paths) =
    bind (get_dev_fs_serial path) (trigger_round name path (trigger_first name paths))

-- `udevadmTriggerForDiskIfExists`
unfoldable pub udevadm_trigger_for_disk_if_exists : String → Io (Unit {0})
udevadm_trigger_for_disk_if_exists name = do
  paths ← find_available_dev_fs_paths
  trigger_first name paths

-- `pathExists`, with the error that its caller makes of the error.
abbrev pub path_found : Stat → Result Failure Bool
path_found present = ok true
path_found absent = ok false
path_found (failed e) = err (outside e)

unfoldable pub path_exists : String → Io Bool
path_exists path = bind (ask (stat path)) λ r. ret (path_found r)

-- An attempt to repair, after which the condition is not met yet.
unfoldable pub repair : String → String → Io Bool
repair message name = do
  map_err (λ e. wraps message (name ∷ []) e) (udevadm_trigger_for_disk_if_exists name)
  succeed false

-- The part of the condition of `VerifyDevicePath` from the device's path on.
unfoldable pub check_serial : String → String → String → Io Bool
check_serial name path dev = do
  serial ←
      map_err
        (λ e. wraps "couldn't get serial number for disk %s at path %s: %w" (name ∷ dev ∷ []) e)
        (get_dev_fs_serial dev)
  when not (str_eq serial "") && str_eq serial name
      then succeed true
      else repair "failed to trigger udevadm fix of misconfigured disk for %q: %w" name

-- The part for a path that exists.
unfoldable pub check_existing : String → String → Io Bool
check_existing path name =
    when str_eq path ""
    then repair "failed to trigger udevadm fix of non existent disk for %q: %w" name
    else bind (ask (eval_symlinks path))
        (λ r. ret (or_wrap "filepath.EvalSymlinks(%q) failed with %v" (path ∷ []) r))
      >>= check_serial name path

-- The condition that `VerifyDevicePath` polls.
unfoldable pub check_device : String → String → Io Bool
check_device path name = do
  found ←
      map_err (λ e. wraps "failed to check for existing device path: %w" [] e) (path_exists path)
  when found then check_existing path name else succeed false

-- `wait.Poll` for 3 seconds, every half second.
abbrev pub Poll : Type 0
Poll = Io Bool → Io (Unit {0})

-- `VerifyDevicePath`
unfoldable pub verify_device_path : Poll → String → String → Io Bool
verify_device_path poll path name = do
  ensure_udev_tools_exist
  map_err
      (λ e.
        wraps "failed to find and re-link disk %s with udevadm after retrying for %v: %w"
          (name ∷ "3s" ∷ []) e)
      (poll (check_device path name))
  succeed true

-- At most so many rounds of a condition, until the first that returns true or an error; after them the
-- error `ErrWaitTimeout`.
unfoldable pub rounds : ℕ → Poll
rounds zero condition = fail (errorf "timed out waiting for the condition" [])
rounds (suc n) condition = do done ← condition; when done then succeed tt else rounds n condition

-- As documented, `wait.Poll` runs the condition some number of times, from whatever history.
abbrev pub PollsRounds : Poll → Type 0
PollsRounds poll =
    (o : Oracle) (condition : Io Bool) (h : List Event)
    → (n : ℕ) × (exec o (poll condition) h ≡ exec o (rounds n condition) h)
