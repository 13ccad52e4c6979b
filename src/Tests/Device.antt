-- ===== src/Tests/Device.antt =====
-- The device paths and the statistics, on a machine with one disk.
use csi_runtime.Base.{String, ◌≡◌, ◌↔◌, ◌⊎◌, refl, true, [], ◌∷◌, none, ok, err, arith}
use csi_runtime.Base.Prog.{◌>>=◌}
use csi_runtime.Base.Exec.{OracleOf, exec}
use csi_runtime.Text.Match.{literal, skip_blanks, span_word, has_prefix}
use csi_runtime.Device.Serial.{
  parse_scsi_serial, scsi_match, parse_nvme_serial, errorf, nvme_match, nvme_here,
}
use csi_runtime.Device.Exact.{IsScsiOutput, scsi_exact}
use csi_runtime.Device.Fields.{HasField, nvme_exact}
use csi_runtime.Device.Calls.{exists, stat, eval_symlinks, glob, combined_output, present, Oracle}
use csi_runtime.Device.Verify.{
  verify_device_path, rounds, check_device, check_existing, check_serial, path_exists,
  get_dev_fs_serial, get_scsi_serial, ensure_udev_tools_exist, ensure_udev_tool_exists,
}
use csi_runtime.Device.Confirmed.{Confirmed, verify_ok}
use csi_runtime.Device.Succeeds.{IsRight, verify_succeeds}
use csi_runtime.Device.Repair.{TriggersNamed, verify_device_path-TriggersNamed}
use csi_runtime.Statter.{Statfs, Usage, statfs, stat_fs}
use csi_runtime.Statter
use csi_runtime.Statter.Sums.{FitsTogether, stat_fs_fits}

abbrev machine : Oracle
machine h (exists p) = ok true
machine h (stat p) = present
machine h (eval_symlinks p) = ok "/dev/sda"
machine h (glob p) = ok ("/dev/sda" ∷ [])
machine h (combined_output c) = record { out = "0Google  PersistentDisk  pd-1  "; error = none }

verify_ok_example :
    (true ≡ true)
    × Confirmed "/dev/disk/by-id/google-pd-1" "pd-1"
        (exec machine (verify_device_path (rounds 6) "/dev/disk/by-id/google-pd-1" "pd-1") []).1
unfolding exec verify_device_path rounds check_device check_existing check_serial path_exists
    get_dev_fs_serial get_scsi_serial ensure_udev_tools_exist ensure_udev_tool_exists
    parse_scsi_serial scsi_match has_prefix literal skip_blanks span_word ◌>>=◌
verify_ok_example =
    verify_ok (rounds 6) machine "/dev/disk/by-id/google-pd-1" "pd-1" [] true (λ o c h. (6, refl))
      refl

machine-IsRight :
    IsRight machine "/dev/disk/by-id/google-pd-1" "/dev/sda" "pd-1"
      "0Google  PersistentDisk  pd-1  "
unfolding has_prefix literal parse_scsi_serial scsi_match skip_blanks span_word
machine-IsRight = record {
  tools = λ h tool. refl;
  found = λ h. refl;
  links = λ h. refl;
  prints = λ h. refl;
  is_sd = refl;
  parses = refl;
  path_given = λ e. cc e;
  named = λ e. cc e;
}

verify_succeeds_example :
    (exec machine (verify_device_path (rounds 6) "/dev/disk/by-id/google-pd-1" "pd-1") []).0
    ≡ ok true
verify_succeeds_example =
    verify_succeeds (rounds 6) machine "/dev/disk/by-id/google-pd-1" "/dev/sda" "pd-1"
      "0Google  PersistentDisk  pd-1  " [] (λ o c h. (5, refl)) machine-IsRight

verify_device_path-TriggersNamed_example :
    TriggersNamed "pd-2"
      (exec machine (verify_device_path (rounds 6) "/dev/disk/by-id/google-pd-1" "pd-2") []).1
verify_device_path-TriggersNamed_example =
    verify_device_path-TriggersNamed (rounds 6) machine "/dev/disk/by-id/google-pd-1" "pd-2" []
      (λ o c h. (6, refl)) tt

scsi_exact_example :
    (parse_scsi_serial "0Google  PersistentDisk pd-1 " ≡ ok "pd-1")
    ↔ IsScsiOutput "0Google  PersistentDisk pd-1 " "pd-1"
scsi_exact_example = scsi_exact "0Google  PersistentDisk pd-1 " "pd-1"

-- An output of mount-manager/device-utils_test.go.
abbrev nvme_output : String
nvme_output = "ID_SERIAL_SHORT=persistent-disk-0\nID_SERIAL=Google_PersistentDisk_persistent-disk-0"

nvme_found : parse_nvme_serial nvme_output ≡ ok "persistent-disk-0"
unfolding parse_nvme_serial nvme_match nvme_here literal span_word
nvme_found = refl

nvme_refused :
    parse_nvme_serial "NVMe Status:INVALID_NS"
    ≡ err (errorf "google_nvme_id output cannot be parsed: %q" ("NVMe Status:INVALID_NS" ∷ []))
unfolding parse_nvme_serial nvme_match nvme_here literal span_word
nvme_refused = refl

nvme_exact_example :
    ((name : String) × (parse_nvme_serial nvme_output ≡ ok name) × HasField nvme_output name)
    ⊎ ((parse_nvme_serial nvme_output
          ≡ err (errorf "google_nvme_id output cannot be parsed: %q" (nvme_output ∷ [])))
        × ((name : String) → ¬ HasField nvme_output name))
nvme_exact_example = nvme_exact nvme_output

abbrev file_system : Statfs
file_system = record { bavail = 30; blocks = 100; bfree = 40; bsize = 4096; files = 20; ffree = 5 }

abbrev kernel : OracleOf Statter.Call Statter.Answer
kernel h (Statter.stat p) = ok 24576
kernel h (statfs p) = ok file_system

stat_fs_fits_example :
    (u : Usage) × ((exec kernel (stat_fs "/mnt") []).0 ≡ ok u) × FitsTogether file_system u
stat_fs_fits_example =
    stat_fs_fits kernel "/mnt" file_system [] refl
      (omega arith, omega arith, omega arith, omega arith, omega arith, omega arith)
