-- ===== src/Device/Succeeds.antt =====
-- mount-manager/device-utils.go: when `VerifyDevicePath` succeeds.
use csi_runtime.Base.{
  ℕ, suc, String, ◌≡◌, ◌≢◌, refl, Bool, true, not, ◌&&◌, List, none, ok, arith, str_eq, eq_iff,
}
use csi_runtime.Base.Prog.{succeed}
use csi_runtime.Base.Exec.{exec}
use csi_runtime.Base.Gives.{
  Gives, Gives-ret, Gives-ask, Gives-bind, Gives->>=, Gives-map_err, Gives-when_true,
  Gives-when_false,
}
use csi_runtime.Text.Match.{has_prefix}
use csi_runtime.Device.Serial.{parse_scsi_serial}
use csi_runtime.Device.Calls.{
  scsi_id, scsi_id_path, nvme_id_path, present, exists, stat, eval_symlinks, combined_output, Event,
  Oracle, Io,
}
use csi_runtime.Device.Verify.{
  check_device, check_existing, check_serial, path_exists, get_dev_fs_serial, get_scsi_serial,
  ensure_udev_tool_exists, ensure_udev_tools_exist, verify_device_path, rounds, Poll,
}

-- `wait.Poll` runs its condition once or more, from whatever history.
abbrev pub PollsOnce : Poll → Type 0
PollsOnce poll =
    (o : Oracle) (condition : Io Bool) (h : List Event)
    → (n : ℕ) × (exec o (poll condition) h ≡ exec o (rounds (suc n) condition) h)

-- The tools are there, and the path links to a device whose serial number is the device name.
pub record IsRight (o : Oracle) (path device name out : String) : Type 0 where
  pub tools : (h : List Event) (tool : String) → o h (exists tool) ≡ ok true
  pub found : (h : List Event) → o h (stat path) ≡ present
  pub links : (h : List Event) → o h (eval_symlinks path) ≡ ok device
  pub prints :
      (h : List Event) → o h (combined_output (scsi_id device)) ≡ record { out = out; error = none }
  pub is_sd : has_prefix device "/dev/sd" ≡ true
  pub parses : parse_scsi_serial out ≡ ok name
  pub path_given : path ≢ ""
  pub named : name ≢ ""

module _ (o : Oracle) (path device name out : String) (r : IsRight o path device name out) where
  serial_given : Gives o (get_dev_fs_serial device) (ok name)
  unfolding get_dev_fs_serial get_scsi_serial
  serial_given = Gives-when_true _ _ _ _ r.is_sd (
      Gives-bind _ _ (record { out = out; error = none }) _
        (Gives-ask (combined_output (scsi_id device)) _ r.prints) (Gives-ret _ _ r.parses))

  check_given : Gives o (check_device path name) (ok true)
  unfolding check_device path_exists check_existing check_serial succeed
  check_given =
      Gives->>= _ _ true _
        (Gives-map_err _ _ true
          (Gives-bind _ _ present _ (Gives-ask (stat path) _ r.found) (Gives-ret _ _ refl)))
        (Gives-when_true true _ _ _ refl (
          Gives-when_false (str_eq path "") _ _ _ (ground (arith, eq_iff path "", r.path_given)) (
            Gives->>= _ _ device _
              (Gives-bind _ _ (ok device) _ (Gives-ask (eval_symlinks path) _ r.links)
                (Gives-ret _ _ refl))
              (Gives->>= _ _ name _ (Gives-map_err _ _ name serial_given) (
                Gives-when_true (not (str_eq name "") && str_eq name name) _ _ _
                  (ground (arith, eq_iff name "", eq_iff name name, r.named))
                  (Gives-ret _ _ refl))))))

  rounds_given : (n : ℕ) → Gives o (rounds (suc n) (check_device path name)) (ok tt)
  unfolding rounds succeed
  rounds_given n =
      Gives->>= _ _ true _ check_given (Gives-when_true true _ _ _ refl (Gives-ret _ _ refl))

  tool_given : (tool : String) → Gives o (ensure_udev_tool_exists tool) (ok tt)
  unfolding ensure_udev_tool_exists
  tool_given tool =
      Gives-bind _ _ (ok true) _ (Gives-ask (exists tool) _ (λ h. r.tools h tool))
        (Gives-ret _ _ refl)

  poll_given : (poll : Poll) → PollsOnce poll → Gives o (poll (check_device path name)) (ok tt)
  poll_given poll polls = record {
    gives = λ h. let (n, e) = polls o (check_device path name) h in rw e ((rounds_given n).gives h);
  }

-- `VerifyDevicePath` returns true when `wait.Poll` runs its condition at least once, both tools are
-- there, and the path, which is not empty, links to a device under `/dev/sd` for which `scsi_id` prints
-- the device name, which is not empty.
pub verify_succeeds :
    (poll : Poll) (o : Oracle) (path device name out : String) (h : List Event)
    → PollsOnce poll
    → IsRight o path device name out
    → (exec o (verify_device_path poll path name) h).0 ≡ ok true
unfolding verify_device_path ensure_udev_tools_exist succeed
verify_succeeds poll o path device name out h polls r =
    (Gives->>= _ _ tt _
        (Gives->>= _ _ tt _ (tool_given o path device name out r scsi_id_path)
          (tool_given o path device name out r nvme_id_path))
        (Gives->>= _ _ tt _ (Gives-map_err _ _ tt (poll_given o path device name out r poll polls))
          (Gives-ret _ _ refl))).gives
      h
