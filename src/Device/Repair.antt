-- ===== src/Device/Repair.antt =====
-- mount-manager/device-utils.go: which devices `udevadm trigger` is run on.
use csi_runtime.Base.{
  ℕ, zero, suc, String, ◌≡◌, ◌≢◌, refl, Bool, true, false, List, [], ◌∷◌, ◌++◌, Result, ok, err,
  arith, inl, inr, str_eq, eq_iff,
}
use csi_runtime.Base.Prog.{ret, bind, ask, succeed, fail}
use csi_runtime.Base.Exec.{exec}
use csi_runtime.Base.Yields.{
  Leaves, Leaves-ret, Leaves-ask, Leaves-bind, Leaves-when, Leaves-same->>=, Leaves-map_err,
  Leaves-weaken,
}
use csi_runtime.Device.Serial.{Failure}
use csi_runtime.Device.Reads.{Reads, IsReading, AfterRead, serial_reads}
use csi_runtime.Device.Calls.{
  Command, scsi_id_path, nvme_id_path, scsi_id, google_nvme_id, udevadm_trigger, Printed, exists,
  stat, eval_symlinks, glob, combined_output, Call, Answer, Io, Event, Oracle,
}
use csi_runtime.Device.Verify.{
  trigger_first, trigger_round, udevadm_change_to_drive, find_available_dev_fs_paths,
  udevadm_trigger_for_disk_if_exists, repair, check_serial, check_existing, check_device,
  path_exists, ensure_udev_tool_exists, ensure_udev_tools_exist, verify_device_path, rounds, Poll,
  PollsRounds, triggered, get_dev_fs_serial,
}

-- Before every `udevadm trigger` on a device, the call just before read the serial number of that
-- device, and it was the device name, which is not empty.
abbrev pub TriggersNamed : String → List Event → Type 0
TriggersNamed name [] = Unit {0}
TriggersNamed name ((combined_output (udevadm_trigger path), _) ∷ (combined_output c, p) ∷ h) =
    Reads path c p name × (name ≢ "") × TriggersNamed name h
TriggersNamed name ((combined_output (udevadm_trigger path), _) ∷ h) = ⊥
TriggersNamed name (_ ∷ h) = TriggersNamed name h

module _ (name : String) where
  reading_keeps :
      (c : Command) (p : Printed) (h : List Event)
      → IsReading c
      → TriggersNamed name h
      → TriggersNamed name ((combined_output c, p) ∷ h)
  reading_keeps (scsi_id q) p h r t = t
  reading_keeps (google_nvme_id q) p h r t = t
  reading_keeps (udevadm_trigger q) p h r t = absurd r

  after_read :
      (path : String) (r : Result Failure String) (h : List Event)
      → AfterRead (TriggersNamed name) path r h
      → TriggersNamed name h
  after_read path r h (inl (_, t)) = t
  after_read path r h (inr l) =
      rw (l.last) (reading_keeps l.command l.answer l.before l.reading l.was)

  can_trigger :
      (path : String) (p : Printed) (h : List Event)
      → name ≢ ""
      → AfterRead (TriggersNamed name) path (ok name) h
      → TriggersNamed name ((combined_output (udevadm_trigger path), p) ∷ h)
  can_trigger path p h ne (inl (e, t)) = absurd (ne (cc e))
  can_trigger path p h ne (inr l) = rw (l.last) (l.reads name refl, ne, l.was)

  keeps_ask :
      (c : Call)
      → ((r : Answer c) (h : List Event) → TriggersNamed name h → TriggersNamed name ((c, r) ∷ h))
      → Leaves (TriggersNamed name) (ask c) (λ _. TriggersNamed name)
  keeps_ask c k = Leaves-ask c {Q = λ _. TriggersNamed name} λ h r t. k r h t

  keeps_ret :
      {A : Type 0} (a : A)
      → Leaves {C = Call} {R = Answer} (TriggersNamed name) (ret a) (λ _. TriggersNamed name)
  keeps_ret a = Leaves-ret {Q = λ _. TriggersNamed name} a λ h t. t

  -- A call, and a value made of its answer.
  keeps_call :
      {A : Type 0} (c : Call) (f : Answer c → A)
      → ((r : Answer c) (h : List Event) → TriggersNamed name h → TriggersNamed name ((c, r) ∷ h))
      → Leaves (TriggersNamed name) (bind (ask c) (λ r. ret (f r))) (λ _. TriggersNamed name)
  keeps_call c f k =
      Leaves-bind {Q = λ _. TriggersNamed name} _ _ (keeps_ask c k) λ r. keeps_ret (f r)

  trigger_keeps :
      (path : String)
      → name ≢ ""
      → Leaves
          (AfterRead (TriggersNamed name) path (ok name))
          (udevadm_change_to_drive path)
          (λ _. TriggersNamed name)
  unfolding udevadm_change_to_drive
  trigger_keeps path ne =
      Leaves-bind {Q = λ _. TriggersNamed name} _ _
        (Leaves-ask (combined_output (udevadm_trigger path)) {Q = λ _. TriggersNamed name}
          λ h p a. can_trigger path p h ne a)
        λ p. keeps_ret (triggered path p)

  round_keeps :
      (path : String) (rest : Io (Unit {0})) (r : Result Failure String)
      → Leaves (TriggersNamed name) rest (λ _. TriggersNamed name)
      → Leaves
          (AfterRead (TriggersNamed name) path r)
          (trigger_round name path rest r)
          (λ _. TriggersNamed name)
  round_keeps path rest (err e) k = Leaves-weaken rest (after_read path (err e)) k
  round_keeps path rest (ok serial) k =
      Leaves-when _ _ _ (λ _. Leaves-weaken rest (after_read path (ok serial)) k)
        λ nonempty.
          Leaves-when _ _ _
            (λ same.
              let is : serial ≡ name = ground (arith, eq_iff serial name, same) in
              let ne : serial ≢ "" = ground (arith, eq_iff serial "", nonempty) in
              Leaves-map_err _ _
                (Leaves-weaken _ (λ h a. rw is at a) (trigger_keeps path (rw is at ne))))
            (λ _. Leaves-weaken rest (after_read path (ok serial)) k)

  loop_keeps :
      (paths : List String)
      → Leaves (TriggersNamed name) (trigger_first name paths) (λ _. TriggersNamed name)
  unfolding trigger_first fail
  loop_keeps [] = keeps_ret _
  loop_keeps (path ∷ paths) =
      Leaves-bind _ _ (serial_reads path)
        λ r. round_keeps path (trigger_first name paths) r (loop_keeps paths)

  serial_keeps :
      (path : String)
      → Leaves (TriggersNamed name) (get_dev_fs_serial path) (λ _. TriggersNamed name)
  serial_keeps path = record {
    leaves = λ o h t. after_read path _ _ ((serial_reads path).leaves o h t);
  }

  repair_keeps :
      (message : String)
      → Leaves (TriggersNamed name) (repair message name) (λ _. TriggersNamed name)
  unfolding repair udevadm_trigger_for_disk_if_exists find_available_dev_fs_paths succeed
  repair_keeps message =
      Leaves-same->>= _ _
        (Leaves-map_err _ _ (
          Leaves-same->>= _ _
            (Leaves-same->>= _ _ (keeps_call (glob "/dev/sd*") _ λ r h t. t) λ sd.
              Leaves-same->>= _ _ (keeps_call (glob "/dev/nvme*") _ λ r h t. t)
                λ nvme. keeps_ret (ok (sd ++ nvme)))
            loop_keeps))
        (λ _. keeps_ret (ok false))

  check_keeps :
      (path : String)
      → Leaves (TriggersNamed name) (check_device path name) (λ _. TriggersNamed name)
  unfolding check_device path_exists check_existing check_serial succeed
  check_keeps path =
      Leaves-same->>= _ _ (Leaves-map_err _ _ (keeps_call (stat path) _ λ r h t. t)) λ found.
        Leaves-when found _ _
          (λ _.
            Leaves-when (str_eq path "") _ _ (λ _. repair_keeps _)
              λ _. Leaves-same->>= _ _ (keeps_call (eval_symlinks path) _ λ r h t. t) λ dev.
                Leaves-same->>= _ _ (Leaves-map_err _ _ (serial_keeps dev))
                  λ serial. Leaves-when _ _ _ (λ _. keeps_ret (ok true)) (λ _. repair_keeps _))
          (λ _. keeps_ret (ok false))

  rounds_keep :
      (n : ℕ) (condition : Io Bool)
      → Leaves (TriggersNamed name) condition (λ _. TriggersNamed name)
      → Leaves (TriggersNamed name) (rounds n condition) (λ _. TriggersNamed name)
  unfolding rounds fail succeed
  rounds_keep zero condition k = keeps_ret _
  rounds_keep (suc n) condition k =
      Leaves-same->>= _ _ k
        λ done. Leaves-when done _ _ (λ _. keeps_ret (ok tt)) λ _. rounds_keep n condition k

  poll_keeps :
      (poll : Poll) (condition : Io Bool)
      → PollsRounds poll
      → Leaves (TriggersNamed name) condition (λ _. TriggersNamed name)
      → Leaves (TriggersNamed name) (poll condition) (λ _. TriggersNamed name)
  poll_keeps poll condition polls k = record {
    leaves = λ o h t.
        let (n, e) = polls o condition h in rw e ((rounds_keep n condition k).leaves o h t);
  }

  tools_keep : Leaves (TriggersNamed name) ensure_udev_tools_exist (λ _. TriggersNamed name)
  unfolding ensure_udev_tools_exist ensure_udev_tool_exists
  tools_keep =
      Leaves-same->>= _ _ (keeps_call (exists scsi_id_path) _ λ r h t. t)
        λ _. keeps_call (exists nvme_id_path) _ λ r h t. t

-- However many times `wait.Poll` runs the condition and whatever the calls answer,
-- `VerifyDevicePath` keeps it so that `udevadm trigger` was run only on a device whose serial
-- number was read just before and is the device name, which is not empty.
pub verify_device_path-TriggersNamed :
    (poll : Poll) (o : Oracle) (path name : String) (h : List Event)
    → PollsRounds poll
    → TriggersNamed name h
    → TriggersNamed name (exec o (verify_device_path poll path name) h).1
unfolding verify_device_path succeed
verify_device_path-TriggersNamed poll o path name h polls t =
    (Leaves-same->>= _ _ (tools_keep name) λ _.
        Leaves-same->>= _ _
          (Leaves-map_err _ _
            (poll_keeps name poll (check_device path name) polls (check_keeps name path)))
          λ _. keeps_ret name (ok true)).leaves
      o h t
