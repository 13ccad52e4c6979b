-- ===== src/Device/Reads.antt =====
-- mount-manager/device-utils.go: what `getDevFsSerial` has read.
use csi_runtime.Base.{String, ◌≡◌, refl, List, ◌∷◌, none, Result, ok, arith, ◌⊎◌, inl, inr}
use csi_runtime.Base.Prog.{succeed}
use csi_runtime.Base.Yields.{Leaves, Leaves-ret, Leaves-ask, Leaves-bind, Leaves-when}
use csi_runtime.Device.Serial.{Failure, parse_scsi_serial, parse_nvme_serial}
use csi_runtime.Device.Calls.{
  Command, scsi_id, google_nvme_id, udevadm_trigger, Printed, combined_output, Event,
}
use csi_runtime.Device.Verify.{get_dev_fs_serial, get_scsi_serial, get_nvme_serial, parsed, printed}

-- The command reads the serial number of the device, and succeeded with this one.
abbrev pub Reads : String → Command → Printed → String → Type 0
Reads path (scsi_id q) p serial =
    (q ≡ path) × (p.error ≡ none) × (parse_scsi_serial p.out ≡ ok serial)
Reads path (google_nvme_id q) p serial =
    (q ≡ path) × (p.error ≡ none) × (parse_nvme_serial p.out ≡ ok serial)
Reads path (udevadm_trigger q) p serial = ⊥

-- The command only reads.
abbrev pub IsReading : Command → Type 0
IsReading (udevadm_trigger q) = ⊥
IsReading _ = Unit {0}

-- The last call was a command that reads, and what it read is the result.
pub record LastRead (P : List Event → Type 0) (path : String) (r : Result Failure String)
    (h : List Event) : Type 0 where
  pub command : Command
  pub answer : Printed
  pub before : List Event
  pub last : h ≡ (combined_output command, answer) ∷ before
  pub was : P before
  pub reading : IsReading command
  pub reads : (serial : String) → r ≡ ok serial → Reads path command answer serial

abbrev pub AfterRead : (List Event → Type 0) → String → Result Failure String → List Event → Type 0
AfterRead P path r h = ((r ≡ ok "") × P h) ⊎ LastRead P path r h

parsed_ok :
    (parse : String → Result Failure String) (message path : String) (p : Printed) (serial : String)
    → parsed parse (printed message path p) ≡ ok serial
    → (p.error ≡ none) × (parse p.out ≡ ok serial)
parsed_ok parse message path p serial e = ground arith

module _ {P : List Event → Type 0} where
  scsi_reads : (path : String) → Leaves P (get_scsi_serial path) (AfterRead P path)
  unfolding get_scsi_serial
  scsi_reads path =
      let Asked : Printed → List Event → Type 0 =
        λ p h. (h' : List Event) × (h ≡ (combined_output (scsi_id path), p) ∷ h') × P h' in
      Leaves-bind {Q = Asked} _ _
        (Leaves-ask (combined_output (scsi_id path)) {Q = Asked} λ h p was. (h, refl, was))
        λ p. Leaves-ret {P = Asked p} {Q = AfterRead P path} _ λ h (h', e, was). inr (record {
          command = scsi_id path;
          answer = p;
          before = h';
          last = e;
          was = was;
          reading = tt;
          reads = λ serial s.
              let (none_left, is) = parsed_ok parse_scsi_serial _ path p serial s in
              (refl, none_left, is);
        })

  nvme_reads : (path : String) → Leaves P (get_nvme_serial path) (AfterRead P path)
  unfolding get_nvme_serial
  nvme_reads path =
      let Asked : Printed → List Event → Type 0 =
        λ p h. (h' : List Event) × (h ≡ (combined_output (google_nvme_id path), p) ∷ h') × P h' in
      Leaves-bind {Q = Asked} _ _
        (Leaves-ask (combined_output (google_nvme_id path)) {Q = Asked} λ h p was. (h, refl, was))
        λ p. Leaves-ret {P = Asked p} {Q = AfterRead P path} _ λ h (h', e, was). inr (record {
          command = google_nvme_id path;
          answer = p;
          before = h';
          last = e;
          was = was;
          reading = tt;
          reads = λ serial s.
              let (none_left, is) = parsed_ok parse_nvme_serial _ path p serial s in
              (refl, none_left, is);
        })

  pub serial_reads : (path : String) → Leaves P (get_dev_fs_serial path) (AfterRead P path)
  unfolding get_dev_fs_serial succeed
  serial_reads path =
      Leaves-when _ _ _ (λ _. scsi_reads path)
        λ _. Leaves-when _ _ _ (λ _. nvme_reads path) λ _. Leaves-ret (ok "") λ h p. inl (refl, p)
