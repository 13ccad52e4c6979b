-- ===== src/Device/Serial.antt =====
-- mount-manager/device-utils.go: the serial numbers in what `scsi_id` and `google_nvme_id` print.
use Prim.Native.String.{String, ◌++◌ as text_append}
use csi_runtime.Base.{
  ◌≡◌, ◌≢◌, refl, true, List, [], ◌∷◌, Option, none, some, Result, ok, err, arith, eq_iff,
}
use csi_runtime.Rpc.{Error}
use csi_runtime.Text.Match.{
  then_match, literal, blanks, span_word, word_of, to_end, all_blank, no_blank, skip_blanks,
  literal-append, blanks-append, span_word-append, skip_blanks-all_blank, skip_blanks-word,
}

-- The errors of the file: one from outside, and `fmt.Errorf` with its format and its texts, and
-- with the error that it ends with, if there is one.
pub data Failure : Type 0 where
  outside : Error → Failure
  errorf : String → List String → Failure
  wraps : String → List String → Failure → Failure

-- `scsiRegex.FindStringSubmatch(output)`, of the pattern `^0Google\s+PersistentDisk\s+([\S]+)\s*$`.
unfoldable pub scsi_match : String → Option String
scsi_match output = then_match (literal "0Google" output) λ a. then_match (blanks a) λ b.
    then_match (literal "PersistentDisk" b)
      λ c. then_match (blanks c) λ d. then_match (word_of (span_word d)) to_end

abbrev pub serial_or : String → String → Option String → Result Failure String
serial_or message output none = err (errorf message (output ∷ []))
serial_or message output (some serial) = ok serial

-- `parseScsiSerial`
unfoldable pub parse_scsi_serial : String → Result Failure String
parse_scsi_serial output =
    serial_or "scsi_id output cannot be parsed: %q" output (scsi_match output)

-- The pattern `ID_SERIAL_SHORT=([\S]+)\s*` where the text starts.
unfoldable pub nvme_here : String → Option (String × String)
nvme_here output = then_match (literal "ID_SERIAL_SHORT=" output) λ s. word_of (span_word s)

abbrev pub or_later : Option (String × String) → Option String → Option String
or_later none later = later
or_later (some (word, _)) later = some word

-- `nvmeRegex.FindStringSubmatch(output)`: the first match from the left.
unfoldable pub nvme_match : String → Option String
nvme_match String.[] = none
nvme_match (String.◌∷◌ c s) = or_later (nvme_here (String.◌∷◌ c s)) (nvme_match s)

-- `parseNvmeSerial`
unfoldable pub parse_nvme_serial : String → Result Failure String
parse_nvme_serial output =
    serial_or "google_nvme_id output cannot be parsed: %q" output (nvme_match output)

word_found :
    (word b : String)
    → no_blank word ≡ true
    → word ≢ ""
    → all_blank b ≡ true
    → word_of (span_word (text_append word b)) ≡ some (word, b)
word_found word b w ne h = rw (span_word-append word b w h) (ground (arith, eq_iff word "", ne))

ends : (word b : String) → all_blank b ≡ true → to_end (word, b) ≡ some word
ends word b h = rw (skip_blanks-all_blank b h) (ground (arith, eq_iff "" ""))

literal_stops :
    (s : String) → skip_blanks (text_append "PersistentDisk" s) ≡ text_append "PersistentDisk" s
unfolding no_blank
literal_stops s = skip_blanks-word "PersistentDisk" s refl λ e. cc e

-- `parseScsiSerial` gives a disk name that is not empty and has no blank back from what `scsi_id`
-- prints for it, with one blank or more between the fields and any blanks after the last.
pub scsi_round_trip :
    (name b c d : String)
    → no_blank name ≡ true
    → name ≢ ""
    → all_blank b ≡ true
    → b ≢ ""
    → all_blank c ≡ true
    → c ≢ ""
    → all_blank d ≡ true
    → parse_scsi_serial (
        text_append "0Google"
          (text_append b (text_append "PersistentDisk" (text_append c (text_append name d)))))
      ≡ ok name
unfolding parse_scsi_serial scsi_match
scsi_round_trip name b c d w ne hb nb hc nc hd =
    let tail = text_append name d in
    let after = text_append "PersistentDisk" (text_append c tail) in
    rw
      (
        literal-append "0Google" (text_append b after),
        blanks-append b after hb nb (literal_stops (text_append c tail)),
        literal-append "PersistentDisk" (text_append c tail),
        blanks-append c tail hc nc (skip_blanks-word name d w ne),
        word_found name d w ne hd,
        ends name d hd,
      )
      refl
