-- ===== src/Device/Calls.antt =====
-- mount-manager/device-utils.go: the calls outside, and the commands.
use Prim.Native.String.{String, ◌++◌ as text_append}
use csi_runtime.Base.{Bool, List, [], ◌∷◌, Option, Result}
use csi_runtime.Base.Prog.{Prog}
use csi_runtime.Base.Exec.{EventOf, OracleOf}
use csi_runtime.Rpc.{Error}
use csi_runtime.Device.Serial.{Failure}

-- The commands that are run, on a device path.
pub data Command : Type 0 where
  scsi_id google_nvme_id udevadm_trigger : String → Command

abbrev pub scsi_id_path : String
scsi_id_path = "/lib/udev_containerized/scsi_id"

abbrev pub nvme_id_path : String
nvme_id_path = "/lib/udev_containerized/google_nvme_id"

-- The program and the arguments of `exec.Command`.
unfoldable pub argv : Command → List String
argv (scsi_id path) =
    scsi_id_path ∷ "--page=0x83" ∷ "--whitelisted" ∷ text_append "--device=" path ∷ []
argv (google_nvme_id path) = nvme_id_path ∷ text_append "-d" path ∷ []
argv (udevadm_trigger path) =
    "udevadm" ∷ "trigger" ∷ "--action=change" ∷ text_append "--property-match=DEVNAME=" path ∷ []

-- What `os.Stat` says, with `os.IsNotExist` of its error.
pub data Stat : Type 0 where
  present absent : Stat
  failed : Error → Stat

-- What a command printed, and its error.
pub record Printed : Type 0 where
  pub out : String
  pub error : Option Error

pub data Call : Type 0 where
  -- `pathutils.Exists` of k8s.io/utils, with `CheckFollowSymlink`
  exists : String → Call
  stat : String → Call
  -- package path/filepath
  eval_symlinks : String → Call
  glob : String → Call
  -- `exec.Command(…).CombinedOutput()`
  combined_output : Command → Call

abbrev pub Answer : Call → Type 0
Answer (exists _) = Result Error Bool
Answer (stat _) = Stat
Answer (eval_symlinks _) = Result Error String
Answer (glob _) = Result Error (List String)
Answer (combined_output _) = Printed

abbrev pub Io : Type 0 → Type 0
Io A = Prog Call Answer (Result Failure A)

abbrev pub Event : Type 0
Event = EventOf Call Answer

abbrev pub Oracle : Type 0
Oracle = OracleOf Call Answer
