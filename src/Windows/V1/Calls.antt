-- ===== src/Windows/V1/Calls.antt =====
-- The calls of the mounter on version 1 of csi-proxy (clients disk/v1, filesystem/v1 and volume/v1).
use csi_runtime.Base.{ℕ, String, Bool, List, Option, Result, ℤ}
use csi_runtime.Base.Exec.{EventOf, OracleOf}
use csi_runtime.Rpc.{Error}
use csi_runtime.Windows.Proxy.{Fault}
use csi_runtime.Windows.Proxy

-- `GetVolumeStatsResponse`
pub record VolumeStats : Type 0 where
  pub total_bytes : ℤ
  pub used_bytes : ℤ

pub data Call : Type 0 where
  -- package os
  mkdir_all : String → ℕ → Call
  -- filesystem: source and target; path and force
  create_symlink : String → String → Call
  rmdir : String → Bool → Call
  path_exists : String → Call
  is_symlink : String → Call
  -- disk: the disk number, and whether it is online
  list_disk_ids : Call
  partition_disk : ℕ → Call
  set_disk_state : ℕ → Bool → Call
  get_disk_stats : ℕ → Call
  -- volume: the volume ID, and the target path
  get_volume_id_from_target_path : String → Call
  unmount_volume : String → String → Call
  get_disk_number_from_volume_id : String → Call
  list_volumes_on_disk : ℕ → Call
  is_volume_formatted : String → Call
  format_volume : String → Call
  mount_volume : String → String → Call
  get_volume_stats : String → Call

-- What the response to a call holds. The disk IDs are the disk numbers with their `Page83`. Of
-- `GetDiskStats` both results are read: the response, which may be nil, with its total bytes, and the
-- error.
abbrev pub Value : Call → Type 0
Value (path_exists _) = Bool
Value (is_symlink _) = Bool
Value list_disk_ids = List (ℕ × String)
Value (get_disk_stats _) = Option ℤ × Option Error
Value (get_volume_id_from_target_path _) = String
Value (get_disk_number_from_volume_id _) = ℕ
Value (list_volumes_on_disk _) = List String
Value (is_volume_formatted _) = Bool
Value (get_volume_stats _) = VolumeStats
Value _ = Unit {0}

abbrev pub Answer : Call → Type 0
Answer c = Result Fault (Value c)

abbrev pub Io : Type 0 → Type 0
Io A = Proxy.Io Call Answer A

abbrev pub Event : Type 0
Event = EventOf Call Answer

abbrev pub Oracle : Type 0
Oracle = OracleOf Call Answer
