-- ===== src/Windows/V1beta/Calls.antt =====
-- The calls of the mounter on the beta versions of csi-proxy (clients disk/v1beta2, filesystem/v1beta1
-- and volume/v1beta1). A disk ID is a text.
use csi_runtime.Base.{ℕ, String, Bool, List, Option, Result, ℤ}
use csi_runtime.Base.Exec.{EventOf, OracleOf}
use csi_runtime.Rpc.{Error}
use csi_runtime.Dict.{Dict}
use csi_runtime.Windows.Proxy.{Fault}
use csi_runtime.Windows.Proxy

-- `PathContext`
pub data PathContext : Type 0 where
  plugin pod : PathContext

-- `VolumeStatsResponse`
pub record VolumeStats : Type 0 where
  pub volume_size : ℤ
  pub volume_used_size : ℤ

pub data Call : Type 0 where
  -- package os
  mkdir_all : String → ℕ → Call
  -- filesystem: source and target; path, context and force
  link_path : String → String → Call
  rmdir : String → PathContext → Bool → Call
  path_exists : String → Call
  is_mount_point : String → Call
  -- disk: the disk ID, and whether it is online
  list_disk_ids : Call
  partition_disk : String → Call
  set_attach_state : String → Bool → Call
  disk_stats : String → Call
  -- volume: the volume ID, and the path
  get_volume_id_from_mount : String → Call
  dismount_volume : String → String → Call
  get_volume_disk_number : String → Call
  list_volumes_on_disk : String → Call
  is_volume_formatted : String → Call
  format_volume : String → Call
  mount_volume : String → String → Call
  volume_stats : String → Call

-- What the response to a call holds: of `LinkPath` the text of its error, of `ListDiskIDs` the
-- identifiers of each disk ID. Of `DiskStats` both results are read: the response, which may be nil,
-- with its disk size, and the error.
abbrev pub Value : Call → Type 0
Value (link_path _ _) = String
Value (path_exists _) = Bool
Value (is_mount_point _) = Bool
Value list_disk_ids = Dict (Dict String)
Value (disk_stats _) = Option ℤ × Option Error
Value (get_volume_id_from_mount _) = String
Value (get_volume_disk_number _) = ℤ
Value (list_volumes_on_disk _) = List String
Value (is_volume_formatted _) = Bool
Value (volume_stats _) = VolumeStats
Value _ = Unit {0}

abbrev pub Answer : Call → Type 0
Answer c = Result Fault (Value c)

abbrev pub Io : Type 0 → Type 0
Io A = Proxy.Io Call Answer A

abbrev pub Event : Type 0
Event = EventOf Call Answer

abbrev pub Oracle : Type 0
Oracle = OracleOf Call Answer
