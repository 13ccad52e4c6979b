-- ===== src/Windows/Statter.antt =====
-- mount-manager/statter_windows.go: volume usage through csi-proxy. The mounter inside the statter
-- is one of the two, or of another type.
use csi_runtime.Base.{ℤ, String, Bool, false, Result, ok}
use csi_runtime.Base.Int64.{bits64, sub64}
use csi_runtime.Base.Prog.{ask, succeed, ◌>>=◌}
use csi_runtime.Statter.{Usage}
use csi_runtime.Windows.Proxy.{Fault, errorf}
use csi_runtime.Windows.V1.Calls as CallsV1
use csi_runtime.Windows.V1beta.Calls as CallsBeta

-- `available = capacity - used`, and zeros for the inodes.
abbrev pub usage_of : ℤ → ℤ → Usage
usage_of capacity used = record {
  available = sub64 (bits64 capacity) (bits64 used);
  capacity = bits64 capacity;
  used = bits64 used;
  inodes_free = 0;
  inodes = 0;
  inodes_used = 0;
}

-- `StatFSV1`
unfoldable pub stat_fs_v1 : String → CallsV1.Io Usage
stat_fs_v1 path = do
  volume_id ← ask (CallsV1.get_volume_id_from_target_path path)
  stats ← ask (CallsV1.get_volume_stats volume_id)
  succeed (usage_of stats.total_bytes stats.used_bytes)

-- `StatFSV1Beta`
unfoldable pub stat_fs_v1_beta : String → CallsBeta.Io Usage
stat_fs_v1_beta path = do
  volume_id ← ask (CallsBeta.get_volume_id_from_mount path)
  stats ← ask (CallsBeta.volume_stats volume_id)
  succeed (usage_of stats.volume_size stats.volume_used_size)

-- The type of the mounter inside the statter.
pub data Mounter : Type 0 where
  v1 v1_beta other_mounter : Mounter

-- What `StatFS` runs for each: a function of one of the two clients, or an error.
pub data StatFs : Type 0 where
  on_v1 : CallsV1.Io Usage → StatFs
  on_v1_beta : CallsBeta.Io Usage → StatFs
  refused : Fault → StatFs

-- `StatFS`; the error prints the mounter.
unfoldable pub stat_fs : Mounter → String → StatFs
stat_fs v1 path = on_v1 (stat_fs_v1 path)
stat_fs v1_beta path = on_v1_beta (stat_fs_v1_beta path)
stat_fs other_mounter path = refused (errorf "Invalid interface type=%v")

-- `IsBlockDevice`
unfoldable pub is_block_device : String → Result Fault Bool
is_block_device path = ok false
