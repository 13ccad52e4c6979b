-- ===== src/Windows/Prepared.antt =====
-- mount-manager/safe-mounter_windows.go, statter_windows.go and node/utils_windows.go: what their
-- calls have done.
use csi_runtime.Base.{
  ℕ, ◌+◌, ◌≤◌, ◌<◌, ◌^◌, String, ◌≡◌, true, false, List, ◌∷◌, some, ok, arith, pos,
}
use csi_runtime.Base.Prog.{ask, bind, succeed, when◌then◌else◌, ◌>>=◌}
use csi_runtime.Base.Exec.{exec}
use csi_runtime.Statter.{Usage}
use csi_runtime.Windows.Proxy.{Paths}
use csi_runtime.Windows.V1.{remove_pod_dir, exists_path}
use csi_runtime.Windows.V1.Calls.{
  get_volume_id_from_target_path, get_volume_stats, path_exists, rmdir, Event, Oracle,
}
use csi_runtime.Windows.Interface.{mounter_v1}
use csi_runtime.Windows.Utils.{prepare_publish_path}
use csi_runtime.Windows.Statter.{stat_fs_v1, usage_of}

-- There was nothing at the path, or it was there and has been removed by force.
abbrev pub Cleared : String → List Event → Type 0
Cleared path ((path_exists p, ok false) ∷ h) = p ≡ path
Cleared path ((rmdir p forced, ok _) ∷ (path_exists q, ok true) ∷ h) =
    (p ≡ path) × (q ≡ path) × (forced ≡ true)
Cleared path _ = ⊥

-- When `preparePublishPath` succeeds on the mounter of version 1, its last calls found nothing at the
-- path, or found something and removed it by force.
prepare_ok :
    (o : Oracle) (paths : Paths) (path : String) (h : List Event)
    → (exec o (prepare_publish_path path (some (mounter_v1 paths))) h).0 ≡ ok tt
    → Cleared
        (paths.normalize path)
        (exec o (prepare_publish_path path (some (mounter_v1 paths))) h).1
unfolding exec prepare_publish_path remove_pod_dir exists_path succeed ◌>>=◌ bind ask
    when◌then◌else◌
prepare_ok o paths path h done = ground arith

-- On version 1 of csi-proxy, `StatFSV1` of a volume whose used bytes are at most its total bytes gives
-- numbers that do not wrap around: available and used bytes add up to the capacity, the total bytes.
stat_fs_v1_fits :
    (o : Oracle) (path volume_id : String) (total used : ℕ) (h : List Event)
    → o h (get_volume_id_from_target_path path) ≡ ok volume_id
    → o ((get_volume_id_from_target_path path, ok volume_id) ∷ h) (get_volume_stats volume_id)
      ≡ ok (record { total_bytes = pos total; used_bytes = pos used })
    → used ≤ total
    → total < 2 ^ 63
    → (u : Usage) × ((exec o (stat_fs_v1 path) h).0 ≡ ok u)
      × (u.capacity ≡ total)
      × (u.used ≡ used)
      × (u.available + u.used ≡ u.capacity)
unfolding exec stat_fs_v1 succeed ◌>>=◌ bind ask
stat_fs_v1_fits o path volume_id total used h i s le small =
    (usage_of (pos total) (pos used), ground (arith, i, s), omega arith, omega arith, omega arith)
