-- ===== src/Tests/Windows.antt =====
-- The mounters on csi-proxy, with a proxy that has one disk of number 3.
use Prim.Native.String.{◌++◌ as text_append}
use csi_runtime.Base.{ℕ, ◌≡◌, refl, true, false, [], ◌∷◌, none, some, ok, pos, arith}
use csi_runtime.Base.Prog.{◌>>=◌}
use csi_runtime.Base.Exec.{exec}
use csi_runtime.Text.Decimal.{parse_uint, format_uint, value_from, digits}
use csi_runtime.Text.Fields.{fields, fields_from, is_space}
use csi_runtime.Windows.Proxy.{Paths, uint32}
use csi_runtime.Windows.V1.{
  format_and_mount, format_volume_and_mount, unmount_device, dismount, exists_path, find_disk,
}
use csi_runtime.Windows.V1.Calls.{
  mkdir_all, create_symlink, rmdir, path_exists, is_symlink, list_disk_ids, partition_disk,
  set_disk_state, get_disk_stats, get_volume_id_from_target_path, unmount_volume,
  get_disk_number_from_volume_id, list_volumes_on_disk, is_volume_formatted, format_volume,
  mount_volume, get_volume_stats, Oracle,
}
use csi_runtime.Windows.V1.Effects.{FormatsOnlyBlank, Mounted, keeps_data, format_and_mount_ok}
use csi_runtime.Windows.V1.Dismounts.{Gone, unmount_device_ok}
use csi_runtime.Windows.V1.Disks.{Split, find_disk_sound}

abbrev paths : Paths
paths = record { normalize = λ p. text_append "c:" p; dir = λ p. p }

-- The volume is not formatted, and every path is there.
abbrev proxy : Oracle
proxy h (mkdir_all p m) = ok tt
proxy h (create_symlink s t) = ok tt
proxy h (rmdir p f) = ok tt
proxy h (path_exists p) = ok true
proxy h (is_symlink p) = ok true
proxy h list_disk_ids = ok ((3, "Google pd-1") ∷ [])
proxy h (partition_disk n) = ok tt
proxy h (set_disk_state n b) = ok tt
proxy h (get_disk_stats n) = ok (some (pos 1024), none)
proxy h (get_volume_id_from_target_path p) = ok "volume"
proxy h (unmount_volume v p) = ok tt
proxy h (get_disk_number_from_volume_id v) = ok 3
proxy h (list_volumes_on_disk n) = ok ("volume" ∷ [])
proxy h (is_volume_formatted v) = ok false
proxy h (format_volume v) = ok tt
proxy h (mount_volume v p) = ok tt
proxy h (get_volume_stats v) = ok (record { total_bytes = pos 1024; used_bytes = pos 24 })

keeps_data_example : FormatsOnlyBlank (exec proxy (format_and_mount "3" "t" "ntfs" []) []).1
keeps_data_example = keeps_data proxy "3" "t" "ntfs" [] [] tt

format_and_mount_ok_example :
    Mounted (uint32 3) "t" (exec proxy (format_and_mount "3" "t" "ntfs" []) []).1
unfolding exec format_and_mount format_volume_and_mount parse_uint value_from ◌>>=◌
format_and_mount_ok_example = format_and_mount_ok proxy "3" "t" "ntfs" [] 3 [] refl refl

unmount_device_ok_example : Gone "c:c:t" "c:t" (exec proxy (unmount_device paths "t") []).1
unfolding exec unmount_device dismount exists_path ◌>>=◌
unmount_device_ok_example = unmount_device_ok paths proxy "t" [] refl

find_disk_sound_example :
    (n : ℕ) × (parse_uint "3" ≡ ok n) × (uint32 n ≡ n) × Split "pd-1" ((3, "Google pd-1") ∷ []) n
unfolding find_disk fields fields_from is_space format_uint digits
find_disk_sound_example =
    find_disk_sound "pd-1" ((3, "Google pd-1") ∷ []) "3" (omega arith, tt) refl
