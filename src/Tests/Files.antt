-- ===== src/Tests/Files.antt =====
-- The store on disk under an absolute base directory.
use Prim.Native.String.{◌++◌ as text_append}
use text.Mathlib.TextLemmas.{cons-append}
use csi_runtime.Base.{
  String, ◌≡◌, ◌≢◌, refl, true, false, [], none, ok, err, pos, arith, if◌then◌else◌,
}
use csi_runtime.Base.Exec.{exec}
use csi_runtime.Base.Prog.{when◌then◌else◌}
use csi_runtime.Metadata.{Metadata}
use csi_runtime.Text.Match.{has_prefix, literal}
use csi_runtime.Storage.Json.{Json}
use csi_runtime.Storage.Disk.{
  Filesystem, Os, read_metadata, read_file, list_volumes, register_metadata,
}
use csi_runtime.Storage.Disk.Calls
use csi_runtime.Storage.Disk.Calls.{
  FsError, FsCall, FsAnswer, do_open, do_stat_open, do_decode, do_mkdir_all, do_write_file, wraps,
  not_found,
}
use csi_runtime.Storage.Disk.Writes.{FsOracle}
use csi_runtime.Storage.Disk.Rooted.{IsRooted, KeepsRoot, RejectsRooted, nothing_is_read}

abbrev os : Os
os = record {
  join = λ a b. text_append a (text_append "/" b);
  parse_int = λ s. ok (pos 2000);
  is_not_exist = λ e. false;
}

abbrev store : String → Filesystem
store base = record {
  base_dir = base;
  fixed_fs_group = none;
  fs_group_volume_attribute_key = "gid";
}

abbrev meta : Metadata
meta = record { volume_id = "a"; target_path = "/target"; volume_context = [] }

-- Metadata are kept as they are.
abbrev json : Json Metadata
json = record { marshal = λ m. ok m; unmarshal = λ b. ok b; deep_equal = λ a b. true }

-- Names that start with a slash are rejected; everything else succeeds.
abbrev files : FsOracle Metadata
files h (Calls.open_file p) = if has_prefix p "/" then err Calls.not_exist else ok tt
files h (Calls.stat_open p) = ok tt
files h (Calls.close_file p) = ok tt
files h (Calls.decode p) = ok meta
files h (Calls.read_all p) = ok meta
files h (Calls.read_dir p) = if has_prefix p "/" then err Calls.not_exist else ok []
files h (Calls.remove_all p) = ok tt
files h (Calls.mkdir_all p m) = ok tt
files h (Calls.write_file p b m) = ok tt
files h (Calls.chown p u g) = ok tt
files h (Calls.new_atomic_writer d c) = ok tt
files h (Calls.write_payload d p) = ok tt
files h (Calls.is_not_mount_point p) = ok (false, none)
files h (Calls.mount s p t o) = ok tt

-- What starts with a slash does so with more after it.
IsRooted-append : (a b : String) → IsRooted a → IsRooted (text_append a b)
unfolding has_prefix literal
IsRooted-append String.[] b h = cc
IsRooted-append (String.◌∷◌ c a) b h = rw (cons-append c a b) (ground arith)

os-KeepsRoot : KeepsRoot os
os-KeepsRoot a b h = IsRooted-append a (text_append "/" b) h

files-RejectsRooted : RejectsRooted files
files-RejectsRooted = record {
  on_open = λ h p r. (Calls.not_exist, rw r);
  on_read_dir = λ h p r. (Calls.not_exist, rw r);
}

nothing_is_read_example :
    ((exec files (read_metadata os (store "/data") "a") []).0
      ≡ err (wraps "reading metadata file: %w" not_found))
    × ((exec files (read_file os (store "/data") "a" "tls.crt") []).0 ≡ err not_found)
    × ((e : FsError) × ((exec files (list_volumes os (store "/data")) []).0 ≡ err e))
    × ((exec files (register_metadata os (store "/data") json meta) []).0 ≢ ok false)
unfolding has_prefix literal
nothing_is_read_example =
    nothing_is_read os (store "/data") files os-KeepsRoot files-RejectsRooted refl [] json meta "a"
      "tls.crt"
