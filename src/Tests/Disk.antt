-- ===== src/Tests/Disk.antt =====
-- The store on disk, on files that are missing and files that are there.
use Prim.Native.String.{◌++◌ as text_append}
use csi_runtime.Base.{String, ◌≡◌, refl, true, false, [], ◌∷◌, none, Result, ok, err, ℤ, pos}
use csi_runtime.Base.Exec.{exec}
use csi_runtime.Base.Prog.{ask, bind, map_err, ◌>>=◌}
use csi_runtime.Base.AllCalls.{AllCalls}
use csi_runtime.Rpc.{Error, other}
use csi_runtime.Dict.{Dict}
use csi_runtime.Metadata.{Metadata}
use csi_runtime.Storage.Json.{Json}
use csi_runtime.Storage.Disk.{
  Filesystem, Os, write_files, read_metadata, with_open, ensure_volume_directory, write_metadata,
  register_at, register_metadata,
}
use csi_runtime.Storage.Disk.Calls
use csi_runtime.Storage.Disk.Calls.{
  FsError, FsCall, FsAnswer, do_open, do_stat_open, do_decode, do_mkdir_all, do_write_file,
}
use csi_runtime.Storage.Disk.Group.{GivesToGroup, write_files-GivesToGroup}
use csi_runtime.Storage.Disk.Writes.{FsOracle, Registered, register_wrote}

abbrev parse_int : String → Result Error ℤ
parse_int s = ok (pos 2000)

abbrev os : Os
os = record {
  join = λ a b. text_append a (text_append "/" b);
  parse_int = parse_int;
  is_not_exist = λ e. false;
}

abbrev store : Filesystem
store = record { base_dir = "/data"; fixed_fs_group = none; fs_group_volume_attribute_key = "gid" }

abbrev meta : Metadata
meta = record { volume_id = "a"; target_path = "/target"; volume_context = ("gid", "2000") ∷ [] }

abbrev written_files : Dict String
written_files = ("tls.crt", "new") ∷ []

write_files-GivesToGroup_example : AllCalls GivesToGroup (write_files os store meta written_files)
write_files-GivesToGroup_example = write_files-GivesToGroup os store meta written_files refl

abbrev json : Json String
json = record {
  marshal = λ m. ok m.volume_id;
  unmarshal = λ b. err (other "invalid character");
  deep_equal = λ a b. false;
}

-- No file is there yet; everything else succeeds.
abbrev nothing_there : FsOracle String
nothing_there h (Calls.open_file p) = err Calls.not_exist
nothing_there h (Calls.stat_open p) = ok tt
nothing_there h (Calls.close_file p) = ok tt
nothing_there h (Calls.decode p) = ok meta
nothing_there h (Calls.read_all p) = ok "new"
nothing_there h (Calls.read_dir p) = ok []
nothing_there h (Calls.remove_all p) = ok tt
nothing_there h (Calls.mkdir_all p m) = ok tt
nothing_there h (Calls.write_file p b m) = ok tt
nothing_there h (Calls.chown p u g) = ok tt
nothing_there h (Calls.new_atomic_writer d c) = ok tt
nothing_there h (Calls.write_payload d p) = ok tt
nothing_there h (Calls.is_not_mount_point p) = ok (false, none)
nothing_there h (Calls.mount s p t o) = ok tt

registers : (exec nothing_there (register_metadata os store json meta) []).0 ≡ ok true
unfolding exec register_metadata read_metadata with_open register_at ensure_volume_directory
    write_metadata ◌>>=◌ bind map_err do_stat_open do_decode do_mkdir_all do_write_file ask
registers = refl

register_wrote_example :
    Registered os store json nothing_there meta
      (exec nothing_there (read_metadata os store "a") []).0
      (exec nothing_there (register_metadata os store json meta) []).1
register_wrote_example = register_wrote os store json nothing_there meta [] registers
