-- ===== src/Storage/Disk/Rooted.antt =====
-- The store on disk under a base directory that is absolute, as the comment on `baseDir` has it. Its
-- files are read through `os.DirFS("/")`, and io/fs documents that `Open` rejects a name that starts
-- with a slash (`fs.ValidPath`); package os, which writes, takes such a name.
use csi_runtime.Base.{String, ◌≡◌, ◌≢◌, true, false, List, ok, err, arith}
use csi_runtime.Base.Exec.{exec, exec-bind}
use csi_runtime.Base.Prog.{bind, map_err, ask, when◌then◌else◌, ◌>>=◌}
use csi_runtime.Text.Match.{has_prefix}
use csi_runtime.Metadata.{Metadata}
use csi_runtime.Storage.Json.{Json}
use csi_runtime.Storage.Disk.{
  Filesystem, Os, with_open, read_metadata, read_file, list_volumes, volume_path, register_on,
  register_metadata,
}
use csi_runtime.Storage.Disk.Calls.{FsError, not_found, wraps, open_file, read_dir, do_read_dir}
use csi_runtime.Storage.Disk.Writes.{FsEvent, FsOracle, register_at-ne-false}

abbrev pub IsRooted : String → Type 0
IsRooted path = has_prefix path "/" ≡ true

-- As documented, `filepath.Join` keeps a path absolute.
abbrev pub KeepsRoot : Os → Type 0
KeepsRoot os = (a b : String) → IsRooted a → IsRooted (os.join a b)

module _ {Bytes : Type 0} where
  -- As documented, the read-only file system rejects names that start with a slash.
  pub record RejectsRooted (o : FsOracle Bytes) : Type 0 where
    pub on_open :
        (h : List (FsEvent Bytes)) (path : String)
        → IsRooted path
        → (e : FsError) × (o h (open_file path) ≡ err e)
    pub on_read_dir :
        (h : List (FsEvent Bytes)) (path : String)
        → IsRooted path
        → (e : FsError) × (o h (read_dir path) ≡ err e)

  module _ (os : Os) (f : Filesystem) (o : FsOracle Bytes) (keeps : KeepsRoot os)
      (rejects : RejectsRooted o) (root : IsRooted f.base_dir) (h : List (FsEvent Bytes)) where
    volume_path-IsRooted : (id : String) → IsRooted (volume_path os f id)
    volume_path-IsRooted id = keeps _ id (keeps _ "inmemfs" root)

    metadata_not_found :
        (id : String)
        → (exec o (read_metadata os f id) h).0 ≡ err (wraps "reading metadata file: %w" not_found)
    unfolding exec read_metadata with_open
    metadata_not_found id =
        ground (arith, rejects.on_open h _ (keeps _ "metadata.json" (volume_path-IsRooted id)))

    file_not_found : (id name : String) → (exec o (read_file os f id name) h).0 ≡ err not_found
    unfolding exec read_file with_open
    file_not_found id name =
        ground
          (arith, rejects.on_open h _ (keeps _ name (keeps _ "data" (volume_path-IsRooted id))))

    no_list : (e : FsError) × ((exec o (list_volumes os f) h).0 ≡ err e)
    unfolding exec list_volumes ◌>>=◌ bind map_err do_read_dir ask
    no_list =
        let (e, is) = rejects.on_read_dir h _ (keeps _ "inmemfs" root) in
        (wraps "listing volumes: %w" e, ground arith)

    never_known :
        (json : Json Bytes) (meta : Metadata)
        → (exec o (register_metadata os f json meta) h).0 ≢ ok false
    unfolding register_metadata when◌then◌else◌
    never_known json meta e =
        register_at-ne-false os f json o meta.volume_id meta.volume_id meta _ (
          rw (metadata_not_found meta.volume_id) at (
            rw (exec-bind o (read_metadata os f meta.volume_id) (register_on os f json meta) h) at
              e))

    -- Under an absolute base directory, where `filepath.Join` keeps a path absolute and the read-only
    -- file system rejects absolute names, whatever was written before: `ReadMetadata` and `ReadFile`
    -- answer that there is nothing, `ListVolumes` fails, and `RegisterMetadata` never finds that the
    -- volume is registered already.
    pub nothing_is_read :
        (json : Json Bytes) (meta : Metadata) (id name : String)
        → ((exec o (read_metadata os f id) h).0 ≡ err (wraps "reading metadata file: %w" not_found))
          × ((exec o (read_file os f id name) h).0 ≡ err not_found)
          × ((e : FsError) × ((exec o (list_volumes os f) h).0 ≡ err e))
          × ((exec o (register_metadata os f json meta) h).0 ≢ ok false)
    nothing_is_read json meta id name =
        (metadata_not_found id, file_not_found id name, no_list, never_known json meta)
