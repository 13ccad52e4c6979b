-- ===== src/Storage/Disk.antt =====
-- storage/filesystem.go: the store on disk.
pub mod Calls
pub mod Group
pub mod Writes
pub mod Rooted
use Prim.Native.String.{◌++◌ as text_append}
use csi_runtime.Base.{
  ℕ, String, Bool, true, false, not, ◌||◌, List, [], ◌∷◌, Option, none, some, Result, ok, err, ℤ,
  pos, negsuc, ltb, ◌==◌, str_eq, if◌then◌else◌,
}
use csi_runtime.Base.Prog.{
  when◌then◌else◌, ret, call, bind, ask, fail, succeed, map_err, ◌>>=◌, ◌>>◌,
}
use csi_runtime.Rpc.{Error, other}
use csi_runtime.Dict.{Dict, get}
use csi_runtime.Metadata.{Metadata}
use csi_runtime.Storage.Json.{Json}
use csi_runtime.Storage.Disk.Calls.{
  FsError, not_found, invalid_json, not_exist, plain, wraps, wraps_showing, shows, is_not_found,
  FileProjection, FsCall, FsValue, FsAnswer, Io, open_file, close_file, stat_open, do_open,
  do_stat_open, do_close, do_decode, do_read_all, do_read_dir, do_remove_all, do_mkdir_all,
  do_write_file, do_chown, do_new_atomic_writer, do_write_payload, do_is_not_mount_point, do_mount,
}

-- `int(x)` of an `int64`, on the platforms where an `int` has 64 bits.
abbrev pub int : ℤ → ℤ
int x = x

-- `readWriteUserFileMode` and `readOnlyUserAndGroupFileMode`, 0600 and 0440
abbrev pub read_write_user_file_mode : ℕ
read_write_user_file_mode = 384

abbrev pub read_only_user_and_group_file_mode : ℕ
read_only_user_and_group_file_mode = 288

-- `Filesystem`
pub record Filesystem : Type 0 where
  pub base_dir : String
  pub fixed_fs_group : Option ℤ
  pub fs_group_volume_attribute_key : String

-- `fsGroup <= 0 || fsGroup > 4294967295`
abbrev pub out_of_range : ℤ → Bool
out_of_range (pos n) = n == 0 || ltb 4294967295 n
out_of_range (negsuc n) = true

-- What the store takes from package path/filepath, strconv and os: `filepath.Join` of two elements,
-- `strconv.ParseInt(s, 10, 64)` and `os.IsNotExist`.
pub record Os : Type 0 where
  pub join : String → String → String
  pub parse_int : String → Result Error ℤ
  pub is_not_exist : FsError → Bool

-- The errors of `file.Stat` in `ReadMetadata`.
abbrev pub stat_error : FsError → FsError
stat_error not_exist = wraps "reading metadata file: %w" not_found
stat_error e = shows "reading metadata file: %v" e

-- The metadata that `ReadMetadata` returns beside an error.
abbrev pub empty_metadata : Metadata
empty_metadata = record { volume_id = ""; target_path = ""; volume_context = [] }

module _ (os : Os) (f : Filesystem) where
  -- `tempfsPath`
  abbrev pub tempfs_path : String
  tempfs_path = os.join f.base_dir "inmemfs"

  -- `volumePath`
  abbrev pub volume_path : String → String
  volume_path id = os.join tempfs_path id

  -- `dataPathForVolumeID`
  abbrev pub data_path_for_volume_id : String → String
  data_path_for_volume_id id = os.join (volume_path id) "data"

  -- `metadataPathForVolumeID`
  abbrev pub metadata_path_for_volume_id : String → String
  metadata_path_for_volume_id id = os.join (volume_path id) "metadata.json"

  -- `PathForVolume`
  unfoldable pub path_for_volume : String → String
  path_for_volume volume_id = data_path_for_volume_id volume_id

  -- The end of `fsGroupForMetadata`, on the attribute of the volume.
  abbrev pub parse_group : Result Error ℤ → Result FsError (Option ℤ)
  parse_group (err e) =
      err (wraps "failed to parse %q, value must be a valid integer: %w" (plain e))
  parse_group (ok group) =
      if out_of_range group
      then err (plain (other "%q: gid value must be greater than 0 and less than 4294967295: %d"))
      else ok (some group)

  abbrev pub attribute_group : Option String → Result FsError (Option ℤ)
  attribute_group none = ok none
  attribute_group (some s) = parse_group (os.parse_int s)

  -- `fsGroupForMetadata`
  unfoldable pub fs_group_for_metadata : Metadata → Result FsError (Option ℤ)
  fs_group_for_metadata meta = elim f.fixed_fs_group [
    | some group ↦ ok (some group)
    | none ↦
        if str_eq f.fs_group_volume_attribute_key ""
        then ok none
        else attribute_group (get f.fs_group_volume_attribute_key meta.volume_context)
  ]

  module _ {Bytes : Type 0} where
    -- `makePayload`
    unfoldable pub make_payload : Dict Bytes → Dict (FileProjection Bytes)
    make_payload [] = []
    make_payload ((name, contents) ∷ files) =
        (name, record { data_of = contents; mode = read_only_user_and_group_file_mode })
        ∷ make_payload files

    -- `os.Open` of the read-only file system, with the deferred `Close` when `body` returns.
    unfoldable pub with_open : {A : Type 0} → String → (FsError → FsError) → Io Bytes A → Io Bytes A
    unfolding bind ask
    with_open path on body = call (open_file path) λ r. elim r [
      | err e ↦ ret (err (on e))
      | ok _ ↦ bind body (λ a. bind (ask (close_file path)) (λ _. ret a))
    ]

    -- `ReadMetadata`
    unfoldable pub read_metadata : String → Io Bytes Metadata
    read_metadata volume_id =
        let path = metadata_path_for_volume_id volume_id in
        with_open path (λ _. wraps "reading metadata file: %w" not_found)
          (do
            map_err stat_error (do_stat_open path)
            map_err (wraps_showing "reading metadata file: %w: %v" invalid_json) (do_decode path))

    -- `ReadFile`
    unfoldable pub read_file : String → String → Io Bytes Bytes
    read_file volume_id name =
        let path = os.join (data_path_for_volume_id volume_id) name in
        with_open path (λ _. not_found) (do_read_all path)

    -- `RemoveVolume`
    unfoldable pub remove_volume : String → Io Bytes (Unit {0})
    remove_volume volume_id = do_remove_all (os.join tempfs_path volume_id)

    -- `ensureVolumeDirectory`
    unfoldable pub ensure_volume_directory : String → Io Bytes (Unit {0})
    ensure_volume_directory volume_id = do
      do_mkdir_all (volume_path volume_id) 420
      do_mkdir_all (data_path_for_volume_id volume_id) 360

    -- The loop of `WriteFiles` over the files written.
    unfoldable pub chown_files : ℤ → String → Dict Bytes → Io Bytes (Unit {0})
    chown_files group dir_name [] = succeed tt
    chown_files group dir_name ((filename, _) ∷ files) =
        let rest = chown_files group dir_name files in
        do_chown (os.join dir_name filename) (negsuc 0) (int group) >> rest

    -- The two changes of the owner in `WriteFiles`.
    unfoldable pub chown_data : Option ℤ → String → Io Bytes (Unit {0})
    chown_data none dir = succeed tt
    chown_data (some group) dir =
        map_err (wraps "failed to chown data dir to gid %v: %w")
          (do_chown dir (negsuc 0) (int group))

    unfoldable pub chown_written : Option ℤ → String → Dict Bytes → Io Bytes (Unit {0})
    chown_written none dir files = succeed tt
    chown_written (some group) dir files = chown_files group (os.join dir "..data") files

    -- `WriteFiles`
    unfoldable pub write_files : Metadata → Dict Bytes → Io Bytes (Unit {0})
    write_files meta files =
        let dir = data_path_for_volume_id meta.volume_id in
        do
          ensure_volume_directory meta.volume_id
          group ← ret (fs_group_for_metadata meta)
          chown_data group dir
          do_new_atomic_writer dir (text_append "volumeID " meta.volume_id)
          do_write_payload dir (make_payload files)
          chown_written group dir files

    -- The loop of `ListVolumes`.
    unfoldable pub list_found : List String → Io Bytes (List String)
    list_found [] = succeed []
    list_found (dir ∷ dirs) =
        let rest = list_found dirs in
        do
          do_open (metadata_path_for_volume_id dir)
          bind (ask (close_file (metadata_path_for_volume_id dir))) λ _. succeed tt
          vols ← rest
          succeed (dir ∷ vols)

    -- `ListVolumes`
    unfoldable pub list_volumes : Io Bytes (List String)
    list_volumes = do
      dirs ← map_err (wraps "listing volumes: %w") (do_read_dir tempfs_path)
      list_found dirs

    -- What `NewFilesystem` does about the error of `IsNotMountPoint`.
    unfoldable pub prepare_tempfs : Option FsError → Io Bytes (Unit {0})
    prepare_tempfs none = succeed tt
    prepare_tempfs (some e) = when os.is_not_exist e then do_mkdir_all tempfs_path 448 else fail e

    -- The calls of `NewFilesystem`, on the store that it returns.
    unfoldable pub mount_tempfs : Io Bytes Filesystem
    mount_tempfs = do
      (not_mnt, e) ← do_is_not_mount_point tempfs_path
      prepare_tempfs e
      when not_mnt
          then map_err (wraps "mounting tmpfs: %w") (do_mount "tmpfs" tempfs_path "tmpfs" [])
          else succeed tt
      succeed f

  module _ {Bytes : Type 0} (json : Json Bytes) where
    -- `WriteMetadata`
    unfoldable pub write_metadata : String → Metadata → Io Bytes (Unit {0})
    write_metadata volume_id meta = elim (json.marshal meta) [
      | err e ↦ fail (shows "%v" (plain e))
      | ok meta_bytes ↦
          do_write_file (metadata_path_for_volume_id volume_id) meta_bytes read_write_user_file_mode
    ]

    -- The end of both branches of `RegisterMetadata` that write.
    unfoldable pub register_at : String → String → Metadata → Io Bytes Bool
    register_at dir volume_id meta = do
      ensure_volume_directory dir
      write_metadata volume_id meta
      succeed true

    -- The part of `RegisterMetadata` where the context may have changed.
    abbrev pub register_existing : Metadata → Metadata → Io Bytes Bool
    register_existing meta existing_meta =
        when json.deep_equal existing_meta.volume_context meta.volume_context
        then succeed false
        else register_at meta.volume_id existing_meta.volume_id
            (record existing_meta { volume_context = meta.volume_context })

    -- `RegisterMetadata`, after the answer of `ReadMetadata`.
    abbrev pub register_on : Metadata → Result FsError Metadata → Io Bytes Bool
    register_on meta (ok existing_meta) = register_existing meta existing_meta
    register_on meta (err e) =
        when is_not_found e
        then register_at meta.volume_id meta.volume_id meta
        else register_existing meta empty_metadata

    -- `RegisterMetadata`
    unfoldable pub register_metadata : Metadata → Io Bytes Bool
    unfolding bind
    register_metadata meta = bind (read_metadata meta.volume_id) (register_on meta)

-- `NewFilesystem`
unfoldable pub new_filesystem : {Bytes : Type 0} → Os → String → Io Bytes Filesystem
new_filesystem os base_dir =
    mount_tempfs os
      (record { base_dir = base_dir; fixed_fs_group = none; fs_group_volume_attribute_key = "" })
