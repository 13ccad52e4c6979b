-- ===== src/Storage/Memory.antt =====
-- storage/memory.go: the store in memory. The mutex makes each method one atomic step.
use csi_runtime.Base.{
  String, Bool, true, false, List, [], Option, none, some, Result, ok, err, if◌then◌else◌,
}
use csi_runtime.Rpc.{Error, other}
use csi_runtime.Dict.{Dict, get, erase, put, put_all, keys}
use csi_runtime.Metadata.{Metadata}
use csi_runtime.Storage.Json.{Json}

-- `ErrNotFound` and `ErrInvalidJSON` of storage/interfaces.go
abbrev pub err_not_found : Error
err_not_found = other "not found"

abbrev pub err_invalid_json : Error
err_invalid_json = other "invalid JSON"

-- The files of each volume.
pub record MemoryFs (Bytes : Type 0) : Type 0 where
  pub files : Dict (Dict Bytes)

module _ {Bytes : Type 0} (json : Json Bytes) where
  -- `NewMemoryFS`
  unfoldable pub new_memory_fs : MemoryFs Bytes
  new_memory_fs = record { files = [] }

  -- `PathForVolume`
  unfoldable pub path_for_volume : String → MemoryFs Bytes → String
  path_for_volume volume_id m = volume_id

  -- `RemoveVolume`
  unfoldable pub remove_volume : String → MemoryFs Bytes → Result Error (Unit {0}) × MemoryFs Bytes
  remove_volume volume_id m = (ok tt, record { files = erase volume_id m.files })

  abbrev pub decode_metadata : Option Bytes → Result Error Metadata
  decode_metadata none = err err_not_found
  decode_metadata (some meta_file) = elim (json.unmarshal meta_file) [
    | ok meta ↦ ok meta
    | err _ ↦ err err_invalid_json
  ]

  -- `ReadMetadata`
  unfoldable pub read_metadata : String → MemoryFs Bytes → Result Error Metadata
  read_metadata volume_id m = elim (get volume_id m.files) [
    | none ↦ err err_not_found
    | some vol_map ↦ decode_metadata (get "metadata.json" vol_map)
  ]

  -- `ListVolumes`
  unfoldable pub list_volumes : MemoryFs Bytes → Result Error (List String)
  list_volumes m = ok (keys m.files)

  abbrev pub set_volume : String → Dict Bytes → MemoryFs Bytes → MemoryFs Bytes
  set_volume volume_id vol m = record { files = put volume_id vol m.files }

  -- `WriteMetadata`
  unfoldable pub write_metadata :
      String → Metadata → MemoryFs Bytes → Result Error (Unit {0}) × MemoryFs Bytes
  write_metadata volume_id meta m = elim (get volume_id m.files) [
    | none ↦ (err err_not_found, m)
    | some vol ↦ elim (json.marshal meta) [
      | err e ↦ (err e, m)
      | ok meta_json ↦ (ok tt, set_volume volume_id (put "metadata.json" meta_json vol) m)
    ]
  ]

  -- The end of `RegisterMetadata`, which writes.
  abbrev pub store_metadata :
      Metadata → Dict Bytes → MemoryFs Bytes → Result Error Bool × MemoryFs Bytes
  store_metadata meta vol m = elim (json.marshal meta) [
    | err e ↦ (err e, m)
    | ok meta_json ↦ (ok true, set_volume meta.volume_id (put "metadata.json" meta_json vol) m)
  ]

  -- `RegisterMetadata` on the volume, after the test on its existing metadata.
  abbrev pub register_in :
      Metadata → Dict Bytes → Option Bytes → MemoryFs Bytes → Result Error Bool × MemoryFs Bytes
  register_in meta vol none m = store_metadata meta vol m
  register_in meta vol (some existing_meta_json) m = elim (json.unmarshal existing_meta_json) [
    | err e ↦ (err e, m)
    | ok existing_meta ↦
        if json.deep_equal existing_meta.volume_context meta.volume_context
        then (ok false, m)
        else store_metadata meta vol m
  ]

  -- `RegisterMetadata`
  unfoldable pub register_metadata : Metadata → MemoryFs Bytes → Result Error Bool × MemoryFs Bytes
  register_metadata meta m = elim (get meta.volume_id m.files) [
    | none ↦ register_in meta [] none (set_volume meta.volume_id [] m)
    | some vol ↦ register_in meta vol (get "metadata.json" vol) m
  ]

  -- `WriteFiles`
  unfoldable pub write_files :
      Metadata → Dict Bytes → MemoryFs Bytes → Result Error (Unit {0}) × MemoryFs Bytes
  write_files meta files m = elim (get meta.volume_id m.files) [
    | none ↦ (err err_not_found, m)
    | some vol ↦ (ok tt, set_volume meta.volume_id (put_all files vol) m)
  ]

  -- `ReadFiles`
  unfoldable pub read_files : String → MemoryFs Bytes → Result Error (Dict Bytes)
  read_files volume_id m = elim (get volume_id m.files) [
    | none ↦ err err_not_found
    | some vol ↦ ok (put_all vol [])
  ]
