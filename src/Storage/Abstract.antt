-- ===== src/Storage/Abstract.antt =====
-- storage/memory.go: what the store in memory promises, without the maps: a store gives each volume
-- ID its volume, if there is one, and a volume gives each file name its contents, if it has the
-- file.
use csi_runtime.Base.{
  String, Bool, true, false, List, [], ◌∷◌, Option, none, some, Result, ok, err, str_eq,
  if◌then◌else◌,
}
use csi_runtime.Rpc.{Error}
use csi_runtime.Dict.{Dict, get, or_else}
use csi_runtime.Metadata.{Metadata}
use csi_runtime.Storage.Json.{Json}
use csi_runtime.Storage.Memory.{
  MemoryFs, remove_volume, read_metadata, write_metadata, register_metadata, write_files,
  read_files, list_volumes, path_for_volume, err_not_found, decode_metadata,
}

module _ (Bytes : Type 0) where
  abbrev pub Volume : Type 0
  Volume = String → Option Bytes

  abbrev pub Store : Type 0
  Store = String → Option Volume

  -- What a client can ask.
  pub data Op : Type 0 where
    remove : String → Op
    write_meta : String → Metadata → Op
    register : Metadata → Op
    write : Metadata → Dict Bytes → Op
    read_meta : String → Op
    read : String → Op
    list : Op
    path : String → Op

  -- What a client sees of the answer; of the files read, the contents of each name, and of the
  -- volumes listed, whether an ID is among them.
  pub data Reply : Type 0 where
    done : Result Error (Unit {0}) → Reply
    registered : Result Error Bool → Reply
    metadata : Result Error Metadata → Reply
    contents : Result Error Volume → Reply
    listed : Result Error (String → Bool) → Reply
    data_path : String → Reply

-- A function with another value at one place.
abbrev pub update : {V : Type 0} → String → Option V → (String → Option V) → String → Option V
update k v f j = if str_eq k j then v else f j

module _ {Bytes : Type 0} (json : Json Bytes) where
  abbrev pub no_files : Volume Bytes
  no_files file = none

  abbrev pub spec_store : Metadata → Volume Bytes → Store Bytes → Reply Bytes × Store Bytes
  spec_store meta vol s = elim (json.marshal meta) [
    | err e ↦ (registered (err e), s)
    | ok b ↦
        (registered (ok true), update meta.volume_id (some (update "metadata.json" (some b) vol)) s)
  ]

  abbrev pub spec_existing :
      Metadata → Volume Bytes → Option Bytes → Store Bytes → Reply Bytes × Store Bytes
  spec_existing meta vol none s = spec_store meta vol s
  spec_existing meta vol (some existing) s = elim (json.unmarshal existing) [
    | err e ↦ (registered (err e), s)
    | ok m ↦
        if json.deep_equal m.volume_context meta.volume_context
        then (registered (ok false), s)
        else spec_store meta vol s
  ]

  abbrev pub spec_register :
      Metadata → Option (Volume Bytes) → Store Bytes → Reply Bytes × Store Bytes
  spec_register meta none s = spec_store meta no_files (update meta.volume_id (some no_files) s)
  spec_register meta (some vol) s = spec_existing meta vol (vol "metadata.json") s

  abbrev pub spec_write_meta :
      String → Metadata → Option (Volume Bytes) → Store Bytes → Reply Bytes × Store Bytes
  spec_write_meta id meta none s = (done (err err_not_found), s)
  spec_write_meta id meta (some vol) s = elim (json.marshal meta) [
    | err e ↦ (done (err e), s)
    | ok b ↦ (done (ok tt), update id (some (update "metadata.json" (some b) vol)) s)
  ]

  abbrev pub spec_write :
      String → Dict Bytes → Option (Volume Bytes) → Store Bytes → Reply Bytes × Store Bytes
  spec_write id files none s = (done (err err_not_found), s)
  spec_write id files (some vol) s =
      (done (ok tt), update id (some (λ file. or_else (get file files) (vol file))) s)

  abbrev pub spec_read_meta : Option (Volume Bytes) → Result Error Metadata
  spec_read_meta none = err err_not_found
  spec_read_meta (some vol) = decode_metadata json (vol "metadata.json")

  abbrev pub spec_read : Option (Volume Bytes) → Result Error (Volume Bytes)
  spec_read none = err err_not_found
  spec_read (some vol) = ok vol

  abbrev pub is_there : Option (Volume Bytes) → Bool
  is_there none = false
  is_there (some vol) = true

  -- One request on a store as functions.
  abbrev pub spec : Op Bytes → Store Bytes → Reply Bytes × Store Bytes
  spec (remove id) s = (done (ok tt), update id none s)
  spec (write_meta id meta) s = spec_write_meta id meta (s id) s
  spec (register meta) s = spec_register meta (s meta.volume_id) s
  spec (write meta files) s = spec_write meta.volume_id files (s meta.volume_id) s
  spec (read_meta id) s = (metadata (spec_read_meta (s id)), s)
  spec (read id) s = (contents (spec_read (s id)), s)
  spec list s = (listed (ok (λ id. is_there (s id))), s)
  spec (path id) s = (data_path id, s)

  abbrev pub seen : Result Error (Dict Bytes) → Result Error (Volume Bytes)
  seen (ok d) = ok (λ file. get file d)
  seen (err e) = err e

  abbrev pub member : List String → String → Bool
  member [] id = false
  member (x ∷ xs) id = if str_eq x id then true else member xs id

  abbrev pub among : Result Error (List String) → Result Error (String → Bool)
  among (ok ids) = ok (λ id. member ids id)
  among (err e) = err e

  -- The same request on the store in memory.
  abbrev pub perform : Op Bytes → MemoryFs Bytes → Reply Bytes × MemoryFs Bytes
  perform (remove id) m = (done (remove_volume json id m).0, (remove_volume json id m).1)
  perform (write_meta id meta) m =
      (done (write_metadata json id meta m).0, (write_metadata json id meta m).1)
  perform (register meta) m =
      (registered (register_metadata json meta m).0, (register_metadata json meta m).1)
  perform (write meta files) m =
      (done (write_files json meta files m).0, (write_files json meta files m).1)
  perform (read_meta id) m = (metadata (read_metadata json id m), m)
  perform (read id) m = (contents (seen (read_files json id m)), m)
  perform list m = (listed (among (list_volumes json m)), m)
  perform (path id) m = (data_path (path_for_volume json id m), m)

  -- Any sequence of requests, with the replies in order.
  unfoldable pub spec_all : List (Op Bytes) → Store Bytes → List (Reply Bytes) × Store Bytes
  spec_all [] s = ([], s)
  spec_all (op ∷ ops) s =
      let (reply, s') = spec op s in let (replies, s'') = spec_all ops s' in (reply ∷ replies, s'')

  unfoldable pub perform_all :
      List (Op Bytes) → MemoryFs Bytes → List (Reply Bytes) × MemoryFs Bytes
  perform_all [] m = ([], m)
  perform_all (op ∷ ops) m =
      let (reply, m') = perform op m in
      let (replies, m'') = perform_all ops m' in (reply ∷ replies, m'')
