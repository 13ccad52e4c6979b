-- ===== src/Storage/Stored.antt =====
-- What the store in memory keeps, and what each operation leaves alone.
use csi_runtime.Base.{
  String, ◌≡◌, ◌≢◌, ◌∙◌, refl, Bool, true, false, [], Option, none, some, Result, ok, err, arith,
  eq_iff,
}
use csi_runtime.Rpc.{Error}
use csi_runtime.Dict.{Dict, get, put_all, or_else, get-put, get-erase, get-put_all}
use csi_runtime.Metadata.{Metadata}
use csi_runtime.Storage.Json.{Json, Same, RoundTrips}
use csi_runtime.Storage.Memory.{
  MemoryFs, remove_volume, read_metadata, write_metadata, register_metadata, write_files,
  read_files, err_not_found, decode_metadata,
}

module _ {Bytes : Type 0} (json : Json Bytes) where
  -- The operations that change the store, with the volume that they are about.
  pub data Change : Type 0 where
    remove : String → Change
    write_meta : String → Metadata → Change
    register : Metadata → Change
    write : Metadata → Dict Bytes → Change

  abbrev pub volume_of : Change → String
  volume_of (remove id) = id
  volume_of (write_meta id meta) = id
  volume_of (register meta) = meta.volume_id
  volume_of (write meta files) = meta.volume_id

  abbrev pub change : Change → MemoryFs Bytes → MemoryFs Bytes
  change (remove id) m = (remove_volume json id m).1
  change (write_meta id meta) m = (write_metadata json id meta m).1
  change (register meta) m = (register_metadata json meta m).1
  change (write meta files) m = (write_files json meta files m).1

  -- An operation on one volume, whatever its result, changes no other volume.
  other_volumes :
      (c : Change) (id : String) (m : MemoryFs Bytes)
      → volume_of c ≢ id
      → get id (change c m).files ≡ get id m.files
  unfolding remove_volume write_metadata register_metadata write_files
  other_volumes (remove i) id m ne = ground (arith, get-erase id i m.files, eq_iff i id)
  other_volumes (write_meta i meta) id m ne = grind (arith, get-put, eq_iff i id)
  other_volumes (register meta) id m ne = grind (arith, get-put, eq_iff meta.volume_id id)
  other_volumes (write meta files) id m ne = grind (arith, get-put, eq_iff meta.volume_id id)

  written :
      (meta : Metadata) (m : MemoryFs Bytes) (r : Result Error Bytes)
      → json.marshal meta ≡ r
      → (register_metadata json meta m).0 ≡ ok true
      → (b : Bytes) × (json.marshal meta ≡ ok b)
        × (read_metadata json meta.volume_id (register_metadata json meta m).1
            ≡ decode_metadata json (some b))
  unfolding register_metadata read_metadata
  written meta m (err _) e h = grind arith
  written meta m (ok b) e h = (
    b,
    e,
    grind (
      arith,
      get-put,
      eq_iff meta.volume_id meta.volume_id,
      eq_iff "metadata.json" "metadata.json",
    ),
  )

  decoded :
      (b : Bytes) (read : Metadata)
      → json.unmarshal b ≡ ok read
      → decode_metadata json (some b) ≡ ok read
  decoded b read e = ground arith

  -- Where `Unmarshal` reads again what `Marshal` wrote: metadata that `RegisterMetadata` says that it wrote
  -- are what `ReadMetadata` then answers, with the same volume, path and context.
  pub register_read :
      RoundTrips json
      → (meta : Metadata) (m : MemoryFs Bytes) → (register_metadata json meta m).0 ≡ ok true
      → (read : Metadata) × (read_metadata json meta.volume_id (register_metadata json meta m).1
          ≡ ok read)
        × Same json read meta
  register_read trips meta m h =
      let (b, e, is) = written meta m (json.marshal meta) refl h in
      let (read, ok_read, same) = trips meta b e in (read, is ∙ decoded b read ok_read, same)

  again :
      RoundTrips json
      → (meta : Metadata) (m : MemoryFs Bytes) (r : Result Error Bytes) → json.marshal meta ≡ r
      → (b : Bool) → (register_metadata json meta m).0 ≡ ok b
      → register_metadata json meta (register_metadata json meta m).1
        ≡ (ok false, (register_metadata json meta m).1)
  unfolding register_metadata
  again trips meta m (err _) e b h = grind (arith, get-put, eq_iff meta.volume_id meta.volume_id)
  again trips meta m (ok bytes) e b h = grind (
    arith,
    get-put,
    trips meta bytes e,
    eq_iff meta.volume_id meta.volume_id,
    eq_iff "metadata.json" "metadata.json",
  )

  -- Once `RegisterMetadata` has succeeded, doing it again writes nothing.
  register_again :
      RoundTrips json
      → (meta : Metadata) (m : MemoryFs Bytes) (b : Bool) → (register_metadata json meta m).0 ≡ ok b
      → register_metadata json meta (register_metadata json meta m).1
        ≡ (ok false, (register_metadata json meta m).1)
  register_again trips meta m b h = again trips meta m (json.marshal meta) refl b h

  -- A `RegisterMetadata` that fails leaves the metadata of every volume as it was, and of a volume
  -- that was not there it leaves an entry without files.
  register_failed :
      (meta : Metadata) (m : MemoryFs Bytes) (e : Error) (id : String)
      → (register_metadata json meta m).0 ≡ err e
      → (read_metadata json id (register_metadata json meta m).1 ≡ read_metadata json id m)
        × (read_files json meta.volume_id m ≡ err err_not_found
            → read_files json meta.volume_id (register_metadata json meta m).1 ≡ ok [])
  unfolding register_metadata read_metadata read_files put_all get
  register_failed meta m e id h = (
    grind (arith, get-put, eq_iff meta.volume_id id),
    (λ missing. grind (arith, get-put, eq_iff meta.volume_id meta.volume_id)),
  )

  -- The files that `WriteFiles` wrote are new, and the others as before.
  abbrev pub Updated : Metadata → Dict Bytes → MemoryFs Bytes → Type 0
  Updated meta files m =
      (before after : Dict Bytes) × (read_files json meta.volume_id m ≡ ok before)
      × (read_files json meta.volume_id (write_files json meta files m).1 ≡ ok after)
      × ((name : String) → get name after ≡ or_else (get name files) (get name before))

  updated :
      (meta : Metadata) (files : Dict Bytes) (m : MemoryFs Bytes) (o : Option (Dict Bytes))
      → get meta.volume_id m.files ≡ o
      → (write_files json meta files m).0 ≡ ok tt
      → Updated meta files m
  unfolding write_files read_files
  updated meta files m none e h = ground arith
  updated meta files m (some vol) e h = (
    put_all vol [],
    put_all (put_all files vol) [],
    grind arith,
    grind (arith, get-put, eq_iff meta.volume_id meta.volume_id),
    (λ name.
        rw
          (
            get-put_all name (put_all files vol) [],
            get-put_all name files vol,
            get-put_all name vol [],
          )
          (ground arith)),
  )

  -- After a `WriteFiles` that succeeded, `ReadFiles` answers the new contents of the files written and
  -- the old of the others.
  write_read :
      (meta : Metadata) (files : Dict Bytes) (m : MemoryFs Bytes)
      → (write_files json meta files m).0 ≡ ok tt
      → Updated meta files m
  write_read meta files m h = updated meta files m (get meta.volume_id m.files) refl h
