-- ===== src/Storage/Disk/Writes.antt =====
-- What the store on disk has called when it returns.
use csi_runtime.Base.{
  ℕ, ◌+◌, String, ◌≡◌, ◌≢◌, Bool, true, false, List, [], ◌∷◌, Result, ok, err, arith,
}
use csi_runtime.Base.Exec.{EventOf, OracleOf, exec, exec-bind}
use csi_runtime.Base.Prog.{succeed, when◌then◌else◌, ask, bind, ◌>>=◌}
use csi_runtime.Metadata.{Metadata}
use csi_runtime.Storage.Json.{Json}
use csi_runtime.Storage.Disk.{
  Filesystem, Os, read_metadata, ensure_volume_directory, write_metadata, register_at, register_on,
  register_metadata, metadata_path_for_volume_id, empty_metadata, read_write_user_file_mode,
}
use csi_runtime.Storage.Disk.Calls.{
  FsError, is_not_found, FsCall, FsAnswer, open_file, close_file, write_file, do_mkdir_all,
  do_write_file,
}

abbrev pub FsEvent : Type 0 → Type 0
FsEvent Bytes = EventOf (FsCall Bytes) FsAnswer

abbrev pub FsOracle : Type 0 → Type 0
FsOracle Bytes = OracleOf (FsCall Bytes) FsAnswer

module _ {Bytes : Type 0} where
  module _ (os : Os) (f : Filesystem) (json : Json Bytes) (o : FsOracle Bytes) where
    -- The last call wrote the encoded metadata to the path of the volume ID, readable and writable for
    -- the user, and succeeded.
    abbrev pub WroteAt : String → Metadata → List (FsEvent Bytes) → Type 0
    WroteAt id meta ((write_file path contents mode, ok _) ∷ h) =
        (json.marshal meta ≡ ok contents)
        × (path ≡ metadata_path_for_volume_id os f id)
        × (mode ≡ read_write_user_file_mode)
    WroteAt id meta _ = ⊥

    register_at_wrote :
        (dir id : String) (meta : Metadata) (h : List (FsEvent Bytes))
        → (exec o (register_at os f json dir id meta) h).0 ≡ ok true
        → WroteAt id meta (exec o (register_at os f json dir id meta) h).1
    unfolding exec register_at ensure_volume_directory write_metadata ◌>>=◌ bind do_mkdir_all
        do_write_file ask
    register_at_wrote dir id meta h e = ground arith

    unless_wrote :
        (same : Bool) (dir id : String) (meta : Metadata) (h : List (FsEvent Bytes))
        → (exec o (when same then succeed false else register_at os f json dir id meta) h).0
          ≡ ok true
        → WroteAt id meta
            (exec o (when same then succeed false else register_at os f json dir id meta) h).1
    unfolding exec when◌then◌else◌ succeed
    unless_wrote true dir id meta h e = ground arith
    unless_wrote false dir id meta h e = register_at_wrote dir id meta h e

    -- What `RegisterMetadata` wrote, by the answer of `ReadMetadata`: the metadata that were there,
    -- with the new context; the new metadata, when there were none; and after any other error, for
    -- the empty volume ID, metadata that have nothing but the new context.
    abbrev pub Registered : Metadata → Result FsError Metadata → List (FsEvent Bytes) → Type 0
    Registered meta (ok existing) h =
        WroteAt existing.volume_id (record existing { volume_context = meta.volume_context }) h
    Registered meta (err e) h =
        ((is_not_found e ≡ true) → WroteAt meta.volume_id meta h)
        × ((is_not_found e ≡ false)
            → WroteAt "" (record empty_metadata { volume_context = meta.volume_context }) h)

    registered :
        (meta : Metadata) (r : Result FsError Metadata) (h : List (FsEvent Bytes))
        → (exec o (register_on os f json meta r) h).0 ≡ ok true
        → Registered meta r (exec o (register_on os f json meta r) h).1
    unfolding when◌then◌else◌
    registered meta (ok existing) h e = unless_wrote _ meta.volume_id _ _ h e
    registered meta (err e') h e = (
      (λ missing. rw missing (register_at_wrote _ _ meta h (rw missing at e))),
      (λ other. rw other (unless_wrote _ meta.volume_id _ _ h (rw other at e))),
    )

    -- When `RegisterMetadata` says that it wrote, its last call wrote what `Registered` says, on what
    -- `ReadMetadata` answered for the volume.
    pub register_wrote :
        (meta : Metadata) (h : List (FsEvent Bytes))
        → (exec o (register_metadata os f json meta) h).0 ≡ ok true
        → Registered meta
            (exec o (read_metadata os f meta.volume_id) h).0
            (exec o (register_metadata os f json meta) h).1
    unfolding register_metadata
    register_wrote meta h e =
        rw (exec-bind o (read_metadata os f meta.volume_id) (register_on os f json meta) h) (
          registered meta (exec o (read_metadata os f meta.volume_id) h).0
            (exec o (read_metadata os f meta.volume_id) h).1
            (rw (exec-bind o (read_metadata os f meta.volume_id) (register_on os f json meta) h) at
              e))

module _ {Bytes : Type 0} where
  -- The end of `RegisterMetadata` answers that it wrote, or an error.
  pub register_at-ne-false :
      (os : Os) (f : Filesystem) (json : Json Bytes) (o : FsOracle Bytes) (dir id : String)
      (meta : Metadata) (h : List (FsEvent Bytes))
      → (exec o (register_at os f json dir id meta) h).0 ≢ ok false
  unfolding exec register_at ensure_volume_directory write_metadata ◌>>=◌ bind do_mkdir_all
      do_write_file ask
  register_at-ne-false os f json o dir id meta h e = ground arith

-- How many files were opened, and how many closed.
unfoldable pub opened : {Bytes : Type 0} → List (FsEvent Bytes) → ℕ
opened [] = 0
opened ((open_file p, ok _) ∷ h) = 1 + opened h
opened (_ ∷ h) = opened h

unfoldable pub closed : {Bytes : Type 0} → List (FsEvent Bytes) → ℕ
closed [] = 0
closed ((close_file p, _) ∷ h) = 1 + closed h
closed (_ ∷ h) = closed h
