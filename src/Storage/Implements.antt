-- ===== src/Storage/Implements.antt =====
-- Both stores implement storage/interfaces.go.
use csi_runtime.Base.{
  String, ◌≡◌, ◌∙◌, refl, Bool, true, false, Bool-cases, inl, inr, List, [], ◌∷◌, Result,
  if◌then◌else◌, ok, err,
}
use csi_runtime.Base.Prog.{Prog, ret, call, ask, succeed, when◌then◌else◌}
use csi_runtime.Base.Exec.{exec, exec-bind}
use csi_runtime.Base.AllCalls.{
  AllCalls, all_ret, all_call, all_calls, AllCalls-bind, AllCalls->>=, AllCalls-ask,
  AllCalls-succeed,
}
use csi_runtime.Rpc.{Error}
use csi_runtime.Metadata.{Metadata}
use csi_runtime.Storage.Json.{Json}
use csi_runtime.Storage.Memory
use csi_runtime.Storage.Memory.{MemoryFs}
use csi_runtime.Storage.Disk
use csi_runtime.Storage.Disk.{Filesystem, Os}
use csi_runtime.Storage.Disk.Calls.{
  FsError, is_not_found, AllCalls-do_open, FsCall, FsAnswer, Io, open_file, close_file, stat_open,
  decode, read_all, read_dir, is_not_mount_point, fs_asks,
}
use csi_runtime.Storage.Disk.Writes.{FsEvent, FsOracle, register_at-ne-false}
use csi_runtime.Storage.Interface.{Interface}

module _ {Bytes : Type 0} where
  abbrev pub memory : Json Bytes → Interface (MemoryFs Bytes) Error Bytes
  memory json = record {
    path_for_volume = Memory.path_for_volume json;
    remove_volume = Memory.remove_volume json;
    read_metadata = λ id m. (Memory.read_metadata json id m, m);
    list_volumes = λ m. (Memory.list_volumes json m, m);
    write_metadata = Memory.write_metadata json;
    register_metadata = Memory.register_metadata json;
    write_files = Memory.write_files json;
  }

  -- The state of the store on disk is the history of its calls.
  abbrev pub disk :
      Os → Filesystem → Json Bytes → FsOracle Bytes → Interface (List (FsEvent Bytes)) FsError Bytes
  disk os f json o = record {
    path_for_volume = λ id h. Disk.path_for_volume os f id;
    remove_volume = λ id h. exec o (Disk.remove_volume os f id) h;
    read_metadata = λ id h. exec o (Disk.read_metadata os f id) h;
    list_volumes = λ h. exec o (Disk.list_volumes os f) h;
    write_metadata = λ id meta h. exec o (Disk.write_metadata os f json id meta) h;
    register_metadata = λ meta h. exec o (Disk.register_metadata os f json meta) h;
    write_files = λ meta files h. exec o (Disk.write_files os f meta files) h;
  }

  -- The calls that only read.
  abbrev pub only_reads : FsCall Bytes → Bool
  only_reads (open_file p) = true
  only_reads (stat_open p) = true
  only_reads (close_file p) = true
  only_reads (decode p) = true
  only_reads (read_all p) = true
  only_reads (read_dir p) = true
  only_reads (is_not_mount_point p) = true
  only_reads _ = false

  abbrev OnlyReads : FsCall Bytes → Type 0
  OnlyReads c = only_reads c ≡ true

  -- The calls that may write, with their answers.
  unfoldable pub writes : List (FsEvent Bytes) → List (FsEvent Bytes)
  writes [] = []
  writes ((c, r) ∷ h) = let rest = writes h in if only_reads c then rest else (c, r) ∷ rest

  writes-exec :
      {A : Type 0} (o : FsOracle Bytes) (p : Prog (FsCall Bytes) FsAnswer A)
      (h : List (FsEvent Bytes))
      → AllCalls OnlyReads p
      → writes (exec o p h).1 ≡ writes h
  unfolding exec writes
  writes-exec o (ret a) h _ = refl
  writes-exec o (call c k) h (all_call _ _ is ks) = writes-exec o (k (o h c)) _ (ks (o h c)) ∙ rw is

  with_open-AllCalls :
      {A : Type 0} (os : Os) (f : Filesystem) (path : String) (on : FsError → FsError)
      (body : Io Bytes A)
      → AllCalls OnlyReads body
      → AllCalls OnlyReads (Disk.with_open os f path on body)
  unfolding Disk.with_open ask
  with_open-AllCalls os f path on body h = all_call _ _ refl (elim [
    | err e ↦ all_ret _
    | ok _ ↦ AllCalls-bind body _ h (λ a. all_call _ _ refl (λ _. all_ret _))
  ])

  read_metadata-AllCalls :
      (os : Os) (f : Filesystem) (id : String) → AllCalls OnlyReads (Disk.read_metadata os f id)
  unfolding Disk.read_metadata
  read_metadata-AllCalls os f id =
      with_open-AllCalls os f _ _ _ (search (all_calls, fs_asks) depth 12)

  list_found-AllCalls :
      (os : Os) (f : Filesystem) (dirs : List String)
      → AllCalls OnlyReads (Disk.list_found os f dirs)
  unfolding Disk.list_found
  list_found-AllCalls os f [] = search (all_calls, fs_asks)
  list_found-AllCalls os f (dir ∷ dirs) = AllCalls->>= _ _ (AllCalls-do_open _ refl) λ _.
      AllCalls->>= _ _
        (AllCalls-bind _ _
          (AllCalls-ask (close_file (Disk.metadata_path_for_volume_id os f dir)) refl)
          (λ _. AllCalls-succeed tt))
        λ _. AllCalls->>= _ _ (list_found-AllCalls os f dirs) λ vols. AllCalls-succeed (dir ∷ vols)

  list_volumes-AllCalls : (os : Os) (f : Filesystem) → AllCalls OnlyReads (Disk.list_volumes os f)
  unfolding Disk.list_volumes
  list_volumes-AllCalls os f = search (all_calls, fs_asks, list_found-AllCalls os f) depth 12

  module _ (os : Os) (f : Filesystem) (json : Json Bytes) (o : FsOracle Bytes) where
    unless :
        (same : Bool) (dir id : String) (meta : Metadata) (h : List (FsEvent Bytes))
        → (exec o (when same then succeed false else Disk.register_at os f json dir id meta) h).0
          ≡ ok false
        → writes
            (exec o (when same then succeed false else Disk.register_at os f json dir id meta) h).1
          ≡ writes h
    unfolding exec when◌then◌else◌ succeed
    unless true dir id meta h e = refl
    unless false dir id meta h e = absurd (register_at-ne-false os f json o dir id meta h e)

    registers :
        (meta : Metadata) (r : Result FsError Metadata) (h : List (FsEvent Bytes))
        → (exec o (Disk.register_on os f json meta r) h).0 ≡ ok false
        → writes (exec o (Disk.register_on os f json meta r) h).1 ≡ writes h
    unfolding when◌then◌else◌
    registers meta (ok existing) h e = unless _ _ _ _ h e
    registers meta (err x) h e = elim (Bool-cases (is_not_found x)) [
      | inl missing ↦ absurd (register_at-ne-false os f json o _ _ meta h (rw missing at e))
      | inr other ↦ rw other (unless _ _ _ _ h (rw other at e))
    ]

    register-writes :
        (meta : Metadata) (h : List (FsEvent Bytes))
        → (exec o (Disk.register_metadata os f json meta) h).0 ≡ ok false
        → writes (exec o (Disk.register_metadata os f json meta) h).1 ≡ writes h
    unfolding Disk.register_metadata
    register-writes meta h e =
        let split =
          exec-bind o (Disk.read_metadata os f meta.volume_id) (Disk.register_on os f json meta)
            h in
        rw split (
          registers meta _ _ (rw split at e)
          ∙ writes-exec o (Disk.read_metadata os f meta.volume_id) h
              (read_metadata-AllCalls os f meta.volume_id))

  -- Whatever the calls answer: `ReadMetadata` and `ListVolumes` of the store on disk make no call that may
  -- write, and neither does a `RegisterMetadata` that returns false.
  pub disk_only_reads :
      (os : Os) (f : Filesystem) (json : Json Bytes) (o : FsOracle Bytes)
      → let store = disk os f json o in
        ((id : String) (h : List (FsEvent Bytes)) → writes (store.read_metadata id h).1 ≡ writes h)
        × ((h : List (FsEvent Bytes)) → writes (store.list_volumes h).1 ≡ writes h)
        × ((meta : Metadata) (h : List (FsEvent Bytes))
            → (store.register_metadata meta h).0 ≡ ok false
            → writes (store.register_metadata meta h).1 ≡ writes h)
  disk_only_reads os f json o = (
    (λ id h. writes-exec o _ h (read_metadata-AllCalls os f id)),
    (λ h. writes-exec o _ h (list_volumes-AllCalls os f)),
    register-writes os f json o,
  )
