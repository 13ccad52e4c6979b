-- ===== src/Tests/Refines.antt =====
-- The store in memory, against the store as functions, and what the store on disk writes.
use csi_runtime.Base.{String, ◌≡◌, false, List, [], ◌∷◌, none, ok, err}
use csi_runtime.Rpc.{other}
use csi_runtime.Metadata.{Metadata}
use csi_runtime.Storage.Json.{Json}
use csi_runtime.Storage.Memory.{MemoryFs}
use csi_runtime.Storage.Abstract.{Op, register, write, read, remove, list, path}
use csi_runtime.Storage.Disk.{Filesystem, Os}
use csi_runtime.Storage.Disk.Calls.{not_exist}
use csi_runtime.Storage.Disk.Writes.{FsEvent, FsOracle}
use csi_runtime.Storage.Implements.{disk, writes, disk_only_reads}

abbrev json : Json String
json = record {
  marshal = λ m. ok m.volume_id;
  unmarshal = λ b. err (other "invalid character");
  deep_equal = λ a b. false;
}

abbrev meta : Metadata
meta = record { volume_id = "a"; target_path = "/target"; volume_context = [] }

abbrev store : MemoryFs String
store = record { files = ("b", ("f", "x") ∷ []) ∷ [] }

abbrev ops : List (Op String)
ops =
    register meta
    ∷ write meta (("tls.crt", "new") ∷ [])
    ∷ read "a"
    ∷ remove "b"
    ∷ read "b"
    ∷ list
    ∷ path "a"
    ∷ []

abbrev os : Os
os = record { join = λ a b. a; parse_int = λ s. err (other s); is_not_exist = λ e. false }

abbrev root : Filesystem
root = record { base_dir = "data"; fixed_fs_group = none; fs_group_volume_attribute_key = "" }

-- Nothing succeeds.
abbrev failing : FsOracle String
failing h c = err not_exist

disk_only_reads_example :
    let store = disk os root json failing in
    ((id : String) (h : List (FsEvent String)) → writes (store.read_metadata id h).1 ≡ writes h)
    × ((h : List (FsEvent String)) → writes (store.list_volumes h).1 ≡ writes h)
    × ((meta : Metadata) (h : List (FsEvent String))
        → (store.register_metadata meta h).0 ≡ ok false
        → writes (store.register_metadata meta h).1 ≡ writes h)
disk_only_reads_example = disk_only_reads os root json failing
