-- ===== src/Storage/Refines.antt =====
-- storage/memory.go: the store in memory keeps what Storage/Abstract promises.
use csi_runtime.Base.{◌≡◌, Option, none, some}
use csi_runtime.Dict.{Dict, get}
use csi_runtime.Metadata.{Metadata}
use csi_runtime.Storage.Json.{Json}
use csi_runtime.Storage.Memory.{MemoryFs}
use csi_runtime.Storage.Abstract.{Volume, Store, Reply}

module _ {Bytes : Type 0} where
  abbrev pub files_of : Dict Bytes → Volume Bytes
  files_of vol file = get file vol

  abbrev volume_view : Option (Dict Bytes) → Option (Volume Bytes)
  volume_view none = none
  volume_view (some vol) = some (files_of vol)

  -- The store as functions.
  abbrev pub view : MemoryFs Bytes → Store Bytes
  view m id = volume_view (get id m.files)

module _ {Bytes : Type 0} (json : Json Bytes) where
  -- The two answers and the two stores agree.
  abbrev Agree : Reply Bytes × MemoryFs Bytes → Reply Bytes × Store Bytes → Type 0
  Agree (r, m) (r', s) = (r ≡ r') × (view m ≡ s)
