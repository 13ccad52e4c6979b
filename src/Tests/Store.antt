-- ===== src/Tests/Store.antt =====
-- The store in memory, with metadata kept as itself.
use csi_runtime.Base.{
  ◌≡◌, refl, Bool, true, false, [], ◌∷◌, Result, ok, err, arith, str_eq, eq_iff, if◌then◌else◌,
}
use csi_runtime.Rpc.{Error, other}
use csi_runtime.Csi.{Context}
use csi_runtime.Dict.{get}
use csi_runtime.Metadata.{Metadata}
use csi_runtime.Storage.Json.{Json, Same, RoundTrips}
use csi_runtime.Storage.Memory.{MemoryFs, read_metadata, register_metadata}
use csi_runtime.Storage.Stored.{register_read}

abbrev same_context : Context → Context → Bool
same_context [] [] = true
same_context ((k, v) ∷ xs) ((k', v') ∷ ys) =
    let rest = same_context xs ys in
    if str_eq k k' then (if str_eq v v' then rest else false) else false
same_context _ _ = false

same_context_refl : (c : Context) → same_context c c ≡ true
same_context_refl [] = refl
same_context_refl ((k, v) ∷ xs) = ground (arith, same_context_refl xs, eq_iff k k, eq_iff v v)

abbrev marshal : Metadata → Result Error Metadata
marshal meta = if str_eq meta.target_path "" then err (other "unsupported") else ok meta

abbrev json : Json Metadata
json = record { marshal = marshal; unmarshal = λ b. ok b; deep_equal = same_context }

json-RoundTrips : RoundTrips json
json-RoundTrips meta b h = (meta, ground arith, (refl, refl, same_context_refl meta.volume_context))

abbrev meta : Metadata
meta = record { volume_id = "a"; target_path = "/target"; volume_context = ("k", "v") ∷ [] }

abbrev empty_store : MemoryFs Metadata
empty_store = record { files = [] }

abbrev stored : MemoryFs Metadata
stored = (register_metadata json meta empty_store).1

registers : (register_metadata json meta empty_store).0 ≡ ok true
unfolding register_metadata get
registers = refl

register_read_example :
    (read : Metadata) × (read_metadata json "a" stored ≡ ok read) × Same json read meta
register_read_example = register_read json json-RoundTrips meta empty_store registers
