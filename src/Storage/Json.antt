-- ===== src/Storage/Json.antt =====
-- What the stores take from encoding/json and k8s.io/apimachinery/pkg/api/equality.
use csi_runtime.Base.{◌≡◌, Bool, true, Result, ok}
use csi_runtime.Rpc.{Error}
use csi_runtime.Csi.{Context}
use csi_runtime.Metadata.{Metadata}

-- `Bytes` is Go's `[]byte`; `deep_equal` is `apiequality.Semantic.DeepEqual`.
pub record Json (Bytes : Type 0) : Type 0 where
  pub marshal : Metadata → Result Error Bytes
  pub unmarshal : Bytes → Result Error Metadata
  pub deep_equal : Context → Context → Bool

module _ {Bytes : Type 0} (json : Json Bytes) where
  -- The same volume, path and context, whatever the order of the context's entries.
  abbrev pub Same : Metadata → Metadata → Type 0
  Same a b =
      (a.volume_id ≡ b.volume_id)
      × (a.target_path ≡ b.target_path)
      × (json.deep_equal a.volume_context b.volume_context ≡ true)

  -- As documented, what `Marshal` wrote `Unmarshal` reads again.
  abbrev pub RoundTrips : Type 0
  RoundTrips =
      (meta : Metadata) (b : Bytes)
      → json.marshal meta ≡ ok b
      → (read : Metadata) × (json.unmarshal b ≡ ok read) × Same read meta
