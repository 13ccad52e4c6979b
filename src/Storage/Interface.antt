-- ===== src/Storage/Interface.antt =====
-- storage/interfaces.go: `Interface`, which both stores implement.
use csi_runtime.Base.{String, Bool, List, Result}
use csi_runtime.Dict.{Dict}
use csi_runtime.Metadata.{Metadata}

-- `Interface`, with `MetadataReader`, `MetadataWriter` and `DataWriter`, over a state of its own and
-- errors of its own.
pub record Interface (State E Bytes : Type 0) : Type 0 where
  pub path_for_volume : String → State → String
  pub remove_volume : String → State → Result E (Unit {0}) × State
  pub read_metadata : String → State → Result E Metadata × State
  pub list_volumes : State → Result E (List String) × State
  pub write_metadata : String → Metadata → State → Result E (Unit {0}) × State
  pub register_metadata : Metadata → State → Result E Bool × State
  pub write_files : Metadata → Dict Bytes → State → Result E (Unit {0}) × State
