-- ===== src/Controller/Manager.antt =====
-- controller/controllerserver.go and controller/interface.go: the controller service passes each call
-- on to the driver's manager, where that has the method, and advertises what the manager has.
use csi_runtime.Base.{String, List, [], Option, none, some, Result, err}
use csi_runtime.Rpc.{Error, status, unimplemented}

-- The calls of the service, `ControllerGetCapabilities` apart.
pub data Method : Type 0 where
  get_volume create_volume delete_volume publish_volume unpublish_volume : Method
  validate_volume_capabilities list_volumes get_capacity : Method
  create_snapshot delete_snapshot list_snapshots expand_volume : Method

-- `ControllerServiceCapability_RPC_Type`, in the order of its numbers
pub data Capability : Type 0 where
  unknown create_delete_volume publish_unpublish_volume list_volumes get_capacity : Capability
  create_delete_snapshot list_snapshots clone_volume publish_readonly expand_volume : Capability
  list_volumes_published_nodes volume_condition get_volume single_node_multi_writer : Capability

-- The requests and responses of the protocol, which the service only passes on.
pub record Messages : Type 1 where
  pub Request : Method → Type 0
  pub Response : Method → Type 0

-- `W` is whatever the manager's methods read and change.
module _ (M : Messages) (W : Type 0) where
  abbrev pub Implementation : Method → Type 0
  Implementation m = M.Request m → W → Result Error (M.Response m) × W

  -- The interfaces that a manager may have.
  pub record Manager : Type 0 where
    pub create_delete_volume :
        Option (Implementation Method.create_volume × Implementation Method.delete_volume)
    pub create_delete_snapshot :
        Option (Implementation Method.create_snapshot × Implementation Method.delete_snapshot)
    pub list_snapshot : Option (Implementation Method.list_snapshots)
    pub list_volume : Option (Implementation Method.list_volumes)
    pub expand_volume : Option (Implementation Method.expand_volume)
    pub get_capacity : Option (Implementation Method.get_capacity)
    pub publish_unpublish_volume :
        Option (Implementation Method.publish_volume × Implementation Method.unpublish_volume)
    pub get_volume : Option (Implementation Method.get_volume)
    pub capabilities : Option (W → Result Error (List Capability) × W)

abbrev pub not_implemented : {Q A W : Type 0} → String → Q → W → Result Error A × W
not_implemented text req w = (err (status unimplemented text []), w)

-- `if s, ok := cs.manager.(I); ok { return s.F(ctx, req) }; return Unimplemented`
abbrev pub pass :
    {Q A W : Type 0} → Option (Q → W → Result Error A × W) → String → Q → W → Result Error A × W
pass none text = not_implemented text
pass (some f) text = f

abbrev pub first : {A B : Type 0} → Option (A × B) → Option A
first none = none
first (some (a, b)) = some a

abbrev pub second : {A B : Type 0} → Option (A × B) → Option B
second none = none
second (some (a, b)) = some b
