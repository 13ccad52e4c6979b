-- ===== src/Driver.antt =====
-- driver/driver.go: the servers of one driver.
pub mod Wiring
pub mod Lifecycle
use csi_runtime.Base.{String, Bool, Option, none, some, Result, ok, err, true, false}
use csi_runtime.Rpc.{Error}
use csi_runtime.Identity
use csi_runtime.Controller.Manager.{Messages, Manager}
use csi_runtime.Node.Server

-- What the gRPC server is made with: its identity, controller and node server. The controller server
-- is its manager.
pub record Driver (M : Messages) (W : Type 0) : Type 0 where
  pub ids : Identity.Server W
  pub cs : Manager M W
  pub ns : Server.Server

abbrev is_given : {A : Type 0} → Option A → Bool
is_given none = false
is_given (some _) = true

-- `controller.New`: a nil manager has none of the interfaces.
abbrev pub new_controller : {M : Messages} {W : Type 0} → Option (Manager M W) → Manager M W
new_controller none = record {
  create_delete_volume = none;
  create_delete_snapshot = none;
  list_snapshot = none;
  list_volume = none;
  expand_volume = none;
  get_capacity = none;
  publish_unpublish_volume = none;
  get_volume = none;
  capabilities = none;
}
new_controller (some cm) = cm

-- `NewWithListener`, with `identity.New`; the listener is left out.
unfoldable pub new_with_listener :
    {M : Messages} {W : Type 0}
    → String
    → String
    → Option (W → Result Error Bool × W)
    → Option (Manager M W)
    → Server.Server
    → Driver M W
new_with_listener name version idm cm ns = record {
  ids = record { name = name; version = version; controller = is_given cm; probes = idm };
  cs = new_controller cm;
  ns = ns;
}

-- `New`: the driver is only made on a listener that could be opened, of which `listen` is
-- `ListenerFromUrl`.
abbrev on_listener :
    {M : Messages} {W L V : Type 0}
    → Driver M W
    → Result Error L × V
    → Result Error (L × Driver M W) × V
on_listener driver (err e, v) = (err e, v)
on_listener driver (ok opened, v) = (ok (opened, driver), v)

unfoldable pub new :
    {M : Messages} {W L V : Type 0}
    → (String → V → Result Error L × V)
    → String
    → String
    → String
    → Option (W → Result Error Bool × W)
    → Option (Manager M W)
    → Server.Server
    → V
    → Result Error (L × Driver M W) × V
unfolding new_with_listener
new listen endpoint name version idm cm ns v =
    on_listener (new_with_listener name version idm cm ns) (listen endpoint v)
