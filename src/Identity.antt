-- ===== src/Identity.antt =====
-- identity/identityserver.go and identity/interfaces.go: the identity service.
pub mod Answers
use csi_runtime.Base.{
  String, ◌≡◌, ◌≢◌, Bool, true, false, List, [], ◌∷◌, Option, none, some, Result, ok, err,
  if◌then◌else◌, arith, refl,
}
use csi_runtime.Rpc.{Error, Errors, KeepsStatus, status, unavailable, internal}
use csi_runtime.Node.Server.{is_empty, status_or}

-- `W` is whatever the manager's `Probe` reads and changes; the manager may lack it.
pub record Server (W : Type 0) : Type 0 where
  pub name : String
  pub version : String
  pub controller : Bool
  pub probes : Option (W → Result Error Bool × W)

pub record GetPluginInfoResponse : Type 0 where
  pub name : String
  pub vendor_version : String

-- `PluginCapability_Service_Type`, as far as the service names it
pub data PluginCapability : Type 0 where
  controller_service : PluginCapability

-- The end of `Probe`, on what the manager answered: the value of `Ready`, or the error.
abbrev pub ready_or : {W : Type 0} → Errors → Result Error Bool × W → Result Error Bool × W
ready_or errors (ok ready, w) = (ok ready, w)
ready_or errors (err e, w) = (err (status_or errors e (status internal (errors.message e) [])), w)

-- Both branches of `Probe`.
abbrev pub answer_probe :
    {W : Type 0} → Errors → Option (W → Result Error Bool × W) → W → Result Error Bool × W
answer_probe errors none w = (ok true, w)
answer_probe errors (some p) w = ready_or errors (p w)

module _ {W : Type 0} (ids : Server W) where
  -- `GetPluginInfo`
  unfoldable pub get_plugin_info : Result Error GetPluginInfoResponse
  get_plugin_info =
      if is_empty ids.name
      then err (status unavailable "driver name not configured" [])
      else if is_empty ids.version
      then err (status unavailable "driver is missing version" [])
      else ok (record { name = ids.name; vendor_version = ids.version })

  -- `Probe`
  unfoldable pub probe : Errors → W → Result Error Bool × W
  probe errors = answer_probe errors ids.probes

  -- `GetPluginCapabilities`
  unfoldable pub get_plugin_capabilities : List PluginCapability
  get_plugin_capabilities = if ids.controller then controller_service ∷ [] else []
