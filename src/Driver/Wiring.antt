-- ===== src/Driver/Wiring.antt =====
-- How the services of one driver go together.
use csi_runtime.Base.{String, ◌≡◌, refl, Bool, [], ◌∷◌, Option, none, some, Result, ok}
use csi_runtime.Rpc.{Error}
use csi_runtime.Identity.{controller_service, get_plugin_capabilities}
use csi_runtime.Controller.Manager.{Method, Messages, Manager}
use csi_runtime.Controller.Service.{controller_get_capabilities, own_capabilities}
use csi_runtime.Controller.Advertised.{serve, method, serve-none, IsUnimplemented}
use csi_runtime.Node.Server
use csi_runtime.Driver.{new_with_listener, new_controller}

module _ (M : Messages) (W : Type 0) where
  no_method : (m : Method) → method (new_controller {M = M} {W = W} none) m ≡ none
  no_method Method.get_volume = refl
  no_method Method.create_volume = refl
  no_method Method.delete_volume = refl
  no_method Method.publish_volume = refl
  no_method Method.unpublish_volume = refl
  no_method Method.validate_volume_capabilities = refl
  no_method Method.list_volumes = refl
  no_method Method.get_capacity = refl
  no_method Method.create_snapshot = refl
  no_method Method.delete_snapshot = refl
  no_method Method.list_snapshots = refl
  no_method Method.expand_volume = refl

  IsUnimplemented-new_controller :
      (m : Method)
      → IsUnimplemented
          (new_controller {M = M} {W = W} none)
          (serve (new_controller {M = M} {W = W} none) m)
  IsUnimplemented-new_controller m =
      serve-none (new_controller {M = M} {W = W} none) m (no_method m)

-- A driver with a controller manager advertises the controller service and serves its calls by that
-- manager; a driver without one does not advertise it, answers no controller capability, and answers
-- every other controller call as unimplemented.
controller_wiring :
    {M : Messages} {W : Type 0} (name version : String) (idm : Option (W → Result Error Bool × W))
    (ns : Server.Server)
    → ((cm : Manager M W)
        → let d = new_with_listener name version idm (some cm) ns in
          (get_plugin_capabilities d.ids ≡ controller_service ∷ []) × (d.cs ≡ cm))
      × (let d = new_with_listener {M = M} {W = W} name version idm none ns in
          (get_plugin_capabilities d.ids ≡ [])
          × ((w : W) → controller_get_capabilities d.cs w ≡ (ok [], w))
          × ((m : Method) → IsUnimplemented d.cs (serve d.cs m)))
unfolding new_with_listener get_plugin_capabilities controller_get_capabilities own_capabilities
controller_wiring {M} {W} name version idm ns =
    ((λ cm. (refl, refl)), (refl, (λ w. refl), IsUnimplemented-new_controller M W))
