-- ===== src/Tests/Services.antt =====
-- The controller, the identity service and the driver.
use csi_runtime.Base.{String, ◌≡◌, ◌⊎◌, refl, true, false, List, [], ◌∷◌, none, some, Result, ok}
use csi_runtime.Rpc.{Error}
use csi_runtime.Controller.Manager.{Method, Capability, Messages, Manager, Implementation}
use csi_runtime.Controller.Service.{controller_get_capabilities, own_capabilities}
use csi_runtime.Controller.Advertised.{
  number, contains, serve, method, IsUnimplemented, advertised, not_advertised,
}
use csi_runtime.Driver.{new_controller}

-- Every request and response is a text; the methods count their calls in a list.
abbrev messages : Messages
messages = record { Request = λ m. String; Response = λ m. String }

abbrev echo : String → List String → Result Error String × List String
echo req w = (ok req, req ∷ w)

abbrev manager : Manager messages (List String)
manager = record (new_controller none) {
  create_delete_volume = some (echo, echo);
  list_volume = some echo;
}

abbrev with_capabilities : Manager messages (List String)
with_capabilities = record manager {
  capabilities = some (λ w. (ok (Capability.clone_volume ∷ []), w));
}

advertised_example :
    (caps : List Capability) × (controller_get_capabilities manager [] ≡ (ok caps, []))
    × (((contains Capability.create_delete_volume caps ≡ true)
          × ((f : Implementation messages (List String) Method.delete_volume) × (method manager
                  Method.delete_volume
                ≡ some f)
              × (serve manager Method.delete_volume ≡ f)))
        ⊎ ((contains Capability.create_delete_volume caps ≡ false)
            × IsUnimplemented manager (serve manager Method.delete_volume)))
advertised_example =
    advertised manager Method.delete_volume Capability.create_delete_volume [] refl refl

abbrev caps : List Capability
caps = Capability.clone_volume ∷ Capability.create_delete_volume ∷ Capability.list_volumes ∷ []

caps_answered : controller_get_capabilities with_capabilities [] ≡ (ok caps, [])
unfolding controller_get_capabilities own_capabilities
caps_answered = refl

no_snapshots : contains Capability.list_snapshots caps ≡ false
unfolding number
no_snapshots = refl

not_advertised_example :
    IsUnimplemented with_capabilities (serve with_capabilities Method.list_snapshots)
not_advertised_example =
    not_advertised with_capabilities Method.list_snapshots Capability.list_snapshots caps [] [] refl
      caps_answered no_snapshots
