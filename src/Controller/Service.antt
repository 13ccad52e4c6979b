-- ===== src/Controller/Service.antt =====
-- The handlers of controller/controllerserver.go.
use csi_runtime.Base.{List, [], ◌∷◌, ◌++◌, Option, none, some, Result, ok, err}
use csi_runtime.Rpc.{Error}
use csi_runtime.Controller.Manager.{
  Method, Capability, Messages, Implementation, Manager, pass, first, second, not_implemented,
}

abbrev pub when_has : {A : Type 0} → Option A → Capability → List Capability
when_has none c = []
when_has (some _) c = c ∷ []

-- The answer of the manager's `GetCapabilities`, with what the service adds.
abbrev pub add_capabilities :
    {W : Type 0}
    → List Capability
    → Result Error (List Capability) × W
    → Result Error (List Capability) × W
add_capabilities own (ok caps, w) = (ok (caps ++ own), w)
add_capabilities own (err e, w) = (err e, w)

-- Both branches of `ControllerGetCapabilities`.
abbrev pub answer_capabilities :
    {W : Type 0}
    → List Capability
    → Option (W → Result Error (List Capability) × W)
    → W
    → Result Error (List Capability) × W
answer_capabilities own none w = (ok own, w)
answer_capabilities own (some get) w = add_capabilities own (get w)

module _ {M : Messages} {W : Type 0} (cs : Manager M W) where
  -- `ControllerGetVolume`
  unfoldable pub controller_get_volume : Implementation M W Method.get_volume
  controller_get_volume = pass cs.get_volume "ControllerGetVolume not implemented"

  -- `CreateVolume`
  unfoldable pub create_volume : Implementation M W Method.create_volume
  create_volume = pass (first cs.create_delete_volume) "CreateVolume not implemented"

  -- `DeleteVolume`
  unfoldable pub delete_volume : Implementation M W Method.delete_volume
  delete_volume = pass (second cs.create_delete_volume) "DeleteVolume not implemented"

  -- `ControllerPublishVolume`
  unfoldable pub controller_publish_volume : Implementation M W Method.publish_volume
  controller_publish_volume =
      pass (first cs.publish_unpublish_volume) "ControllerPublishVolume not implemented"

  -- `ControllerUnpublishVolume`
  unfoldable pub controller_unpublish_volume : Implementation M W Method.unpublish_volume
  controller_unpublish_volume =
      pass (second cs.publish_unpublish_volume) "ControllerUnpublishVolume not implemented"

  -- `ValidateVolumeCapabilities`
  unfoldable pub validate_volume_capabilities :
      Implementation M W Method.validate_volume_capabilities
  validate_volume_capabilities = not_implemented "ValidateVolumeCapabilities not implemented"

  -- `ListVolumes`
  unfoldable pub list_volumes : Implementation M W Method.list_volumes
  list_volumes = pass cs.list_volume "ListVolumes not implemented"

  -- `GetCapacity`
  unfoldable pub get_capacity : Implementation M W Method.get_capacity
  get_capacity = pass cs.get_capacity "GetCapacity not implemented"

  -- `CreateSnapshot`
  unfoldable pub create_snapshot : Implementation M W Method.create_snapshot
  create_snapshot = pass (first cs.create_delete_snapshot) "CreateSnapshot not implemented"

  -- `DeleteSnapshot`
  unfoldable pub delete_snapshot : Implementation M W Method.delete_snapshot
  delete_snapshot = pass (second cs.create_delete_snapshot) "DeleteSnapshot not implemented"

  -- `ListSnapshots`
  unfoldable pub list_snapshots : Implementation M W Method.list_snapshots
  list_snapshots = pass cs.list_snapshot "ListSnapshots not implemented"

  -- `ControllerExpandVolume`
  unfoldable pub controller_expand_volume : Implementation M W Method.expand_volume
  controller_expand_volume = pass cs.expand_volume "ControllerExpandVolume not implemented"

  -- The capabilities that the service adds to those of the manager, in order.
  unfoldable pub own_capabilities : List Capability
  own_capabilities =
      when_has cs.create_delete_volume Capability.create_delete_volume
      ++ (when_has cs.publish_unpublish_volume Capability.publish_unpublish_volume
          ++ (when_has cs.list_volume Capability.list_volumes
              ++ (when_has cs.get_capacity Capability.get_capacity
                  ++ (when_has cs.create_delete_snapshot Capability.create_delete_snapshot
                      ++ (when_has cs.list_snapshot Capability.list_snapshots
                          ++ (when_has cs.expand_volume Capability.expand_volume
                              ++ when_has cs.get_volume Capability.get_volume))))))

  -- `ControllerGetCapabilities`
  unfoldable pub controller_get_capabilities : W → Result Error (List Capability) × W
  controller_get_capabilities = answer_capabilities own_capabilities cs.capabilities
