-- ===== src/Node/Publish.antt =====
-- `NodePublishVolume` of node/nodeserver.go.
use csi_runtime.Base.{Option, none, some, [], ◌∷◌, if◌then◌else◌}
use csi_runtime.Base.Prog.{when◌then◌else◌, ret, map_err, require, succeed, ◌>>=◌, ◌>>◌}
use csi_runtime.Rpc.{Error, Errors, status, internal, invalid_argument, failed_precondition}
use csi_runtime.Csi.{AccessType, block, mount, NodePublishVolumeRequest, VolumeCapability}
use csi_runtime.Node.Calls.{Handler}
use csi_runtime.Node.Asks.{do_stat, do_symlink, do_validate_capability}
use csi_runtime.Node.Capability.{validate_volume_capability}
use csi_runtime.Node.Server.{require_some, Server, require_text, locked, is_volume_path_mounted}
use csi_runtime.Node.Devices.{get_device_from_path, bind_mount}

module _ (errors : Errors) (ns : Server) (req : NodePublishVolumeRequest) where
  abbrev invalid_capability : Error → Error
  invalid_capability e =
      status invalid_argument "VolumeCapability is invalid: %v" (errors.message e ∷ [])

  -- The checks before the lock.
  unfoldable pub check_publish : VolumeCapability → Handler (Unit {0})
  check_publish vc = do
    map_err invalid_capability (ret (validate_volume_capability vc))
    when ns.manager.validates
        then map_err invalid_capability (do_validate_capability vc)
        else succeed tt
    target_file ←
        map_err
          (λ e.
            status failed_precondition "Can't stat target path '%s': %v"
              (req.target_path ∷ errors.message e ∷ []))
          (do_stat req.target_path)
    require target_file.is_dir (
        status failed_precondition "staging target path '%s' isn't a directory"
          (req.staging_target_path ∷ []))

  -- The case `VolumeCapability_Block`.
  unfoldable pub publish_block : Handler (Unit {0})
  publish_block = do
    block_path ← get_device_from_path req.staging_target_path
    map_err (λ e. status internal "can't create symlink: %v" (errors.message e ∷ []))
        (do_symlink block_path req.target_path)

  -- The case `VolumeCapability_Mount`.
  unfoldable pub publish_mount : Handler (Unit {0})
  publish_mount = do
    mounted ← is_volume_path_mounted req.target_path
    when mounted then succeed tt else do
      file ←
          map_err (λ _. status failed_precondition "can't stat staging file" [])
            (do_stat req.staging_target_path)
      require file.is_dir (status failed_precondition "can't stat staging file" [])
      map_err
          (λ e.
            status internal "NodePublishVolume mount of disk failed: %v" (errors.message e ∷ []))
          (bind_mount req.staging_target_path req.target_path req.readonly)

  -- The switch on the access type, which runs under the lock of the volume.
  unfoldable pub publish : Option AccessType → Handler (Unit {0})
  publish none = succeed tt
  publish (some block) = publish_block
  publish (some (mount m)) = publish_mount

  -- `NodePublishVolume`
  unfoldable pub node_publish_volume : Handler (Unit {0})
  node_publish_volume = do
    require_text req.volume_id "NodePublishVolume Volume ID must be provided"
    require_text req.staging_target_path "NodePublishVolume Staging Target Path must be provided"
    require_text req.staging_target_path "NodePublishVolume Target Path must be provided"
    vc ←
        require_some req.volume_capability
          (status invalid_argument "NodePublishVolume Volume Capability must be provided" [])
    check_publish vc
    locked req.volume_id (publish vc.access_type)
