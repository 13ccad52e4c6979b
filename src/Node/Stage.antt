-- ===== src/Node/Stage.antt =====
-- `NodeStageVolume` of node/nodeserver.go.
use csi_runtime.Base.{
  String, Bool, true, false, not, List, [], ◌∷◌, Option, none, some, str_eq, if◌then◌else◌,
}
use csi_runtime.Base.Prog.{when◌then◌else◌, ret, map_err, require, succeed, ◌>>=◌, ◌>>◌}
use csi_runtime.Rpc.{
  Error, Errors, status, internal, invalid_argument, failed_precondition, unimplemented,
}
use csi_runtime.Csi.{
  AccessType, NodeStageVolumeRequest, VolumeCapability, MountVolume, block, mount,
}
use csi_runtime.Node.Calls.{Handler, MountResponse}
use csi_runtime.Node.Asks.{
  do_stat, do_symlink, do_validate_capability, do_attach_block, do_mount, do_populate,
  do_format_and_mount_sensitive, do_mount_sensitive,
}
use csi_runtime.Node.Capability.{validate_volume_capability, get_mount, readonly}
use csi_runtime.Node.Server.{Server, require_text, require_some, is_empty, locked, status_or}

-- The functions of github.com/duke-git/lancet/v2/slice that the handler calls.
pub record Slices : Type 0 where
  pub union : List String → List String → List String
  pub append_if_absent : List String → String → List String
  pub difference : List String → List String → List String

-- `defaultFsType` of node/utils_linux.go and `fsTypeXFS` of node/utils.go
abbrev pub default_fs_type : String
default_fs_type = "ext4"

abbrev pub fs_type_xfs : String
fs_type_xfs = "xfs"

-- The file system type of the capability, if it has one.
unfoldable pub fs_type_or : Option MountVolume → String → String
fs_type_or none t = t
fs_type_or (some mnt) t = if is_empty mnt.fs_type then t else mnt.fs_type

-- The file system type of the response of `Mount`, below that of the capability.
unfoldable pub response_fs_type : Option MountVolume → MountResponse → String
response_fs_type mnt m =
    fs_type_or mnt (if is_empty m.fstype then fs_type_or mnt default_fs_type else m.fstype)

module _ (slices : Slices) where
  -- The mount flags of the capability.
  unfoldable pub capability_flags : Option MountVolume → List String
  capability_flags none = []
  capability_flags (some mnt) = slices.union [] mnt.mount_flags

  -- `options`, before those of the manager are added
  unfoldable pub mount_options : VolumeCapability → Option MountVolume → String → List String
  mount_options vc mnt fs_type =
      let flags = capability_flags mnt in
      let options =
        if str_eq fs_type fs_type_xfs then slices.append_if_absent flags "nouuid" else flags in
      if readonly vc then slices.append_if_absent options "ro" else options

module _ (errors : Errors) (slices : Slices) (ns : Server) (req : NodeStageVolumeRequest) where
  abbrev internal_error : Error → Error
  internal_error e = status_or errors e (status internal (errors.message e) [])

  -- The checks before the lock.
  unfoldable pub check_stage : VolumeCapability → Handler (Unit {0})
  check_stage vc = do
    map_err (λ e. status invalid_argument "VolumeCapability is invalid: %v" (errors.message e ∷ []))
        (ret (validate_volume_capability vc))
    when ns.manager.validates
        then map_err
            (λ e.
              status_or errors e
                (status invalid_argument "VolumeCapability is invalid: %v" (errors.message e ∷ [])))
            (do_validate_capability vc)
        else succeed tt
    target_file ←
        map_err
          (λ e.
            status failed_precondition "Can't stat staging target path '%s': %v"
              (req.staging_target_path ∷ errors.message e ∷ []))
          (do_stat req.staging_target_path)
    require target_file.is_dir (
        status failed_precondition "staging target path '%s' isn't a directory"
          (req.staging_target_path ∷ []))

  -- `AttachBlock`, where the manager has it; the path is empty otherwise.
  unfoldable pub attach : Handler String
  attach =
      when ns.manager.blocks
      then map_err internal_error
          (do_attach_block req.volume_context req.publish_context req.secrets)
      else succeed ""

  -- The case `VolumeCapability_Block`.
  unfoldable pub stage_block : String → Handler (Unit {0})
  stage_block block_path = do
    require (not (is_empty block_path)) (status unimplemented "Block not implemented" [])
    map_err (λ e. status internal "can't create symlink: %v" (errors.message e ∷ []))
        (do_symlink block_path req.staging_target_path)

  -- Formatting and mounting what `Mount` answered; the result is the new value of `provisionned`.
  unfoldable pub mount_response : VolumeCapability → Option MountResponse → Handler Bool
  mount_response vc none = succeed false
  mount_response vc (some m) =
      let mnt = get_mount vc.access_type in
      let fs_type = response_fs_type mnt m in
      let options = mount_options slices vc mnt fs_type in
      let local_options = slices.union options m.options in
      let local_sensitive_options = slices.difference m.sensitive_options options in
      do
        when m.format
            then map_err
                (λ e. status internal "fail to format and mount: %v" (errors.message e ∷ []))
                (do_format_and_mount_sensitive m.source req.staging_target_path m.fstype
                  local_options local_sensitive_options)
            else map_err
                (λ e.
                  status internal "fail to mount '%s': %v"
                    (req.staging_target_path ∷ errors.message e ∷ []))
                (do_mount_sensitive m.source req.staging_target_path fs_type local_options
                  local_sensitive_options)
        succeed true

  -- The part of the manager's `Mount`, where it has it.
  unfoldable pub stage_mount : VolumeCapability → Handler Bool
  stage_mount vc =
      when ns.manager.mounts
      then (do
        m ← map_err internal_error (
            do_mount req.staging_target_path (fs_type_or (get_mount vc.access_type) default_fs_type)
              req.volume_context req.publish_context req.secrets)
        mount_response vc m)
      else succeed false

  -- The part of the manager's `Populate`, where it has it.
  unfoldable pub stage_populate : Bool → Handler Bool
  stage_populate provisionned =
      when ns.manager.populates
      then (do
        map_err internal_error
            (do_populate req.staging_target_path req.volume_context req.publish_context req.secrets)
        succeed true)
      else succeed provisionned

  -- The case `VolumeCapability_Mount`.
  unfoldable pub stage_filesystem : VolumeCapability → Handler (Unit {0})
  stage_filesystem vc = do
    mounted ← stage_mount vc
    provisionned ← stage_populate mounted
    require provisionned (status unimplemented "Mount not implemented" [])

  -- The switch on the access type.
  unfoldable pub stage_access : VolumeCapability → String → Option AccessType → Handler (Unit {0})
  stage_access vc block_path none = succeed tt
  stage_access vc block_path (some block) = stage_block block_path
  stage_access vc block_path (some (mount m)) = stage_filesystem vc

  -- What runs under the lock of the volume.
  unfoldable pub stage : VolumeCapability → Handler (Unit {0})
  stage vc = do block_path ← attach; stage_access vc block_path vc.access_type

  -- `NodeStageVolume`
  unfoldable pub node_stage_volume : Handler (Unit {0})
  node_stage_volume = do
    require_text req.volume_id "NodeStageVolume Volume ID must be provided"
    require_text req.staging_target_path "NodeStageVolume Staging Target Path must be provided"
    require_text req.staging_target_path "NodeStageVolume Target Path must be provided"
    vc ←
        require_some req.volume_capability
          (status invalid_argument "NodeStageVolume Volume Capability must be provided" [])
    check_stage vc
    locked req.volume_id (stage vc)
