-- ===== src/Node/Capability.antt =====
-- The checks of a volume capability in node/nodeserver.go, and `Readonly` of node/utils.go.
use csi_runtime.Base.{Bool, true, false, Option, none, some, Result, ok, err}
use csi_runtime.Rpc.{Error, other}
use csi_runtime.Csi.{
  Mode, single_node_reader_only, multi_node_reader_only, MountVolume, AccessType, block, mount,
  VolumeCapability,
}

-- `validateAccessMode`
unfoldable pub validate_access_mode : Option Mode → Result Error (Unit {0})
validate_access_mode none = err (other "access mode is nil")
validate_access_mode (some mode) = ok tt

-- `GetBlock`, as whether it is not nil
abbrev pub has_block : Option AccessType → Bool
has_block (some block) = true
has_block _ = false

-- `GetMount`
abbrev pub get_mount : Option AccessType → Option MountVolume
get_mount (some (mount m)) = some m
get_mount _ = none

-- The two tests of `validateVolumeCapability` on `mnt` and `blk`.
abbrev check_access_type : Option MountVolume → Bool → Result Error (Unit {0})
check_access_type none false = err (other "must specify an access type")
check_access_type (some m) true = err (other "specified both mount and block access types")
check_access_type _ _ = ok tt

-- `validateVolumeCapability`
unfoldable pub validate_volume_capability : VolumeCapability → Result Error (Unit {0})
unfolding validate_access_mode
validate_volume_capability vc = elim (validate_access_mode vc.access_mode) [
  | err e ↦ err e
  | ok _ ↦ check_access_type (get_mount vc.access_type) (has_block vc.access_type)
]

-- `Readonly`
unfoldable pub readonly : VolumeCapability → Bool
readonly vc = elim vc.access_mode [
  | some single_node_reader_only ↦ true
  | some multi_node_reader_only ↦ true
  | _ ↦ false
]
