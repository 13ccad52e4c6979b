-- ===== src/Csi.antt =====
-- The messages of the CSI protocol that the source reads (package csi, generated from the interface
-- of docs/spec.md). A pointer that may be nil is an `Option`; a `oneof` that is set holds a value.
use csi_runtime.Base.{String, Bool, List, Option}

-- A Go `map[string]string`.
abbrev pub Context : Type 0
Context = List (String × String)

-- `VolumeCapability_AccessMode_Mode`
pub data Mode : Type 0 where
  unknown single_node_writer single_node_reader_only multi_node_reader_only : Mode
  multi_node_single_writer multi_node_multi_writer : Mode
  single_node_single_writer single_node_multi_writer : Mode

-- `VolumeCapability_MountVolume`
pub record MountVolume : Type 0 where
  pub fs_type : String
  pub mount_flags : List String

-- The `oneof` of `VolumeCapability`.
pub data AccessType : Type 0 where
  block : AccessType
  mount : MountVolume → AccessType

pub record VolumeCapability : Type 0 where
  pub access_type : Option AccessType
  pub access_mode : Option Mode

pub record NodePublishVolumeRequest : Type 0 where
  pub volume_id : String
  pub target_path : String
  pub staging_target_path : String
  pub volume_context : Context
  pub volume_capability : Option VolumeCapability
  pub readonly : Bool

pub record NodeStageVolumeRequest : Type 0 where
  pub volume_id : String
  pub staging_target_path : String
  pub volume_context : Context
  pub publish_context : Context
  pub secrets : Context
  pub volume_capability : Option VolumeCapability

pub record NodeUnstageVolumeRequest : Type 0 where
  pub volume_id : String
  pub staging_target_path : String

pub record NodeUnpublishVolumeRequest : Type 0 where
  pub volume_id : String
  pub target_path : String
