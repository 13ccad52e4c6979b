-- ===== src/Node/Requests.antt =====
-- The requests on volumes that the node server gets, each with its handler.
use csi_runtime.Base.{String, false}
use csi_runtime.Rpc.{Errors}
use csi_runtime.Csi.{
  NodePublishVolumeRequest, NodeStageVolumeRequest, NodeUnstageVolumeRequest,
  NodeUnpublishVolumeRequest,
}
use csi_runtime.Node.Calls.{Handler}
use csi_runtime.Node.Server.{Server}
use csi_runtime.Node.Unpublish.{node_unpublish_volume}
use csi_runtime.Node.Unstage.{node_unstage_volume}
use csi_runtime.Node.Publish.{node_publish_volume}
use csi_runtime.Node.Stage.{Slices, node_stage_volume}
use csi_runtime.Node.Guarded.{Guarded}
use csi_runtime.Node.Handlers.{
  node_unpublish_volume-Guarded, node_unstage_volume-Guarded, node_publish_volume-Guarded,
  node_stage_volume-Guarded,
}

pub data Request : Type 0 where
  publish : NodePublishVolumeRequest → Request
  stage : NodeStageVolumeRequest → Request
  unstage : NodeUnstageVolumeRequest → Request
  unpublish : NodeUnpublishVolumeRequest → Request

abbrev pub volume_id : Request → String
volume_id (publish r) = r.volume_id
volume_id (stage r) = r.volume_id
volume_id (unstage r) = r.volume_id
volume_id (unpublish r) = r.volume_id

-- What a handler uses besides the request: the packages outside and the server.
pub record Service : Type 0 where
  pub errors : Errors
  pub slices : Slices
  pub server : Server

abbrev pub handle : Service → Request → Handler (Unit {0})
handle s (publish r) = node_publish_volume s.errors s.server r
handle s (stage r) = node_stage_volume s.errors s.slices s.server r
handle s (unstage r) = node_unstage_volume s.server r
handle s (unpublish r) = node_unpublish_volume s.errors r

pub handle-Guarded : (s : Service) (r : Request) → Guarded (volume_id r) false (handle s r)
handle-Guarded s (publish r) = node_publish_volume-Guarded s.errors s.server r
handle-Guarded s (stage r) = node_stage_volume-Guarded s.errors s.slices s.server r
handle-Guarded s (unstage r) = node_unstage_volume-Guarded s.server r
handle-Guarded s (unpublish r) = node_unpublish_volume-Guarded s.errors r
