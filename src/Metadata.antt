-- ===== src/Metadata.antt =====
-- metadata/metadata.go: what is kept about a volume.
use csi_runtime.Base.{String}
use csi_runtime.Csi.{Context, NodePublishVolumeRequest}

pub record Metadata : Type 0 where
  pub volume_id : String
  pub target_path : String
  pub volume_context : Context

-- `FromNodePublishVolumeRequest`
unfoldable pub from_node_publish_volume_request : NodePublishVolumeRequest → Metadata
from_node_publish_volume_request request = record {
  volume_id = request.volume_id;
  target_path = request.target_path;
  volume_context = request.volume_context;
}
