-- ===== src/Node/Info.antt =====
-- The calls of node/nodeserver.go that do not touch a volume.
use csi_runtime.Base.{String, List, [], ◌∷◌, ◌++◌, Option, Result, ok, err, ℤ, if◌then◌else◌}
use csi_runtime.Rpc.{Error, status, unimplemented}
use csi_runtime.Csi.{Context}
use csi_runtime.Node.Server.{Server}

-- `NodeServiceCapability_RPC_Type`, as far as the source names it
pub data NodeCapability : Type 0 where
  stage_unstage_volume expand_volume : NodeCapability

pub record NodeGetInfoResponse : Type 0 where
  pub node_id : String
  pub max_volumes_per_node : ℤ
  pub accessible_topology : Option Context

module _ (ns : Server) where
  -- `NodeGetCapabilities`
  unfoldable pub node_get_capabilities : Result Error (List NodeCapability)
  node_get_capabilities =
      let cap : List NodeCapability = stage_unstage_volume ∷ [] in
      ok (if ns.manager.expands then cap ++ (expand_volume ∷ []) else cap)

  -- `NodeGetVolumeStats`
  unfoldable pub node_get_volume_stats : Result Error (Unit {0})
  node_get_volume_stats = err (status unimplemented "NodeGetVolumeStats not implemented" [])

  -- `NodeExpandVolume`
  unfoldable pub node_expand_volume : Result Error (Unit {0})
  node_expand_volume = err (status unimplemented "NodeExpandVolume not implemented" [])

  -- `NodeGetInfo`
  unfoldable pub node_get_info : Result Error NodeGetInfoResponse
  node_get_info = ok (record {
    node_id = ns.node_id;
    max_volumes_per_node = ns.max_volumes_per_node;
    accessible_topology = ns.segments;
  })
