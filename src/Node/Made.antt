-- ===== src/Node/Made.antt =====
-- What a node server that was made advertises.
use csi_runtime.Base.{
  String, ◌≡◌, ◌↔◌, Bool, true, false, ◌||◌, List, [], ◌∷◌, none, Result, ok, err, ℤ, arith,
}
use csi_runtime.Rpc.{Error, status, unimplemented}
use csi_runtime.Node.Server.{Manager, Server, new}
use csi_runtime.Node.Info.{
  NodeCapability, stage_unstage_volume, expand_volume, node_get_capabilities, node_expand_volume,
  node_get_info,
}

-- `New` makes a server exactly when the mounter was made and the manager has `Mount`, `Populate` or
-- `Block`, and a server that it made answers `NodeGetInfo` with the node ID and the limit that it was
-- made with, and no topology.
new_lem :
    (mounter : Result Error (Unit {0})) (node_id : String) (max : ℤ) (manager : Manager)
    → ((new mounter node_id max manager
          ≡ ok (record {
            node_id = node_id;
            manager = manager;
            max_volumes_per_node = max;
            segments = none;
          }))
        ↔ ((mounter ≡ ok tt) × ((manager.mounts || (manager.populates || manager.blocks)) ≡ true)))
      × ((ns : Server)
          → new mounter node_id max manager ≡ ok ns
          → node_get_info ns
            ≡ ok (record {
              node_id = node_id;
              max_volumes_per_node = max;
              accessible_topology = none;
            }))
unfolding new node_get_info
new_lem mounter node_id max manager = (ground arith, λ ns h. ground arith)

-- Whether an answer of `NodeGetCapabilities` lists the expansion of volumes.
abbrev pub lists_expand : List NodeCapability → Bool
lists_expand [] = false
lists_expand (expand_volume ∷ cs) = true
lists_expand (stage_unstage_volume ∷ cs) = lists_expand cs

-- The expansion of volumes is advertised exactly when the manager has `Expand`, and `NodeExpandVolume`
-- is unimplemented all the same.
expand_is_advertised :
    (ns : Server) (caps : List NodeCapability)
    → node_get_capabilities ns ≡ ok caps
    → (lists_expand caps ≡ ns.manager.expands)
      × (node_expand_volume ns ≡ err (status unimplemented "NodeExpandVolume not implemented" []))
unfolding node_get_capabilities node_expand_volume
expand_is_advertised ns caps h = ground arith
