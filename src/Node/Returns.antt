-- ===== src/Node/Returns.antt =====
-- Every handler of a volume returns.
use mathlib.Core.Nat.{ℕ, suc}
use csi_runtime.Base.Within.{Within, Within-suc}
use csi_runtime.Node.Calls.{Handler}
use csi_runtime.Node.Bounded.{
  nine, node_unpublish_volume-Within, node_unstage_volume-Within, node_publish_volume-Within,
  node_stage_volume-Within,
}
use csi_runtime.Node.Requests.{Request, publish, stage, unstage, unpublish, Service, handle}

more : {A : Type 0} (n : ℕ) (m : Handler A) → Within n m → Within (suc n) m
more n m w = Within-suc n m w

-- Every handler of a volume returns after at most nine calls, those to the volume locks among them,
-- whatever the request and the answers.
pub handle-Within : (s : Service) (r : Request) → Within nine (handle s r)
handle-Within s (publish r) = more _ _ (more _ _ (node_publish_volume-Within s.errors s.server r))
handle-Within s (stage r) = more _ _ (node_stage_volume-Within s.errors s.slices s.server r)
handle-Within s (unstage r) = node_unstage_volume-Within s.server r
handle-Within s (unpublish r) =
    more _ _ (more _ _ (more _ _ (more _ _ (more _ _ (node_unpublish_volume-Within s.errors r)))))
