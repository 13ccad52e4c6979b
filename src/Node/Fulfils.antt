-- ===== src/Node/Fulfils.antt =====
-- The handlers of the node server, one request after the other, and the contract of each.
use csi_runtime.Base.{Bool, List, [], ◌∷◌}
use csi_runtime.Node.Requests.{Request, Service, handle}
use csi_runtime.Node.Mounts.{TellsMounts, is_ok}
use csi_runtime.Node.Staged.{NamesSources}
use csi_runtime.Node.Contract
use csi_runtime.Node.Contract.{Course, Named, Allows-Named}
use csi_runtime.Node.Obeys.{stacks, Fits, handle-Allows}
use csi_runtime.Node.World.{Oracle, World, run}

abbrev pub AllFit : Oracle → List Request → Type 0
AllFit o [] = Unit {0}
AllFit o (r ∷ rs) = Fits o r × AllFit o rs

-- Requests that are handled one after the other.
unfoldable pub served : Oracle → Service → List Request → World → World
served o s [] w = w
served o s (r ∷ rs) w = served o s rs (run o (handle s r) w).1

-- Each request with whether it succeeded.
unfoldable pub outcomes : Oracle → Service → List Request → World → List (Request × Bool)
outcomes o s [] w = []
outcomes o s (r ∷ rs) w = let v = run o (handle s r) w in (r, is_ok v.0) ∷ outcomes o s rs v.1

module _ (o : Oracle) (s : Service) (names : NamesSources o) (tells : TellsMounts o) where
  -- `IsLikelyNotMountPoint` tells what is mounted, the manager names the source of a mount, and every
  -- source that is mounted at first has a name; a path that is unstaged is no device and no link, and the
  -- list of the mounts tells what is mounted there. Then, whatever requests are handled one after the
  -- other, whatever their results, each did to the mounts what its contract allows: a stage adds at most
  -- one source to the staging path, and one when it succeeds for a volume to mount of a manager without
  -- `Populate`; a publish of a volume to mount adds the staging path to the target path exactly when it
  -- succeeds and nothing was mounted there; an unpublish and an unstage take the newest source from their
  -- path when they succeed, and else that or nothing; no other path changes.
  pub handlers_refine :
      (rs : List Request) (w : World)
      → AllFit o rs
      → Named (stacks w)
      → Course s.server.manager.populates (outcomes o s rs w) (stacks w) (stacks (served o s rs w))
  unfolding outcomes served
  handlers_refine [] w fit named = Contract.ended _
  handlers_refine (r ∷ rs) w (fits, fit) named =
      let allowed = handle-Allows o s names tells r w fits named in
      Contract.goes_on r _ _ _ _ _ allowed
        (handlers_refine rs _ fit (Allows-Named _ r _ _ _ allowed named))
