-- ===== src/Tests/Contract.antt =====
-- Requests one after the other on a host that remembers its mounts.
use csi_runtime.Base.{false, refl, List, [], ◌∷◌}
use csi_runtime.Node.Requests.{Request, publish, stage, unstage, unpublish}
use csi_runtime.Node.Mounts.{mounts}
use csi_runtime.Node.Contract.{Course, Named}
use csi_runtime.Node.Obeys.{stacks}
use csi_runtime.Node.Fulfils.{AllFit, served, outcomes, handlers_refine}
use csi_runtime.Tests.Data.{
  service, world, mounted, publish_request, stage_request, unstage_request, unpublish_request,
}
use csi_runtime.Tests.Retries.{host, host-TellsMounts, host-NamesSources, host-TellsSource}

-- Published before the volume is staged, and published again.
abbrev requests : List Request
requests =
    publish (publish_request mounted)
    ∷ stage (stage_request mounted)
    ∷ publish (publish_request mounted)
    ∷ unpublish (unpublish_request "a")
    ∷ unstage unstage_request
    ∷ []

requests_fit : AllFit host requests
requests_fit = (tt, (tt, (tt, (tt, (host-TellsSource, tt)))))

nothing_mounted : Named (stacks world)
unfolding mounts
nothing_mounted p = refl

handlers_refine_example :
    Course false
      (outcomes host service requests world)
      (stacks world)
      (stacks (served host service requests world))
handlers_refine_example =
    handlers_refine host service host-NamesSources host-TellsMounts requests world requests_fit
      nothing_mounted
