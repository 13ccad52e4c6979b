-- ===== src/Identity/Answers.antt =====
-- What the identity service answers.
use csi_runtime.Base.{
  ap, ◌∙◌, ◌⊎◌, String, ◌≡◌, ◌↔◌, Bool, true, false, List, [], none, some, Result, ok, err, arith,
}
use csi_runtime.Rpc.{Code, Error, Errors, KeepsStatus, status, unavailable, internal}
use csi_runtime.Node.Server.{is_empty, status_or}
use csi_runtime.Identity.{
  Server, GetPluginInfoResponse, get_plugin_info, probe, answer_probe, ready_or,
}

-- `GetPluginInfo` succeeds exactly when name and version are configured, with the two of them, and is
-- unavailable otherwise.
plugin_info_lem :
    {W : Type 0} (ids : Server W) (r : GetPluginInfoResponse)
    → ((get_plugin_info ids ≡ ok r) ↔ (
        (is_empty ids.name ≡ false)
        × (is_empty ids.version ≡ false)
        × (r.name ≡ ids.name)
        × (r.vendor_version ≡ ids.version)))
      × ((e : Error)
          → get_plugin_info ids ≡ err e
          → (e ≡ status unavailable "driver name not configured" [])
            ⊎ (e ≡ status unavailable "driver is missing version" []))
unfolding get_plugin_info
plugin_info_lem ids r = (ground arith, λ e h. ground arith)

-- `Probe` says ready where the manager has no `Probe`. Where it has, its answer is passed on, its
-- failure also: a status as it is, any other error as an internal one with the error's message.
probe_lem :
    {W : Type 0} (errors : Errors) (ids : Server W) (w v : W) (p : W → Result Error Bool × W)
    → KeepsStatus errors
    → (ids.probes ≡ none → probe ids errors w ≡ (ok true, w))
      × (ids.probes ≡ some p
          → ((b : Bool) → p w ≡ (ok b, v) → probe ids errors w ≡ (ok b, v))
            × ((c : Code) (m : String) (args : List String)
                → p w ≡ (err (status c m args), v)
                → probe ids errors w ≡ (err (status c m args), v))
            × ((e : Error)
                → p w ≡ (err e, v)
                → errors.from_error e ≡ none
                → probe ids errors w ≡ (err (status internal (errors.message e) []), v)))
unfolding probe status_or
probe_lem errors ids w v p keeps = (
  (λ none_given. ap (λ o. answer_probe errors o w) none_given),
  (λ given.
      let passed = ap (λ o. answer_probe errors o w) given in
      (
        (λ b h. passed ∙ ap (ready_or errors) h),
        (λ c m args h. passed ∙ ap (ready_or errors) h ∙ ground (arith, keeps c m args)),
        (λ e h n. passed ∙ ap (ready_or errors) h ∙ ground arith),
      )),
)
