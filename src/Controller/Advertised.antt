-- ===== src/Controller/Advertised.antt =====
-- What the controller service advertises, and what its calls do.
use csi_runtime.Base.{
  ◌&&◌, ℕ, String, ◌≡◌, ap, sym, ◌∙◌, ◌⊎◌, inl, inr, refl, Bool, true, false, ◌||◌, List, [], ◌∷◌,
  ◌++◌, Option, none, some, Result, ok, err, arith, ◌==◌,
}
use mathlib.Core.Path.{subst}
use csi_runtime.Rpc.{Error, status, unimplemented}
use csi_runtime.Controller.Manager.{
  Method, Capability, Messages, Implementation, Manager, pass, first, second,
}
use csi_runtime.Controller.Service.{
  when_has, controller_get_volume, create_volume, delete_volume, controller_publish_volume,
  controller_unpublish_volume, validate_volume_capabilities, list_volumes, get_capacity,
  create_snapshot, delete_snapshot, list_snapshots, controller_expand_volume, own_capabilities,
  controller_get_capabilities, add_capabilities, answer_capabilities,
}

-- The number of a capability in the protocol.
unfoldable pub number : Capability → ℕ
number Capability.unknown = 0
number Capability.create_delete_volume = 1
number Capability.publish_unpublish_volume = 2
number Capability.list_volumes = 3
number Capability.get_capacity = 4
number Capability.create_delete_snapshot = 5
number Capability.list_snapshots = 6
number Capability.clone_volume = 7
number Capability.publish_readonly = 8
number Capability.expand_volume = 9
number Capability.list_volumes_published_nodes = 10
number Capability.volume_condition = 11
number Capability.get_volume = 12
number Capability.single_node_multi_writer = 13

abbrev pub contains : Capability → List Capability → Bool
contains c [] = false
contains c (d ∷ ds) = number c == number d || contains c ds

pub contains-append :
    (c : Capability) (xs ys : List Capability)
    → contains c (xs ++ ys) ≡ (contains c xs || contains c ys)
contains-append c [] ys = refl
contains-append c (x ∷ xs) ys = ground (arith, contains-append c xs ys)

abbrev pub is_some : {A : Type 0} → Option A → Bool
is_some none = false
is_some (some _) = true

contains-when_has :
    {A : Type 0} (c d : Capability) (o : Option A)
    → contains c (when_has o d) ≡ (number c == number d && is_some o)
contains-when_has c d none = ground arith
contains-when_has c d (some a) = ground arith

-- The capability that the protocol ties to a call: without it the call need not be served.
-- `ValidateVolumeCapabilities` has none.
abbrev pub capability_of : Method → Option Capability
capability_of Method.get_volume = some Capability.get_volume
capability_of Method.create_volume = some Capability.create_delete_volume
capability_of Method.delete_volume = some Capability.create_delete_volume
capability_of Method.publish_volume = some Capability.publish_unpublish_volume
capability_of Method.unpublish_volume = some Capability.publish_unpublish_volume
capability_of Method.validate_volume_capabilities = none
capability_of Method.list_volumes = some Capability.list_volumes
capability_of Method.get_capacity = some Capability.get_capacity
capability_of Method.create_snapshot = some Capability.create_delete_snapshot
capability_of Method.delete_snapshot = some Capability.create_delete_snapshot
capability_of Method.list_snapshots = some Capability.list_snapshots
capability_of Method.expand_volume = some Capability.expand_volume

module _ {M : Messages} {W : Type 0} (cs : Manager M W) where
  -- The service, by call.
  unfoldable pub serve : (m : Method) → Implementation M W m
  serve Method.get_volume = controller_get_volume cs
  serve Method.create_volume = create_volume cs
  serve Method.delete_volume = delete_volume cs
  serve Method.publish_volume = controller_publish_volume cs
  serve Method.unpublish_volume = controller_unpublish_volume cs
  serve Method.validate_volume_capabilities = validate_volume_capabilities cs
  serve Method.list_volumes = list_volumes cs
  serve Method.get_capacity = get_capacity cs
  serve Method.create_snapshot = create_snapshot cs
  serve Method.delete_snapshot = delete_snapshot cs
  serve Method.list_snapshots = list_snapshots cs
  serve Method.expand_volume = controller_expand_volume cs

  -- The manager's method behind a call.
  abbrev pub method : (m : Method) → Option (Implementation M W m)
  method Method.get_volume = cs.get_volume
  method Method.create_volume = first cs.create_delete_volume
  method Method.delete_volume = second cs.create_delete_volume
  method Method.publish_volume = first cs.publish_unpublish_volume
  method Method.unpublish_volume = second cs.publish_unpublish_volume
  method Method.validate_volume_capabilities = none
  method Method.list_volumes = cs.list_volume
  method Method.get_capacity = cs.get_capacity
  method Method.create_snapshot = first cs.create_delete_snapshot
  method Method.delete_snapshot = second cs.create_delete_snapshot
  method Method.list_snapshots = cs.list_snapshot
  method Method.expand_volume = cs.expand_volume

  contains-own :
      (c : Capability)
      → contains c (own_capabilities cs) ≡ (
          (number c == number Capability.create_delete_volume && is_some cs.create_delete_volume)
          || ((number c == number Capability.publish_unpublish_volume
                && is_some cs.publish_unpublish_volume)
              || ((number c == number Capability.list_volumes && is_some cs.list_volume)
                  || ((number c == number Capability.get_capacity && is_some cs.get_capacity)
                      || ((number c == number Capability.create_delete_snapshot
                            && is_some cs.create_delete_snapshot)
                          || ((number c == number Capability.list_snapshots
                                && is_some cs.list_snapshot)
                              || ((number c == number Capability.expand_volume
                                    && is_some cs.expand_volume)
                                  || (number c == number Capability.get_volume
                                      && is_some cs.get_volume))))))))
  unfolding own_capabilities
  contains-own c = simp (contains-append, contains-when_has)

  -- A capability of the service's own stands for the method of each call that it belongs to.
  abbrev Stands : Method → Option Capability → Type 0
  Stands m none = Unit {0}
  Stands m (some c) = contains c (own_capabilities cs) ≡ is_some (method m)

  own_capability : (m : Method) → Stands m (capability_of m)
  unfolding number
  own_capability Method.validate_volume_capabilities = tt
  own_capability Method.get_volume = rw (contains-own Capability.get_volume) (ground arith)
  own_capability Method.create_volume =
      rw (contains-own Capability.create_delete_volume) (ground arith)
  own_capability Method.delete_volume =
      rw (contains-own Capability.create_delete_volume) (ground arith)
  own_capability Method.publish_volume =
      rw (contains-own Capability.publish_unpublish_volume) (ground arith)
  own_capability Method.unpublish_volume =
      rw (contains-own Capability.publish_unpublish_volume) (ground arith)
  own_capability Method.list_volumes = rw (contains-own Capability.list_volumes) (ground arith)
  own_capability Method.get_capacity = rw (contains-own Capability.get_capacity) (ground arith)
  own_capability Method.create_snapshot =
      rw (contains-own Capability.create_delete_snapshot) (ground arith)
  own_capability Method.delete_snapshot =
      rw (contains-own Capability.create_delete_snapshot) (ground arith)
  own_capability Method.list_snapshots = rw (contains-own Capability.list_snapshots) (ground arith)
  own_capability Method.expand_volume = rw (contains-own Capability.expand_volume) (ground arith)

  own_capability_of :
      (m : Method) (c : Capability)
      → capability_of m ≡ some c
      → contains c (own_capabilities cs) ≡ is_some (method m)
  own_capability_of m c e = subst (Stands m) e (own_capability m)

  serve-method : (m : Method) → (text : String) × (serve m ≡ pass (method m) text)
  unfolding serve controller_get_volume create_volume delete_volume controller_publish_volume
      controller_unpublish_volume validate_volume_capabilities list_volumes get_capacity
      create_snapshot delete_snapshot list_snapshots controller_expand_volume
  serve-method Method.get_volume = (_, refl)
  serve-method Method.create_volume = (_, refl)
  serve-method Method.delete_volume = (_, refl)
  serve-method Method.publish_volume = (_, refl)
  serve-method Method.unpublish_volume = (_, refl)
  serve-method Method.validate_volume_capabilities = (_, refl)
  serve-method Method.list_volumes = (_, refl)
  serve-method Method.get_capacity = (_, refl)
  serve-method Method.create_snapshot = (_, refl)
  serve-method Method.delete_snapshot = (_, refl)
  serve-method Method.list_snapshots = (_, refl)
  serve-method Method.expand_volume = (_, refl)

  -- What a call answers that the service does not implement: nothing of the world is read or changed.
  abbrev pub IsUnimplemented : {Q A : Type 0} → (Q → W → Result Error A × W) → Type 0
  IsUnimplemented {Q} f =
      (text : String) × ((req : Q) (w : W) → f req w ≡ (err (status unimplemented text []), w))

  pub serve-none : (m : Method) → method m ≡ none → IsUnimplemented (serve m)
  serve-none m e = let (text, same) = serve-method m in (text, λ req w. rw (same, e))

  contains-capabilities :
      (c : Capability) (caps : List Capability) (w v : W)
      → controller_get_capabilities cs w ≡ (ok caps, v)
      → contains c caps ≡ false
      → contains c (own_capabilities cs) ≡ false
  unfolding controller_get_capabilities
  contains-capabilities c caps w v e h = with_manager cs.capabilities e
    where
      added :
          (x : Result Error (List Capability) × W)
          → add_capabilities (own_capabilities cs) x ≡ (ok caps, v)
          → contains c (own_capabilities cs) ≡ false
      added (ok a, _) e' = ground (arith, contains-append c a (own_capabilities cs))
      added (err _, _) e' = ground arith

      with_manager :
          (o : Option (W → Result Error (List Capability) × W))
          → answer_capabilities (own_capabilities cs) o w ≡ (ok caps, v)
          → contains c (own_capabilities cs) ≡ false
      with_manager none e' = ground arith
      with_manager (some get) e' = added (get w) e'

  is_some-none : {A : Type 0} (o : Option A) → is_some o ≡ false → o ≡ none
  is_some-none none h = refl
  is_some-none (some a) h = ground arith

  -- A call whose capability is not among those that `ControllerGetCapabilities` answers is refused as
  -- unimplemented, whatever the manager answers to `GetCapabilities`.
  pub not_advertised :
      (m : Method) (c : Capability) (caps : List Capability) (w v : W)
      → capability_of m ≡ some c
      → controller_get_capabilities cs w ≡ (ok caps, v)
      → contains c caps ≡ false
      → IsUnimplemented (serve m)
  not_advertised m c caps w v e got h =
      serve-none m
        (is_some-none _ (sym (own_capability_of m c e) ∙ contains-capabilities c caps w v got h))

  -- Where the manager has no `GetCapabilities`, a call is advertised exactly when the manager has the
  -- method, and the call is then that method and else unimplemented.
  pub advertised :
      (m : Method) (c : Capability) (w : W)
      → capability_of m ≡ some c
      → cs.capabilities ≡ none
      → (caps : List Capability) × (controller_get_capabilities cs w ≡ (ok caps, w))
        × (((contains c caps ≡ true)
              × ((f : Implementation M W m) × (method m ≡ some f) × (serve m ≡ f)))
            ⊎ ((contains c caps ≡ false) × IsUnimplemented (serve m)))
  unfolding controller_get_capabilities
  advertised m c w e h = (
    own_capabilities cs,
    ap (λ o. answer_capabilities (own_capabilities cs) o w) h,
    by_method (method m) refl,
  )
    where
      by_method :
          (o : Option (Implementation M W m))
          → method m ≡ o
          → ((contains c (own_capabilities cs) ≡ true)
              × ((f : Implementation M W m) × (method m ≡ some f) × (serve m ≡ f)))
            ⊎ ((contains c (own_capabilities cs) ≡ false) × IsUnimplemented (serve m))
      by_method none is = inr (own_capability_of m c e ∙ ap is_some is, serve-none m is)
      by_method (some f) is =
          inl (own_capability_of m c e ∙ ap is_some is, (f, is, rw ((serve-method m).1, is) refl))
