-- ===== src/Node/MayMount.antt =====
-- Programs that mount at most one source: one rule for each way to build a handler.
use csi_runtime.Base.{
  String, ◌≡◌, refl, ◌∙◌, Bool, true, false, ◌⊎◌, inl, inr, Bool-cases, Result-cases, List, ◌∷◌,
  Option, none, some, Result, ok, err, if◌then◌else◌,
}
use csi_runtime.Base.Prog.{ret, bind, map_err, on_error, continue, when◌then◌else◌, ◌>>=◌}
use csi_runtime.VolumeLocks.{has}
use csi_runtime.Rpc.{Error}
use csi_runtime.Node.Calls.{Handler, format_and_mount_sensitive, mount_sensitive}
use csi_runtime.Node.Asks.{do_format_and_mount_sensitive, do_mount_sensitive}
use csi_runtime.Node.Server.{is_empty, locked, require_some}
use csi_runtime.Node.Mounts.{mounts, MountsNothing}
use csi_runtime.Node.World.{Oracle, World, run, run-bind, semantics}
use csi_runtime.Node.World.EndsWith.{run-locked}

-- A program that mounts at most one source, which has a name, on `target`.
abbrev pub MayMount : {A : Type 0} → Oracle → String → Handler A → Type 0
MayMount o target p =
    (w : World)
    → (mounts (run o p w).1.history ≡ mounts w.history)
      ⊎ ((source : String) × (is_empty source ≡ false)
          × (mounts (run o p w).1.history
              ≡ record { device = source; path = target } ∷ mounts w.history))

module _ {A B : Type 0} (o : Oracle) (target : String) where
  continue-MayMount :
      (f : A → Handler B)
      → ((a : A) → MayMount o target (f a))
      → (r : Result Error A) → MayMount o target (continue f r)
  unfolding run
  continue-MayMount f h (ok a) w = h a w
  continue-MayMount f h (err e) w = inl refl

  -- Nothing is mounted before, or nothing after.
  pub MayMount->>= :
      (m : Handler A) (f : A → Handler B)
      → MountsNothing o m
      → ((a : A) → MayMount o target (f a))
      → MayMount o target (m >>= f)
  unfolding ◌>>=◌
  MayMount->>= m f nothing h w =
      rw (run-bind o m (continue f) w)
        (rw (nothing w) at (continue-MayMount f h (run o m w).0 (run o m w).1))

module _ {A B : Type 0} (o : Oracle) where
  continue-MountsNothing :
      (f : A → Handler B)
      → ((a : A) → MountsNothing o (f a))
      → (r : Result Error A) → MountsNothing o (continue f r)
  unfolding run
  continue-MountsNothing f h (ok a) w = h a w
  continue-MountsNothing f h (err e) w = refl

  pub MountsNothing->>= :
      (m : Handler A) (f : A → Handler B)
      → MountsNothing o m
      → ((a : A) → MountsNothing o (f a))
      → MountsNothing o (m >>= f)
  unfolding ◌>>=◌
  MountsNothing->>= m f nothing h w =
      rw (run-bind o m (continue f) w)
        (continue-MountsNothing f h (run o m w).0 (run o m w).1 ∙ nothing w)

module _ {A B : Type 0} (o : Oracle) (target : String) where
  pub MayMount-first :
      (m : Handler A) (f : A → Handler B)
      → MayMount o target m
      → ((a : A) → MountsNothing o (f a))
      → MayMount o target (m >>= f)
  unfolding ◌>>=◌
  MayMount-first m f h nothing w =
      rw (run-bind o m (continue f) w)
        (rw (continue-MountsNothing o f nothing (run o m w).0 (run o m w).1) (h w))

  continue-given :
      (f : A → Handler B) (r : Result Error A)
      → ((a : A) → r ≡ ok a → MayMount o target (f a))
      → MayMount o target (continue f r)
  unfolding run
  continue-given f (ok a) h w = h a refl w
  continue-given f (err e) h w = inl refl

  -- What follows may use what was answered.
  pub MayMount-given :
      (m : Handler A) (f : A → Handler B)
      → MountsNothing o m
      → ((w : World) (a : A) → (run o m w).0 ≡ ok a → MayMount o target (f a))
      → MayMount o target (m >>= f)
  unfolding ◌>>=◌
  MayMount-given m f nothing h w =
      rw (run-bind o m (continue f) w)
        (rw (nothing w) at (continue-given f (run o m w).0 (h w) (run o m w).1))

  pub MayMount-require_some :
      (p : Option A) (e : Error) (f : A → Handler B)
      → ((a : A) → p ≡ some a → MayMount o target (f a))
      → MayMount o target (require_some p e >>= f)
  unfolding require_some ◌>>=◌ bind run
  MayMount-require_some none e f h w = inl refl
  MayMount-require_some (some a) e f h w = h a refl w

module _ {A : Type 0} (o : Oracle) (target : String) where
  pub MayMount-locked :
      (id : String) (body : Handler A) → MayMount o target body → MayMount o target (locked id body)
  MayMount-locked id body h w = elim (Bool-cases (has id w.locks.locks)) [
    | inl busy ↦ rw (run-locked o id body w, busy) (inl refl)
    | inr free ↦ rw (run-locked o id body w, free) (h _)
  ]

  pub MayMount-when :
      (b : Bool) (m n : Handler A)
      → MayMount o target m
      → MayMount o target n
      → MayMount o target (when b then m else n)
  unfolding when◌then◌else◌
  MayMount-when true m n hm hn = hm
  MayMount-when false m n hm hn = hn

  pub MayMount-map_err :
      (f : Error → Error) (m : Handler A) → MayMount o target m → MayMount o target (map_err f m)
  unfolding map_err run
  MayMount-map_err f m h w = rw (run-bind o m (λ r. ret (on_error f r)) w) (h w)

module _ (o : Oracle) (source target : String) (named : is_empty source ≡ false) where
  pub MayMount-format :
      (t : String) (a b : List String)
      → MayMount o target (do_format_and_mount_sensitive source target t a b)
  unfolding semantics mounts
  MayMount-format t a b w =
      elim (Result-cases (o w.history (format_and_mount_sensitive source target t a b))) [
        | inl (_, e) ↦ inr (source, named, rw (e, mounts) refl)
        | inr (_, e) ↦ inl (rw (e, mounts) refl)
      ]

  pub MayMount-mount :
      (t : String) (a b : List String) → MayMount o target (do_mount_sensitive source target t a b)
  unfolding semantics mounts
  MayMount-mount t a b w = elim (Result-cases (o w.history (mount_sensitive source target t a b))) [
    | inl (_, e) ↦ inr (source, named, rw (e, mounts) refl)
    | inr (_, e) ↦ inl (rw (e, mounts) refl)
  ]
