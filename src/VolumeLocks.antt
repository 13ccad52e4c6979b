-- ===== src/VolumeLocks.antt =====
-- utils/volume_lock.go: the set of the volume IDs with an operation under way. The mutex makes each
-- method one atomic step, and the set of strings is a list without repetitions.
use csi_runtime.Base.{
  String, ◌≡◌, refl, ◌≢◌, Bool, true, false, List, [], ◌∷◌, arith, str_eq, eq_iff, if◌then◌else◌,
}
use text.Mathlib.TextPositions.{eq_refl}

pub record VolumeLocks : Type 0 where
  pub locks : List String

-- `NewVolumeLocks`
unfoldable pub new_volume_locks : VolumeLocks
new_volume_locks = record { locks = [] }

-- `locks.Has`
unfoldable pub has : String → List String → Bool
has id [] = false
has id (x ∷ xs) = if str_eq x id then true else has id xs

-- `locks.Delete`
unfoldable pub delete : String → List String → List String
delete id [] = []
delete id (x ∷ xs) = let rest = delete id xs in if str_eq x id then rest else x ∷ rest

-- `TryAcquire`
unfoldable pub try_acquire : String → VolumeLocks → Bool × VolumeLocks
try_acquire id vl =
    if has id vl.locks then (false, vl) else (true, record { locks = id ∷ vl.locks })

-- `Release`
unfoldable pub release : String → VolumeLocks → VolumeLocks
release id vl = record { locks = delete id vl.locks }

pub has-delete :
    (j id : String) (xs : List String)
    → has j (delete id xs) ≡ (if str_eq id j then false else has j xs)
unfolding has delete
has-delete j id [] = ground arith
has-delete j id (x ∷ xs) = ground (arith, has-delete j id xs, eq_iff x j, eq_iff x id, eq_iff id j)

pub has-cons :
    (j id : String) (xs : List String) → has j (id ∷ xs) ≡ (if str_eq id j then true else has j xs)
unfolding has
has-cons j id xs = refl

-- Deleting an absent ID changes nothing.
pub delete_absent : (id : String) (xs : List String) → has id xs ≡ false → delete id xs ≡ xs
unfolding has delete
delete_absent id [] h = refl
delete_absent id (x ∷ xs) h = ground (arith, delete_absent id xs)

pub delete-cons_self :
    (id : String) (xs : List String) → has id xs ≡ false → delete id (id ∷ xs) ≡ xs
unfolding delete
delete-cons_self id xs h = rw eq_refl (delete_absent id xs h)

-- `TryAcquire` succeeds exactly when the ID is free, holds it then, and leaves every other ID alone;
-- a `Release` after it restores the locks.
try_acquire_lem :
    (id : String) (vl : VolumeLocks)
    → ((try_acquire id vl).0 ≡ (if has id vl.locks then false else true))
      × (has id (try_acquire id vl).1.locks ≡ true)
      × ((j : String) → j ≢ id → has j (try_acquire id vl).1.locks ≡ has j vl.locks)
      × (has id vl.locks ≡ false → release id (try_acquire id vl).1 ≡ vl)
unfolding try_acquire release
try_acquire_lem id vl = (
  ground arith,
  ground (arith, has-cons id id vl.locks, eq_iff id id),
  (λ j ne. ground (arith, has-cons j id vl.locks, eq_iff id j)),
  (λ free. ground (arith, delete-cons_self id vl.locks)),
)
