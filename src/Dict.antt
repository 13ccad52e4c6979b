-- ===== src/Dict.antt =====
-- Go's maps with string keys, as association lists: no order, and at most one value of a key.
use csi_runtime.Base.{
  String, ◌≡◌, refl, List, [], ◌∷◌, Option, none, some, arith, str_eq, eq_iff, if◌then◌else◌,
}

abbrev pub Dict : Type 0 → Type 0
Dict V = List (String × V)

-- `v, ok := d[k]`
unfoldable pub get : {V : Type 0} → String → Dict V → Option V
get k [] = none
get k ((x, v) ∷ xs) = if str_eq x k then some v else get k xs

-- `delete(d, k)`
unfoldable pub erase : {V : Type 0} → String → Dict V → Dict V
erase k [] = []
erase k ((x, v) ∷ xs) = let rest = erase k xs in if str_eq x k then rest else (x, v) ∷ rest

-- `d[k] = v`
unfoldable pub put : {V : Type 0} → String → V → Dict V → Dict V
unfolding erase
put k v d = (k, v) ∷ erase k d

-- `for k, v := range new { d[k] = v }`, the last entry of `new` first
unfoldable pub put_all : {V : Type 0} → Dict V → Dict V → Dict V
unfolding put
put_all [] d = d
put_all ((k, v) ∷ new) d = put k v (put_all new d)

-- `for k := range d { keys = append(keys, k) }`
unfoldable pub keys : {V : Type 0} → Dict V → List String
keys [] = []
keys ((k, v) ∷ d) = k ∷ keys d

pub get-erase :
    {V : Type 0} (j k : String) (d : Dict V)
    → get j (erase k d) ≡ (if str_eq k j then none else get j d)
unfolding get erase
get-erase j k [] = ground arith
get-erase j k ((x, v) ∷ d) = ground (arith, get-erase j k d, eq_iff x j, eq_iff x k, eq_iff k j)

pub get-put :
    {V : Type 0} (j k : String) (v : V) (d : Dict V)
    → get j (put k v d) ≡ (if str_eq k j then some v else get j d)
unfolding get put
get-put j k v d = ground (arith, get-erase j k d)

abbrev pub or_else : {V : Type 0} → Option V → Option V → Option V
or_else none o = o
or_else (some v) o = some v

pub get-put_all :
    {V : Type 0} (j : String) (new d : Dict V)
    → get j (put_all new d) ≡ or_else (get j new) (get j d)
unfolding get put_all
get-put_all j [] d = refl
get-put_all j ((k, v) ∷ new) d = ground (arith, get-put j k v (put_all new d), get-put_all j new d)
