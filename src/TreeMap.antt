-- ===== src/TreeMap.antt =====
-- bitdb/ds/treemap.h: std::map with byte strings for keys, in the order of its iteration.
-- bitdb/ds/hashmap.h has the same operations; where the code uses it, nothing depends on its order.
use bitdb.Base.{
  ◌≡◌, refl, Bool, true, false, Option, none, some, List, [], ◌∷◌, arith, if◌then◌else◌,
}
use bitdb.Bytes.{Bytes, bytes_eq, bytes_lt}
use bitdb.Bytes.Order.{bytes_eq_iff}

abbrev pub TreeMap {ℓ} : Type ℓ → Type ℓ
TreeMap V = List (Bytes × V)

abbrev pub is_some {ℓ} : {A : Type ℓ} → Option A → Bool
is_some none = false
is_some (some a) = true

module _ {ℓ} {V : Type ℓ} where
  -- find and at
  unfoldable pub find : Bytes → TreeMap V → Option V
  find k [] = none
  find k ((j, v) ∷ m) = if bytes_eq j k then some v else find k m

  -- m[k] = v
  unfoldable pub insert : Bytes → V → TreeMap V → TreeMap V
  insert k v [] = (k, v) ∷ []
  insert k v ((j, w) ∷ m) =
      let rest = insert k v m in
      if bytes_eq j k
      then (k, v) ∷ m
      else if bytes_lt k j
      then (k, v) ∷ (j, w) ∷ m
      else (j, w) ∷ rest

  -- emplace keeps an entry that is there.
  unfoldable pub emplace : Bytes → V → TreeMap V → TreeMap V
  emplace k v m = if is_some (find k m) then m else insert k v m

  unfoldable pub erase : Bytes → TreeMap V → TreeMap V
  erase k [] = []
  erase k ((j, w) ∷ m) = let rest = erase k m in if bytes_eq j k then rest else (j, w) ∷ rest

  pub find-insert :
      (k j : Bytes) (v : V) (m : TreeMap V)
      → find j (insert k v m) ≡ (if bytes_eq k j then some v else find j m)
  unfolding find insert
  find-insert k j v [] = refl
  find-insert k j v ((i, w) ∷ m) =
      ground (arith, bytes_eq_iff k j, bytes_eq_iff i k, bytes_eq_iff i j, find-insert k j v m)

  pub find-erase :
      (k j : Bytes) (m : TreeMap V) → find j (erase k m) ≡ (if bytes_eq k j then none else find j m)
  unfolding find erase
  find-erase k j [] = ground arith
  find-erase k j ((i, w) ∷ m) =
      ground (arith, bytes_eq_iff k j, bytes_eq_iff i k, bytes_eq_iff i j, find-erase k j m)

pub ruleset map_laws = (find-insert, find-erase)
