-- ===== src/Bytes.antt =====
-- bitdb/utils/bytes.h: the view of a byte string that the other parts pass around.
-- A `Bytes` over a std::string or a literal is the list of its bytes; a null byte follows them.
pub mod Order
use bitdb.Base.{
  ℕ, zero, suc, ◌+◌, ◌≤◌, Bool, true, false, not, Option, none, some, List, [], ◌∷◌, ◌++◌, length,
  drop, ltb, leb, ◌==◌, ◌&&◌, if◌then◌else◌,
}

abbrev pub Bytes : Type 0
Bytes = List ℕ

-- Bytes::empty
abbrev pub empty : Bytes → Bool
empty [] = true
empty (b ∷ bs) = false

-- The bytes from `data()` on that may be read: the null byte belongs to them.
abbrev pub c_memory : Bytes → Bytes
c_memory bytes = bytes ++ (0 ∷ [])

-- `data()` where a C string is expected: it ends at the first null byte.
unfoldable pub c_str : Bytes → Bytes
c_str [] = []
c_str (b ∷ bs) = let rest = c_str bs in if b == 0 then [] else b ∷ rest

-- Bytes::RemovePrefix, with its assertion
unfoldable pub remove_prefix : ℕ → Bytes → Option Bytes
remove_prefix n bytes = if leb n (length bytes) then some (drop n bytes) else none

-- The sign of an `int` that memcmp or Bytes::compare returns.
pub data Sign : Type 0 where
  negative zero_sign positive : Sign

unfoldable pub memcmp : ℕ → Bytes → Bytes → Sign
memcmp zero x y = zero_sign
memcmp (suc n) [] y = zero_sign
memcmp (suc n) (a ∷ x) [] = zero_sign
memcmp (suc n) (a ∷ x) (b ∷ y) =
    let rest = memcmp n x y in if ltb a b then negative else if ltb b a then positive else rest

abbrev min_length : Bytes → Bytes → ℕ
min_length x y = if ltb (length y) (length x) then length y else length x

-- Bytes::compare: where the common part agrees, only a shorter left side is smaller.
unfoldable pub compare : Bytes → Bytes → Sign
unfolding memcmp
compare x y = elim (memcmp (min_length x y) x y) [
  | zero_sign ↦ if ltb (length x) (length y) then negative else positive
  | negative ↦ negative
  | positive ↦ positive
]

abbrev sign_lt : Sign → Bool
sign_lt negative = true
sign_lt zero_sign = false
sign_lt positive = false

abbrev sign_gt : Sign → Bool
sign_gt negative = false
sign_gt zero_sign = false
sign_gt positive = true

-- operator==
unfoldable pub bytes_eq : Bytes → Bytes → Bool
bytes_eq [] [] = true
bytes_eq [] (b ∷ y) = false
bytes_eq (a ∷ x) [] = false
bytes_eq (a ∷ x) (b ∷ y) = a == b && bytes_eq x y

-- operator<, operator>, operator<= and operator>=
unfoldable pub bytes_lt : Bytes → Bytes → Bool
bytes_lt x y = sign_lt (compare x y)

unfoldable pub bytes_gt : Bytes → Bytes → Bool
bytes_gt x y = sign_gt (compare x y)

unfoldable pub bytes_le : Bytes → Bytes → Bool
bytes_le x y = not (sign_gt (compare x y))

unfoldable pub bytes_ge : Bytes → Bytes → Bool
bytes_ge x y = not (sign_lt (compare x y))
