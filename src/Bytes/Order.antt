-- ===== src/Bytes/Order.antt =====
-- bitdb/utils/bytes.h: what the comparison operators decide.
use bitdb.Base.{
  ℕ, ◌<◌, ◌≤◌, ◌≡◌, ◌≢◌, refl, true, false, [], ◌∷◌, arith, length, ltb, if◌then◌else◌, inl, inr,
  Bool-cases,
}
use mathlib.Core.Logic.{◌↔◌}
use bitdb.Bytes.{
  c_str, Bytes, negative, zero_sign, positive, compare, bytes_eq, bytes_lt, bytes_gt, bytes_le,
  bytes_ge,
}

-- The lexicographic order on byte strings.
pub data LexLt : Bytes → Bytes → Type 0 where
  shorter : {b : ℕ} {y : Bytes} → LexLt [] (b ∷ y)
  below : {a b : ℕ} {x y : Bytes} → a < b → LexLt (a ∷ x) (b ∷ y)
  after : {a b : ℕ} {x y : Bytes} → a ≡ b → LexLt x y → LexLt (a ∷ x) (b ∷ y)

-- One byte of a comparison.
compare-cons :
    (a b : ℕ) (x y : Bytes)
    → compare (a ∷ x) (b ∷ y)
      ≡ (if ltb a b then negative else if ltb b a then positive else compare x y)
unfolding compare
compare-cons a b x y = ground arith

bytes_lt-cons :
    (a b : ℕ) (x y : Bytes)
    → bytes_lt (a ∷ x) (b ∷ y) ≡ (if ltb a b then true else if ltb b a then false else bytes_lt x y)
unfolding bytes_lt
bytes_lt-cons a b x y = ground (arith, compare-cons a b x y)

bytes_lt-nil_right : (x : Bytes) → bytes_lt x [] ≡ false
unfolding bytes_lt compare
bytes_lt-nil_right [] = ground arith
bytes_lt-nil_right (a ∷ x) = ground arith

nil-bytes_lt-cons : (b : ℕ) (y : Bytes) → bytes_lt [] (b ∷ y) ≡ true
unfolding bytes_lt compare
nil-bytes_lt-cons b y = ground arith

bytes_lt→LexLt : (x y : Bytes) → bytes_lt x y ≡ true → LexLt x y
bytes_lt→LexLt [] [] h = absurd (cc (bytes_lt-nil_right []))
bytes_lt→LexLt [] (b ∷ y) h = shorter
bytes_lt→LexLt (a ∷ x) [] h = absurd (cc (bytes_lt-nil_right (a ∷ x)))
bytes_lt→LexLt (a ∷ x) (b ∷ y) h = elim (Bool-cases (ltb a b)) [
  | inl smaller ↦ below (ground arith)
  | inr not_smaller ↦ elim (Bool-cases (ltb b a)) [
    | inl larger ↦ absurd (ground (arith, bytes_lt-cons a b x y))
    | inr not_larger ↦
        after (ground arith) (bytes_lt→LexLt x y (ground (arith, bytes_lt-cons a b x y)))
  ]
]

LexLt→bytes_lt : {x y : Bytes} → LexLt x y → bytes_lt x y ≡ true
LexLt→bytes_lt (shorter {b} {y}) = nil-bytes_lt-cons b y
LexLt→bytes_lt (below {a} {b} {x} {y} h) = ground (arith, bytes_lt-cons a b x y)
LexLt→bytes_lt (after {a} {b} {x} {y} e h) = ground (arith, bytes_lt-cons a b x y, LexLt→bytes_lt h)

-- operator< is the lexicographic order of the byte strings.
pub bytes_lt_iff : (x y : Bytes) → (bytes_lt x y ≡ true) ↔ LexLt x y
bytes_lt_iff x y = (bytes_lt→LexLt x y, LexLt→bytes_lt)

bytes_eq→eq : (x y : Bytes) → bytes_eq x y ≡ true → x ≡ y
unfolding bytes_eq
bytes_eq→eq [] [] h = refl
bytes_eq→eq [] (b ∷ y) h = cc
bytes_eq→eq (a ∷ x) [] h = cc
bytes_eq→eq (a ∷ x) (b ∷ y) h = ground (arith, bytes_eq→eq x y)

bytes_eq_refl : (x : Bytes) → bytes_eq x x ≡ true
unfolding bytes_eq
bytes_eq_refl [] = refl
bytes_eq_refl (a ∷ x) = ground (arith, bytes_eq_refl x)

-- operator== decides equality.
pub bytes_eq_iff : (x y : Bytes) → (bytes_eq x y ≡ true) ↔ (x ≡ y)
bytes_eq_iff x y = (bytes_eq→eq x y, λ e. rw e (bytes_eq_refl y))

compare-ne-zero : (x y : Bytes) → compare x y ≢ zero_sign
unfolding compare
compare-ne-zero x y = ground arith

compare_refl : (x : Bytes) → compare x x ≡ positive
compare_refl [] = unfold compare in refl
compare_refl (a ∷ x) = ground (arith, compare-cons a a x x, compare_refl x)

-- Bytes::compare never returns zero, so operator<= is operator<, operator>= is operator>, and a
-- byte string is above itself.
pub operators_without_equality :
    (x y : Bytes)
    → (bytes_le x y ≡ bytes_lt x y)
      × (bytes_ge x y ≡ bytes_gt x y)
      × (bytes_gt x x ≡ true)
      × (bytes_le x x ≡ false)
unfolding bytes_lt bytes_gt bytes_le bytes_ge
operators_without_equality x y = (
  ground (arith, compare-ne-zero x y),
  ground (arith, compare-ne-zero x y),
  rw (compare_refl x),
  rw (compare_refl x),
)

-- A C string has no null byte left.
pub c_str-c_str : (x : Bytes) → c_str (c_str x) ≡ c_str x
unfolding c_str
c_str-c_str [] = refl
c_str-c_str (a ∷ x) = ground (arith, c_str-c_str x)

pub length-c_str : (x : Bytes) → length (c_str x) ≤ length x
unfolding c_str
length-c_str [] = omega arith
length-c_str (a ∷ x) = ground (arith, length-c_str x)
