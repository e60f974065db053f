-- ===== src/Base/Bits.antt =====
-- `|`, `&` and `^` as arithmetic: at one byte by a table, for disjoint fields at every width.
use Prim.Native.Nat.{
  ℕ, zero, suc, ◌+◌, ◌*◌, ◌/◌, ◌%◌, ◌^◌, ◌≤◌, ◌<◌, max, bit_and, bit_or, bit_xor, digits,
  bit_or-bitwise,
}
use mathlib.Core.Path.{◌≡◌, refl, ap}
use mathlib.Core.Bool.{Bool, true, ◌&&◌}
use native.Mathlib.Nat.{pow-suc}
use native.Mathlib.Omega.{arith}
use bitdb.Base.Tests.{◌==◌, ==_iff}

-- A test of every number below a bound, by evaluation.
all_below : ℕ → (ℕ → Bool) → Bool
all_below zero p = true
all_below (suc n) p = p n && all_below n p

all_below→at : (n : ℕ) (p : ℕ → Bool) (x : ℕ) → all_below n p ≡ true → x < n → p x ≡ true
unfolding all_below
all_below→at zero p x h lt = absurd (omega arith)
all_below→at (suc n) p x h lt = ground (arith, all_below→at n p x)

top_bit_table : all_below 256 (λ b. bit_and b 0x80 == b / 128 * 128) ≡ true
unfolding all_below
top_bit_table = refl

-- The top bit of a byte.
pub byte_top_bit : (b : ℕ) → b < 256 → bit_and b 0x80 ≡ b / 128 * 128
byte_top_bit b h = (==_iff _ _).0 (all_below→at 256 _ b top_bit_table h)

clear_table : all_below 128 (λ g. bit_xor (g + 128) 0x80 == g) ≡ true
unfolding all_below
clear_table = refl

-- Flipping the top bit of a byte in which it is set.
pub clear_top_bit : (g : ℕ) → g < 128 → bit_xor (g + 128) 0x80 ≡ g
clear_top_bit g h = (==_iff _ _).0 (all_below→at 128 _ g clear_table h)

-- The recursion on binary digits that the native operation stands for, with its fuel.
abbrev or_digits : ℕ → ℕ → ℕ → ℕ
or_digits n a b = digits (λ y. y) max n a b

or_digits_enough : (n m a b : ℕ) → a ≤ n → a ≤ m → or_digits n a b ≡ or_digits m a b
or_digits_enough zero zero a b p q = refl
or_digits_enough zero (suc m) zero b p q = refl
or_digits_enough zero (suc m) (suc a) b p q = absurd (omega arith)
or_digits_enough (suc n) zero zero b p q = refl
or_digits_enough (suc n) zero (suc a) b p q = absurd (omega arith)
or_digits_enough (suc n) (suc m) zero b p q = refl
or_digits_enough (suc n) (suc m) (suc a) b p q =
    omega (arith, or_digits_enough n m (suc a / 2) (b / 2) (omega arith) (omega arith))

pub zero-bit_or : (b : ℕ) → bit_or 0 b ≡ b
zero-bit_or b = bit_or-bitwise 0 b

-- One step of `|`, from the lowest bit.
pub bit_or_lowest : (a b : ℕ) → bit_or a b ≡ bit_or (a / 2) (b / 2) * 2 + max (a % 2) (b % 2)
bit_or_lowest zero b = omega (arith, zero-bit_or b, zero-bit_or (b / 2))
bit_or_lowest (suc a) b = omega (
  arith,
  bit_or-bitwise (suc a) b,
  bit_or-bitwise (suc a / 2) (b / 2),
  or_digits_enough a (suc a / 2) (suc a / 2) (b / 2) (omega arith) (omega arith),
)

shift_by_suc : (g s : ℕ) → g * 2 ^ suc s ≡ 2 * (g * 2 ^ s)
shift_by_suc g s = omega (arith, ap (λ (t : ℕ). g * t) (pow-suc 2 s))

-- `r | (g << s)` is a sum where `r` fits the `s` low bits.
pub bit_or_disjoint : (s r g : ℕ) → r < 2 ^ s → bit_or r (g * 2 ^ s) ≡ r + g * 2 ^ s
bit_or_disjoint zero r g h = ground (arith, zero-bit_or g)
bit_or_disjoint (suc s) r g h = ground (
  arith,
  bit_or_lowest r (g * 2 ^ suc s),
  shift_by_suc g s,
  pow-suc 2 s,
  bit_or_disjoint s (r / 2) g (omega arith),
)

-- One step of `|` with an even number.
bit_or_even : (a b : ℕ) → bit_or a (b * 2) ≡ bit_or (a / 2) b * 2 + a % 2
bit_or_even a b =
    let half : b * 2 / 2 ≡ b = omega arith in
    let even : b * 2 % 2 ≡ 0 = omega arith in ground (arith, bit_or_lowest a (b * 2))

bit_or-one : (a : ℕ) → bit_or a 1 ≡ bit_or (a / 2) 0 * 2 + 1
bit_or-one a = omega (arith, bit_or_lowest a 1)

-- Setting the top bit of the low byte: `(uint8_t)(v | 0x80)`.
pub set_top_bit : (v : ℕ) → bit_or v 0x80 % 256 ≡ v % 128 + 128
set_top_bit v = omega (
  arith,
  bit_or_even v 64,
  bit_or_even (v / 2) 32,
  bit_or_even (v / 2 / 2) 16,
  bit_or_even (v / 2 / 2 / 2) 8,
  bit_or_even (v / 2 / 2 / 2 / 2) 4,
  bit_or_even (v / 2 / 2 / 2 / 2 / 2) 2,
  bit_or_even (v / 2 / 2 / 2 / 2 / 2 / 2) 1,
  bit_or-one (v / 2 / 2 / 2 / 2 / 2 / 2 / 2),
)
