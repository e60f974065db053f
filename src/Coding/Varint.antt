-- ===== src/Coding/Varint.antt =====
-- The varint coders of bitdb/utils/coding.cpp: what is read back of what was written.
use mathlib.Core.WellFounded.{Acc}
use native.Mathlib.Nat.{div-add-mod, pow-le-pow_right}
use mathlib.Core.Logic.{dif_pos, dif_neg}
use native.Mathlib.Decide.{dec_le}
use native.Mathlib.Bridge.{le_prop}
use native.Mathlib.Numerals.{towards_suc}
use bitdb.Base.{
  ℕ, ◌+◌, ◌*◌, ◌/◌, ◌%◌, ◌^◌, ◌≤◌, ◌<◌, ◌≡◌, ap, arith, some, ◌∷◌, ◌++◌, length, lt_wf,
}
use bitdb.Base.Bits.{byte_top_bit, clear_top_bit, set_top_bit, bit_or_disjoint}
use bitdb.Coding.{Bytes, IsU32, encode_loop, shift_shrinks, int_shl, decode_loop32}
use bitdb.Coding.{encode_varint32, decode_varint32}

pub shift_seven : (s : ℕ) → 2 ^ (s + 7) ≡ 128 * 2 ^ s
shift_seven s = simp towards_suc (omega arith)

-- The lowest group of `v` and the rest of it, both shifted by `s`.
pub split_low_group : (v s : ℕ) → v * 2 ^ s ≡ v % 128 * 2 ^ s + v / 128 * 2 ^ (s + 7)
split_low_group v s = omega (
  arith,
  ap (λ (t : ℕ). t * 2 ^ s) (div-add-mod v 128),
  ap (λ (t : ℕ). v / 128 * t) (shift_seven s),
)

-- A field that still fits 32 bits is shifted without loss.
pub int_shl_fits : (g s : ℕ) → s < 32 → g * 2 ^ s < 2 ^ 32 → int_shl g s ≡ some (g * 2 ^ s)
unfolding int_shl
int_shl_fits g s hs fits = ground (arith)

-- One round of the 32-bit loop, on a last byte and on a byte over the group `g`.
last_round32 :
    (g r s n : ℕ) (rest : Bytes)
    → g < 128
    → s < 32
    → r < 2 ^ s
    → g * 2 ^ s < 2 ^ 32
    → decode_loop32 (g ∷ rest) r s n ≡ some (r + g * 2 ^ s, n + 1)
unfolding decode_loop32
last_round32 g r s n rest hg hs hr fits =
    ground (arith, byte_top_bit g, int_shl_fits g s, bit_or_disjoint s r g)

inner_round32 :
    (g r s n : ℕ) (rest : Bytes)
    → g < 128
    → s < 32
    → r < 2 ^ s
    → g * 2 ^ s < 2 ^ 32
    → decode_loop32 ((g + 128) ∷ rest) r s n ≡ decode_loop32 rest (r + g * 2 ^ s) (s + 7) (n + 1)
unfolding decode_loop32
inner_round32 g r s n rest hg hs hr fits =
    ground (arith, byte_top_bit (g + 128), clear_top_bit g, int_shl_fits g s, bit_or_disjoint s r g)

-- A shift that keeps a positive number below `2 ^ 32` is below 32.
pub shift-lt : (v s : ℕ) → 1 ≤ v → v * 2 ^ s < 2 ^ 32 → s < 32
shift-lt v s pos fits = elim (dec_le 32 s) [
  | yes big ↦ absurd (grind (arith, pow-le-pow_right {n = 2} (omega arith) big))
  | no small ↦ omega arith
]

-- The lowest group fits below the next shift.
pub room_above : (v r s : ℕ) → r < 2 ^ s → r + v % 128 * 2 ^ s < 2 ^ (s + 7)
room_above v r s h = grind (arith, shift_seven s)

-- `v` is what is still to be read, and it counts from bit `s` on.
decode_loop32-encode_loop :
    (v : ℕ) (w : Acc ◌<◌ v) (r s n : ℕ) (rest : Bytes)
    → s < 32
    → r < 2 ^ s
    → r + v * 2 ^ s < 2 ^ 32
    → decode_loop32 (encode_loop v w ++ rest) r s n
      ≡ some (r + v * 2 ^ s, n + length (encode_loop v w))
unfolding encode_loop
decode_loop32-encode_loop v (Acc.intro _ smaller) r s n rest hs hr fits = elim (dec_le 128 v) [
  | yes more ↦
      rw (dif_pos _ le_prop more, set_top_bit v)
        (let tail = smaller (v / 128) (shift_shrinks v more) in
          ground (
            arith,
            split_low_group v s,
            shift_seven s,
            inner_round32 (v % 128) r s n (encode_loop (v / 128) tail ++ rest),
            shift-lt (v / 128) (s + 7),
            room_above v r s,
            decode_loop32-encode_loop (v / 128) (smaller _ (shift_shrinks v more))
                (r + v % 128 * 2 ^ s) (s + 7) (n + 1) rest,
          ))
  | no done ↦ rw (dif_neg _ done) (ground (arith, last_round32 (v % 256) r s n rest))
]

-- DecodeVarint32 reads back every uint32_t that EncodeVarint32 wrote, whatever follows it, and
-- returns the number of bytes that were written.
pub decode_varint32-encode_varint32 :
    (v : ℕ) (rest : Bytes)
    → IsU32 v
    → decode_varint32 (encode_varint32 v ++ rest) ≡ some (v, length (encode_varint32 v))
unfolding decode_varint32 encode_varint32
decode_varint32-encode_varint32 v rest h =
    ground (arith, decode_loop32-encode_loop v (lt_wf.apply v) 0 0 0 rest)
