-- ===== src/Coding.antt =====
-- bitdb/utils/coding.h and coding.cpp: varints and little-endian fixed-width integers.
-- A `char*` that is written is the list of the bytes written; one that is read is the list of the
-- bytes in memory from it on. `none` is undefined behaviour: a read past the end of that memory, or
-- a shift of an `int` by 32 or more.
pub mod Varint
pub mod Varint64
pub mod Length
pub mod Fixed
pub use bitdb.Bytes.{Bytes}
use mathlib.Core.Logic.{dite}
use mathlib.Core.WellFounded.{Acc}
use bitdb.Base.{
  ℕ, ◌+◌, ◌*◌, ◌/◌, ◌%◌, ◌^◌, ◌≤◌, ◌<◌, bit_and, bit_or, bit_xor, arith, Option, none, some, [],
  ◌∷◌, ltb, ◌==◌, ◌-◌, dec_le, if◌then◌else◌, lt_wf, ◌>>=◌,
}

abbrev pub IsByte : ℕ → Type 0
IsByte b = b < 256

abbrev pub IsU32 : ℕ → Type 0
IsU32 v = v < 2 ^ 32

abbrev pub IsU64 : ℕ → Type 0
IsU64 v = v < 2 ^ 64

pub shift_shrinks : (v : ℕ) → 128 ≤ v → v / 128 < v
shift_shrinks v h = omega arith

-- `while (value >= 0x80) { *target = (uint8_t)(value | 0x80); value >>= 7; ++target; }`, and the
-- last byte behind it.
pub encode_loop : (v : ℕ) → Acc ◌<◌ v → Bytes
encode_loop v (Acc.intro _ smaller) =
    dite (dec_le 128 v)
      (λ more. (bit_or v 0x80 % 256) ∷ encode_loop (v / 128) (smaller _ (shift_shrinks v more)))
      (λ _. (v % 256) ∷ [])

-- The two encoders have one body, over `uint32_t` and over `uint64_t`.
unfoldable pub encode_varint32 : ℕ → Bytes
unfolding encode_loop lt_wf dec_le
encode_varint32 value = encode_loop value (lt_wf.apply value)

unfoldable pub encode_varint64 : ℕ → Bytes
unfolding encode_loop lt_wf dec_le
encode_varint64 value = encode_loop value (lt_wf.apply value)

-- `x << s` where the byte `x` has been promoted to `int`, as the bit pattern of the `int`.
unfoldable pub int_shl : ℕ → ℕ → Option ℕ
int_shl x s = if ltb s 32 then some (x * 2 ^ s % 2 ^ 32) else none

-- The conversion of an `int` to `uint64_t` copies the sign bit.
unfoldable pub sign_extend : ℕ → ℕ
sign_extend w = if ltb w (2 ^ 31) then w else w + (2 ^ 64 - 2 ^ 32)

-- The loop of `DecodeVarint32`; the result is the value and the bytes read.
pub decode_loop32 : Bytes → ℕ → ℕ → ℕ → Option (ℕ × ℕ)
decode_loop32 [] result bitsize read = none
decode_loop32 (b ∷ buffer) result bitsize read =
    if bit_and b 0x80 == 0
    then (do part ← int_shl b bitsize; some (bit_or result part, read + 1))
    else (do
      part ← int_shl (bit_xor b 0x80) bitsize
      decode_loop32 buffer (bit_or result part) (bitsize + 7) (read + 1))

unfoldable pub decode_varint32 : Bytes → Option (ℕ × ℕ)
unfolding decode_loop32 int_shl
decode_varint32 src = decode_loop32 src 0 0 0

-- The loop of `DecodeVarint64`, which shifts an `int` too.
pub decode_loop64 : Bytes → ℕ → ℕ → ℕ → Option (ℕ × ℕ)
decode_loop64 [] result bitsize read = none
decode_loop64 (b ∷ buffer) result bitsize read =
    if bit_and b 0x80 == 0
    then (do part ← int_shl b bitsize; some (bit_or result (sign_extend part), read + 1))
    else (do
      part ← int_shl (bit_xor b 0x80) bitsize
      decode_loop64 buffer (bit_or result (sign_extend part)) (bitsize + 7) (read + 1))

unfoldable pub decode_varint64 : Bytes → Option (ℕ × ℕ)
unfolding decode_loop64 int_shl sign_extend
decode_varint64 src = decode_loop64 src 0 0 0

unfoldable pub encode_fixed32 : ℕ → Bytes
encode_fixed32 v = (v % 256) ∷ (v / 2 ^ 8 % 256) ∷ (v / 2 ^ 16 % 256) ∷ (v / 2 ^ 24 % 256) ∷ []

unfoldable pub encode_fixed64 : ℕ → Bytes
encode_fixed64 v =
    (v % 256)
    ∷ (v / 2 ^ 8 % 256)
    ∷ (v / 2 ^ 16 % 256)
    ∷ (v / 2 ^ 24 % 256)
    ∷ (v / 2 ^ 32 % 256)
    ∷ (v / 2 ^ 40 % 256)
    ∷ (v / 2 ^ 48 % 256)
    ∷ (v / 2 ^ 56 % 256)
    ∷ []

-- The shifts of `DecodeFixed32` are on `uint32_t`.
unfoldable pub decode_fixed32 : Bytes → Option ℕ
decode_fixed32 (b0 ∷ b1 ∷ b2 ∷ b3 ∷ rest) =
    some (bit_or (bit_or (bit_or b0 (b1 * 2 ^ 8)) (b2 * 2 ^ 16)) (b3 * 2 ^ 24))
decode_fixed32 _ = none

unfoldable pub decode_fixed64 : Bytes → Option ℕ
decode_fixed64 (b0 ∷ b1 ∷ b2 ∷ b3 ∷ b4 ∷ b5 ∷ b6 ∷ b7 ∷ rest) =
    let low = bit_or (bit_or (bit_or b0 (b1 * 2 ^ 8)) (b2 * 2 ^ 16)) (b3 * 2 ^ 24) in
    some (
      bit_or (bit_or (bit_or (bit_or low (b4 * 2 ^ 32)) (b5 * 2 ^ 40)) (b6 * 2 ^ 48)) (b7 * 2 ^ 56))
decode_fixed64 _ = none
