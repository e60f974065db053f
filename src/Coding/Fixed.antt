-- ===== src/Coding/Fixed.antt =====
-- The fixed-width coders of bitdb/utils/coding.h.
use bitdb.Base.{ℕ, ◌+◌, ◌*◌, ◌/◌, ◌%◌, ◌^◌, ◌<◌, ◌≡◌, arith, some, ◌++◌, length, All, bit_or, ap}
use bitdb.Base.Bits.{bit_or_disjoint}
use bitdb.Coding.{Bytes, IsByte, IsU32, IsU64}
use bitdb.Coding.{encode_fixed32, decode_fixed32, encode_fixed64, decode_fixed64}

-- Four bytes below `2 ^ 32`, lowest first.
join_four :
    (b0 b1 b2 b3 : ℕ)
    → b0 < 256
    → b1 < 256
    → b2 < 256
    → b3 < 256
    → bit_or (bit_or (bit_or b0 (b1 * 2 ^ 8)) (b2 * 2 ^ 16)) (b3 * 2 ^ 24)
      ≡ b0 + b1 * 2 ^ 8 + b2 * 2 ^ 16 + b3 * 2 ^ 24
join_four b0 b1 b2 b3 h0 h1 h2 h3 = rw (bit_or_disjoint 8 b0 b1 (omega arith)) (
    rw (bit_or_disjoint 16 (b0 + b1 * 2 ^ 8) b2 (omega arith))
      (bit_or_disjoint 24 (b0 + b1 * 2 ^ 8 + b2 * 2 ^ 16) b3 (omega arith)))

-- The four upper bytes of 64 bits over the lower 32.
join_eight :
    (low b4 b5 b6 b7 : ℕ)
    → low < 2 ^ 32
    → b4 < 256
    → b5 < 256
    → b6 < 256
    → b7 < 256
    → bit_or (bit_or (bit_or (bit_or low (b4 * 2 ^ 32)) (b5 * 2 ^ 40)) (b6 * 2 ^ 48)) (b7 * 2 ^ 56)
      ≡ low + b4 * 2 ^ 32 + b5 * 2 ^ 40 + b6 * 2 ^ 48 + b7 * 2 ^ 56
join_eight low b4 b5 b6 b7 h h4 h5 h6 h7 = rw (bit_or_disjoint 32 low b4 (omega arith)) (
    rw (bit_or_disjoint 40 (low + b4 * 2 ^ 32) b5 (omega arith)) (
      rw (bit_or_disjoint 48 (low + b4 * 2 ^ 32 + b5 * 2 ^ 40) b6 (omega arith))
        (bit_or_disjoint 56 (low + b4 * 2 ^ 32 + b5 * 2 ^ 40 + b6 * 2 ^ 48) b7 (omega arith))))

-- DecodeFixed32 reads back every uint32_t that EncodeFixed32 wrote, whatever bytes follow.
pub decode_fixed32-encode_fixed32 :
    (v : ℕ) (rest : Bytes) → IsU32 v → decode_fixed32 (encode_fixed32 v ++ rest) ≡ some v
unfolding decode_fixed32 encode_fixed32
decode_fixed32-encode_fixed32 v rest h =
    ground (arith, join_four (v % 256) (v / 2 ^ 8 % 256) (v / 2 ^ 16 % 256) (v / 2 ^ 24 % 256))

-- DecodeFixed64 reads back every uint64_t that EncodeFixed64 wrote, whatever bytes follow.
pub decode_fixed64-encode_fixed64 :
    (v : ℕ) (rest : Bytes) → IsU64 v → decode_fixed64 (encode_fixed64 v ++ rest) ≡ some v
unfolding decode_fixed64 encode_fixed64
decode_fixed64-encode_fixed64 v rest h =
    rw
      (join_four (v % 256) (v / 2 ^ 8 % 256) (v / 2 ^ 16 % 256) (v / 2 ^ 24 % 256) (omega arith)
        (omega arith) (omega arith) (omega arith))
      (rw
        (join_eight
          (v % 256
            + v / 2 ^ 8 % 256 * 2 ^ 8
            + v / 2 ^ 16 % 256 * 2 ^ 16
            + v / 2 ^ 24 % 256 * 2 ^ 24)
          (v / 2 ^ 32 % 256) (v / 2 ^ 40 % 256) (v / 2 ^ 48 % 256) (v / 2 ^ 56 % 256) (omega arith)
          (omega arith) (omega arith) (omega arith) (omega arith))
        (ap some (omega arith)))

-- EncodeFixed32 writes four bytes.
pub encode_fixed32_shape : (v : ℕ) → All IsByte (encode_fixed32 v) × (length (encode_fixed32 v) ≡ 4)
unfolding encode_fixed32
encode_fixed32_shape v = (omega arith, omega arith)
