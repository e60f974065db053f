-- ===== src/Coding/Length.antt =====
-- How many bytes the varint encoders of bitdb/utils/coding.cpp write, and that they are bytes.
use mathlib.Core.Logic.{dif_pos, dif_neg}
use mathlib.Core.WellFounded.{Acc}
use native.Mathlib.Bridge.{le_prop}
use native.Mathlib.Decide.{dec_le}
use native.Mathlib.Nat.{pow-suc, one-le-pow}
use bitdb.Base.{ℕ, zero, suc, ◌/◌, ◌^◌, ◌≤◌, ◌<◌, arith, length, All, lt_wf}
use bitdb.Coding.{IsByte, IsU32, encode_loop, shift_shrinks}
use bitdb.Coding.{encode_varint32, encode_varint64}

length-encode_loop-pos : (v : ℕ) (w : Acc ◌<◌ v) → 1 ≤ length (encode_loop v w)
unfolding encode_loop
length-encode_loop-pos v (Acc.intro _ smaller) = elim (dec_le 128 v) [
  | yes more ↦ rw (dif_pos _ le_prop more) (omega arith)
  | no done ↦ rw (dif_neg _ done) (omega arith)
]

length-encode_loop-le :
    (k v : ℕ) (w : Acc ◌<◌ v) → v < 128 ^ suc k → length (encode_loop v w) ≤ suc k
unfolding encode_loop
length-encode_loop-le zero v (Acc.intro _ smaller) h =
    rw (dif_neg _ (λ (more : 128 ≤ v). absurd (omega arith))) (omega arith)
length-encode_loop-le (suc k) v (Acc.intro _ smaller) h = elim (dec_le 128 v) [
  | yes more ↦ rw (dif_pos _ le_prop more) (
      omega (
        arith,
        pow-suc 128 (suc k),
        length-encode_loop-le k (v / 128) (smaller _ (shift_shrinks v more))
            (omega (arith, pow-suc 128 (suc k))),
      ))
  | no done ↦ rw (dif_neg _ done) (omega arith)
]

-- A number of more than `7 * k` bits takes more than `k` bytes.
pub length-encode_loop-gt : (k v : ℕ) (w : Acc ◌<◌ v) → 128 ^ k ≤ v → k < length (encode_loop v w)
unfolding encode_loop
length-encode_loop-gt zero v w h = length-encode_loop-pos v w
length-encode_loop-gt (suc k) v (Acc.intro _ smaller) h =
    let more : 128 ≤ v = omega (arith, pow-suc 128 k, one-le-pow k 128) in
    rw (dif_pos _ le_prop more) (
      omega (
        arith,
        length-encode_loop-gt k (v / 128) (smaller _ (shift_shrinks v more))
            (omega (arith, pow-suc 128 k)),
      ))

encode_loop-IsByte : (v : ℕ) (w : Acc ◌<◌ v) → All IsByte (encode_loop v w)
unfolding encode_loop
encode_loop-IsByte v (Acc.intro _ smaller) = elim (dec_le 128 v) [
  | yes more ↦
      rw (dif_pos _ le_prop more)
        (omega arith, encode_loop-IsByte (v / 128) (smaller _ (shift_shrinks v more)))
  | no done ↦ rw (dif_neg _ done) (omega arith, tt)
]

-- EncodeVarint32 writes 1 to 5 bytes for a uint32_t.
pub encode_varint32_shape :
    (v : ℕ)
    → IsU32 v
    → All IsByte (encode_varint32 v)
      × (1 ≤ length (encode_varint32 v))
      × (length (encode_varint32 v) ≤ 5)
unfolding encode_varint32
encode_varint32_shape v h = (
  encode_loop-IsByte v (lt_wf.apply v),
  length-encode_loop-pos v (lt_wf.apply v),
  length-encode_loop-le 4 v (lt_wf.apply v) (omega arith),
)

-- EncodeVarint64 writes at least 1 byte, and at most `k` exactly if the value fits `7 * k` bits.
pub encode_varint64_shape :
    (k v : ℕ)
    → All IsByte (encode_varint64 v)
      × (1 ≤ length (encode_varint64 v))
      × (v < 128 ^ suc k → length (encode_varint64 v) ≤ suc k)
      × (128 ^ suc k ≤ v → suc k < length (encode_varint64 v))
unfolding encode_varint64
encode_varint64_shape k v = (
  encode_loop-IsByte v (lt_wf.apply v),
  length-encode_loop-pos v (lt_wf.apply v),
  length-encode_loop-le k v (lt_wf.apply v),
  length-encode_loop-gt (suc k) v (lt_wf.apply v),
)
