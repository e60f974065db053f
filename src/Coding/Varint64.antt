-- ===== src/Coding/Varint64.antt =====
-- The 64-bit varint coders of bitdb/utils/coding.cpp. `DecodeVarint64` shifts an `int`, so it reads
-- back the numbers below `2 ^ 31` and no other.
use mathlib.Core.Logic.{dif_pos, dif_neg, ◌≢◌}
use mathlib.Core.WellFounded.{Acc}
use native.Mathlib.Bridge.{le_prop}
use native.Mathlib.Decide.{dec_le}
use native.Mathlib.Nat.{pow-le-pow_right}
use bitdb.Base.{
  [], refl, ℕ, ◌+◌, ◌-◌, ◌*◌, ◌/◌, ◌%◌, ◌^◌, ◌≤◌, ◌<◌, ◌≡◌, arith, some, none, ◌∷◌, ◌++◌, length,
  lt_wf, bit_or,
}
use bitdb.Base.Bits.{byte_top_bit, clear_top_bit, set_top_bit, bit_or_disjoint}
use bitdb.Coding.{Bytes, encode_loop, shift_shrinks, int_shl, sign_extend, decode_loop64}
use bitdb.Coding.{encode_varint64, decode_varint64}
use bitdb.Coding.Varint.{shift_seven, split_low_group, int_shl_fits, shift-lt, room_above}

-- One round of the 64-bit loop where the shifted group fits an `int`.
last_round64 :
    (g r s n : ℕ) (rest : Bytes)
    → g < 128
    → s < 32
    → r < 2 ^ s
    → g * 2 ^ s < 2 ^ 31
    → decode_loop64 (g ∷ rest) r s n ≡ some (r + g * 2 ^ s, n + 1)
unfolding decode_loop64 sign_extend
last_round64 g r s n rest hg hs hr fits =
    ground (arith, byte_top_bit g, int_shl_fits g s, bit_or_disjoint s r g)

inner_round64 :
    (g r s n : ℕ) (rest : Bytes)
    → g < 128
    → s < 32
    → r < 2 ^ s
    → g * 2 ^ s < 2 ^ 31
    → decode_loop64 ((g + 128) ∷ rest) r s n ≡ decode_loop64 rest (r + g * 2 ^ s) (s + 7) (n + 1)
unfolding decode_loop64 sign_extend
inner_round64 g r s n rest hg hs hr fits =
    ground (arith, byte_top_bit (g + 128), clear_top_bit g, int_shl_fits g s, bit_or_disjoint s r g)

decode_loop64-encode_loop :
    (v : ℕ) (w : Acc ◌<◌ v) (r s n : ℕ) (rest : Bytes)
    → s < 32
    → r < 2 ^ s
    → r + v * 2 ^ s < 2 ^ 31
    → decode_loop64 (encode_loop v w ++ rest) r s n
      ≡ some (r + v * 2 ^ s, n + length (encode_loop v w))
unfolding encode_loop
decode_loop64-encode_loop v (Acc.intro _ smaller) r s n rest hs hr fits = elim (dec_le 128 v) [
  | yes more ↦
      rw (dif_pos _ le_prop more, set_top_bit v)
        (let tail = smaller (v / 128) (shift_shrinks v more) in
          ground (
            arith,
            split_low_group v s,
            shift_seven s,
            inner_round64 (v % 128) r s n (encode_loop (v / 128) tail ++ rest),
            shift-lt (v / 128) (s + 7),
            room_above v r s,
            decode_loop64-encode_loop (v / 128) (smaller _ (shift_shrinks v more))
                (r + v % 128 * 2 ^ s) (s + 7) (n + 1) rest,
          ))
  | no done ↦ rw (dif_neg _ done) (ground (arith, last_round64 (v % 256) r s n rest))
]

-- DecodeVarint64 reads back the numbers below 2 ^ 31 that EncodeVarint64 wrote, whatever follows.
pub decode_varint64-encode_varint64 :
    (v : ℕ) (rest : Bytes)
    → v < 2 ^ 31
    → decode_varint64 (encode_varint64 v ++ rest) ≡ some (v, length (encode_varint64 v))
unfolding decode_varint64 encode_varint64
decode_varint64-encode_varint64 v rest h =
    ground (arith, decode_loop64-encode_loop v (lt_wf.apply v) 0 0 0 rest)

-- The last group of a large number stands at bit 28, and its shift leaves the `int`.
sign_extend-shl :
    (g r : ℕ)
    → g < 128
    → 8 ≤ g
    → r < 2 ^ 28
    → bit_or r (sign_extend (g * 2 ^ 28 % 2 ^ 32)) ≢ r + g * 2 ^ 28
unfolding sign_extend
sign_extend-shl g r hg big hr =
    ground (arith, bit_or_disjoint 28 r (g % 16), bit_or_disjoint 28 r (g % 16 + (2 ^ 36 - 16)))

-- From bit 35 on every shift is undefined.
decode_loop64_too_far : (src : Bytes) (r s n : ℕ) → 32 ≤ s → decode_loop64 src r s n ≡ none
unfolding decode_loop64 int_shl
decode_loop64_too_far [] r s n h = refl
decode_loop64_too_far (b ∷ src) r s n h = ground arith

mul_bound : (g p c : ℕ) → g ≤ 127 → p ≤ c → g * p ≤ 127 * c
mul_bound g p c hg hp = grind arith

-- Up to bit 21 a shifted group stays far below the sign bit.
low_group_bound : (g j : ℕ) → g < 128 → j ≤ 3 → g * 2 ^ (7 * j) ≤ 127 * 2 ^ 21
low_group_bound g j hg hj =
    mul_bound g (2 ^ (7 * j)) (2 ^ 21) (omega arith)
      (pow-le-pow_right {n = 2} (omega arith) {i = 7 * j} {j = 21} (omega arith))

low_pow_bound : (j : ℕ) → j ≤ 3 → 2 ^ (7 * j) ≤ 2 ^ 21
low_pow_bound j hj = pow-le-pow_right {n = 2} (omega arith) {i = 7 * j} {j = 21} (omega arith)

-- A last byte above bit 28.
last_round_wide :
    (g r n m : ℕ) (rest : Bytes)
    → g < 128
    → r < 2 ^ 28
    → 2 ^ 31 ≤ r + g * 2 ^ 28
    → decode_loop64 (g ∷ rest) r 28 n ≢ some (r + g * 2 ^ 28, m)
unfolding decode_loop64 int_shl
last_round_wide g r n m rest hg hr big e = ground (arith, byte_top_bit g, sign_extend-shl g r)

-- A byte above bit 28 with more bytes behind it.
inner_round_wide :
    (g r n : ℕ) (src : Bytes) → g < 128 → decode_loop64 ((g + 128) ∷ src) r 28 n ≡ none
unfolding decode_loop64 int_shl
inner_round_wide g r n src hg = ground (
  arith,
  byte_top_bit (g + 128),
  clear_top_bit g,
  decode_loop64_too_far src (bit_or r (sign_extend (g * 2 ^ 28 % 2 ^ 32))) 35 (n + 1),
)

last_round_wide_at :
    (s g r n m : ℕ) (rest : Bytes)
    → s ≡ 28
    → g < 128
    → r < 2 ^ s
    → 2 ^ 31 ≤ r + g * 2 ^ s
    → decode_loop64 (g ∷ rest) r s n ≢ some (r + g * 2 ^ s, m)
last_round_wide_at s g r n m rest e hg hr big =
    rw e (last_round_wide g r n m rest hg (rw e at hr) (rw e at big))

inner_round_wide_at :
    (s g r n : ℕ) (src : Bytes) → s ≡ 28 → g < 128 → decode_loop64 ((g + 128) ∷ src) r s n ≡ none
inner_round_wide_at s g r n src e hg = rw e (inner_round_wide g r n src hg)

next_shift : (j : ℕ) → 7 * j + 7 ≡ 7 * (j + 1)
next_shift j = omega arith

decode_loop64-wide :
    (v : ℕ) (w : Acc ◌<◌ v) (j r n m : ℕ) (rest : Bytes)
    → j ≤ 4
    → r < 2 ^ (7 * j)
    → 2 ^ 31 ≤ r + v * 2 ^ (7 * j)
    → decode_loop64 (encode_loop v w ++ rest) r (7 * j) n ≢ some (r + v * 2 ^ (7 * j), m)
unfolding encode_loop
decode_loop64-wide v (Acc.intro _ smaller) j r n m rest hj hr big = elim (dec_le 128 v) [
  | yes more ↦
      rw (dif_pos _ le_prop more, set_top_bit v)
        (let tail = encode_loop (v / 128) (smaller (v / 128) (shift_shrinks v more)) ++ rest in
          elim (dec_le j 3) [
            | yes low ↦ λ e. ground (
              arith,
              e,
              split_low_group v (7 * j),
              low_group_bound (v % 128) j,
              inner_round64 (v % 128) r (7 * j) n tail,
              room_above v r (7 * j),
              next_shift j,
              decode_loop64-wide (v / 128) (smaller _ (shift_shrinks v more)) (j + 1)
                  (r + v % 128 * 2 ^ (7 * j)) (n + 1) m rest,
            )
            | no high ↦
                λ e. cc (inner_round_wide_at (7 * j) (v % 128) r n tail (omega arith) (omega arith))
          ])
  | no done ↦ rw (dif_neg _ done) (elim (dec_le j 3) [
    | yes low ↦
        λ e. absurd (omega (arith, low_group_bound v j (omega arith) low, low_pow_bound j low))
    | no high ↦ λ e. ground (arith, last_round_wide_at (7 * j) (v % 256) r n m rest)
  ])
]

-- DecodeVarint64 reads no number from 2 ^ 31 on back: it returns another one, or shifts an `int`
-- by 32 or more.
pub decode_varint64_wide :
    (v : ℕ) (rest : Bytes) (read : ℕ)
    → 2 ^ 31 ≤ v
    → decode_varint64 (encode_varint64 v ++ rest) ≢ some (v, read)
unfolding decode_varint64 encode_varint64
decode_varint64_wide v rest read h e =
    ground (arith, decode_loop64-wide v (lt_wf.apply v) 0 0 0 read rest)
