-- ===== src/RingBuffer/Slots.antt =====
-- bitdb/common/buffer.h: which slot TryPop reads, and when a buffer is full.
use Prim.Native.Nat.{bit_and-bitwise}
use native.Mathlib.Nat.{mod-eq_of_lt}
use bitdb.Base.{ℕ, suc, ◌%◌, ◌<◌, ◌≡◌, refl, arith, bit_and, false, none, some, ◌∷◌, ◌>>=◌}
use bitdb.RingBuffer.{
  RingBuffer, Buffer, buffer_size, new_ring_buffer, ring_push, ring_try_pop, is_full, buffer_push,
  empty_slots,
}

zero_mask : (n : ℕ) → bit_and 0 n ≡ 0
zero_mask n = λ i. bit_and-bitwise 0 n i

module _ {T : Type 0} where
  push_two :
      (k : ℕ) (x y : T)
      → 0 % suc (suc k) ≡ 0
      → 1 % suc (suc k) ≡ 1
      → (ring_push x (new_ring_buffer (suc (suc k))) >>= ring_push y >>= ring_try_pop)
        ≡ some (
          some x,
          record {
            size = suc (suc k);
            slots = none ∷ some y ∷ empty_slots k;
            write_index = 2;
            read_index = 1;
          },
        )
  unfolding ring_push ring_try_pop new_ring_buffer
  push_two k x y first next = ground (arith, first, next, zero_mask (suc (suc k)))

  -- On a new ring buffer of an even size, the first of two values that are pushed is read, and the
  -- second is never found: TryPop looks into the first slot again.
  pub ring_try_pop_sticks :
      (k : ℕ) (x y : T)
      → bit_and 1 (suc (suc k)) ≡ 0
      → (r : RingBuffer T) × ((ring_push x (new_ring_buffer (suc (suc k)))
            >>= ring_push y
            >>= ring_try_pop)
          ≡ some (some x, r))
        × (ring_try_pop r ≡ some (none, r))
  unfolding ring_push ring_try_pop new_ring_buffer
  ring_try_pop_sticks k x y even =
      let first : 0 % suc (suc k) ≡ 0 = omega arith in
      let next : 1 % suc (suc k) ≡ 1 = mod-eq_of_lt (omega arith) in
      (
        record {
          size = suc (suc k);
          slots = none ∷ some y ∷ empty_slots k;
          write_index = 2;
          read_index = 1;
        },
        push_two k x y first next,
        rw even refl,
      )

  -- Buffer::Push into a slot never reports that the buffer is full, and Full does not change.
  pub buffer_push_never_full :
      (value : T) (i : ℕ) (b : Buffer T)
      → i < buffer_size
      → ((buffer_push value i b).0 ≡ false) × (is_full (buffer_push value i b).1 ≡ is_full b)
  unfolding buffer_push is_full
  buffer_push_never_full value i b inside = (ground arith, ground arith)
