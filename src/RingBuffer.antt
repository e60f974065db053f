-- ===== src/RingBuffer.antt =====
-- bitdb/common/buffer.h: the buffers between the threads of the logger. A lock or an atomic counter
-- guards each slot, so a Push and a TryPop are one step each.
pub mod Slots
use bitdb.Base.{
  ℕ, zero, suc, ◌+◌, ◌%◌, ◌^◌, ◌≡◌, bit_and, Bool, true, false, Option, none, some, List, [], ◌∷◌,
  get_elem?, ltb, ◌==◌, if◌then◌else◌, ◌>>=◌,
}

-- RingBuffer<T>: a slot that is not written, or was read, is `none`.
pub record RingBuffer (T : Type 0) : Type 0 where
  pub size : ℕ
  pub slots : List (Option T)
  pub write_index : ℕ
  pub read_index : ℕ

-- Buffer<T>::SIZE
abbrev pub buffer_size : ℕ
buffer_size = 32768

-- Buffer<T>: its items, and `write_state_`, whose last place is for the number of items.
pub record Buffer (T : Type 0) : Type 0 where
  pub items : ℕ → Option T
  pub write_state : ℕ → ℕ

abbrev pub at_index {ℓ} : {A : Type ℓ} → ℕ → A → (ℕ → A) → ℕ → A
at_index i v f j = if i == j then v else f j

module _ {T : Type 0} where
  abbrev pub empty_slots : ℕ → List (Option T)
  empty_slots zero = []
  empty_slots (suc n) = none ∷ empty_slots n

  unfoldable pub new_ring_buffer : ℕ → RingBuffer T
  new_ring_buffer size = record {
    size = size;
    slots = empty_slots size;
    write_index = 0;
    read_index = 0;
  }

  abbrev pub write_slot : ℕ → Option T → List (Option T) → List (Option T)
  write_slot i v [] = []
  write_slot zero v (s ∷ slots) = v ∷ slots
  write_slot (suc i) v (s ∷ slots) = s ∷ write_slot i v slots

  -- RingBuffer::Push; a size of 0 is a division by it.
  unfoldable pub ring_push : T → RingBuffer T → Option (RingBuffer T)
  ring_push value r =
      if r.size == 0
      then none
      else some (record r {
        slots = write_slot (r.write_index % r.size) (some value) r.slots;
        write_index = (r.write_index + 1) % 2 ^ 32;
      })

  abbrev popped : RingBuffer T → ℕ → Option T → Option T × RingBuffer T
  popped r i none = (none, r)
  popped r i (some value) = (
    some value,
    record r { slots = write_slot i none r.slots; read_index = (r.read_index + 1) % 2 ^ 32 },
  )

  -- RingBuffer::TryPop, on the slot `read_index_ & size_`
  unfoldable pub ring_try_pop : RingBuffer T → Option (Option T × RingBuffer T)
  ring_try_pop r = do
    slot ← get_elem? r.slots (bit_and r.read_index r.size)
    some (popped r (bit_and r.read_index r.size) slot)

  -- Buffer::Full
  unfoldable pub is_full : Buffer T → Bool
  is_full b = b.write_state buffer_size + 1 == buffer_size

  -- Buffer::Push; the result says that the next buffer is needed.
  unfoldable pub buffer_push : T → ℕ → Buffer T → Bool × Buffer T
  buffer_push value write_index b =
      let stored = at_index write_index 1 b.write_state in
      (
        stored write_index + 1 == buffer_size,
        record {
          items = at_index write_index (some value) b.items;
          write_state = at_index write_index (stored write_index + 1) stored;
        },
      )

  -- Buffer::TryPop
  unfoldable pub buffer_try_pop : ℕ → Buffer T → Option T
  buffer_try_pop read_index b = if b.write_state read_index == 0 then none else b.items read_index
