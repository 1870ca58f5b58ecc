-- ===== src/Vector/Inv.antt =====
-- The invariant of a chunked vector, and that every operation keeps it.
use syli.Prelude.{
  ℕ, ◌+◌, ◌*◌, ◌^◌, ◌≤◌, ◌<◌, ◌≡◌, ◌≢◌, true, Option, none, some, leb, if◌then◌else◌, arith,
}
use mathlib.Core.Option
use syli.Vector.{
  Vector, chunk_size, push_back, alloc_slot, pop_back, clear, init, next_chunk, grow, add_chunk,
  claimed, push_active, push_chunk, alloc_chunk, chunk_before,
}

module _ {A : Type 0} where
  -- The chunks below `chunk_count` exist, the array of chunk pointers has the size that the
  -- vector believes and is at most doubled once past its need, and the active position is the
  -- end of the elements.
  pub record IsValid (v : Vector A) : Type 0 where
    pub array : v.array_len ≡ v.chunk_array_capacity
    pub counted : v.chunk_count ≤ v.chunk_array_capacity
    pub slack : v.chunk_array_capacity ≤ 64 + 2 * v.chunk_count
    pub active : v.active_chunk < v.chunk_count
    pub offset : v.active_offset ≤ chunk_size
    pub total : v.total_elements ≡ v.active_chunk * chunk_size + v.active_offset
    pub exist : (c : ℕ) → c < v.chunk_count → v.chunks c ≢ none

  pub init-IsValid : (junk : ℕ → A) {v : Vector A} → init true true junk ≡ some v → IsValid v
  unfolding init
  init-IsValid junk h = grind arith

  -- A valid vector with a free slot at the active position.
  pub record Ready (v : Vector A) : Type 0 where
    pub valid : IsValid v
    pub free : v.active_offset < chunk_size

  -- Both ways to add an element first make room, then take the active slot.
  pub room : (ℕ → A) → Vector A → Option (Vector A)
  room junk v =
      if leb chunk_size v.active_offset
      then (let v' = (grow true (next_chunk v)).0 in
          if leb v'.chunk_count v'.active_chunk then add_chunk junk v' else some v')
      else some v

  grow-true : (v : Vector A) → (grow true v).1 ≡ true
  unfolding grow
  grow-true v = ground arith

  pub alloc_slot-room :
      (junk : ℕ → A) (v : Vector A)
      → alloc_slot true true junk v ≡ Option.bind (room junk v) claimed
  unfolding alloc_slot room alloc_chunk Option.bind
  alloc_slot-room junk v = ground (arith, grow-true (next_chunk v))

  pub push_back-room :
      (junk : ℕ → A) (x : A) (v : Vector A)
      → push_back true true junk x v ≡ Option.bind (room junk v) (push_active x)
  unfolding push_back room push_chunk Option.bind
  push_back-room junk x v = ground (arith, grow-true (next_chunk v))

  pub room-ne-none :
      (junk : ℕ → A) {v : Vector A} → IsValid v → v.chunk_count < 2 ^ 30 → room junk v ≢ none
  unfolding room next_chunk grow add_chunk
  room-ne-none junk i h = ground arith

  pub room-Ready :
      (junk : ℕ → A) {v v' : Vector A}
      → IsValid v
      → v.chunk_count < 2 ^ 30
      → room junk v ≡ some v'
      → Ready v'
        × (v'.total_elements ≡ v.total_elements)
        × (v'.chunk_count ≤ v.chunk_count + 1)
        × ((c : ℕ) → c < v.chunk_count → v'.chunks c ≡ v.chunks c)
  unfolding room next_chunk grow add_chunk
  room-Ready junk i h e = grind arith

  pub pop_back-IsValid : {v : Vector A} → IsValid v → IsValid (pop_back v)
  unfolding pop_back chunk_before
  pop_back-IsValid i = ground arith

  pub clear-IsValid : {v : Vector A} → IsValid v → IsValid (clear v)
  unfolding clear
  clear-IsValid i = ground arith
