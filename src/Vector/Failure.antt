-- ===== src/Vector/Failure.antt =====
-- What a failed `realloc` leaves behind.
use mathlib.Core.Option
use syli.Prelude.{ℕ, ◌+◌, ◌*◌, ◌^◌, ◌<◌, ◌≡◌, refl, Bool, false, none, some, arith}
use syli.Word.{u32}
use syli.Vector.{
  Vector, Slot, chunk_size, read, write, push_back, alloc_slot, next_chunk, grow, claim, claimed,
  push_active,
}
use syli.Vector.Inv.{IsValid}

module _ {A : Type 0} where
  -- The next slot is the first of a chunk that the array of chunk pointers has no place for.
  pub record IsFull (v : Vector A) : Type 0 where
    pub valid : IsValid v
    pub chunk_full : v.active_offset ≡ chunk_size
    pub array_full : v.active_chunk + 1 ≡ v.chunk_array_capacity
    pub small : v.chunk_array_capacity < 2 ^ 30

  abbrev after_failure : Vector A → Vector A
  after_failure v = record v {
    chunk_array_capacity = u32 (v.chunk_array_capacity * 2);
    active_chunk = u32 (v.active_chunk + 1);
    active_offset = 0;
  }

  -- When `realloc` fails on a full vector, `vector_push_back` returns with the element lost, and
  -- the call after it accesses memory out of bounds, whatever is allocated then.
  pub push_back-lost :
      (realloc_ok malloc_ok first_ok : Bool) (junk : ℕ → A) (x y : A) {v : Vector A}
      → IsFull v
      → (v' : Vector A) × (push_back false first_ok junk x v ≡ some v')
        × (v'.total_elements ≡ v.total_elements)
        × (push_back realloc_ok malloc_ok junk y v' ≡ none)
  unfolding push_back next_chunk grow push_active claim write
  push_back-lost realloc_ok malloc_ok first_ok junk x y {v} f =
      (after_failure v, ground arith, refl, ground arith)

  -- When `realloc` fails on a full vector, `vector_alloc_slot` reports it by a null pointer, but
  -- the call after it hands out a slot out of bounds, whatever is allocated then.
  pub alloc_slot-wild :
      (realloc_ok malloc_ok first_ok : Bool) (junk : ℕ → A) {v : Vector A}
      → IsFull v
      → (v' : Vector A) × (alloc_slot false first_ok junk v ≡ some (none, v'))
        × (s : Slot) × (Option.map (λ r. r.0) (alloc_slot realloc_ok malloc_ok junk v')
            ≡ some (some s))
        × (read v' s ≡ none)
  unfolding alloc_slot next_chunk grow claimed claim read
  alloc_slot-wild realloc_ok malloc_ok first_ok junk {v} f = (
    after_failure v,
    ground arith,
    record { chunk = u32 (v.active_chunk + 1); offset = 0 },
    ground arith,
    ground arith,
  )
