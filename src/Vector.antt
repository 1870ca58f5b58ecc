-- ===== src/Vector.antt =====
-- runtime/include/syli/chunk_vector.h: a growable stack in chunks of 512 elements, reached through
-- an array of chunk pointers. A chunk is the function from an offset to its element, and what
-- `malloc` leaves in a new chunk is the argument `junk`; whether an allocation succeeds is an
-- argument too. The outer `none` is an access out of bounds or through a null pointer.
pub mod Inv
pub mod Refine
pub mod Run
pub mod Failure
mod Tests
use mathlib.Core.Option
use syli.Prelude.{
  ℕ, ◌+◌, ◌-◌, ◌*◌, ◌/◌, ◌%◌, ◌^◌, Bool, true, false, Option, none, some, ltb, leb, ◌==◌, not, ◌||◌,
  if◌then◌else◌,
}
use syli.Word.{u32}

abbrev pub chunk_size : ℕ
chunk_size = 512

abbrev pub initial_chunk_array_capacity : ℕ
initial_chunk_array_capacity = 64

-- `array_len` is the size of the block that `chunks` points to, 0 for a null pointer; the C code
-- keeps its belief of it in `chunk_array_capacity`.
pub record Vector (A : Type 0) : Type 0 where
  pub chunks : ℕ → Option (ℕ → A)
  pub array_len : ℕ
  pub chunk_count : ℕ
  pub chunk_array_capacity : ℕ
  pub active_chunk : ℕ
  pub active_offset : ℕ
  pub total_elements : ℕ

-- A `T*` into a chunk
pub record Slot : Type 0 where
  pub chunk : ℕ
  pub offset : ℕ

pub chunk_capacity : (chunk_idx : ℕ) → ℕ
chunk_capacity chunk_idx = chunk_size

pub index_to_chunk : ℕ → Slot
index_to_chunk index = record { chunk = u32 (index / chunk_size); offset = index % chunk_size }

-- `active_chunk - 1`, a `uint32_t` that wraps
unfoldable pub chunk_before : ℕ → ℕ
chunk_before chunk = if chunk == 0 then 2 ^ 32 - 1 else chunk - 1

module _ {A : Type 0} where
  -- Reading and writing through a slot pointer
  pub read : Vector A → Slot → Option A
  read v s =
      if ltb s.chunk v.array_len
      then (if ltb s.offset chunk_size
          then Option.map (λ c. c s.offset) (v.chunks s.chunk)
          else none)
      else none

  pub put : (ℕ → A) → ℕ → A → ℕ → A
  put c o x i = if i == o then x else c i

  pub write : Vector A → Slot → A → Option (Vector A)
  write v s x =
      if ltb s.chunk v.array_len
      then (if ltb s.offset chunk_size
          then Option.map
              (λ c. record v {
                chunks = λ i. if i == s.chunk then some (put c s.offset x) else v.chunks i;
              })
              (v.chunks s.chunk)
          else none)
      else none

  -- `vector_init`; both allocations are used unchecked.
  pub init : (array_ok chunk_ok : Bool) → (junk : ℕ → A) → Option (Vector A)
  init true true junk = some (record {
    chunks = λ i. if i == 0 then some junk else none;
    array_len = initial_chunk_array_capacity;
    chunk_count = 1;
    chunk_array_capacity = initial_chunk_array_capacity;
    active_chunk = 0;
    active_offset = 0;
    total_elements = 0;
  })
  init _ _ junk = none

  pub destroy : Vector A → Vector A
  destroy v =
      if v.array_len == 0
      then v
      else record v { chunks = λ i. none; array_len = 0; chunk_count = 0; total_elements = 0 }

  -- The doubling of the array of chunk pointers when the next chunk does not fit in it. The
  -- capacity is doubled before `realloc` is known to succeed; `false` is its failure.
  pub grow : (realloc_ok : Bool) → Vector A → Vector A × Bool
  grow realloc_ok v =
      if leb v.chunk_array_capacity v.active_chunk
      then (let cap = u32 (v.chunk_array_capacity * 2) in
          if realloc_ok
          then (record v { chunk_array_capacity = cap; array_len = cap }, true)
          else (record v { chunk_array_capacity = cap }, false))
      else (v, true)

  -- To the start of the next chunk
  pub next_chunk : Vector A → Vector A
  next_chunk v = record v { active_chunk = u32 (v.active_chunk + 1); active_offset = 0 }

  -- `cv->chunks[cv->active_chunk] = malloc(...)` that succeeds
  pub add_chunk : (ℕ → A) → Vector A → Option (Vector A)
  add_chunk junk v =
      if ltb v.active_chunk v.array_len
      then some (record v {
        chunks = λ i. if i == v.active_chunk then some junk else v.chunks i;
        chunk_count = u32 (v.chunk_count + 1);
      })
      else none

  -- The next free slot is handed out.
  pub claim : Vector A → Slot × Vector A
  claim v = (
    record { chunk = v.active_chunk; offset = v.active_offset },
    record v { active_offset = v.active_offset + 1; total_elements = v.total_elements + 1 },
  )

  -- The null result of `vector_alloc_slot` is the inner `none`.
  pub claimed : Vector A → Option (Option Slot × Vector A)
  claimed v = let (s, v') = claim v in some (some s, v')

  -- The chunk to go to exists, or is allocated; a failure steps back to the full chunk.
  pub alloc_chunk : (malloc_ok : Bool) → (ℕ → A) → Vector A → Option (Option Slot × Vector A)
  alloc_chunk malloc_ok junk v =
      if leb v.chunk_count v.active_chunk
      then (if malloc_ok
          then Option.bind (add_chunk junk v) claimed
          else (if ltb v.active_chunk v.array_len
              then some (
                none,
                record v { active_chunk = chunk_before v.active_chunk; active_offset = chunk_size },
              )
              else none))
      else claimed v

  pub alloc_slot :
      (realloc_ok malloc_ok : Bool) → (ℕ → A) → Vector A → Option (Option Slot × Vector A)
  alloc_slot realloc_ok malloc_ok junk v =
      if leb chunk_size v.active_offset
      then (let (v', grown) = grow realloc_ok (next_chunk v) in
          if grown then alloc_chunk malloc_ok junk v' else some (none, v'))
      else claimed v

  -- `cv->chunks[cv->active_chunk][cv->active_offset] = *value` and the two increments
  pub push_active : A → Vector A → Option (Vector A)
  push_active x v = let (s, v') = claim v in write v' s x

  -- `vector_push_back` does not check the allocation of a chunk: its failure is written through.
  pub push_chunk : (malloc_ok : Bool) → (ℕ → A) → A → Vector A → Option (Vector A)
  push_chunk malloc_ok junk x v =
      if leb v.chunk_count v.active_chunk
      then (if malloc_ok then Option.bind (add_chunk junk v) (push_active x) else none)
      else push_active x v

  pub push_back : (realloc_ok malloc_ok : Bool) → (ℕ → A) → A → Vector A → Option (Vector A)
  push_back realloc_ok malloc_ok junk x v =
      if leb chunk_size v.active_offset
      then (let (v', grown) = grow realloc_ok (next_chunk v) in
          if grown then push_chunk malloc_ok junk x v' else some v')
      else push_active x v

  pub pop_back : Vector A → Vector A
  pop_back v =
      if v.total_elements == 0
      then v
      else if ltb 0 v.active_offset
      then record v { total_elements = v.total_elements - 1; active_offset = v.active_offset - 1 }
      else record v {
        total_elements = v.total_elements - 1;
        active_chunk = chunk_before v.active_chunk;
        active_offset = chunk_size - 1;
      }

  -- `vector_at` and `vector_at_const`; a null result is a `none`.
  pub at : Vector A → ℕ → Option Slot
  at v index = if leb v.total_elements index then none else some (index_to_chunk index)

  pub back : Vector A → Option Slot
  back v =
      if v.total_elements == 0
      then none
      else if ltb 0 v.active_offset
      then some (record { chunk = v.active_chunk; offset = v.active_offset - 1 })
      else some (record { chunk = chunk_before v.active_chunk; offset = chunk_size - 1 })

  pub size : Vector A → ℕ
  size v = v.total_elements

  pub empty : Vector A → Bool
  empty v = v.total_elements == 0

  pub clear : Vector A → Vector A
  clear v = record v { active_chunk = 0; active_offset = 0; total_elements = 0 }
