-- ===== src/Object.antt =====
-- runtime/include/syli/object.h: the objects on the heap. An object is named by its address, the
-- untagged pointer. The atomic variants for shared objects have here the effect that they have in one
-- thread; `Shared` takes them apart into the accesses of several threads.
pub mod Heap
pub mod Frame
pub mod Counts
mod Tests
use syli.Prelude.{
  ℕ, zero, suc, ◌+◌, ◌-◌, ◌*◌, ◌/◌, ◌%◌, ◌^◌, bit_and, Bool, true, false, Option, none, some, List,
  [], ◌∷◌, replicate, get_elem?, set, length, ltb, leb, ◌==◌, ◌||◌, ◌&&◌, not, if◌then◌else◌,
}
use syli.Word.{u64, ◌<<<◌, ◌>>>◌}
use syli.Header
use syli.Header.{gc_cyclic_mutable_mask, gc_unit_mask}
use syli.Header.Zone
use syli.Meta
use syli.Pointer
use syli.Meta.{MetaFlag}
use syli.State.{Block, State}
use syli.State.Monad.{
  M, pure, ◌>>=◌, ◌>>◌, assert, asserted, or_fault, modify, update, load, load_object, store, free,
}

-- The zones whose objects have a meta word in use
unfoldable pub is_counted : ℕ → Bool
is_counted header =
    Header.get_zone header == Zone.gc_local || Header.get_zone header == Zone.gc_shared

unfoldable pub modify_meta : ℕ → (ℕ → ℕ) → M (Unit {0})
modify_meta o f = do b ← load_object o; store o (record b { meta = f b.meta })

unfoldable pub mark_tag_shift : ℕ → M ℕ
mark_tag_shift o = do
  b ← load_object o
  pure (if is_counted b.header then Meta.mark_tag b.meta else 0)

unfoldable pub set_flags : ℕ → MetaFlag → M (Unit {0})
set_flags o f = do
  b ← load_object o
  if is_counted b.header then modify_meta o (λ m. Meta.set_flags m f) else pure tt

unfoldable pub has_flags : ℕ → MetaFlag → M Bool
has_flags o f = do
  b ← load_object o
  pure (if is_counted b.header then Meta.has_flags b.meta f else false)

unfoldable pub clear_flags : ℕ → MetaFlag → M (Unit {0})
clear_flags o f = do
  b ← load_object o
  if is_counted b.header then modify_meta o (λ m. Meta.clear_flags m f) else pure tt

unfoldable pub refcount : ℕ → M ℕ
refcount o = do b ← load_object o; pure (if is_counted b.header then Meta.refcount b.meta else 0)

unfoldable pub incr_local : ℕ → M (Unit {0})
incr_local o = modify_meta o Meta.incr

unfoldable pub decr_local_n : ℕ → ℕ → M (Unit {0})
decr_local_n o n = do
  b ← load_object o
  assert (leb n (Meta.refcount b.meta))
  modify_meta o (λ m. Meta.decr_n m n)

unfoldable pub decr_local : ℕ → M (Unit {0})
decr_local o = do
  b ← load_object o
  assert (ltb 0 (Meta.refcount b.meta))
  modify_meta o (λ m. Meta.decr_n m 1)

unfoldable pub incr_shared : ℕ → M (Unit {0})
incr_shared o = modify_meta o Meta.incr

unfoldable pub decr_shared : ℕ → M (Unit {0})
decr_shared o = do
  b ← load_object o
  assert (ltb 0 (Meta.refcount b.meta))
  modify_meta o (λ m. Meta.decr_n m 1)

unfoldable pub decr_shared_n : ℕ → ℕ → M (Unit {0})
decr_shared_n o n = do
  b ← load_object o
  assert (leb n (Meta.refcount b.meta))
  modify_meta o (λ m. Meta.decr_n m n)

-- The three `switch`es on the zone
unfoldable pub by_zone : ℕ → (local shared : M (Unit {0})) → M (Unit {0})
by_zone o local shared = do
  b ← load_object o
  if Header.get_zone b.header == Zone.gc_local
      then local
      else if Header.get_zone b.header == Zone.gc_shared
      then shared
      else pure tt

unfoldable pub incr : ℕ → M (Unit {0})
incr o = by_zone o (incr_local o) (incr_shared o)

unfoldable pub decr : ℕ → M (Unit {0})
decr o = by_zone o (decr_local o) (decr_shared o)

unfoldable pub decr_n : ℕ → ℕ → M (Unit {0})
decr_n o n = by_zone o (decr_local_n o n) (decr_shared_n o n)

-- `sizeof(GCObject)`: the two header words
abbrev pub header_bytes : ℕ
header_bytes = 16

-- The argument of `malloc`, a `size_t` that wraps
unfoldable pub block_bytes : (header len : ℕ) → ℕ
block_bytes header len = u64 (
    header_bytes
    + (len <<< (bit_and header gc_unit_mask >>> 43))
    + (if bit_and header gc_cyclic_mutable_mask == 0 then 0 else 8))

-- `fresh` is what `malloc` returns, `junk` the content of the words that it leaves uninitialised.
-- In a block that is shorter than the two header words, they are written past its end.
unfoldable pub alloc : (fresh junk header meta len : ℕ) → M ℕ
alloc fresh junk header meta len = do
  or_fault (if fresh == 0 || ltb (block_bytes header len) header_bytes then none else some tt)
  store fresh (record {
    header = header;
    meta = meta;
    value = replicate ((block_bytes header len - header_bytes) / 8) junk;
    trailing = replicate ((block_bytes header len - header_bytes) % 8) (junk % 256);
  })
  pure fresh

-- `value[i]` of an object, read and written
unfoldable pub get_value : ℕ → ℕ → M ℕ
get_value o i = do b ← load o; or_fault (get_elem? b.value i)

unfoldable pub set_value : ℕ → ℕ → ℕ → M (Unit {0})
set_value o i x = do
  b ← load o
  if ltb i (length b.value) then store o (record b { value = set b.value i x }) else or_fault none

unfoldable pub set_candidate_index : ℕ → ℕ → M (Unit {0})
set_candidate_index o index = do
  b ← load_object o
  assert (Header.is_cyclic_mutable b.header)
  if is_counted b.header
      then (do len ← asserted (Header.object_length b.header); set_value o len index)
      else pure tt

unfoldable pub get_candidate_index : ℕ → M ℕ
get_candidate_index o = do
  b ← load_object o
  assert (Header.is_cyclic_mutable b.header)
  if is_counted b.header
      then (do len ← asserted (Header.object_length b.header); get_value o len)
      else pure 0

-- The words of an object; the zone that the enumeration does not name has none, and they are read
-- through a null pointer.
unfoldable pub object_data : ℕ → M (List ℕ)
object_data o = do
  b ← load_object o
  if Header.get_zone b.header == Zone.static || is_counted b.header
      then pure b.value
      else or_fault none

-- `free` of what a tagged pointer points to
unfoldable pub free_ptr : ℕ → M (Unit {0})
free_ptr ptr = free (Pointer.untag ptr)
