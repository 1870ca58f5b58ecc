-- ===== src/Api.antt =====
-- runtime/src/syli.c: the entry points that compiled programs call.
pub mod Ownership
pub mod Release
pub mod RoundTrip
pub mod Errors
pub mod Alloc
pub mod Fresh
pub mod Barrier
mod Tests
use syli.Prelude.{
  ℕ, ◌+◌, ◌-◌, ◌*◌, ◌/◌, ◌%◌, ◌^◌, bit_and, bit_or, Bool, true, false, Option, none, some, List,
  length, [], ◌∷◌, ltb, leb, ◌==◌, not, ◌||◌, if◌then◌else◌,
}
use syli.Word.{u64, ◌<<<◌, ◌>>>◌}
use syli.Header
use syli.Header.{gc_unit_mask}
use syli.Header.Zone
use syli.Pointer
use syli.Stack
use syli.State.{
  Block, State, tracing, mutation_prepare, tracing_idle, reclaiming_cyclic_candidates, TracingState,
}
use syli.State.Monad.{
  M, pure, ◌>>=◌, ◌>>◌, assert, asserted, or_fault, get_state, modify, load, store, free,
}
use syli.Object
use syli.Gc

-- The first `n` bytes of some words are set to 0: words are little-endian, so the bytes of a part of a word are its low
-- ones.
pub zero_bytes : (n : ℕ) → List ℕ → List ℕ
zero_bytes n [] = []
zero_bytes n (w ∷ ws) = (if leb 8 n then 0 else w - w % 2 ^ (8 * n)) ∷ zero_bytes (n - 8) ws

pub zero_trailing : (n : ℕ) → List ℕ → List ℕ
zero_trailing n [] = []
zero_trailing n (b ∷ bs) = (if n == 0 then b else 0) ∷ zero_trailing (n - 1) bs

-- `memset(obj->value, 0, n)`, which may not run past the end of the block
pub zero_block : (n : ℕ) → Block → Option Block
zero_block n b =
    if leb n (8 * length b.value + length b.trailing)
    then some (record b {
      value = zero_bytes n b.value;
      trailing = zero_trailing (n - 8 * length b.value) b.trailing;
    })
    else none

pub rc_alloc_object : (fresh junk header refcount len : ℕ) → M ℕ
rc_alloc_object fresh junk header refcount len = do
  s ← get_state
  o ← Object.alloc fresh junk header (bit_or refcount s.tracing_current_bit_mark) len
  b ← load o
  zeroed ← or_fault (zero_block (len <<< (bit_and header gc_unit_mask >>> 43)) b)
  store o zeroed
  pure o

pub object_incr : ℕ → M (Unit {0})
object_incr o = do
  b ← load o
  if Header.get_zone b.header == Zone.static
      then pure tt
      else if Header.get_zone b.header == Zone.gc_local
      then Object.incr_local o
      else pure tt

-- The count of a local object has reached 0.
pub object_dead : (o ptr : ℕ) → M (Unit {0})
object_dead o ptr = do
  b ← load o
  if Header.is_mono_imm b.header
      then (do
        modify (λ s. record s { total_objects_freed = u64 (s.total_objects_freed + 1) })
        free o)
      else Gc.releasing_worklist_push ptr

-- `meta_ref_count--`, with no assertion
pub object_decr_local : (o ptr : ℕ) → M (Unit {0})
object_decr_local o ptr = do
  Object.modify_meta o (λ m. (m + 2 ^ 64 - 1) % 2 ^ 64)
  count ← Object.refcount o
  if count == 0 then object_dead o ptr else pure tt

pub object_decr : (o ptr : ℕ) → M (Unit {0})
object_decr o ptr = do
  assert (not (o == 0))
  b ← load o
  if Header.get_zone b.header == Zone.static
      then pure tt
      else if Header.get_zone b.header == Zone.gc_local
      then object_decr_local o ptr
      else pure tt

-- `n` is the `size_t` that the argument is converted to.
pub object_decr_n : (o n : ℕ) → M (Unit {0})
object_decr_n o n = do
  b ← load o
  if Header.get_zone b.header == Zone.static
      then pure tt
      else if Header.get_zone b.header == Zone.gc_local
      then Object.decr_local_n o n
      else pure tt

pub get_object_tag : ℕ → M ℕ
get_object_tag o = do assert (not (o == 0)); b ← load o; pure (Header.get_variant_tag b.header)

pub get_object_length : ℕ → M ℕ
get_object_length ptr = do
  assert (not (ptr == 0))
  b ← load (Pointer.untag ptr)
  asserted (Header.object_length b.header)

pub get_object_size : ℕ → M ℕ
get_object_size ptr = do
  assert (not (ptr == 0))
  b ← load (Pointer.untag ptr)
  asserted (Header.size_bytes b.header)

-- The target of a new reference from a marked, traceable object is marked and queued.
pub queue_mutation : (target target_ptr : ℕ) → M (Unit {0})
queue_mutation target target_ptr = do
  Gc.mark_tag_object target
  modify (λ s. record s {
    tracing_mutations_worklist = Stack.push target_ptr s.tracing_mutations_worklist;
  })

pub notify_target : (o target target_ptr : ℕ) → M (Unit {0})
notify_target o target target_ptr = do
  b ← load o
  if not (Header.is_traceable b.header) then pure tt else (do
    marked ← Gc.is_object_mark_tagged target
    if marked then pure tt else queue_mutation target target_ptr)

pub object_notify_mutation : (o target target_ptr : ℕ) → M (Unit {0})
object_notify_mutation o target target_ptr = do
  assert (not (o == 0))
  assert (not (target == 0))
  marked ← Gc.is_object_mark_tagged o
  if marked then notify_target o target target_ptr else pure tt

-- Every cyclic object is counted, and a mutable one registered.
pub track_cyclic : (o ptr : ℕ) → M (Unit {0})
track_cyclic o ptr = do
  b ← load o
  if Header.is_cyclic b.header
      then (do
        bytes ← asserted (Header.total_bytes b.header)
        modify (λ s. record s {
          cyclic_mem_alloc = u64 (s.cyclic_mem_alloc + bytes);
          cyclic_obj_alloc = u64 (s.cyclic_obj_alloc + 1);
        })
        if Header.is_cyclic_mutable b.header then Gc.register_candidate ptr else pure tt)
      else pure tt

pub ownership_alloc_object : (fresh junk header refcount len : ℕ) → M ℕ
ownership_alloc_object fresh junk header refcount len = do
  o ← rc_alloc_object fresh junk header refcount len
  track_cyclic o (Pointer.set_own o)
  pure (Pointer.set_own o)

-- The two assertions of most primitives
pub assert_countable : ℕ → M (Unit {0})
assert_countable ptr = do
  assert (not (Pointer.is_always_borrow ptr))
  assert (not (Pointer.is_immediate ptr))

-- `assert(obj != NULL)` on the untagged pointer
assert_object : ℕ → M (Unit {0})
assert_object ptr = assert (not (Pointer.untag ptr == 0))

pub ownership_share : ℕ → M ℕ
unfolding assert_countable assert_object
ownership_share ptr = do
  assert_countable ptr
  assert_object ptr
  object_incr (Pointer.untag ptr)
  pure (Pointer.set_own ptr)

pub ownership_decr : ℕ → M (Unit {0})
unfolding assert_countable assert_object
ownership_decr ptr = do
  assert_countable ptr
  assert (Pointer.is_own_ref ptr)
  assert_object ptr
  object_decr (Pointer.untag ptr) ptr

pub ownership_untag : ℕ → M ℕ
ownership_untag ptr = pure (Pointer.untag ptr)

pub ownership_incr : ℕ → M (Unit {0})
unfolding assert_countable assert_object
ownership_incr ptr = do
  assert_countable ptr
  assert (Pointer.is_own_ref ptr)
  assert_object ptr
  object_incr (Pointer.untag ptr)

-- The states in which a mutation has to be told to the collector
pub is_tracing : TracingState → Bool
is_tracing tracing = true
is_tracing mutation_prepare = true
is_tracing tracing_idle = false
is_tracing reclaiming_cyclic_candidates = false

pub ownership_notify_mutation : (ptr target_ptr : ℕ) → M (Unit {0})
ownership_notify_mutation ptr target_ptr = do
  assert (not (Pointer.is_immediate ptr))
  s ← get_state
  if Pointer.is_own_ref ptr
      then (if is_tracing s.tracing_state
          then object_notify_mutation (Pointer.untag ptr) (Pointer.untag target_ptr) target_ptr
          else pure tt)
      else pure tt

pub ownership_release : ℕ → M (Unit {0})
unfolding assert_countable assert_object
ownership_release ptr = do
  assert_countable ptr
  if Pointer.is_own_ref ptr
      then (do assert_object ptr; object_decr (Pointer.untag ptr) ptr)
      else pure tt

pub ownership_own : ℕ → M ℕ
unfolding assert_countable assert_object
ownership_own ptr = do
  assert_countable ptr
  if Pointer.is_own_ref ptr then pure ptr else (do
    assert_object ptr
    object_incr (Pointer.untag ptr)
    pure (Pointer.set_own (Pointer.untag ptr)))

pub ownership_borrow : ℕ → M ℕ
unfolding assert_countable
ownership_borrow ptr = do assert_countable ptr; pure (Pointer.untag ptr)
