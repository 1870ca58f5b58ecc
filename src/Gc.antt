-- ===== src/Gc.antt =====
-- runtime/include/syli/gc_helpers.h: what tracing, releasing and the API share. An `obj_ptr` is a
-- tagged pointer, an object its address.
pub mod Frame
pub mod Free
pub mod Candidates
pub mod Register
pub mod Numbers
pub mod Unregister
pub mod Without
mod Tests
use syli.Prelude.{
  ℕ, ◌+◌, ◌-◌, ◌%◌, ◌^◌, bit_xor, Bool, true, false, Option, none, some, List, [], ◌∷◌, length, ltb,
  leb, ◌==◌, not, if◌then◌else◌,
}
use syli.Word.{u64}
use syli.Header
use syli.Meta
use syli.Meta.{MetaFlag, cyclic_candidate, tracing, waiting_remove, mask_marking_bit}
use syli.Pointer
use syli.Stack
use syli.Stack.{Stack}
use syli.State.{Block, State}
use syli.State.Monad.{
  M, pure, ◌>>=◌, ◌>>◌, assert, asserted, or_fault, get_state, modify, load, load_object, free,
}
use syli.Object

unfoldable pub cyclic_candidate_count : State → ℕ
cyclic_candidate_count s = length s.cyclic_candidates

unfoldable pub current_cyclic_mem : State → ℕ
current_cyclic_mem s =
    if leb s.cyclic_mem_dealloc s.cyclic_mem_alloc
    then s.cyclic_mem_alloc - s.cyclic_mem_dealloc
    else 0

unfoldable pub current_cyclic_obj : State → ℕ
current_cyclic_obj s =
    if leb s.cyclic_obj_dealloc s.cyclic_obj_alloc
    then s.cyclic_obj_alloc - s.cyclic_obj_dealloc
    else 0

-- The part of `gc_register_candidate` behind its early return
unfoldable pub add_candidate : ℕ → M (Unit {0})
add_candidate ptr = do
  modify (λ s. record s { cyclic_candidates = Stack.push ptr s.cyclic_candidates })
  s ← get_state
  Object.set_candidate_index (Pointer.untag ptr) (length s.cyclic_candidates - 1)
  Object.set_flags (Pointer.untag ptr) cyclic_candidate

unfoldable pub register_candidate : ℕ → M (Unit {0})
register_candidate ptr = do
  known ← Object.has_flags (Pointer.untag ptr) cyclic_candidate
  if known then pure tt else add_candidate ptr

-- The last candidate takes the place of the one at `index`.
unfoldable pub move_last_candidate : (index last : ℕ) → M (Unit {0})
move_last_candidate index last = do
  s ← get_state
  moved ← or_fault (Stack.at s.cyclic_candidates last)
  or_fault (Stack.at s.cyclic_candidates index)
  modify (λ s. record s { cyclic_candidates = Stack.set_at s.cyclic_candidates index moved })
  Object.set_candidate_index (Pointer.untag moved) index

unfoldable pub remove_candidate_at : ℕ → M (Unit {0})
remove_candidate_at index = do
  s ← get_state
  let last = (length s.cyclic_candidates + 2 ^ 64 - 1) % 2 ^ 64
  if index == last then pure tt else move_last_candidate index last
  modify (λ s. record s { cyclic_candidates = Stack.pop s.cyclic_candidates })

unfoldable pub account_cyclic_free : ℕ → M (Unit {0})
account_cyclic_free o = do
  b ← load o
  if Header.is_cyclic b.header
      then (do
        bytes ← asserted (Header.total_bytes b.header)
        modify (λ s. record s {
          cyclic_mem_dealloc = u64 (s.cyclic_mem_dealloc + bytes);
          cyclic_obj_dealloc = u64 (s.cyclic_obj_dealloc + 1);
        }))
      else pure tt

-- An object that is freed leaves the candidates first.
unfoldable pub unregister_candidate : ℕ → M (Unit {0})
unregister_candidate o = do
  known ← Object.has_flags o cyclic_candidate
  if known
      then (do
        index ← Object.get_candidate_index o
        remove_candidate_at index
        Object.clear_flags o cyclic_candidate)
      else pure tt

unfoldable pub free_now : ℕ → M (Unit {0})
free_now o = do
  modify (λ s. record s { total_objects_freed = u64 (s.total_objects_freed + 1) })
  account_cyclic_free o
  free o

unfoldable pub free_released_object : ℕ → M (Unit {0})
free_released_object o = do
  unregister_candidate o
  in_worklist ← Object.has_flags o tracing
  if in_worklist then Object.set_flags o waiting_remove else free_now o

unfoldable pub tracing_worklist_push : ℕ → M (Unit {0})
tracing_worklist_push ptr =
    if Pointer.is_own_ref ptr
    then (do
      queued ← Object.has_flags (Pointer.untag ptr) tracing
      if queued then pure tt else (do
        Object.set_flags (Pointer.untag ptr) tracing
        modify (λ s. record s { tracing_worklist = Stack.push ptr s.tracing_worklist })))
    else pure tt

-- Marking
unfoldable pub next_marking_generation : M (Unit {0})
next_marking_generation = modify λ s. record s {
  tracing_current_bit_mark = bit_xor s.tracing_current_bit_mark mask_marking_bit;
  tracing_generations = u64 (s.tracing_generations + 1);
}

unfoldable pub mark_tag_object : ℕ → M (Unit {0})
mark_tag_object o = do
  s ← get_state
  Object.modify_meta o (Meta.set_mark s.tracing_current_bit_mark)

unfoldable pub is_object_mark_tagged : ℕ → M Bool
is_object_mark_tagged o = do
  b ← load_object o
  s ← get_state
  pure (Meta.mark_tag b.meta == s.tracing_current_bit_mark)

unfoldable pub releasing_worklist_push : ℕ → M (Unit {0})
releasing_worklist_push ptr = do
  count ← Object.refcount (Pointer.untag ptr)
  assert (count == 0)
  b ← load (Pointer.untag ptr)
  if Header.is_cyclic_mutable b.header then mark_tag_object (Pointer.untag ptr) else pure tt
  modify (λ s. record s { releasing_waitlist = Stack.push ptr s.releasing_waitlist })
