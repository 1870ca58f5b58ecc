-- ===== src/Tracing.antt =====
-- runtime/src/syli_state_gc_tracing.c: tracing of the objects that the stack reaches, and the
-- release of the cyclic candidates that it did not reach.
pub mod Colours
pub mod Frame
pub mod Machine
pub mod Mark
pub mod Queue
pub mod Reclaim
pub mod Rounds
mod Tests
use syli.Prelude.{
  ℕ, zero, suc, ◌+◌, ◌-◌, ◌%◌, ◌^◌, Bool, true, false, Option, none, some, List, [], ◌∷◌, length,
  ltb, leb, ◌==◌, ◌&&◌, ◌||◌, not, if◌then◌else◌,
}
use syli.Word.{u64}
use syli.Header
use syli.Header.Zone
use syli.Meta
use syli.Meta.{MetaFlag, tracing, waiting_remove, children_released}
use syli.Pointer
use syli.Stack
use syli.State.{
  State, TracingState, tracing_idle, mutation_prepare, reclaiming_cyclic_candidates, spend,
  is_spent,
}
use syli.State.Monad.{
  Result, ok, fault, assert_failed, M, pure, ◌>>=◌, ◌>>◌, assert, or_fault, get_state, modify, load,
  load_object, free,
}
use syli.Object
use syli.Gc
use syli.Traverse.{traverse}

unfoldable pub spend_tracing : ℕ → M (Unit {0})
spend_tracing n = modify λ s. record s { tracing_budget = spend s.tracing_budget n }

unfoldable pub spend_checking : ℕ → M (Unit {0})
spend_checking n = modify λ s. record s { checking_budget = spend s.checking_budget n }

-- `gc_vector_pop_back` of three worklists
pub pop_tracing : M ℕ
pop_tracing s = elim s.tracing_worklist [
  | [] ↦ assert_failed
  | p ∷ ps ↦ ok p (record s { tracing_worklist = ps })
]

pub pop_mutation : M ℕ
pop_mutation s = elim s.tracing_mutations_worklist [
  | [] ↦ assert_failed
  | p ∷ ps ↦ ok p (record s { tracing_mutations_worklist = ps })
]

pub pop_lost_cycle : M ℕ
pop_lost_cycle s = elim s.lost_cycle_worklist [
  | [] ↦ assert_failed
  | p ∷ ps ↦ ok p (record s { lost_cycle_worklist = ps })
]

-- Tracing
unfoldable pub trace_unmarked : ℕ → M (Unit {0})
trace_unmarked o = do
  Gc.mark_tag_object o
  modify (λ s. record s { total_objects_traced = u64 (s.total_objects_traced + 1) })
  traverse Gc.tracing_worklist_push spend_tracing spend_tracing o

-- An object whose count is 0 is skipped, and so is one that is marked.
pub trace_live : ℕ → M (Unit {0})
trace_live o = do
  b ← load_object o
  if Meta.refcount b.meta == 0
      then pure tt
      else (do marked ← Gc.is_object_mark_tagged o; if marked then pure tt else trace_unmarked o)

pub trace_popped : ℕ → M (Unit {0})
trace_popped o = do
  assert (not (o == 0))
  Object.clear_flags o tracing
  waiting ← Object.has_flags o waiting_remove
  if waiting then (do Gc.account_cyclic_free o; free o) else trace_live o

pub one_step_tracing : M (Unit {0})
one_step_tracing = do ptr ← pop_tracing; trace_popped (Pointer.untag ptr)

-- The fields of a bitmap are not taken from the budget here.
pub prepare_popped : ℕ → M (Unit {0})
prepare_popped o = do
  assert (not (o == 0))
  b ← load o
  assert (Header.get_zone b.header == Zone.gc_local)
  waiting ← Object.has_flags o waiting_remove
  if waiting then free o else traverse Gc.tracing_worklist_push spend_tracing (λ n. pure tt) o

pub one_step_prepare_tracing_mutations : M (Unit {0})
one_step_prepare_tracing_mutations = do
  ptr ← pop_mutation
  assert (Pointer.is_own_ref ptr)
  prepare_popped (Pointer.untag ptr)

-- Lost cycles
pub lost_cycle_enqueue_free : ℕ → M (Unit {0})
lost_cycle_enqueue_free ptr = do
  count ← Object.refcount (Pointer.untag ptr)
  assert (count == 0)
  modify (λ s. record s { lost_cycle_worklist = Stack.push ptr s.lost_cycle_worklist })

pub lost_cycle_child_dead : (o ptr : ℕ) → M (Unit {0})
lost_cycle_child_dead o ptr = do
  b ← load o
  if Header.has_pointers b.header then lost_cycle_enqueue_free ptr else Gc.free_released_object o

pub lost_cycle_child_decr : ℕ → M (Unit {0})
lost_cycle_child_decr ptr = do
  Object.decr_local (Pointer.untag ptr)
  count ← Object.refcount (Pointer.untag ptr)
  if count == 0 then lost_cycle_child_dead (Pointer.untag ptr) ptr else pure tt

pub lost_cycle_release_children : ℕ → M (Unit {0})
lost_cycle_release_children o = traverse lost_cycle_child_decr spend_checking spend_checking o

-- The children of an object are released once.
pub release_children_once : ℕ → M (Unit {0})
release_children_once o = do
  is_done ← Object.has_flags o children_released
  if is_done
      then pure tt
      else (do Object.set_flags o children_released; lost_cycle_release_children o)

unfoldable pub scan_unmarked : (o ptr : ℕ) → M (Unit {0})
scan_unmarked o ptr = do
  release_children_once o
  count ← Object.refcount o
  if count == 0 then lost_cycle_enqueue_free ptr else pure tt

unfoldable pub scan_at : ℕ → M (Unit {0})
scan_at index = do
  s ← get_state
  ptr ← or_fault (Stack.at s.cyclic_candidates index)
  modify (λ s. record s { current_candidate_check_index = index })
  marked ← Gc.is_object_mark_tagged (Pointer.untag ptr)
  if marked then pure tt else scan_unmarked (Pointer.untag ptr) ptr

unfoldable pub clamp_check_index : State → State
clamp_check_index s =
    if ltb (length s.cyclic_candidates) s.current_candidate_check_index
    then record s { current_candidate_check_index = length s.cyclic_candidates }
    else s

unfoldable pub one_step_scan : M (Unit {0})
one_step_scan = do
  modify clamp_check_index
  s ← get_state
  if s.current_candidate_check_index == 0
      then pure tt
      else scan_at (s.current_candidate_check_index - 1)

pub one_step_free_unreachable : M (Unit {0})
one_step_free_unreachable = do
  ptr ← pop_lost_cycle
  release_children_once (Pointer.untag ptr)
  Gc.free_released_object (Pointer.untag ptr)

-- The state machine
-- The words that the stack maps name on the stack; a null one is skipped.
unfoldable pub push_roots : List ℕ → M (Unit {0})
push_roots [] = pure tt
push_roots (p ∷ ps) = (if p == 0 then pure tt else Gc.tracing_worklist_push p) >> push_roots ps

pub worklists_empty : State → Bool
worklists_empty s = length s.tracing_worklist == 0 && length s.tracing_mutations_worklist == 0

-- To the reclaiming of candidates once there is nothing left to trace
pub reclaim_when_empty : M (Unit {0})
reclaim_when_empty = modify λ s. record s {
  tracing_state = if worklists_empty s then reclaiming_cyclic_candidates else s.tracing_state;
}

pub after_step : M (Unit {0})
after_step = modify λ s. record s {
  tracing_steps = u64 (s.tracing_steps + 1);
  tracing_state =
      if worklists_empty s
      then reclaiming_cyclic_candidates
      else if ltb 0 (length s.tracing_mutations_worklist)
      then mutation_prepare
      else s.tracing_state;
}

pub mutations_done : M (Unit {0})
mutations_done = modify λ s. record s {
  tracing_state =
      if ltb 0 (length s.tracing_worklist)
      then TracingState.tracing
      else reclaiming_cyclic_candidates;
}

pub prepare_mutation : M (Unit {0})
prepare_mutation = do
  one_step_prepare_tracing_mutations
  modify (λ s. record s { mutation_steps = u64 (s.mutation_steps + 1) })

unfoldable pub reclaim_step : State → M (Unit {0})
reclaim_step s =
    if ltb 0 (length s.lost_cycle_worklist)
    then one_step_free_unreachable
    else if s.current_candidate_check_index == 0
    then modify (λ s. record s { tracing_state = tracing_idle })
    else one_step_scan

-- `ratio_above live objs threshold` is the comparison
-- `(double)live / (double)objs > threshold`.
module _ (ratio_above : ℕ → ℕ → ℕ → Bool) where
  -- The ratio is 0.0 when there are no cyclic objects.
  pub candidates_ratio_above : State → Bool
  candidates_ratio_above s =
      if Gc.current_cyclic_obj s == 0
      then ratio_above 0 1 s.threshold_candidates_ratio
      else ratio_above (Gc.cyclic_candidate_count s) (Gc.current_cyclic_obj s)
          s.threshold_candidates_ratio

  unfoldable pub is_triggered : State → Bool
  is_triggered s =
      ltb s.threshold_mem_cyclic_obj (Gc.current_cyclic_mem s)
      && candidates_ratio_above s
      && ltb s.cyclic_obj_alloc_at_trace s.cyclic_obj_alloc

pub start_tracing : List ℕ → M (Unit {0})
start_tracing roots = do
  modify (λ s. record s {
    tracing_state = TracingState.tracing;
    cyclic_obj_alloc_at_trace = s.cyclic_obj_alloc;
    current_candidate_check_index = Gc.cyclic_candidate_count s;
  })
  Gc.next_marking_generation
  push_roots roots
  reclaim_when_empty

module _ (ratio_above : ℕ → ℕ → ℕ → Bool) (roots : List ℕ) where
  -- One round of the loop: `true` is a return.
  unfoldable pub tracing_round : TracingState → M Bool
  tracing_round tracing_idle = do
    s ← get_state
    if is_triggered ratio_above s then (do start_tracing roots; pure false) else pure true
  tracing_round TracingState.tracing = do one_step_tracing; after_step; pure false
  tracing_round mutation_prepare = do
    s ← get_state
    if length s.tracing_mutations_worklist == 0 then mutations_done else prepare_mutation
    pure false
  tracing_round reclaiming_cyclic_candidates = do
    spend_checking 1
    s ← get_state
    reclaim_step s
    modify (λ s. record s { checking_steps = u64 (s.checking_steps + 1) })
    pure false

  -- The loop, with fuel for its rounds: `none` is a loop that has not ended.
  unfoldable pub gc_tracing : ℕ → State → Option (Result (Unit {0}))
  gc_tracing zero s = none
  gc_tracing (suc fuel) s = elim (is_spent s.tracing_budget) [
    | true ↦ some (ok tt s)
    | false ↦ elim (tracing_round s.tracing_state s) [
      | ok true s' ↦ some (ok tt s')
      | ok false s' ↦ gc_tracing fuel s'
      | fault ↦ some fault
      | assert_failed ↦ some assert_failed
    ]
  ]
