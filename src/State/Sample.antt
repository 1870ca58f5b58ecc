-- ===== src/State/Sample.antt =====
-- A small heap and the state around it, for tests.
use syli.Prelude.{◌+◌, ◌*◌, ◌^◌, none, some, [], ◌∷◌, ◌==◌, if◌then◌else◌}
use syli.State.{Block, Heap, State, tracing_idle, releasing_idle}

-- A local object of two references that is referred to once
abbrev pub pair : Block
pair = record {
  header = 2 ^ 59 + 2 ^ 57 + 2 ^ 56 + 3 * 2 ^ 43 + 2;
  meta = 1;
  value = 0 ∷ 0 ∷ [];
  trailing = [];
}

-- A shared object of one word
abbrev pub shared : Block
shared = record { header = 2 ^ 62 + 3 * 2 ^ 43 + 1; meta = 1; value = 5 ∷ []; trailing = [] }

abbrev pub two_objects : Heap
two_objects p = if p == 16 then some pair else if p == 64 then some shared else none

abbrev pub start : State
start = record {
  heap = two_objects;
  threshold_mem_cyclic_obj = 0;
  threshold_candidates_ratio = 0;
  threshold_releasing_bucket = 0;
  budget_gc_tracing = 0;
  budget_gc_releasing = 0;
  budget_gc_checking = 0;
  tracing_budget = 0;
  releasing_budget = 0;
  checking_budget = 0;
  tracing_worklist = [];
  tracing_mutations_worklist = [];
  releasing_worklist = [];
  releasing_waitlist = [];
  cyclic_candidates = [];
  lost_cycle_worklist = [];
  releasing_steps = 0;
  tracing_steps = 0;
  mutation_steps = 0;
  checking_steps = 0;
  total_objects_traced = 0;
  total_objects_released = 0;
  total_objects_freed = 0;
  generation_tracing = 0;
  tracing_current_bit_mark = 0;
  tracing_generations = 0;
  tracing_state = tracing_idle;
  releasing_state = releasing_idle;
  cyclic_mem_alloc = 0;
  cyclic_mem_dealloc = 0;
  cyclic_obj_alloc = 0;
  cyclic_obj_dealloc = 0;
  cyclic_obj_alloc_at_trace = 0;
  current_candidate_check_index = 0;
}
