-- ===== src/Runtime.antt =====
-- runtime/src/syli_state.c and the cycle of runtime/include/syli/syli_state.h: the state from its
-- initialisation to its end. The table of stack maps is not part of `State`: it is an argument and
-- a result in `Roots`.
pub mod Cycle
mod Tests
use syli.Prelude.{ℕ, ◌+◌, ◌*◌, ◌%◌, ◌^◌, Bool, Option, none, some, List, []}
use syli.Env.{Env}
use syli.State.{State, tracing_idle, releasing_idle}
use syli.State.Monad.{Result, ok, fault, assert_failed, M, ◌>>=◌, ◌>>◌, modify}
use syli.Releasing.{gc_releasing}
use syli.Tracing.{gc_tracing}
use syli.Roots.Frames.{stackmap_check_version}

abbrev pub budget_batch_size : ℕ
budget_batch_size = 1000

-- The state that is zeroed and then set field by field
unfoldable pub initial_state : Env → State → State
initial_state env s = record {
  heap = s.heap;
  threshold_mem_cyclic_obj = env.syli_gc_mem_cyclic_obj_threshold;
  threshold_candidates_ratio = env.syli_gc_candidates_ratio_threshold;
  threshold_releasing_bucket = env.syli_gc_release_threshold;
  budget_gc_tracing = 2 * budget_batch_size;
  budget_gc_releasing = 5 * budget_batch_size;
  budget_gc_checking = 3 * budget_batch_size;
  tracing_budget = 0;
  releasing_budget = 0;
  checking_budget = 0;
  tracing_worklist = [];
  tracing_mutations_worklist = [];
  releasing_worklist = [];
  releasing_waitlist = [];
  cyclic_candidates = [];
  lost_cycle_worklist = [];
  releasing_steps = 0;
  tracing_steps = 0;
  mutation_steps = 0;
  checking_steps = 0;
  total_objects_traced = 0;
  total_objects_released = 0;
  total_objects_freed = 0;
  generation_tracing = 0;
  tracing_current_bit_mark = 0;
  tracing_generations = 0;
  tracing_state = tracing_idle;
  releasing_state = releasing_idle;
  cyclic_mem_alloc = 0;
  cyclic_mem_dealloc = 0;
  cyclic_obj_alloc = 0;
  cyclic_obj_dealloc = 0;
  cyclic_obj_alloc_at_trace = 0;
  current_candidate_check_index = 0;
}

-- `env` is what `syli_load_env` reads.
unfoldable pub state_init : Env → (start stop : ℕ) → List ℕ → M (Unit {0})
state_init env start stop bytes =
    stackmap_check_version start stop bytes >> modify (initial_state env)

-- Each vector is destroyed; the objects stay in the heap.
unfoldable pub state_destroy : M (Unit {0})
state_destroy = modify λ s. record s {
  tracing_worklist = [];
  tracing_mutations_worklist = [];
  releasing_worklist = [];
  releasing_waitlist = [];
  cyclic_candidates = [];
  lost_cycle_worklist = [];
}

-- Each `size_t` budget becomes an `int`.
unfoldable pub fill_budgets : State → State
fill_budgets s = record s {
  tracing_budget = s.budget_gc_tracing % 2 ^ 32;
  releasing_budget = s.budget_gc_releasing % 2 ^ 32;
  checking_budget = s.budget_gc_checking % 2 ^ 32;
}

-- Releasing and then tracing, each with fuel for the rounds of its loop. The parameters are those
-- of tracing.
module _ (ratio_above : ℕ → ℕ → ℕ → Bool) (roots : List ℕ) (fuel : ℕ) where
  unfoldable pub trace_after : Result (Unit {0}) → Option (Result (Unit {0}))
  trace_after (ok a s) = gc_tracing ratio_above roots fuel s
  trace_after fault = some fault
  trace_after assert_failed = some assert_failed

  unfoldable pub gc_cycle : State → Option (Result (Unit {0}))
  gc_cycle s = elim (gc_releasing fuel (fill_budgets s)) [ none ↦ none | some r ↦ trace_after r ]
