-- ===== src/State.antt =====
-- runtime/include/syli/syli_state.h: the global `syli_state`, together with the heap of objects.
-- An object is the block at its address; the vectors are the stacks that `Vector` proves them to
-- behave as. An `int` budget is its 32-bit pattern.
pub mod Monad
pub mod Frame
pub mod Sample
use syli.Prelude.{ℕ, ◌+◌, ◌-◌, ◌%◌, ◌^◌, Bool, Option, none, List, ◌==◌, ◌||◌, leb}
use syli.Stack.{Stack}

-- `GCObject`: header word, meta word, and the memory behind them, as its whole 64-bit words and the
-- bytes that are left behind the last of them.
pub record Block : Type 0 where
  pub header : ℕ
  pub meta : ℕ
  pub value : List ℕ
  pub trailing : List ℕ

abbrev pub Heap : Type 0
Heap = ℕ → Option Block

-- `Tracing_state_machine`
pub data TracingState : Type 0 where
  tracing_idle tracing mutation_prepare reclaiming_cyclic_candidates : TracingState

-- `Releasing_state_machine`
pub data ReleasingState : Type 0 where
  releasing_idle releasing : ReleasingState

pub record State : Type 0 where
  pub heap : Heap
  pub threshold_mem_cyclic_obj : ℕ
  -- the bit pattern of a `double`
  pub threshold_candidates_ratio : ℕ
  pub threshold_releasing_bucket : ℕ
  pub budget_gc_tracing : ℕ
  pub budget_gc_releasing : ℕ
  pub budget_gc_checking : ℕ
  pub tracing_budget : ℕ
  pub releasing_budget : ℕ
  pub checking_budget : ℕ
  pub tracing_worklist : Stack ℕ
  pub tracing_mutations_worklist : Stack ℕ
  pub releasing_worklist : Stack ℕ
  pub releasing_waitlist : Stack ℕ
  pub cyclic_candidates : Stack ℕ
  pub lost_cycle_worklist : Stack ℕ
  pub releasing_steps : ℕ
  pub tracing_steps : ℕ
  pub mutation_steps : ℕ
  pub checking_steps : ℕ
  pub total_objects_traced : ℕ
  pub total_objects_released : ℕ
  pub total_objects_freed : ℕ
  pub generation_tracing : ℕ
  pub tracing_current_bit_mark : ℕ
  pub tracing_generations : ℕ
  pub tracing_state : TracingState
  pub releasing_state : ReleasingState
  pub cyclic_mem_alloc : ℕ
  pub cyclic_mem_dealloc : ℕ
  pub cyclic_obj_alloc : ℕ
  pub cyclic_obj_dealloc : ℕ
  pub cyclic_obj_alloc_at_trace : ℕ
  pub current_candidate_check_index : ℕ

-- `budget -= (int)n`, and `budget <= 0`
abbrev pub spend : (budget n : ℕ) → ℕ
spend budget n = (budget + 2 ^ 32 - n % 2 ^ 32) % 2 ^ 32

abbrev pub is_spent : ℕ → Bool
is_spent budget = budget == 0 || leb (2 ^ 31) budget
