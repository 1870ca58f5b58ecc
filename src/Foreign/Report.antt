-- ===== src/Foreign/Report.antt =====
-- runtime/src/syli_foreign_primitives.c, the line on the state of the collector, as the values that
-- its format names, in their order. What `printf` makes of a value is left open.
use Prim.Native.String.{String}
use syli.Prelude.{ℕ, List, [], ◌∷◌, length}
use syli.State.{
  State, TracingState, tracing_idle, tracing, mutation_prepare, reclaiming_cyclic_candidates,
  ReleasingState, releasing_idle, releasing,
}
use syli.Gc

-- The enumerations have no other value.
unfoldable pub tracing_state_name : TracingState → String
tracing_state_name tracing_idle = "Idle"
tracing_state_name tracing = "Tracing"
tracing_state_name mutation_prepare = "Mutation_Prepare"
tracing_state_name reclaiming_cyclic_candidates = "Reclaiming"

unfoldable pub releasing_state_name : ReleasingState → String
releasing_state_name releasing_idle = "Idle"
releasing_state_name releasing = "Releasing"

-- `%s` and `%zu`
pub data Field : Type 0 where
  name : (key value : String) → Field
  size : (key : String) → ℕ → Field

unfoldable pub print_gc_state : State → List Field
print_gc_state s =
    name "tracing_state" (tracing_state_name s.tracing_state)
    ∷ name "releasing_state" (releasing_state_name s.releasing_state)
    ∷ size "generations" s.tracing_generations
    ∷ size "candidates" (length s.cyclic_candidates)
    ∷ size "cyclic-mem" (Gc.current_cyclic_mem s)
    ∷ size "cyclic-alloc" s.cyclic_mem_alloc
    ∷ size "cyclic-dealloc" s.cyclic_mem_dealloc
    ∷ size "obj-alloc" s.cyclic_obj_alloc
    ∷ size "obj-dealloc" s.cyclic_obj_dealloc
    ∷ size "traced" s.total_objects_traced
    ∷ size "freed" s.total_objects_freed
    ∷ size "release-waitlist" (length s.releasing_waitlist)
    ∷ size "tracing-worklist" (length s.tracing_worklist)
    ∷ []
