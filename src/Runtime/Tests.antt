-- ===== src/Runtime/Tests.antt =====
-- Concrete cycles, and the theorems applied to them.
use syli.Prelude.{ℕ, ◌≡◌, refl, Bool, true, none, some, Option, List, [], ◌∷◌, ltb, ◌*◌}
use syli.Env.{
  Env, Variable, mem_cyclic_obj_threshold, candidates_ratio_threshold, releasing_threshold,
  load_env,
}
use syli.State.{State}
use syli.State.Monad.{ok}
use syli.State.Sample.{start}
use syli.Roots.Section.{stackmap_supported, read_le}
use syli.Runtime.{state_init, gc_cycle}
use syli.Runtime.Cycle.{state_init-gc_cycle}

-- A comparison of ratios by cross multiplication, with a whole threshold
abbrev above : ℕ → ℕ → ℕ → Bool
above live objs threshold = ltb (threshold * objs) live

-- One variable is set, to a text that reads as 7.
abbrev getenv : Variable → Option (List ℕ)
getenv mem_cyclic_obj_threshold = none
getenv candidates_ratio_threshold = none
getenv releasing_threshold = some (55 ∷ [])

abbrev read_seven : List ℕ → ℕ × List ℕ
read_seven text = (7, [])

abbrev env : Env
env = load_env getenv read_seven read_seven

-- A section of version 3
version_3 : stackmap_supported 8 24 (3 ∷ []) ≡ some true
unfolding stackmap_supported read_le
version_3 = refl

state_init-gc_cycle_example :
    (t : State) × (state_init env 8 24 (3 ∷ []) start ≡ ok tt t)
    × (t.heap ≡ start.heap)
    × (gc_cycle above [] 1 t
        ≡ some (
            ok tt (record t {
              tracing_budget = 2000;
              releasing_budget = 5000;
              checking_budget = 3000;
            })))
state_init-gc_cycle_example = state_init-gc_cycle above [] 0 env 8 24 (3 ∷ []) start version_3
