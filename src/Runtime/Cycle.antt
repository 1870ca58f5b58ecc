-- ===== src/Runtime/Cycle.antt =====
-- The cycle, right behind the initialisation.
use syli.Prelude.{
  ℕ, suc, ◌≡◌, refl, ap, ◌∙◌, Bool, true, false, Option, none, some, List, [], ltb, ◌||◌, arith,
}
use syli.Env.{Env}
use syli.State.{State, releasing_idle, is_spent}
use syli.State.Monad.{Result, ok}
use syli.Releasing.{releasing_round, gc_releasing}
use syli.Tracing.Rounds.{gc_tracing-idle}
use syli.Roots.Section.{stackmap_supported}
use syli.Roots.Frames.{stackmap_check_version}
use syli.Runtime.{initial_state, state_init, fill_budgets, trace_after, gc_cycle}

is_few : (n : ℕ) → (ltb 0 n || true) ≡ true
is_few n = ground arith

-- With nothing to release
gc_releasing-idle :
    (fuel : ℕ) (s : State)
    → s.releasing_state ≡ releasing_idle
    → s.releasing_waitlist ≡ []
    → is_spent s.releasing_budget ≡ false
    → gc_releasing (suc fuel) s ≡ some (ok tt s)
unfolding gc_releasing releasing_round
gc_releasing-idle fuel s idle empty some_left =
    rw (gc_releasing, some_left, idle, empty, is_few s.threshold_releasing_bucket) refl

gc_cycle-trace_after :
    (ratio_above : ℕ → ℕ → ℕ → Bool) (roots : List ℕ) (fuel : ℕ) (s : State)
    → (r : Result (Unit {0})) → gc_releasing fuel (fill_budgets s) ≡ some r
    → gc_cycle ratio_above roots fuel s ≡ trace_after ratio_above roots fuel r
unfolding gc_cycle
gc_cycle-trace_after ratio_above roots fuel s r e =
    ap
      (λ o. elim o as (λ x. Option (Result (Unit {0}))) [
        | none ↦ none
        | some r ↦ trace_after ratio_above roots fuel r
      ])
      e

-- From any state, when the section of stack maps is null, empty or of the version that is read, the
-- initialisation ends well and leaves the objects, and a cycle on the state that it leaves ends
-- after one round of each loop, with nothing but the three budgets filled.
pub state_init-gc_cycle :
    (ratio_above : ℕ → ℕ → ℕ → Bool) (roots : List ℕ) (fuel : ℕ)
    → (env : Env) (start stop : ℕ) (bytes : List ℕ) (s : State)
    → stackmap_supported start stop bytes ≡ some true
    → (t : State) × (state_init env start stop bytes s ≡ ok tt t)
      × (t.heap ≡ s.heap)
      × (gc_cycle ratio_above roots (suc fuel) t
          ≡ some (
              ok tt (record t {
                tracing_budget = 2000;
                releasing_budget = 5000;
                checking_budget = 3000;
              })))
unfolding state_init initial_state stackmap_check_version trace_after fill_budgets
state_init-gc_cycle ratio_above roots fuel env start stop bytes s supported =
    let t : State = fill_budgets (initial_state env s) in
    (
      initial_state env s,
      rw supported refl,
      refl,
      gc_cycle-trace_after ratio_above roots (suc fuel) (initial_state env s) (ok tt t)
            (gc_releasing-idle fuel t refl refl refl)
          ∙ gc_tracing-idle ratio_above roots fuel t refl (omega arith) refl,
    )
