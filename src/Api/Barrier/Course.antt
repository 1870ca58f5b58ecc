-- ===== src/Api/Barrier/Course.antt =====
-- A trace under way, in which rounds of the tracing and writes of the program come in any order.
use syli.Prelude.{ℕ, ◌≡◌, Bool, true, false, ◌⊎◌, List}
use syli.Pointer
use syli.State.{State, reclaiming_cyclic_candidates}
use syli.State.Monad.{ok, ◌>>◌}
use syli.Object
use syli.Tracing.{tracing_round}
use syli.Tracing.Machine.{Traced}
use syli.Tracing.Mark.{with_budget}
use syli.Tracing.Colours.{Graph, Closed, Colours, Reaches, is_marked}
use syli.Tracing.Colours.Push.{Owning}
use syli.Tracing.Colours.Goes.{Active}
use syli.Tracing.Colours.Written.{written}
use syli.Api.{is_tracing, ownership_notify_mutation}
use syli.Api.Barrier.{Writes}

module _ (ratio_above : ℕ → ℕ → ℕ → Bool) (found : List ℕ) where
  -- From the objects `g` in the state `s` to the objects `h` in the state `t`, while a trace is under
  -- way: a round of the tracing, a write with its notification, or a new budget.
  pub data Course (g : Graph) (s : State) : Graph → State → Type 0 where
    begin : Course g s g s
    round :
        {h : Graph} {t u : State}
        → Course g s h t
        → is_tracing t.tracing_state ≡ true
        → tracing_round ratio_above found t.tracing_state t ≡ ok false u
        → Course g s h u
    write :
        {h : Graph} {t u : State} (ptr i p : ℕ)
        → Course g s h t
        → Writes h t ptr i p
        → (Object.set_value (Pointer.untag ptr) i p >> ownership_notify_mutation ptr p) t ≡ ok tt u
        → Course g s (written h (Pointer.untag ptr) i p) u
    refill : {h : Graph} {t : State} → Course g s h t → (k : ℕ) → Course g s h (with_budget t k)

  -- The trace can go on, and its next round does not fail; or the reclaiming begins, and all that is
  -- reached from the roots is marked.
  pub Safe : Graph → List ℕ → State → Type 0
  Safe h roots t =
      (Active t
        × Colours h roots t
        × ((u : State) × (tracing_round ratio_above found t.tracing_state t ≡ ok false u)))
      ⊎ ((t.tracing_state ≡ reclaiming_cyclic_candidates)
          × ((o : ℕ) → Reaches h roots o → is_marked t o ≡ true))

  -- What holds all along
  record Kept (h : Graph) (roots : List ℕ) (t : State) : Type 0 where
    closed : Closed h
    owning : Owning h roots
    colours : Colours h roots t
    goes : Active t ⊎ ((t.tracing_state ≡ reclaiming_cyclic_candidates) × Traced t)
