-- ===== src/Tracing/Colours/Run.antt =====
-- The rounds of the tracing, from a worklist with something in it.
use syli.Prelude.{
  ◌+◌, ◌⊎◌, ℕ, zero, suc, ◌-◌, ◌<◌, ◌≤◌, ◌≡◌, ap, ◌∙◌, Bool, Bool-cases, inl, inr, true, false,
  List, arith,
}
use syli.State.{State, reclaiming_cyclic_candidates, is_spent}
use syli.State.Monad.{ok}
use syli.Tracing.{tracing_round, gc_tracing}
use syli.Tracing.Machine.{Traced}
use syli.Tracing.Rounds.{gc_tracing-round}
use syli.Tracing.Colours.{Graph, Closed, Colours, Reaches, is_marked}
use syli.Tracing.Colours.Push.{Owning}
use syli.Tracing.Colours.Reached.{Reaches-marked}
use syli.Tracing.Colours.Goes.{Active, on, over, rounds_left, round-Goes}

module _ (ratio_above : ℕ → ℕ → ℕ → Bool) (found : List ℕ) where
  pub one_round :
      (s t : State)
      → is_spent s.tracing_budget ≡ false
      → tracing_round ratio_above found s.tracing_state s ≡ ok false t
      → (fuel : ℕ) → 1 ≤ fuel
      → gc_tracing ratio_above found fuel s ≡ gc_tracing ratio_above found (fuel - 1) t
  one_round s t open_still done fuel some_fuel =
      let e : fuel ≡ suc (fuel - 1) = omega arith in
      ap (λ k. gc_tracing ratio_above found k s) e
      ∙ gc_tracing-round ratio_above found (fuel - 1) s open_still done

  -- After no more than `left` rounds
  pub Ends : Graph → List ℕ → (left : ℕ) → State → Type 0
  Ends g roots left s =
      (n : ℕ) × (t : State) × (n ≤ left)
      × ((fuel : ℕ)
          → n ≤ fuel
          → gc_tracing ratio_above found fuel s ≡ gc_tracing ratio_above found (fuel - n) t)
      × Colours g roots t
      × (((is_spent t.tracing_budget ≡ true) × Active t)
          ⊎ ((t.tracing_state ≡ reclaiming_cyclic_candidates) × Traced t))

  pub round-Ends :
      (g : Graph) (roots : List ℕ) (left : ℕ) (s t : State)
      → is_spent s.tracing_budget ≡ false
      → tracing_round ratio_above found s.tracing_state s ≡ ok false t
      → Ends g roots left t
      → Ends g roots (suc left) s
  unfolding Ends
  round-Ends g roots left s t open_still done (n, u, few, runs, c, ends) = (
    suc n,
    u,
    omega arith,
    (λ fuel h.
        one_round s t open_still done fuel (omega arith)
        ∙ runs (fuel - 1) (omega arith)
        ∙ ap (λ k. gc_tracing ratio_above found k u) (omega arith)),
    c,
    ends,
  )

  pub here-Ends :
      (g : Graph) (roots : List ℕ) (left : ℕ) (s : State)
      → Colours g roots s
      → ((is_spent s.tracing_budget ≡ true) × Active s)
        ⊎ ((s.tracing_state ≡ reclaiming_cyclic_candidates) × Traced s)
      → Ends g roots left s
  unfolding Ends
  here-Ends g roots left s c ends = (
    0,
    s,
    omega arith,
    (λ fuel h. ap (λ k. gc_tracing ratio_above found k s) (omega arith)),
    c,
    ends,
  )

  Active-Ends :
      (g : Graph) (roots : List ℕ)
      → Closed g
      → (left : ℕ) (s : State) → Colours g roots s
      → Active s
      → ((t : State)
          → Colours g roots t
          → Active t
          → rounds_left g t < rounds_left g s
          → Ends g roots left t)
      → Ends g roots (suc left) s
  Active-Ends g roots closed left s c active next = elim (Bool-cases (is_spent s.tracing_budget)) [
    | inl none_left ↦ here-Ends g roots (suc left) s c (inl (none_left, active))
    | inr open_still ↦
        let (t, done, c', goes) = round-Goes ratio_above found g roots closed c active in
        round-Ends g roots left s t open_still done (elim goes [
          | on active' less ↦ next t c' active' less
          | over at traced ↦ here-Ends g roots left t c' (inr (at, traced))
        ])
  ]

  -- The rounds that are left are enough.
  pub rounds-Ends :
      (g : Graph) (roots : List ℕ)
      → Closed g
      → (left : ℕ) (s : State) → rounds_left g s ≤ left
      → Colours g roots s
      → Active s
      → Ends g roots (suc left) s
  rounds-Ends g roots closed zero s fits c active =
      Active-Ends g roots closed zero s c active (λ t c' active' less. absurd (omega arith))
  rounds-Ends g roots closed (suc left) s fits c active =
      Active-Ends g roots closed (suc left) s c active
        (λ t c' active' less. rounds-Ends g roots closed left t (omega arith) c' active')

-- Where the rounds of a trace stop: the budget is spent and the trace can go on, or the reclaiming
-- begins and all that is reached from the roots is marked.
pub Stops : Graph → List ℕ → State → Type 0
Stops g roots t =
    ((is_spent t.tracing_budget ≡ true) × Active t × Colours g roots t)
    ⊎ ((t.tracing_state ≡ reclaiming_cyclic_candidates)
        × ((o : ℕ) → Reaches g roots o → is_marked t o ≡ true))

module _ (g : Graph) (roots : List ℕ) (closed : Closed g) (owning : Owning g roots)
    (ratio_above : ℕ → ℕ → ℕ → Bool) (found : List ℕ) where
  pub Ends-Stops :
      (left : ℕ) (s : State)
      → Ends ratio_above found g roots left s
      → (n : ℕ) × (t : State) × (n ≤ left)
        × ((fuel : ℕ)
            → n ≤ fuel
            → gc_tracing ratio_above found fuel s ≡ gc_tracing ratio_above found (fuel - n) t)
        × Stops g roots t
  unfolding Ends Stops
  Ends-Stops left s (n, t, few, runs, c, inl (none_left, active)) =
      (n, t, few, runs, inl (none_left, active, c))
  Ends-Stops left s (n, t, few, runs, c, inr (at, traced)) =
      (n, t, few, runs, inr (at, λ o r. (Reaches-marked closed owning c traced r).1))

  -- While a closed graph of objects is in use, and the invariant of the marking holds of a trace
  -- that has something in its worklist or looks at mutations: after no more rounds than twice what
  -- is left to trace, and two, either the budget is spent, and the same holds, or the reclaiming
  -- begins, and every object that is reached from the roots over owned references is marked. No
  -- round fails.
  pub gc_tracing-resumes :
      (s : State)
      → Colours g roots s
      → Active s
      → (n : ℕ) × (t : State) × (n ≤ rounds_left g s + 1)
        × ((fuel : ℕ)
            → n ≤ fuel
            → gc_tracing ratio_above found fuel s ≡ gc_tracing ratio_above found (fuel - n) t)
        × Stops g roots t
  gc_tracing-resumes s c active =
      let (n, t, few, runs, stops) =
        Ends-Stops (suc (rounds_left g s)) s (
          rounds-Ends ratio_above found g roots closed (rounds_left g s) s (omega arith) c
            active) in
      (n, t, omega arith, runs, stops)
