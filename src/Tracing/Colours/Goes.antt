-- ===== src/Tracing/Colours/Goes.antt =====
-- One round of a trace, by the state of the machine: it keeps the invariant, and fewer are left.
use syli.Prelude.{
  ◌*◌, ◌+◌, if◌then◌else◌, ◌==◌, ◌∷◌, ℕ, suc, ◌<◌, ◌≤◌, ◌≡◌, refl, ap, ◌∙◌, Bool, Bool-cases, inl,
  inr, false, List, [], length, ltb, ◌==◌, arith,
}
use syli.State.{State, TracingState, mutation_prepare, reclaiming_cyclic_candidates}
use syli.State.Monad.{ok, and_then, pure, modify, ◌>>◌}
use syli.Word.{u64}
use syli.Tracing.{prepare_mutation, mutations_done, after_step, tracing_round, worklists_empty}
use syli.Tracing.Machine.{stepped, drained, no_elements, Traced}
use syli.Tracing.Colours.{Graph, Closed, Colours}
use syli.Tracing.Colours.Step.{one_step_tracing-Traces}
use syli.Tracing.Colours.Prepare.{step-Prepares}
use syli.Tracing.Colours.Weight.{weight, left_of-le}
use syli.Tracing.Colours.Reached.{resumed, resumed-Colours}

-- There is something to trace, or the mutations are looked at.
pub data Active (s : State) : Type 0 where
  at_work : s.tracing_state ≡ TracingState.tracing → 0 < length s.tracing_worklist → Active s
  at_mutations : s.tracing_state ≡ mutation_prepare → Active s

abbrev pub ticks : TracingState → ℕ
ticks mutation_prepare = 1
ticks _ = 0

pub ticks-le : (p : TracingState) → ticks p ≤ 1
ticks-le p = ground arith

-- The mutations come in between, and end with a round of their own.
abbrev pub rounds_left : Graph → State → ℕ
rounds_left g s = 2 * weight g s + ticks s.tracing_state

-- How a trace goes on: with fewer rounds left, or to the reclaiming
pub data Goes (g : Graph) (s t : State) : Type 0 where
  on : Active t → rounds_left g t < rounds_left g s → Goes g s t
  over : t.tracing_state ≡ reclaiming_cyclic_candidates → Traced t → Goes g s t

stepped-Goes :
    (g : Graph) (s t : State)
    → s.tracing_state ≡ TracingState.tracing
    → t.tracing_state ≡ TracingState.tracing
    → weight g t < weight g s
    → Goes g s (stepped t)
unfolding worklists_empty
stepped-Goes g s t at_s at_t less =
    let same = left_of-le g t (stepped t) g.objects (λ q k. k) in
    elim (Bool-cases (ltb 0 (length t.tracing_mutations_worklist))) [
      | inl changed ↦
          let to : (stepped t).tracing_state ≡ mutation_prepare = ground (arith, changed) in
          on (at_mutations to) (omega (arith, less, same, ap ticks to, ap ticks at_s))
      | inr unchanged ↦
          let none_changed = no_elements t.tracing_mutations_worklist unchanged in
          elim (Bool-cases (ltb 0 (length t.tracing_worklist))) [
            | inl more ↦
                let some_word : (length t.tracing_worklist == 0) ≡ false = ground arith in
                let to : (stepped t).tracing_state ≡ TracingState.tracing =
                  rw (some_word, none_changed, at_t) refl in
                on (at_work to (ground arith))
                  (omega (arith, less, same, ap ticks to, ap ticks at_s))
            | inr none ↦
                let empty = no_elements t.tracing_worklist none in
                over (rw (none_changed, empty) refl) (empty, none_changed)
          ]
    ]

drained-Goes :
    (g : Graph) (s : State)
    → s.tracing_state ≡ mutation_prepare
    → s.tracing_mutations_worklist ≡ []
    → Goes g s (drained s)
drained-Goes g s at_s none_changed =
    let same = left_of-le g s (drained s) g.objects (λ q k. k) in
    elim (Bool-cases (ltb 0 (length s.tracing_worklist))) [
      | inl more ↦
          let to : (drained s).tracing_state ≡ TracingState.tracing = rw more refl in
          on (at_work to (ground arith)) (omega (arith, same, ap ticks to, ap ticks at_s))
      | inr none ↦ over (rw none refl) (no_elements s.tracing_worklist none, none_changed)
    ]

module _ (ratio_above : ℕ → ℕ → ℕ → Bool) (found : List ℕ) where
  module _ (g : Graph) (roots : List ℕ) (closed : Closed g) {s : State}
      (c : Colours g roots s) where
    work-Goes :
        s.tracing_state ≡ TracingState.tracing
        → 0 < length s.tracing_worklist
        → (t : State) × (tracing_round ratio_above found TracingState.tracing s ≡ ok false t)
          × Colours g roots t
          × Goes g s t
    unfolding tracing_round after_step
    work-Goes at some_left =
        let (t, done, traces) = one_step_tracing-Traces g roots closed c some_left in
        (
          stepped t,
          ap (λ r. and_then r (λ _. after_step >> pure false)) done,
          resumed-Colours _ _ _ traces.colours,
          stepped-Goes g s t at (traces.state_same ∙ at) traces.less,
        )

    mutations-Goes :
        s.tracing_state ≡ mutation_prepare
        → (t : State) × (tracing_round ratio_above found mutation_prepare s ≡ ok false t)
          × Colours g roots t
          × Goes g s t
    unfolding tracing_round prepare_mutation mutations_done
    mutations-Goes at = split s.tracing_mutations_worklist refl
      where
        split :
            (l : List ℕ)
            → s.tracing_mutations_worklist ≡ l
            → (t : State) × (tracing_round ratio_above found mutation_prepare s ≡ ok false t)
              × Colours g roots t
              × Goes g s t
        split [] none_changed = (
          drained s,
          rw none_changed refl,
          resumed-Colours _ _ _ c,
          drained-Goes g s at none_changed,
        )
        split (p ∷ ps) top =
            let (t, done, prepares) = step-Prepares g roots closed c top in
            let none : (suc (length ps) == 0) ≡ false = ground arith in
            let busy = ap (λ l. length l == 0) top ∙ none in
            let to = prepares.state_same ∙ at in
            let u = resumed t t.tracing_steps (u64 (t.mutation_steps + 1)) t.tracing_state in
            let same = left_of-le g t u g.objects (λ q k. k) in
            (
              u,
              ap (λ x. ((if x then mutations_done else prepare_mutation) >> pure false) s) busy
                  ∙ ap
                      (λ r.
                        and_then
                          (and_then r (λ _.
                            modify (λ s. record s { mutation_steps = u64 (s.mutation_steps + 1) })))
                          (λ _. pure false))
                      done,
              resumed-Colours _ _ _ prepares.colours,
              on (at_mutations to) (omega (arith, prepares.less, same, ap ticks to, ap ticks at)),
            )

    pub round-Goes :
        Active s
        → (t : State) × (tracing_round ratio_above found s.tracing_state s ≡ ok false t)
          × Colours g roots t
          × Goes g s t
    round-Goes (at_work at some_left) =
        let (t, done, c', goes) = work-Goes at some_left in
        (t, ap (λ p. tracing_round ratio_above found p s) at ∙ done, c', goes)
    round-Goes (at_mutations at) =
        let (t, done, c', goes) = mutations-Goes at in
        (t, ap (λ p. tracing_round ratio_above found p s) at ∙ done, c', goes)
