-- ===== src/Tracing/Machine.antt =====
-- The state machine of `syli_state_gc_tracing`: which state follows which, and why.
use syli.Prelude.{
  ℕ, ◌+◌, ◌^◌, bit_xor, ◌≡◌, refl, ◌∙◌, Bool, Bool-cases, inl, inr, true, false, List, [], ◌∷◌,
  length, ltb, ◌==◌, if◌then◌else◌, arith,
}
use syli.Word.{u64}
use syli.State.{
  State, TracingState, tracing_idle, mutation_prepare, reclaiming_cyclic_candidates, spend,
}
use syli.State.Monad.{ok}
use syli.State.Frame.{Keeps, and_then-ok, then-Keeps, pure-Keeps, if-Keeps, modify-Keeps}
use syli.Gc
use syli.Gc.Frame.{same-Frame, tracing_worklist_push-Keeps}
use syli.Tracing.{
  one_step_tracing, spend_checking, push_roots, is_triggered, worklists_empty, reclaim_when_empty,
  start_tracing, after_step, mutations_done, prepare_mutation, reclaim_step, tracing_round,
}
use syli.Tracing.Frame.{
  one_step_tracing-Keeps, one_step_prepare_tracing_mutations-Keeps, one_step_scan-Keeps,
  one_step_free_unreachable-Keeps,
}

-- Nothing is left to trace.
abbrev pub Traced : State → Type 0
Traced s = (s.tracing_worklist ≡ []) × (s.tracing_mutations_worklist ≡ [])

-- No lost cycle is left to free and no candidate to look at.
abbrev pub Reclaimed : State → Type 0
Reclaimed s = (s.lost_cycle_worklist ≡ []) × (s.current_candidate_check_index ≡ 0)

-- The rounds of the machine, from the state `s` to the state `s'`.
pub data Next (s s' : State) : TracingState → TracingState → Type 0 where
  begin : Next s s' tracing_idle TracingState.tracing
  begin_empty : Traced s' → Next s s' tracing_idle reclaiming_cyclic_candidates
  trace : Next s s' TracingState.tracing TracingState.tracing
  interrupt :
      (length s'.tracing_mutations_worklist == 0) ≡ false
      → Next s s' TracingState.tracing mutation_prepare
  traced : Traced s' → Next s s' TracingState.tracing reclaiming_cyclic_candidates
  prepare : Next s s' mutation_prepare mutation_prepare
  resume : s'.tracing_mutations_worklist ≡ [] → Next s s' mutation_prepare TracingState.tracing
  prepared : Traced s' → Next s s' mutation_prepare reclaiming_cyclic_candidates
  reclaim : Next s s' reclaiming_cyclic_candidates reclaiming_cyclic_candidates
  finish : Reclaimed s' → Next s s' reclaiming_cyclic_candidates tracing_idle

pub no_elements : (ps : List ℕ) → ltb 0 (length ps) ≡ false → ps ≡ []
no_elements [] e = refl
no_elements (p ∷ ps) e = ground arith

empty-Traced : (s : State) → worklists_empty s ≡ true → Traced s
unfolding worklists_empty
empty-Traced s h = (
  no_elements s.tracing_worklist (ground arith),
  no_elements s.tracing_mutations_worklist (ground arith),
)

-- What a round does once its step is over
abbrev pub stepped : State → State
stepped t = record t {
  tracing_steps = u64 (t.tracing_steps + 1);
  tracing_state =
      if worklists_empty t
      then reclaiming_cyclic_candidates
      else if ltb 0 (length t.tracing_mutations_worklist)
      then mutation_prepare
      else t.tracing_state;
}

stepped-Next :
    (s t : State)
    → t.tracing_state ≡ TracingState.tracing
    → Next s (stepped t) TracingState.tracing (stepped t).tracing_state
stepped-Next s t e = elim (Bool-cases (worklists_empty t)) [
  | inl empty ↦ rw empty (traced (empty-Traced t empty))
  | inr left ↦ elim (Bool-cases (ltb 0 (length t.tracing_mutations_worklist))) [
    | inl some_left ↦ rw (left, some_left) (interrupt (ground arith))
    | inr none_left ↦ rw (left, none_left, e) trace
  ]
]

push_roots-Keeps : (roots : List ℕ) → Keeps (push_roots roots)
unfolding push_roots
push_roots-Keeps [] = pure-Keeps tt
push_roots-Keeps (p ∷ ps) =
    then-Keeps (if-Keeps _ (pure-Keeps tt) (tracing_worklist_push-Keeps p)) (push_roots-Keeps ps)

-- What `start_tracing` does before and after it collects the roots
abbrev pub started : State → State
started s = record s {
  tracing_state = TracingState.tracing;
  cyclic_obj_alloc_at_trace = s.cyclic_obj_alloc;
  current_candidate_check_index = Gc.cyclic_candidate_count s;
  tracing_current_bit_mark = bit_xor s.tracing_current_bit_mark (2 ^ 63);
  tracing_generations = u64 (s.tracing_generations + 1);
}

abbrev pub collected : State → State
collected t = record t {
  tracing_state = if worklists_empty t then reclaiming_cyclic_candidates else t.tracing_state;
}

collected-Next :
    (s t : State)
    → t.tracing_state ≡ TracingState.tracing
    → Next s (collected t) tracing_idle (collected t).tracing_state
collected-Next s t e = elim (Bool-cases (worklists_empty t)) [
  | inl empty ↦ rw empty (begin_empty (empty-Traced t empty))
  | inr left ↦ rw (left, e) begin
]

-- Without mutations
abbrev pub drained : State → State
drained s = record s {
  tracing_state =
      if ltb 0 (length s.tracing_worklist)
      then TracingState.tracing
      else reclaiming_cyclic_candidates;
}

drained-Next :
    (s : State)
    → s.tracing_mutations_worklist ≡ []
    → Next s (drained s) mutation_prepare (drained s).tracing_state
unfolding worklists_empty
drained-Next s e = elim (Bool-cases (ltb 0 (length s.tracing_worklist))) [
  | inl some_left ↦ rw some_left (resume e)
  | inr none_left ↦ rw none_left (prepared (empty-Traced s (rw e (ground arith))))
]

start_tracing-Next :
    (roots : List ℕ) (s : State) {a : Unit {0}} {s' : State}
    → start_tracing roots s ≡ ok a s'
    → Next s s' tracing_idle s'.tracing_state
unfolding start_tracing Gc.next_marking_generation reclaim_when_empty
start_tracing-Next roots s {a} {s'} h =
    let (b, t, h₁, h₂) = and_then-ok (push_roots roots (started s)) _ h in
    let same = (push_roots-Keeps roots (started s) b t h₁).tracing_same in
    let is_s : s' ≡ collected t = ground arith in rw is_s (collected-Next s t same)

prepare_mutation-Keeps : Keeps prepare_mutation
unfolding prepare_mutation
prepare_mutation-Keeps =
    then-Keeps one_step_prepare_tracing_mutations-Keeps
      (modify-Keeps _ (λ s. same-Frame refl refl refl refl))

prepare_mutation-Next :
    (s : State) {a : Unit {0}} {s' : State}
    → s.tracing_state ≡ mutation_prepare
    → prepare_mutation s ≡ ok a s'
    → Next s s' mutation_prepare s'.tracing_state
prepare_mutation-Next s {a} {s'} e h =
    rw ((prepare_mutation-Keeps s a s' h).tracing_same, e) prepare

reclaim_step-Next :
    (s t : State) {a : Unit {0}} {s' : State}
    → t.tracing_state ≡ reclaiming_cyclic_candidates
    → reclaim_step t t ≡ ok a s'
    → Next s
        (record s' { checking_steps = u64 (s'.checking_steps + 1) })
        reclaiming_cyclic_candidates
        s'.tracing_state
unfolding reclaim_step
reclaim_step-Next s t {a} {s'} e h = elim (Bool-cases (ltb 0 (length t.lost_cycle_worklist))) [
  | inl some_left ↦
      let same = (one_step_free_unreachable-Keeps t a s' (rw some_left at h)).tracing_same in
      rw (same, e) reclaim
  | inr none_left ↦ elim (Bool-cases (t.current_candidate_check_index == 0)) [
    | inl seen ↦
        let is_s : s' ≡ record t { tracing_state = tracing_idle } = ground arith in
        rw is_s (finish (no_elements t.lost_cycle_worklist none_left, ground arith))
    | inr unseen ↦
        let same = (one_step_scan-Keeps t a s' (rw (none_left, unseen) at h)).tracing_same in
        rw (same, e) reclaim
  ]
]

module _ (ratio_above : ℕ → ℕ → ℕ → Bool) (roots : List ℕ) where
  -- The result of a round in the state `s`
  unfoldable pub Round : TracingState → State → Bool → State → Type 0
  Round p s false s' = Next s s' p s'.tracing_state
  Round p s true s' = (p ≡ tracing_idle) × (is_triggered ratio_above s ≡ false) × (s' ≡ s)

  tracing-Round :
      (s : State) (b : Bool) (s' : State)
      → s.tracing_state ≡ TracingState.tracing
      → tracing_round ratio_above roots TracingState.tracing s ≡ ok b s'
      → Round TracingState.tracing s b s'
  unfolding tracing_round after_step Round
  tracing-Round s b s' e h =
      let (a, t, h₁, h₂) = and_then-ok (one_step_tracing s) _ h in
      let same = (one_step_tracing-Keeps s a t h₁).tracing_same in
      let is_b : b ≡ false = ground arith in
      let is_s : s' ≡ stepped t = ground arith in rw (is_b, is_s) (stepped-Next s t (same ∙ e))

  idle-Round :
      (s : State) (b : Bool) (s' : State)
      → tracing_round ratio_above roots tracing_idle s ≡ ok b s'
      → Round tracing_idle s b s'
  unfolding tracing_round Round
  idle-Round s b s' h = elim (Bool-cases (is_triggered ratio_above s)) [
    | inl triggered ↦
        let (a, t, h₁, h₂) = and_then-ok (start_tracing roots s) _ (rw triggered at h) in
        let is_b : b ≡ false = ground arith in
        let is_s : s' ≡ t = ground arith in rw (is_b, is_s) (start_tracing-Next roots s h₁)
    | inr calm ↦ let is_b : b ≡ true = ground arith in rw is_b (refl, calm, ground arith)
  ]

  mutation-Round :
      (s : State) (b : Bool) (s' : State)
      → s.tracing_state ≡ mutation_prepare
      → tracing_round ratio_above roots mutation_prepare s ≡ ok b s'
      → Round mutation_prepare s b s'
  unfolding tracing_round Round mutations_done
  mutation-Round s b s' e h = elim (Bool-cases (length s.tracing_mutations_worklist == 0)) [
    | inl none_left ↦
        let is_b : b ≡ false = ground arith in
        let is_s : s' ≡ drained s = ground arith in
        rw (is_b, is_s) (drained-Next s (no_elements s.tracing_mutations_worklist (ground arith)))
    | inr some_left ↦
        let (a, t, h₁, h₂) = and_then-ok (prepare_mutation s) _ (rw some_left at h) in
        let is_b : b ≡ false = ground arith in
        let is_s : s' ≡ t = ground arith in rw (is_b, is_s) (prepare_mutation-Next s e h₁)
  ]

  reclaiming-Round :
      (s : State) (b : Bool) (s' : State)
      → s.tracing_state ≡ reclaiming_cyclic_candidates
      → tracing_round ratio_above roots reclaiming_cyclic_candidates s ≡ ok b s'
      → Round reclaiming_cyclic_candidates s b s'
  unfolding tracing_round Round spend_checking
  reclaiming-Round s b s' e h =
      let s₁ : State = record s { checking_budget = spend s.checking_budget 1 } in
      let (a, t, h₁, h₂) = and_then-ok (reclaim_step s₁ s₁) _ h in
      let is_b : b ≡ false = ground arith in
      let is_s : s' ≡ record t { checking_steps = u64 (t.checking_steps + 1) } = ground arith in
      rw (is_b, is_s) (reclaim_step-Next s s₁ e h₁)

  -- A round of the tracing machine that ends well either goes on, and then by an arrow of `Next`,
  -- or returns, and then it was idle, tracing is not triggered and nothing has changed. `Next`
  -- leaves the marking for the reclaiming only when both of its worklists are empty, enters
  -- the preparing of mutations only when there are some, goes back to tracing only when there are
  -- none, and becomes idle only when no lost cycle and no candidate is left.
  pub tracing_round-Round :
      (p : TracingState) (s : State) (b : Bool) (s' : State)
      → s.tracing_state ≡ p
      → tracing_round ratio_above roots p s ≡ ok b s'
      → Round p s b s'
  tracing_round-Round tracing_idle s b s' e h = idle-Round s b s' h
  tracing_round-Round TracingState.tracing s b s' e h = tracing-Round s b s' e h
  tracing_round-Round mutation_prepare s b s' e h = mutation-Round s b s' e h
  tracing_round-Round reclaiming_cyclic_candidates s b s' e h = reclaiming-Round s b s' e h
