-- ===== src/Tracing/Reclaim.antt =====
-- The reclaiming of cyclic candidates comes to its end.
use syli.Prelude.{
  ℕ, zero, suc, ◌+◌, ◌-◌, ◌≤◌, ◌<◌, ◌≡◌, ◌≢◌, refl, ap, ◌∙◌, some, Bool, true, false, List, [],
  length, ltb, ◌==◌, arith,
}
use syli.Word.{u64}
use syli.Meta
use syli.Pointer
use syli.Stack
use syli.State.{Block, State, tracing_idle, reclaiming_cyclic_candidates, spend, is_spent}
use syli.State.Monad.{ok}
use syli.Object.Heap.{load_object-ok}
use syli.Gc
use syli.Tracing.{
  spend_checking, scan_at, clamp_check_index, one_step_scan, reclaim_step, tracing_round,
  gc_tracing,
}
use syli.Tracing.Rounds.{gc_tracing-round, gc_tracing-idle}

-- The candidate of the number `i` is an object with the mark of the generation.
pub record MarkedAt (s : State) (i : ℕ) : Type 0 where
  pub ptr : ℕ
  pub block : Block
  pub candidate : Stack.at s.cyclic_candidates i ≡ some ptr
  pub real : Pointer.untag ptr ≢ 0
  pub held : s.heap (Pointer.untag ptr) ≡ some block
  pub marked : Meta.mark_tag block.meta ≡ s.tracing_current_bit_mark

is_object_mark_tagged-marked :
    (s : State) (o : ℕ) (b : Block)
    → o ≢ 0
    → s.heap o ≡ some b
    → Meta.mark_tag b.meta ≡ s.tracing_current_bit_mark
    → Gc.is_object_mark_tagged o s ≡ ok true s
unfolding Gc.is_object_mark_tagged
is_object_mark_tagged-marked s o b real held marked =
    rw (load_object-ok s o real held) (ap (λ t. ok t s) (ground (arith, marked)))

-- A candidate that is marked is passed over.
scan_at-marked :
    (s : State) (i : ℕ)
    → MarkedAt s i
    → scan_at i s ≡ ok tt (record s { current_candidate_check_index = i })
unfolding scan_at
scan_at-marked s i m =
    let t : State = record s { current_candidate_check_index = i } in
    rw
      (
        m.candidate,
        is_object_mark_tagged-marked t (Pointer.untag m.ptr) m.block m.real m.held m.marked,
      )
      refl

-- Nothing has to be freed, and every candidate that is left to look at is marked.
pub record AllMarked (s : State) : Type 0 where
  pub empty : s.lost_cycle_worklist ≡ []
  pub within : s.current_candidate_check_index ≤ length s.cyclic_candidates
  pub each : (i : ℕ) → i < s.current_candidate_check_index → MarkedAt s i

-- What a round leaves, from the state `s`
abbrev scanned : State → (index : ℕ) → State
scanned s index = record s {
  checking_budget = spend s.checking_budget 1;
  current_candidate_check_index = index;
  checking_steps = u64 (s.checking_steps + 1);
}

abbrev finished : State → State
finished s = record s {
  checking_budget = spend s.checking_budget 1;
  tracing_state = tracing_idle;
  checking_steps = u64 (s.checking_steps + 1);
}

module _ (ratio_above : ℕ → ℕ → ℕ → Bool) (roots : List ℕ) where
  scan-round :
      (s : State) (n : ℕ)
      → s.current_candidate_check_index ≡ suc n
      → AllMarked s
      → tracing_round ratio_above roots reclaiming_cyclic_candidates s ≡ ok false (scanned s n)
  unfolding tracing_round spend_checking reclaim_step one_step_scan clamp_check_index
  scan-round s n index all =
      let t : State = record s { checking_budget = spend s.checking_budget 1 } in
      let m : MarkedAt s n = all.each n (omega (arith, index)) in
      let m' : MarkedAt t n = record {
        ptr = m.ptr;
        block = m.block;
        candidate = m.candidate;
        real = m.real;
        held = m.held;
        marked = m.marked;
      } in
      let inside : ltb (length s.cyclic_candidates) s.current_candidate_check_index ≡ false =
        ground (arith, all.within) in
      let more : (s.current_candidate_check_index == 0) ≡ false = ground (arith, index) in
      let before : s.current_candidate_check_index - 1 ≡ n = omega (arith, index) in
      let none_lost : ltb 0 (length s.lost_cycle_worklist) ≡ false = rw all.empty refl in
      rw (none_lost, more, inside, more, before, scan_at-marked t n m') refl

  finish-round :
      (s : State)
      → s.current_candidate_check_index ≡ 0
      → s.lost_cycle_worklist ≡ []
      → tracing_round ratio_above roots reclaiming_cyclic_candidates s ≡ ok false (finished s)
  unfolding tracing_round spend_checking reclaim_step
  finish-round s index empty =
      let none_lost : ltb 0 (length s.lost_cycle_worklist) ≡ false = rw empty refl in
      let over : (s.current_candidate_check_index == 0) ≡ true = rw index refl in
      rw (none_lost, over) refl

  -- With every candidate marked, no lost cycle left to free and no cyclic object allocated since
  -- the trace began, the loop comes to an idle end in two rounds and one for each candidate that is
  -- left to look at, if the budget of tracing is not spent: no object is freed, and the candidates
  -- stay.
  pub reclaiming-ends_idle :
      (fuel n : ℕ) (s : State)
      → n + 2 ≤ fuel
      → s.tracing_state ≡ reclaiming_cyclic_candidates
      → s.current_candidate_check_index ≡ n
      → AllMarked s
      → is_spent s.tracing_budget ≡ false
      → s.cyclic_obj_alloc ≤ s.cyclic_obj_alloc_at_trace
      → (t : State) × (gc_tracing ratio_above roots fuel s ≡ some (ok tt t))
        × (t.tracing_state ≡ tracing_idle)
        × (t.heap ≡ s.heap)
        × (t.cyclic_candidates ≡ s.cyclic_candidates)
  reclaiming-ends_idle zero n s enough reclaiming index all some_left none_new =
      absurd (omega arith)
  reclaiming-ends_idle (suc zero) n s enough reclaiming index all some_left none_new =
      absurd (omega arith)
  reclaiming-ends_idle (suc (suc fuel)) zero s enough reclaiming index all some_left none_new = (
    finished s,
    gc_tracing-round ratio_above roots (suc fuel) s some_left (
          ap (λ p. tracing_round ratio_above roots p s) reclaiming ∙ finish-round s index all.empty)
        ∙ gc_tracing-idle ratio_above roots fuel (finished s) refl none_new some_left,
    refl,
    refl,
    refl,
  )
  reclaiming-ends_idle (suc (suc fuel)) (suc n) s enough reclaiming index all some_left none_new =
      let next : AllMarked (scanned s n) = record {
        empty = all.empty;
        within = omega (arith, all.within, index);
        each = λ i before.
            let m = all.each i (omega (arith, before, index)) in
            record {
              ptr = m.ptr;
              block = m.block;
              candidate = m.candidate;
              real = m.real;
              held = m.held;
              marked = m.marked;
            };
      } in
      let (t, ends, idle, heap, candidates) =
        reclaiming-ends_idle (suc fuel) n (scanned s n) (omega arith) reclaiming refl next some_left
          none_new in
      (
        t,
        gc_tracing-round ratio_above roots (suc fuel) s some_left
              (ap (λ p. tracing_round ratio_above roots p s) reclaiming ∙ scan-round s n index all)
            ∙ ends,
        idle,
        heap,
        candidates,
      )
