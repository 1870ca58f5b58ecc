-- ===== src/Tracing/Colours/Begin.antt =====
-- A trace from its start: the mark changes its sense, so that nothing is marked, and the roots are
-- pushed.
use mathlib.Core.Path.{subst}
use syli.Prelude.{
  ℕ, zero, suc, ◌+◌, ◌-◌, ◌*◌, ◌^◌, bit_xor, ◌<◌, ◌≤◌, ◌≡◌, refl, sym, ap, ◌∙◌, Bool, Bool-cases,
  inl, inr, true, false, List, [], All, All-map, length, ltb, ◌==◌, if◌then◌else◌, arith,
}
use syli.Meta
use syli.Pointer
use syli.State.{State, TracingState, tracing_idle, is_spent}
use syli.State.Monad.{ok, and_then, pure, ◌>>◌}
use syli.Gc
use syli.Tracing.{
  start_tracing, tracing_round, gc_tracing, reclaim_when_empty, is_triggered, worklists_empty,
}
use syli.Tracing.Queue.{Listed, push_roots-Pushes, IsListed}
use syli.Tracing.Machine.{started, collected, no_elements}
use syli.Tracing.Colours.{Alive-heap, Changed, Graph, InUse, Closed, Alive, Colours, is_marked}
use syli.Tracing.Colours.Push.{Owns-IsRoot, Owning, Pushed, Pushes-Pushed}
use syli.Tracing.Colours.Weight.{pending_of, left_of-word_count, word_count}
use syli.Tracing.Colours.Paint.{block-marked}
use syli.Tracing.Colours.Reached.{resumed-Colours}
use syli.Tracing.Colours.Goes.{rounds_left, at_work, ticks-le}
use syli.Tracing.Colours.Run.{rounds-Ends, round-Ends, here-Ends, Ends, Ends-Stops, Stops}

-- An idle state between two traces: what is in use carries the mark of the last one, and nothing
-- waits to be traced.
pub record Between (g : Graph) (s : State) : Type 0 where
  pub bit : ℕ
  pub bit_fits : bit < 2
  pub current : s.tracing_current_bit_mark ≡ bit * 2 ^ 63
  pub alive : (o : ℕ) → InUse g o → Alive g s o
  pub marked : (o : ℕ) → InUse g o → is_marked s o ≡ true
  pub empty : s.tracing_worklist ≡ []
  pub unchanged : s.tracing_mutations_worklist ≡ []
  pub listed : Listed s

bit_flip : (b : ℕ) → b < 2 → bit_xor (b * 2 ^ 63) (2 ^ 63) ≡ (1 - b) * 2 ^ 63
bit_flip zero h = refl
bit_flip (suc zero) h = refl
bit_flip (suc (suc b)) h = absurd (omega arith)

module _ (g : Graph) (closed : Closed g) {s : State} (b : Between g s) where
  open b use {bit, bit_fits, current}

  abbrev begun : State
  begun = started s

  flipped : begun.tracing_current_bit_mark ≡ (1 - bit) * 2 ^ 63
  flipped = ap (λ k. bit_xor k (2 ^ 63)) current ∙ bit_flip bit bit_fits

  begun-alive : (o : ℕ) → InUse g o → Alive g begun o
  begun-alive o k = Alive-heap refl (b.alive o k)

  -- Nothing in use is marked any more.
  begun-white : (o : ℕ) → InUse g o → is_marked begun o ≡ false
  begun-white o k =
      let a = b.alive o k in
      let before : (Meta.mark_tag a.block.meta == s.tracing_current_bit_mark) ≡ true =
        sym (block-marked s o a.held) ∙ b.marked o k in
      let old : Meta.mark_tag a.block.meta ≡ bit * 2 ^ 63 = ground (arith, before, current) in
      let white : (Meta.mark_tag a.block.meta == begun.tracing_current_bit_mark) ≡ false =
        ground (arith, old, flipped, bit_fits) in
      block-marked begun o a.held ∙ white

  -- What the pushing of the roots leaves has the invariant.
  begun-Colours :
      (roots : List ℕ) {t : State}
      → Listed t
      → All (IsListed t) roots
      → Pushed g begun t (length roots)
      → Colours g roots t
  begun-Colours roots listed here pushed = record {
    bit = 1 - bit;
    bit_fits = omega arith;
    current = pushed.bit_same ∙ flipped;
    changed = subst (All (Changed g)) (sym (pushed.mutations_same ∙ b.unchanged)) tt;
    alive = pushed.alive;
    work = pushed.work;
    listed = listed;
    black = λ q k marked. absurd (ground (arith, sym (pushed.marks q) ∙ marked, begun-white q k));
    rooted = All-map (λ r waits owned. inr (waits owned)) roots here;
  }

  module _ (ratio_above : ℕ → ℕ → ℕ → Bool) (roots : List ℕ) (owning : Owning g roots)
      (idle : s.tracing_state ≡ tracing_idle) (triggered : is_triggered ratio_above s ≡ true) where
    -- What the first round leaves, up to whether there is something to trace
    record Begun (t : State) : Type 0 where
      done : tracing_round ratio_above roots tracing_idle s ≡ ok false (collected t)
      colours : Colours g roots t
      tracing_now : t.tracing_state ≡ TracingState.tracing
      unchanged_still : t.tracing_mutations_worklist ≡ []
      few : length t.tracing_worklist ≤ length roots

    first-Begun : (t : State) × Begun t
    unfolding tracing_round start_tracing reclaim_when_empty Gc.next_marking_generation
    first-Begun =
        let (t, pushed, listed, grows, here, pushes) =
          push_roots-Pushes roots begun b.listed (Owns-IsRoot g roots closed begun-alive owning) in
        let none_waits = subst (λ l. All (λ q. InUse g (Pointer.untag q)) l) (sym b.empty) tt in
        let after = Pushes-Pushed g pushes begun-alive none_waits owning in
        (
          t,
          record {
            done =
                ap (λ x. (if x then (do start_tracing roots; pure false) else pure true) s)
                  triggered
                ∙ ap (λ r. and_then (and_then r (λ _. reclaim_when_empty)) (λ _. pure false))
                    pushed;
            colours = begun-Colours roots listed here after;
            tracing_now = after.state_same;
            unchanged_still = after.mutations_same ∙ b.unchanged;
            few = omega (arith, after.longer, ap length b.empty);
          },
        )

    collected-Ends :
        (t : State)
        → Begun t
        → Ends ratio_above roots g roots (suc (rounds_left g (collected t))) (collected t)
    unfolding worklists_empty
    collected-Ends t h =
        let c =
          resumed-Colours t.tracing_steps t.mutation_steps (collected t).tracing_state h.colours in
        elim (Bool-cases (ltb 0 (length t.tracing_worklist))) [
          | inl more ↦
              let some_word : (length t.tracing_worklist == 0) ≡ false = ground arith in
              let to : (collected t).tracing_state ≡ TracingState.tracing =
                rw (some_word, h.tracing_now) refl in
              rounds-Ends ratio_above roots g roots closed (rounds_left g (collected t))
                (collected t) (omega arith) c (at_work to (ground arith))
          | inr none ↦
              let empty = no_elements t.tracing_worklist none in
              here-Ends ratio_above roots g roots _ (collected t) c
                (inr (rw (h.unchanged_still, empty) refl, (empty, h.unchanged_still)))
        ]

    collected-few :
        (t : State)
        → Begun t
        → rounds_left g (collected t) ≤ 2 * (word_count g g.objects + length roots) + 1
    unfolding pending_of
    collected-few t h = omega (
      arith,
      h.few,
      ap (pending_of g) h.unchanged_still,
      left_of-word_count g (collected t) g.objects,
      ticks-le (collected t).tracing_state,
    )

    -- From an idle state between two traces with a budget, where a trace is triggered and the roots
    -- own objects in use, of a closed graph of objects that are referred to and do not wait to be
    -- freed: after no more rounds than twice the words that the objects in use and the roots have,
    -- and three, either the budget is spent, and the trace can go on with the invariant of the
    -- marking, or the reclaiming begins, and every object that is reached from the roots over owned
    -- references is marked. No round fails.
    pub gc_tracing-Reaches :
        is_spent s.tracing_budget ≡ false
        → (n : ℕ) × (t : State) × (n ≤ 2 * (word_count g g.objects + length roots) + 3)
          × ((fuel : ℕ)
              → n ≤ fuel
              → gc_tracing ratio_above roots fuel s ≡ gc_tracing ratio_above roots (fuel - n) t)
          × Stops g roots t
    gc_tracing-Reaches open_still =
        let (t, h) = first-Begun in
        let (n, u, few, runs, stops) = Ends-Stops g roots closed owning ratio_above roots _ s (
          round-Ends ratio_above roots g roots _ s (collected t) open_still
            (ap (λ p. tracing_round ratio_above roots p s) idle ∙ h.done) (collected-Ends t h)) in
        (n, u, omega (arith, few, collected-few t h), runs, stops)
