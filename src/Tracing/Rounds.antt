-- ===== src/Tracing/Rounds.antt =====
-- Single rounds of the loop of `syli_state_gc_tracing`.
use syli.Prelude.{
  ℕ, suc, ◌≤◌, ◌≡◌, refl, ap, ◌∙◌, some, Bool, true, false, List, if◌then◌else◌, arith,
}
use syli.State.{State, tracing_idle, is_spent}
use syli.State.Monad.{ok, pure, ◌>>◌}
use syli.Tracing.{is_triggered, start_tracing, tracing_round, gc_tracing}

-- Without an allocation since the last trace there is no other.
is_triggered_lem :
    (ratio_above : ℕ → ℕ → ℕ → Bool) (s : State)
    → s.cyclic_obj_alloc ≤ s.cyclic_obj_alloc_at_trace
    → is_triggered ratio_above s ≡ false
unfolding is_triggered
is_triggered_lem ratio_above s h = ground arith

tracing_round-untriggered :
    (ratio_above : ℕ → ℕ → ℕ → Bool) (roots : List ℕ) (s : State)
    → is_triggered ratio_above s ≡ false
    → tracing_round ratio_above roots tracing_idle s ≡ ok true s
unfolding tracing_round
tracing_round-untriggered ratio_above roots s h =
    ap (λ triggered. (if triggered then (do start_tracing roots; pure false) else pure true) s) h

module _ (ratio_above : ℕ → ℕ → ℕ → Bool) (roots : List ℕ) (fuel : ℕ) (s : State)
    (some_left : is_spent s.tracing_budget ≡ false) where
  pub gc_tracing-return :
      {s' : State}
      → tracing_round ratio_above roots s.tracing_state s ≡ ok true s'
      → gc_tracing ratio_above roots (suc fuel) s ≡ some (ok tt s')
  unfolding gc_tracing
  gc_tracing-return h = rw (gc_tracing, some_left, h) refl

  pub gc_tracing-round :
      {s' : State}
      → tracing_round ratio_above roots s.tracing_state s ≡ ok false s'
      → gc_tracing ratio_above roots (suc fuel) s ≡ gc_tracing ratio_above roots fuel s'
  unfolding gc_tracing
  gc_tracing-round h = rw (gc_tracing, some_left, h) refl

-- With no reason to trace
pub gc_tracing-idle :
    (ratio_above : ℕ → ℕ → ℕ → Bool) (roots : List ℕ) (fuel : ℕ) (s : State)
    → s.tracing_state ≡ tracing_idle
    → s.cyclic_obj_alloc ≤ s.cyclic_obj_alloc_at_trace
    → is_spent s.tracing_budget ≡ false
    → gc_tracing ratio_above roots (suc fuel) s ≡ some (ok tt s)
gc_tracing-idle ratio_above roots fuel s idle none_new some_left =
    gc_tracing-return ratio_above roots fuel s some_left (
      ap (λ p. tracing_round ratio_above roots p s) idle
      ∙ tracing_round-untriggered ratio_above roots s (is_triggered_lem ratio_above s none_new))
