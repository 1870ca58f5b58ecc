-- ===== src/Tracing/Frame.antt =====
-- Each step of the collector keeps every header and both state machines.
use syli.Prelude.{
  ℕ, ◌-◌, ◌≡◌, refl, Bool, true, false, List, [], ◌∷◌, length, ltb, ◌==◌, if◌then◌else◌, arith,
}
use syli.State.{State}
use syli.State.Frame.{
  Frame, Frame-refl, Keeps, pure-Keeps, bind-Keeps, then-Keeps, if-Keeps, or_fault-Keeps,
  assert-Keeps, get_state-Keeps, modify-Keeps, load-Keeps, load_object-Keeps,
}
use syli.Object.Frame.{
  free-Keeps, set_flags-Keeps, clear_flags-Keeps, has_flags-Keeps, refcount-Keeps, decr_local-Keeps,
}
use syli.Gc.Frame.{
  same-Frame, account_cyclic_free-Keeps, free_released_object-Keeps, tracing_worklist_push-Keeps,
  mark_tag_object-Keeps, is_object_mark_tagged-Keeps,
}
use syli.Traverse.Frame.{traverse-Keeps}
use syli.Tracing.{
  spend_tracing, spend_checking, pop_tracing, pop_mutation, pop_lost_cycle, trace_unmarked,
  trace_live, trace_popped, one_step_tracing, prepare_popped, one_step_prepare_tracing_mutations,
  lost_cycle_enqueue_free, lost_cycle_child_dead, lost_cycle_child_decr,
  lost_cycle_release_children, release_children_once, scan_unmarked, scan_at, clamp_check_index,
  one_step_scan, one_step_free_unreachable,
}

pub spend_tracing-Keeps : (n : ℕ) → Keeps (spend_tracing n)
unfolding spend_tracing
spend_tracing-Keeps n = modify-Keeps _ (λ s. same-Frame refl refl refl refl)

pub spend_checking-Keeps : (n : ℕ) → Keeps (spend_checking n)
unfolding spend_checking
spend_checking-Keeps n = modify-Keeps _ (λ s. same-Frame refl refl refl refl)

pop_tracing-Keeps : Keeps pop_tracing
unfolding pop_tracing
pop_tracing-Keeps s p s' h = go s.tracing_worklist refl
  where
    go : (ps : List ℕ) → s.tracing_worklist ≡ ps → Frame s s'
    go [] e = ground arith
    go (q ∷ ps) e =
        let e' : s' ≡ record s { tracing_worklist = ps } = ground arith in
        rw e' (same-Frame refl refl refl refl)

pop_mutation-Keeps : Keeps pop_mutation
unfolding pop_mutation
pop_mutation-Keeps s p s' h = go s.tracing_mutations_worklist refl
  where
    go : (ps : List ℕ) → s.tracing_mutations_worklist ≡ ps → Frame s s'
    go [] e = ground arith
    go (q ∷ ps) e =
        let e' : s' ≡ record s { tracing_mutations_worklist = ps } = ground arith in
        rw e' (same-Frame refl refl refl refl)

pop_lost_cycle-Keeps : Keeps pop_lost_cycle
unfolding pop_lost_cycle
pop_lost_cycle-Keeps s p s' h = go s.lost_cycle_worklist refl
  where
    go : (ps : List ℕ) → s.lost_cycle_worklist ≡ ps → Frame s s'
    go [] e = ground arith
    go (q ∷ ps) e =
        let e' : s' ≡ record s { lost_cycle_worklist = ps } = ground arith in
        rw e' (same-Frame refl refl refl refl)

module _ (o : ℕ) where
  trace_unmarked-Keeps : Keeps (trace_unmarked o)
  unfolding trace_unmarked
  trace_unmarked-Keeps = then-Keeps (mark_tag_object-Keeps o) (
      then-Keeps (modify-Keeps _ (λ s. same-Frame refl refl refl refl))
        (traverse-Keeps tracing_worklist_push-Keeps spend_tracing-Keeps spend_tracing-Keeps o))

  trace_live-Keeps : Keeps (trace_live o)
  unfolding trace_live
  trace_live-Keeps = bind-Keeps (load_object-Keeps o) (λ b. if-Keeps _ (pure-Keeps tt) (
      bind-Keeps (is_object_mark_tagged-Keeps o)
        (λ marked. if-Keeps _ (pure-Keeps tt) trace_unmarked-Keeps)))

  trace_popped-Keeps : Keeps (trace_popped o)
  unfolding trace_popped
  trace_popped-Keeps = then-Keeps (assert-Keeps _) (
      then-Keeps (clear_flags-Keeps o _) (
        bind-Keeps (has_flags-Keeps o _) (λ waiting.
          if-Keeps _ (then-Keeps (account_cyclic_free-Keeps o) (free-Keeps o)) trace_live-Keeps)))

  prepare_popped-Keeps : Keeps (prepare_popped o)
  unfolding prepare_popped
  prepare_popped-Keeps = then-Keeps (assert-Keeps _) (
      bind-Keeps (load-Keeps o) (λ b. then-Keeps (assert-Keeps _) (
        bind-Keeps (has_flags-Keeps o _) (λ waiting. if-Keeps _ (free-Keeps o) (
          traverse-Keeps tracing_worklist_push-Keeps spend_tracing-Keeps (λ n. pure-Keeps tt) o)))))

  pub lost_cycle_enqueue_free-Keeps : Keeps (lost_cycle_enqueue_free o)
  unfolding lost_cycle_enqueue_free
  lost_cycle_enqueue_free-Keeps =
      bind-Keeps (refcount-Keeps _) (λ count.
        then-Keeps (assert-Keeps _) (modify-Keeps _ (λ s. same-Frame refl refl refl refl)))

pub one_step_tracing-Keeps : Keeps one_step_tracing
unfolding one_step_tracing
one_step_tracing-Keeps = bind-Keeps pop_tracing-Keeps (λ p. trace_popped-Keeps _)

pub one_step_prepare_tracing_mutations-Keeps : Keeps one_step_prepare_tracing_mutations
unfolding one_step_prepare_tracing_mutations
one_step_prepare_tracing_mutations-Keeps =
    bind-Keeps pop_mutation-Keeps (λ p. then-Keeps (assert-Keeps _) (prepare_popped-Keeps _))

lost_cycle_child_dead-Keeps : (o p : ℕ) → Keeps (lost_cycle_child_dead o p)
unfolding lost_cycle_child_dead
lost_cycle_child_dead-Keeps o p =
    bind-Keeps (load-Keeps o)
      (λ b. if-Keeps _ (lost_cycle_enqueue_free-Keeps p) (free_released_object-Keeps o))

lost_cycle_child_decr-Keeps : (p : ℕ) → Keeps (lost_cycle_child_decr p)
unfolding lost_cycle_child_decr
lost_cycle_child_decr-Keeps p = then-Keeps (decr_local-Keeps _) (
    bind-Keeps (refcount-Keeps _)
      (λ count. if-Keeps _ (lost_cycle_child_dead-Keeps _ p) (pure-Keeps tt)))

release_children_once-Keeps : (o : ℕ) → Keeps (release_children_once o)
unfolding release_children_once lost_cycle_release_children
release_children_once-Keeps o = bind-Keeps (has_flags-Keeps o _) (λ is_done.
    if-Keeps _ (pure-Keeps tt) (
      then-Keeps (set_flags-Keeps o _)
        (traverse-Keeps lost_cycle_child_decr-Keeps spend_checking-Keeps spend_checking-Keeps o)))

scan_unmarked-Keeps : (o p : ℕ) → Keeps (scan_unmarked o p)
unfolding scan_unmarked
scan_unmarked-Keeps o p = then-Keeps (release_children_once-Keeps o) (
    bind-Keeps (refcount-Keeps o)
      (λ count. if-Keeps _ (lost_cycle_enqueue_free-Keeps p) (pure-Keeps tt)))

scan_at-Keeps : (index : ℕ) → Keeps (scan_at index)
unfolding scan_at
scan_at-Keeps index = bind-Keeps get_state-Keeps (λ s. bind-Keeps (or_fault-Keeps _) (λ p.
    then-Keeps (modify-Keeps _ (λ s. same-Frame refl refl refl refl)) (
      bind-Keeps (is_object_mark_tagged-Keeps _)
        (λ marked. if-Keeps _ (pure-Keeps tt) (scan_unmarked-Keeps _ p)))))

clamp-Frame : (s : State) → Frame s (clamp_check_index s)
unfolding clamp_check_index
clamp-Frame s = clamped (ltb (length s.cyclic_candidates) s.current_candidate_check_index)
  where
    clamped :
        (c : Bool)
        → Frame s (
            if c
            then record s { current_candidate_check_index = length s.cyclic_candidates }
            else s)
    clamped true = same-Frame refl refl refl refl
    clamped false = Frame-refl s

pub one_step_scan-Keeps : Keeps one_step_scan
unfolding one_step_scan
one_step_scan-Keeps = then-Keeps (modify-Keeps _ clamp-Frame) (
    bind-Keeps get_state-Keeps (λ s.
      if-Keeps (s.current_candidate_check_index == 0) (pure-Keeps tt)
        (scan_at-Keeps (s.current_candidate_check_index - 1))))

pub one_step_free_unreachable-Keeps : Keeps one_step_free_unreachable
unfolding one_step_free_unreachable
one_step_free_unreachable-Keeps =
    bind-Keeps pop_lost_cycle-Keeps
      (λ p. then-Keeps (release_children_once-Keeps _) (free_released_object-Keeps _))
