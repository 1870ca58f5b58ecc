-- ===== src/Gc/Frame.antt =====
-- What tracing and releasing share keeps every header and both state machines.
use syli.Prelude.{ℕ, ◌≡◌, refl}
use syli.Stack
use syli.State.{State}
use syli.State.Frame.{
  Frame, Keeps, pure-Keeps, bind-Keeps, then-Keeps, if-Keeps, asserted-Keeps, or_fault-Keeps,
  assert-Keeps, get_state-Keeps, modify-Keeps, load-Keeps, load_object-Keeps,
}
use syli.Object.Frame.{
  modify_meta-Keeps, free-Keeps, set_flags-Keeps, clear_flags-Keeps, has_flags-Keeps,
  refcount-Keeps, get_candidate_index-Keeps, set_candidate_index-Keeps,
}
use syli.Gc

-- A change of the vectors and the counters alone
pub same-Frame :
    {s s' : State}
    → s'.heap ≡ s.heap
    → s'.tracing_state ≡ s.tracing_state
    → s'.releasing_state ≡ s.releasing_state
    → s'.releasing_budget ≡ s.releasing_budget
    → Frame s s'
same-Frame h t r b = record {
  headers = λ o c e. (c, rw h at e, refl);
  tracing_same = t;
  releasing_same = r;
  budget_same = b;
}

module _ (o : ℕ) where
  pub account_cyclic_free-Keeps : Keeps (Gc.account_cyclic_free o)
  unfolding Gc.account_cyclic_free
  account_cyclic_free-Keeps = bind-Keeps (load-Keeps o) (λ b.
      if-Keeps _
        (bind-Keeps (asserted-Keeps _) (λ n. modify-Keeps _ (λ s. same-Frame refl refl refl refl)))
        (pure-Keeps tt))

  pub move_last_candidate-Keeps : (last : ℕ) → Keeps (Gc.move_last_candidate o last)
  unfolding Gc.move_last_candidate
  move_last_candidate-Keeps last = bind-Keeps get_state-Keeps (λ s.
      bind-Keeps (or_fault-Keeps (Stack.at s.cyclic_candidates last)) (λ moved.
        then-Keeps (or_fault-Keeps (Stack.at s.cyclic_candidates o)) (
          then-Keeps (modify-Keeps _ (λ s. same-Frame refl refl refl refl))
            (set_candidate_index-Keeps _ _))))

  pub remove_candidate_at-Keeps : Keeps (Gc.remove_candidate_at o)
  unfolding Gc.remove_candidate_at
  remove_candidate_at-Keeps = bind-Keeps get_state-Keeps (λ s.
      then-Keeps (if-Keeps _ (pure-Keeps tt) (move_last_candidate-Keeps _))
        (modify-Keeps _ (λ s. same-Frame refl refl refl refl)))

module _ (o : ℕ) where
  pub unregister_candidate-Keeps : Keeps (Gc.unregister_candidate o)
  unfolding Gc.unregister_candidate
  unregister_candidate-Keeps = bind-Keeps (has_flags-Keeps o _) (λ known.
      if-Keeps _
        (bind-Keeps (get_candidate_index-Keeps o)
          (λ index. then-Keeps (remove_candidate_at-Keeps index) (clear_flags-Keeps o _)))
        (pure-Keeps tt))

  pub free_released_object-Keeps : Keeps (Gc.free_released_object o)
  unfolding Gc.free_released_object Gc.free_now
  free_released_object-Keeps = then-Keeps unregister_candidate-Keeps (
      bind-Keeps (has_flags-Keeps o _) (λ queued. if-Keeps _ (set_flags-Keeps o _) (
        then-Keeps
          (then-Keeps (modify-Keeps _ (λ s. same-Frame refl refl refl refl))
            (account_cyclic_free-Keeps o))
          (free-Keeps o))))

  pub tracing_worklist_push-Keeps : Keeps (Gc.tracing_worklist_push o)
  unfolding Gc.tracing_worklist_push
  tracing_worklist_push-Keeps =
      if-Keeps _
        (bind-Keeps (has_flags-Keeps _ _) (λ queued. if-Keeps _ (pure-Keeps tt) (
          then-Keeps (set_flags-Keeps _ _) (modify-Keeps _ (λ s. same-Frame refl refl refl refl)))))
        (pure-Keeps tt)

  pub mark_tag_object-Keeps : Keeps (Gc.mark_tag_object o)
  unfolding Gc.mark_tag_object
  mark_tag_object-Keeps = bind-Keeps get_state-Keeps (λ s. modify_meta-Keeps o _)

  pub is_object_mark_tagged-Keeps : Keeps (Gc.is_object_mark_tagged o)
  unfolding Gc.is_object_mark_tagged
  is_object_mark_tagged-Keeps =
      bind-Keeps (load_object-Keeps o) (λ b. bind-Keeps get_state-Keeps (λ s. pure-Keeps _))

module _ (o : ℕ) where
  pub releasing_worklist_push-Keeps : Keeps (Gc.releasing_worklist_push o)
  unfolding Gc.releasing_worklist_push
  releasing_worklist_push-Keeps = bind-Keeps (refcount-Keeps _) (λ count.
      then-Keeps (assert-Keeps _) (
        bind-Keeps (load-Keeps _) (λ b.
          then-Keeps (if-Keeps _ (mark_tag_object-Keeps _) (pure-Keeps tt))
            (modify-Keeps _ (λ s. same-Frame refl refl refl refl)))))
