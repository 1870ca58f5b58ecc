-- ===== src/Tracing/Tests.antt =====
-- A concrete round of the tracing machine, and the theorem applied to it.
use syli.Prelude.{◌*◌, ◌≤◌, ◌+◌, ◌-◌, All, ℕ, ◌≡◌, refl, false, true, some, [], ◌∷◌, arith}
use syli.Header
use syli.Meta
use syli.Meta.{MetaFlag}
use syli.Object
use syli.Pointer
use syli.Stack
use syli.State.{State, tracing_idle, mutation_prepare, reclaiming_cyclic_candidates}
use syli.State.Sample.{pair, start}
use syli.State.Monad.{ok}
use syli.Tracing.{mutations_done, tracing_round, gc_tracing, trace_unmarked, push_roots}
use syli.Tracing.Reclaim.{AllMarked, reclaiming-ends_idle}
use syli.Traverse.References.{references}
use syli.Tracing.Colours.Sample.{
  under_way, under_way-Colours, linked, linked_heap, linked_heap-Listed, resting, graph,
  graph-Closed, resting-Between, resting_triggered, roots-Owning, above,
}
use syli.Tracing.Colours.Begin.{gc_tracing-Reaches}
use syli.Tracing.Colours.Goes.{rounds_left, at_work}
use syli.Tracing.Colours.Run.{Stops, gc_tracing-resumes}
use syli.Tracing.Colours.Weight.{word_count}
use syli.Tracing.Queue.{Listed, Grows, IsRoot, IsListed, push_roots-Listed}
use syli.Tracing.Mark.{has_references, field_count, is_reference, marked, trace_unmarked-push_roots}
use syli.Tracing.Machine.{Next, Round, tracing_round-Round}

-- Preparing mutations, with none left
abbrev preparing : State
preparing = record start { tracing_state = mutation_prepare }

tracing_round-Round_example :
    Next preparing
      (record start { tracing_state = reclaiming_cyclic_candidates })
      mutation_prepare
      reclaiming_cyclic_candidates
unfolding tracing_round mutations_done Round
tracing_round-Round_example =
    tracing_round-Round above [] mutation_prepare preparing false
      (record start { tracing_state = reclaiming_cyclic_candidates }) refl refl

-- A marked pair is the one candidate that is left to look at.
abbrev reclaiming : State
reclaiming = record start {
  tracing_budget = 2000;
  tracing_state = reclaiming_cyclic_candidates;
  cyclic_candidates = 17 ∷ [];
  current_candidate_check_index = 1;
}

reclaiming-AllMarked : AllMarked reclaiming
unfolding Stack.at Pointer.untag Meta.mark_tag
reclaiming-AllMarked = record {
  empty = refl;
  within = omega arith;
  each = λ i before.
      let first : i ≡ 0 = omega arith in
      rw first (record {
        ptr = 17;
        block = pair;
        candidate = refl;
        real = λ e. absurd (omega (arith, e));
        held = refl;
        marked = refl;
      });
}

reclaiming-ends_idle_example :
    (t : State) × (gc_tracing above [] 3 reclaiming ≡ some (ok tt t))
    × (t.tracing_state ≡ tracing_idle)
    × (t.heap ≡ reclaiming.heap)
    × (t.cyclic_candidates ≡ reclaiming.cyclic_candidates)
reclaiming-ends_idle_example =
    reclaiming-ends_idle above [] 3 1 reclaiming (omega arith) refl refl reclaiming-AllMarked refl
      (omega arith)

-- The pair, whose two fields are references
pair-has_references : has_references pair.header ≡ true
unfolding Header.is_mono_ref
pair-has_references = refl

pair_field_count : field_count pair.header ≡ some 2
unfolding field_count Header.is_mono_ref Header.object_length Header.get_layout Header.mono_length
    Header.is_mono Header.is_mono_imm Header.payload
pair_field_count = refl

abbrev linked_start : State
linked_start = record start { heap = linked_heap; tracing_budget = 2000 }

trace_unmarked-push_roots_example :
    trace_unmarked 16 linked_start
    ≡ push_roots
        (references (is_reference pair.header) (65 ∷ 0 ∷ []) 2 0)
        (marked linked_start 16 linked 2)
trace_unmarked-push_roots_example =
    trace_unmarked-push_roots linked_start 16 linked 2 (λ e. absurd (omega (arith, e))) refl
      pair-has_references pair_field_count (omega arith)

pair_is_counted : Object.is_counted pair.header ≡ true
unfolding Object.is_counted Header.get_zone
pair_is_counted = refl

linked_start-Listed : Listed linked_start
linked_start-Listed = linked_heap-Listed linked_start refl

at_16-IsRoot : IsRoot linked_start 17
unfolding Pointer.untag
at_16-IsRoot owned = record {
  block = linked;
  real = λ e. absurd (omega (arith, e));
  held = refl;
  counted = pair_is_counted;
}

null-IsRoot : IsRoot linked_start 0
unfolding Pointer.is_own_ref
null-IsRoot owned = absurd (ground (arith, owned))

push_roots-Listed_example :
    (t : State) × (push_roots (17 ∷ 0 ∷ []) linked_start ≡ ok tt t)
    × Listed t
    × Grows linked_start t
    × All (IsListed t) (17 ∷ 0 ∷ [])
push_roots-Listed_example =
    push_roots-Listed (17 ∷ 0 ∷ []) linked_start linked_start-Listed
      (at_16-IsRoot, (null-IsRoot, tt))

-- The pair owns the shared object, and is the root.
gc_tracing-Reaches_example :
    (n : ℕ) × (t : State) × (n ≤ 2 * (word_count graph graph.objects + 1) + 3)
    × ((fuel : ℕ)
        → n ≤ fuel
        → gc_tracing above (17 ∷ []) fuel resting ≡ gc_tracing above (17 ∷ []) (fuel - n) t)
    × Stops graph (17 ∷ []) t
gc_tracing-Reaches_example =
    gc_tracing-Reaches graph graph-Closed resting-Between above (17 ∷ []) roots-Owning refl
      resting_triggered refl

gc_tracing-resumes_example :
    (n : ℕ) × (t : State) × (n ≤ rounds_left graph under_way + 1)
    × ((fuel : ℕ)
        → n ≤ fuel
        → gc_tracing above (17 ∷ []) fuel under_way ≡ gc_tracing above (17 ∷ []) (fuel - n) t)
    × Stops graph (17 ∷ []) t
gc_tracing-resumes_example =
    gc_tracing-resumes graph (17 ∷ []) graph-Closed roots-Owning above (17 ∷ []) under_way
      under_way-Colours (at_work refl (omega arith))
