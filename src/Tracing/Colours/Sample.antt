-- ===== src/Tracing/Colours/Sample.antt =====
-- A pair that owns a shared object, between two traces, with the pair as the root.
use mathlib.Core.Path.{subst}
use syli.Prelude.{
  ◌⊎◌, ◌^◌, All, Bool-cases, inl, inr, sym, ap, ◌∙◌, ℕ, ◌*◌, ◌≡◌, ◌≢◌, refl, Bool, true, false,
  some, none, [], ◌∷◌, Memᴰ, ltb, ◌==◌, if◌then◌else◌, arith,
}
use syli.Header
use syli.Meta
use syli.Meta.{tracing, waiting_remove}
use syli.Object
use syli.Pointer
use syli.Gc
use syli.Tracing
use syli.State.{Block, Heap, State, TracingState}
use syli.State.Sample.{pair, shared, start}
use syli.Traverse.References.{references}
use syli.Tracing.{is_triggered}
use syli.Tracing.Mark.{has_references, field_count, is_reference}
use syli.Tracing.Queue.{Listed}
use syli.Tracing.Colours.{
  Graph, InUse, Closed, Alive, Alive-heap, Colours, Seen, Pending, HasFields, words, is_marked,
}
use syli.Tracing.Colours.Push.{Owns, Owning}
use syli.Tracing.Colours.Begin.{Between}

-- One field owns the shared object, and the other is null.
abbrev pub linked : Block
linked = record pair { value = 65 ∷ 0 ∷ [] }

abbrev pub linked_heap : Heap
linked_heap p = if p == 16 then some linked else if p == 64 then some shared else none

not_flagged : Meta.has_flags 1 tracing ≡ false
unfolding Meta.has_flags
not_flagged = refl

-- No object is flagged.
pub linked_heap-Listed : (s : State) → s.heap ≡ linked_heap → Listed s
linked_heap-Listed s e o b there counted flagged =
    let held = sym (ap (λ (h : Heap). h o) e) ∙ there in
    elim (Bool-cases (o == 16)) [
      | inl here ↦
          let is_b : linked ≡ b = ground arith in absurd (still_flagged linked b is_b flagged refl)
      | inr elsewhere ↦ elim (Bool-cases (o == 64)) [
        | inl here ↦
            let is_b : shared ≡ b = ground arith in
            absurd (still_flagged shared b is_b flagged refl)
        | inr nowhere ↦ absurd (ground arith)
      ]
    ]
  where
    still_flagged : (c b : Block) → c ≡ b → Meta.has_flags b.meta tracing ≡ true → c.meta ≢ 1
    still_flagged c b same flagged one =
        let known =
          ap (λ m. Meta.has_flags m tracing) (sym one ∙ ap (λ (x : Block). x.meta) same)
          ∙ flagged in
        absurd (ground (arith, known, not_flagged))

abbrev pub resting : State
resting = record start {
  heap = linked_heap;
  tracing_budget = 2000;
  cyclic_candidates = 17 ∷ [];
  cyclic_mem_alloc = 1;
  cyclic_obj_alloc = 1;
}

abbrev pub graph : Graph
graph = record {
  objects = 16 ∷ 64 ∷ [];
  header = λ o. if o == 16 then linked.header else shared.header;
  value = λ o. if o == 16 then linked.value else shared.value;
}

each_object : (P : ℕ → Type 0) → P 16 → P 64 → (o : ℕ) → InUse graph o → P o
each_object P first second o (Memᴰ.head e) = subst P (sym e) first
each_object P first second o (Memᴰ.tail (Memᴰ.head e)) = subst P (sym e) second
each_object P first second o (Memᴰ.tail (Memᴰ.tail m)) = elim m [ ]

linked-Alive : Alive graph resting 16
unfolding Meta.refcount Meta.has_flags
linked-Alive = record {
  block = linked;
  held = refl;
  headed = refl;
  fields = refl;
  referred = refl;
  stays = refl;
  fits = omega arith;
}

shared-Alive : Alive graph resting 64
unfolding Meta.refcount Meta.has_flags
shared-Alive = record {
  block = shared;
  held = refl;
  headed = refl;
  fields = refl;
  referred = refl;
  stays = refl;
  fits = omega arith;
}

linked-words : words graph 16 ≡ 65 ∷ 0 ∷ []
unfolding field_count is_reference references Header.is_mono_ref Header.object_length
    Header.get_layout Header.mono_length Header.is_mono Header.is_mono_imm Header.payload
linked-words = refl

shared-words : words graph 64 ≡ []
unfolding Header.is_mono_ref Header.is_mixed_bitmap Header.is_mixed_order
shared-words = refl

null_unowned : Pointer.is_own_ref 0 ≢ true
unfolding Pointer.is_own_ref
null_unowned e = absurd (ground (arith, e))

at_64-Owns : Owns graph 65
unfolding Pointer.untag
at_64-Owns owned = Memᴰ.tail (Memᴰ.head refl)

linked-Owning : Owning graph (words graph 16)
linked-Owning = rw linked-words (at_64-Owns, ((λ owned. absurd (null_unowned owned)), tt))

shared-Owning : Owning graph (words graph 64)
shared-Owning = rw shared-words tt

pub graph-Closed : Closed graph
unfolding field_count Object.is_counted Header.get_zone Header.is_mono_ref Header.is_mixed_bitmap
    Header.is_mixed_order Header.object_length Header.get_layout Header.mono_length Header.is_mono
    Header.is_mono_imm Header.payload
graph-Closed = record {
  real = each_object (λ o. o ≢ 0) (λ e. absurd (omega (arith, e))) (λ e. absurd (omega (arith, e)));
  counted = each_object (λ o. Object.is_counted (graph.header o) ≡ true) refl refl;
  layout =
      each_object
        (λ o. has_references (graph.header o) ≡ true → HasFields (graph.header o) (graph.value o))
        (λ has. (2, refl, omega arith)) (λ has. absurd (ground (arith, has)));
  owns = each_object (λ o. Owning graph (words graph o)) linked-Owning shared-Owning;
}

pub roots-Owning : Owning graph (17 ∷ [])
unfolding Pointer.untag
roots-Owning = ((λ owned. Memᴰ.head refl), tt)

pub resting-Between : Between graph resting
unfolding Meta.mark_tag
resting-Between = record {
  bit = 0;
  bit_fits = omega arith;
  current = refl;
  alive = each_object (λ o. Alive graph resting o) linked-Alive shared-Alive;
  marked = each_object (λ o. is_marked resting o ≡ true) refl refl;
  empty = refl;
  unchanged = refl;
  listed = linked_heap-Listed resting refl;
}

-- A comparison of ratios by cross multiplication, with a whole threshold
abbrev pub above : ℕ → ℕ → ℕ → Bool
above live objs threshold = ltb (threshold * objs) live

pub resting_triggered : is_triggered above resting ≡ true
unfolding is_triggered Tracing.candidates_ratio_above Gc.current_cyclic_obj Gc.current_cyclic_mem
    Gc.cyclic_candidate_count
resting_triggered = refl

-- A trace of the same objects that has begun: nothing is marked, and the pair waits.
abbrev pub under_way : State
under_way = record resting {
  tracing_current_bit_mark = 2 ^ 63;
  tracing_state = TracingState.tracing;
  tracing_worklist = 17 ∷ [];
}

pub under_way-Colours : Colours graph (17 ∷ []) under_way
unfolding Meta.mark_tag Pointer.untag
under_way-Colours = record {
  bit = 1;
  bit_fits = omega arith;
  current = refl;
  alive =
      each_object (λ o. Alive graph under_way o) (Alive-heap refl linked-Alive)
        (Alive-heap refl shared-Alive);
  work = (Memᴰ.head refl, tt);
  listed = linked_heap-Listed under_way refl;
  changed = tt;
  black =
      each_object
        (λ o.
          is_marked under_way o ≡ true → Pending under_way o ⊎ All (Seen under_way) (words graph o))
        (λ e. absurd (ground (arith, e))) (λ e. absurd (ground (arith, e)));
  rooted = ((λ owned. inr (0, 17, refl, refl)), tt);
}
