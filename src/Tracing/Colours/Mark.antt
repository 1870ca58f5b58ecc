-- ===== src/Tracing/Colours/Mark.antt =====
-- The marking of one object, with references or without.
use syli.Prelude.{ℕ, ◌+◌, ◌≡◌, ◌≢◌, refl, ◌∙◌, true, false, some, Bool-cases, inl, inr, arith}
use syli.Word.{u64}
use syli.Header
use syli.Meta
use syli.State.{Block, State}
use syli.State.Monad.{ok, update}
use syli.Object.Heap.{load_object-ok, modify_meta-ok, update-at}
use syli.Gc
use syli.Traverse.{traverse}
use syli.Tracing.{spend_tracing, trace_unmarked, push_roots}
use syli.Tracing.Mark.{has_references, marked, trace_unmarked-push_roots}
use syli.Tracing.Colours.{HasFields, words_of}

-- `u` is `s` with the object marked, up to the budget and the counters.
pub record Marks (s u : State) (o : ℕ) (b : Block) : Type 0 where
  pub heap :
      u.heap
      ≡ update s.heap o (some (record b { meta = Meta.set_mark s.tracing_current_bit_mark b.meta }))
  pub bit_same : u.tracing_current_bit_mark ≡ s.tracing_current_bit_mark
  pub work_same : u.tracing_worklist ≡ s.tracing_worklist
  pub state_same : u.tracing_state ≡ s.tracing_state
  pub mutations_same : u.tracing_mutations_worklist ≡ s.tracing_mutations_worklist

-- The state with an object marked that has no references
abbrev leaf_marked : State → ℕ → Block → State
leaf_marked s o b = record s {
  heap =
      update s.heap o (some (record b { meta = Meta.set_mark s.tracing_current_bit_mark b.meta }));
  total_objects_traced = u64 (s.total_objects_traced + 1);
}

traverse-leaf :
    (s : State) (o : ℕ) (b : Block)
    → o ≢ 0
    → s.heap o ≡ some b
    → has_references b.header ≡ false
    → traverse Gc.tracing_worklist_push spend_tracing spend_tracing o s ≡ ok tt s
unfolding traverse
traverse-leaf s o b real held leaf =
    let mono : Header.is_mono_ref b.header ≡ false = ground arith in
    let bitmap : Header.is_mixed_bitmap b.header ≡ false = ground arith in
    let order : Header.is_mixed_order b.header ≡ false = ground arith in
    rw (load_object-ok s o real held, mono, bitmap, order) refl

trace_unmarked-leaf :
    (s : State) (o : ℕ) (b : Block)
    → o ≢ 0
    → s.heap o ≡ some b
    → has_references b.header ≡ false
    → trace_unmarked o s ≡ ok tt (leaf_marked s o b)
unfolding trace_unmarked Gc.mark_tag_object
trace_unmarked-leaf s o b real held leaf =
    let c : Block = record b { meta = Meta.set_mark s.tracing_current_bit_mark b.meta } in
    rw (modify_meta-ok s o (Meta.set_mark s.tracing_current_bit_mark) real held)
      (traverse-leaf (leaf_marked s o b) o c real (update-at s.heap o (some c)) leaf)

pub trace_unmarked-words :
    (s : State) (o : ℕ) (b : Block)
    → o ≢ 0
    → s.heap o ≡ some b
    → (has_references b.header ≡ true → HasFields b.header b.value)
    → (u : State) × (trace_unmarked o s ≡ push_roots (words_of b.header b.value) u) × Marks s u o b
unfolding push_roots
trace_unmarked-words s o b real held fields = elim (Bool-cases (has_references b.header)) [
  | inl has ↦
      let (n, count, fits) = fields has in
      (
        marked s o b n,
        trace_unmarked-push_roots s o b n real held has count fits ∙ rw (has, count) refl,
        record {
          heap = refl;
          bit_same = refl;
          work_same = refl;
          state_same = refl;
          mutations_same = refl;
        },
      )
  | inr leaf ↦ (
    leaf_marked s o b,
    trace_unmarked-leaf s o b real held leaf ∙ rw leaf refl,
    record {
      heap = refl;
      bit_same = refl;
      work_same = refl;
      state_same = refl;
      mutations_same = refl;
    },
  )
]
