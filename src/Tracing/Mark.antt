-- ===== src/Tracing/Mark.antt =====
-- One step of tracing marks an object and takes its references as roots.
use mathlib.Core.Path.{fun_ext}
use syli.Prelude.{
  Bool-cases, inl, inr, ℕ, zero, suc, ◌+◌, ◌<◌, ◌≤◌, ◌≡◌, ◌≢◌, refl, ap, ◌∙◌, Bool, true, false,
  ◌||◌, Option, none, some, List, [], ◌∷◌, length, get_elem?, if◌then◌else◌, arith,
}
use syli.Word.{u64, ◌>>>◌}
use syli.Header
use syli.Meta
use syli.State.{Block, State, spend}
use syli.State.Monad.{M, ok, update}
use syli.Object.Heap.{load_object-ok, modify_meta-ok, update-at}
use syli.Gc
use syli.Tracing.{spend_tracing, trace_unmarked, push_roots}
use syli.Traverse
use syli.Traverse.{walk_mono_ref, walk_mixed_bitmap, walk_mixed_order, traverse}
use syli.Traverse.References.{references, AllThere, each_field-push_roots}

-- How many of the fields of an object are looked at, by its header, and which are references
unfoldable pub field_count : ℕ → Option ℕ
field_count w =
    if Header.is_mono_ref w
    then Header.object_length w
    else if Header.is_mixed_bitmap w
    then Header.bitmap_length w
    else Header.order_ptr_count w

unfoldable pub is_reference : ℕ → ℕ → Bool
is_reference w i =
    if Header.is_mono_ref w
    then true
    else if Header.is_mixed_bitmap w
    then (elim (Header.bitmap_bits w) [ none ↦ false | some bits ↦ Header.bitmap_is_ref bits i ])
    else true

abbrev pub has_references : ℕ → Bool
has_references w = Header.is_mono_ref w || Header.is_mixed_bitmap w || Header.is_mixed_order w

bitmap_bits-ok :
    (w : ℕ) → Header.is_mixed_bitmap w ≡ true → Header.bitmap_bits w ≡ some (Header.payload w >>> 5)
unfolding Header.bitmap_bits
bitmap_bits-ok w bitmap = rw bitmap refl

length-AllThere : (value : List ℕ) (n : ℕ) → n ≤ length value → AllThere value n 0
length-AllThere value n fits j from to = found value j (omega arith)
  where
    found : (xs : List ℕ) (j : ℕ) → j < length xs → (v : ℕ) × (get_elem? xs j ≡ some v)
    found [] j h = absurd (omega arith)
    found (x ∷ xs) zero h = (x, refl)
    found (x ∷ xs) (suc j) h = found xs j (omega arith)

spends :
    (s : State) (n : ℕ)
    → spend_tracing n s ≡ ok tt (record s { tracing_budget = spend s.tracing_budget n })
unfolding spend_tracing
spends s n = refl

-- The state with another budget
abbrev pub with_budget : State → ℕ → State
with_budget s k = record s { tracing_budget = k }

-- The budget when the walk begins, which has taken `k` to be left for a bitmap's fields
abbrev pub budget_left : (header budget n k : ℕ) → ℕ
budget_left header budget n k =
    if Header.is_mono_ref header
    then spend budget n
    else if Header.is_mixed_bitmap header
    then k
    else spend budget n

budget_left-same :
    (header budget n : ℕ) → budget_left header budget n (spend budget n) ≡ spend budget n
budget_left-same header budget n = ground arith

module _ (s : State) (o : ℕ) (b : Block) (n : ℕ) (real : o ≢ 0) (held : s.heap o ≡ some b)
    (count : field_count b.header ≡ some n) (fits : n ≤ length b.value) where
  walk-push_roots :
      (k : ℕ) (is_ref : ℕ → Bool)
      → ((i : ℕ) → is_ref i ≡ is_reference b.header i)
      → Traverse.each_field Gc.tracing_worklist_push is_ref o n 0 (with_budget s k)
        ≡ push_roots (references (is_reference b.header) b.value n 0) (with_budget s k)
  walk-push_roots k is_ref same =
      each_field-push_roots is_ref o b.header b.value n 0 (with_budget s k)
        (record { block = b; held = held; headed = refl; fields = refl })
        (length-AllThere b.value n fits)
      ∙ ap (λ r. push_roots (references r b.value n 0) (with_budget s k)) (fun_ext same)

  pub traverse-push_roots :
      (charge_bitmap : ℕ → M (Unit {0})) (k : ℕ)
      → charge_bitmap n s ≡ ok tt (with_budget s k)
      → has_references b.header ≡ true
      → traverse Gc.tracing_worklist_push spend_tracing charge_bitmap o s
        ≡ push_roots
            (references (is_reference b.header) b.value n 0)
            (with_budget s (budget_left b.header s.tracing_budget n k))
  unfolding traverse walk_mono_ref walk_mixed_bitmap walk_mixed_order spend_tracing field_count
      is_reference
  traverse-push_roots charge_bitmap k charges has =
      elim (Bool-cases (Header.is_mono_ref b.header)) [
        | inl mono ↦
            let len : Header.object_length b.header ≡ some n = rw mono at count in
            rw (load_object-ok s o real held, mono, len)
              (walk-push_roots (spend s.tracing_budget n) (λ i. true) (λ i. rw mono refl))
        | inr other ↦ elim (Bool-cases (Header.is_mixed_bitmap b.header)) [
          | inl bitmap ↦
              let len : Header.bitmap_length b.header ≡ some n = rw (other, bitmap) at count in
              let bits : Header.bitmap_bits b.header ≡ some (Header.payload b.header >>> 5) =
                bitmap_bits-ok b.header bitmap in
              rw (load_object-ok s o real held, other, bitmap, len, bits, charges)
                (walk-push_roots k (Header.bitmap_is_ref (Header.payload b.header >>> 5))
                  (λ i. rw (other, bitmap, bits) refl))
          | inr neither ↦
              let order : Header.is_mixed_order b.header ≡ true =
                ground (arith, has, other, neither) in
              let len : Header.order_ptr_count b.header ≡ some n = rw (other, neither) at count in
              rw (load_object-ok s o real held, other, neither, order, len)
                (walk-push_roots (spend s.tracing_budget n) (λ i. true)
                  (λ i. rw (other, neither) refl))
        ]
      ]

-- The state with an object marked and counted as traced, and its fields taken from the budget
abbrev pub marked : State → ℕ → Block → ℕ → State
marked s o b n = record s {
  heap =
      update s.heap o (some (record b { meta = Meta.set_mark s.tracing_current_bit_mark b.meta }));
  total_objects_traced = u64 (s.total_objects_traced + 1);
  tracing_budget = spend s.tracing_budget n;
}

-- On an object that is not null and has references, of which the header counts no more fields than
-- the object has, the tracing of one that is not marked is this: it gets the mark, it is counted,
-- its fields are taken from the budget, and then its references are pushed in their order, as the
-- roots are.
pub trace_unmarked-push_roots :
    (s : State) (o : ℕ) (b : Block) (n : ℕ)
    → o ≢ 0
    → s.heap o ≡ some b
    → has_references b.header ≡ true
    → field_count b.header ≡ some n
    → n ≤ length b.value
    → trace_unmarked o s
      ≡ push_roots (references (is_reference b.header) b.value n 0) (marked s o b n)
unfolding trace_unmarked Gc.mark_tag_object
trace_unmarked-push_roots s o b n real held has count fits =
    let c : Block = record b { meta = Meta.set_mark s.tracing_current_bit_mark b.meta } in
    let t : State = record s {
      heap = update s.heap o (some c);
      total_objects_traced = u64 (s.total_objects_traced + 1);
    } in
    rw (modify_meta-ok s o (Meta.set_mark s.tracing_current_bit_mark) real held) (
      traverse-push_roots t o c n real (update-at s.heap o (some c)) count fits spend_tracing
        (spend s.tracing_budget n) (spends t n) has
      ∙ ap (λ k. push_roots (references (is_reference b.header) b.value n 0) (with_budget t k))
          (budget_left-same b.header s.tracing_budget n))
