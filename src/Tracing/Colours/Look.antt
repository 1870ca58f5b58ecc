-- ===== src/Tracing/Colours/Look.antt =====
-- What is done with the object that is taken from the worklist.
use syli.Prelude.{
  ℕ, ◌^◌, ◌<◌, ◌≡◌, ◌≢◌, refl, ap, ◌∙◌, Bool-cases, inl, inr, true, false, some, List, ◌∷◌, ◌==◌,
  if◌then◌else◌, arith,
}
use syli.Meta
use syli.Meta.{tracing, waiting_remove}
use syli.Meta.Laws.{clear_flags_lem}
use syli.State.{Block, State}
use syli.State.Monad.{ok}
use syli.Object
use syli.Object.Heap.{with_meta, load_object-ok, update-at}
use syli.Gc
use syli.Gc.Register.{has_flags-counted, clear_flags-counted}
use syli.Tracing.{pop_tracing, trace_popped, trace_live, trace_unmarked}
use syli.Tracing.Colours.{HasFields}
use syli.Tracing.Mark.{has_references}

pub HasFields-same :
    {h h' : ℕ} {v v' : List ℕ}
    → h ≡ h'
    → v ≡ v'
    → (has_references h' ≡ true → HasFields h' v')
    → has_references h ≡ true
    → HasFields h v
HasFields-same header value fields = rw (header, value) fields

pub trace_popped-cleared :
    (s : State) (o : ℕ) (b : Block)
    → o ≢ 0
    → s.heap o ≡ some b
    → Object.is_counted b.header ≡ true
    → b.meta < 2 ^ 64
    → (Meta.refcount b.meta == 0) ≡ false
    → Meta.has_flags b.meta waiting_remove ≡ false
    → let t = with_meta s o b (Meta.clear_flags b.meta tracing) in
      trace_popped o s
      ≡ (if Meta.mark_tag b.meta == s.tracing_current_bit_mark then ok tt t else trace_unmarked o t)
unfolding trace_popped trace_live Gc.is_object_mark_tagged
trace_popped-cleared s o b real held counted fits referred stays =
    let m = Meta.clear_flags b.meta tracing in
    let c : Block = record b { meta = m } in
    let t : State = with_meta s o b m in
    let at_o : t.heap o ≡ some c = update-at s.heap o (some c) in
    let clear = clear_flags_lem b.meta tracing waiting_remove fits in
    let nonzero : (o == 0) ≡ false = ground arith in
    let stays' : Meta.has_flags m waiting_remove ≡ false = clear.0 ∙ stays in
    let referred' : (Meta.refcount m == 0) ≡ false =
      ap (λ n. n == 0) clear.1.refcount_same ∙ referred in
    let mark : Meta.mark_tag m ≡ Meta.mark_tag b.meta = clear.1.mark_same in
    rw
      (
        nonzero,
        clear_flags-counted s o tracing real held counted,
        has_flags-counted t o waiting_remove real at_o counted,
        stays',
        load_object-ok t o real at_o,
        referred',
        load_object-ok t o real at_o,
        mark,
      )
      (elim (Bool-cases (Meta.mark_tag b.meta == s.tracing_current_bit_mark)) [
        | inl black ↦ rw black refl
        | inr white ↦ rw white refl
      ])

pub pop_tracing-ok :
    (s : State) (p : ℕ) (ps : List ℕ)
    → s.tracing_worklist ≡ p ∷ ps
    → pop_tracing s ≡ ok p (record s { tracing_worklist = ps })
unfolding pop_tracing
pop_tracing-ok s p ps top = rw top refl
