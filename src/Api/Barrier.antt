-- ===== src/Api/Barrier.antt =====
-- The write barrier: a field of an object is written while a trace is under way, and the mutation
-- is notified.
pub mod Queued
pub mod Course
use mathlib.Core.Path.{subst}
use syli.Prelude.{
  ℕ, zero, suc, ◌+◌, ◌*◌, ◌^◌, ◌<◌, ◌≡◌, ◌≢◌, refl, sym, ap, ◌∙◌, Bool, Bool-cases, inl, inr, ◌⊎◌,
  true, false, not, none, some, List, [], ◌∷◌, All, All-map, get_elem?, set, length, ltb, ◌==◌,
  ==_refl, if◌then◌else◌, arith,
}
use syli.Prelude.Options.{some-inj}
use syli.Header
use syli.Meta
use syli.Meta.{tracing, waiting_remove}
use syli.Meta.Count.{set_mark_lem}
use syli.Pointer
use syli.Stack
use syli.State.{Block, State}
use syli.State.Monad.{ok, pure, Result, and_then, ◌>>◌}
use syli.Object
use syli.Object.Heap.{with_meta, load-ok, load_object-ok, modify_meta-ok, update-at}
use syli.Gc
use syli.Tracing.Queue.{Listed, Waits}
use syli.Tracing.Colours.{
  Graph, InUse, Closed, Alive, Alive-heap, Colours, Seen, Pending, Changed, has_mark, is_marked,
  words,
}
use syli.Tracing.Colours.Paint.{
  Painted, painted-Alive, painted-at, painted-other, painted-same, painted-marked, painted-marks,
  block-marked, MarkOf, set_mark-MarkOf,
}
use syli.Tracing.Colours.Written.{
  written, with_field, written-Closed, set_value-ok, written-marked, written-Alive, written-Listed,
  All-written, All-unwritten,
}
use syli.Api.{
  is_tracing, queue_mutation, notify_target, object_notify_mutation, ownership_notify_mutation,
}

mark_tagged-ok :
    (s : State) (o : ℕ) {b : Block}
    → o ≢ 0
    → s.heap o ≡ some b
    → Gc.is_object_mark_tagged o s ≡ ok (is_marked s o) s
unfolding Gc.is_object_mark_tagged
mark_tagged-ok s o {b} real held =
    rw (load_object-ok s o real held) (ap (λ x. ok x s) (sym (block-marked s o held)))

owned-direct : (ptr : ℕ) → Pointer.is_own_ref ptr ≡ true → Pointer.is_immediate ptr ≡ false
unfolding Pointer.is_own_ref Pointer.is_immediate
owned-direct ptr owned = ground (arith, owned)

-- A write of the word `p` to the field `i` of the object that `ptr` owns
pub record Writes (g : Graph) (s : State) (ptr i p : ℕ) : Type 0 where
  pub owned : Pointer.is_own_ref ptr ≡ true
  pub in_use : InUse g (Pointer.untag ptr)
  pub inside : i < length (g.value (Pointer.untag ptr))
  pub traceable : Header.is_traceable (g.header (Pointer.untag ptr)) ≡ true
  pub target : Changed g p
  pub under_way : is_tracing s.tracing_state ≡ true

pub still-Changed :
    (g : Graph) (o i p : ℕ) (ps : List ℕ) → All (Changed g) ps → All (Changed (written g o i p)) ps
still-Changed g o i p =
    All-map λ r x. record { owned = x.owned; in_use = x.in_use; local = x.local }

module _ (g : Graph) (roots : List ℕ) (closed : Closed g) {s : State} (c : Colours g roots s)
    (ptr i p : ℕ) (w : Writes g s ptr i p) where
  abbrev o : ℕ
  o = Pointer.untag ptr

  abbrev q : ℕ
  q = Pointer.untag p

  abbrev a : Alive g s o
  a = c.alive o w.in_use

  abbrev after : State
  after = with_field s o a.block i p

  abbrev g' : Graph
  g' = written g o i p

  abbrev source : Alive g' after o
  source = written-Alive g o i p a o a

  abbrev target : Alive g' after q
  target = written-Alive g o i p a q (c.alive q w.target.in_use)

  abbrev notify : Result (Unit {0})
  notify = ownership_notify_mutation ptr p after

  pub unmarked-notify : is_marked after o ≡ false → notify ≡ ok tt after
  unfolding ownership_notify_mutation object_notify_mutation
  unmarked-notify white =
      let nonzero_o : (o == 0) ≡ false = ground (arith, closed.real o w.in_use) in
      let nonzero_q : (q == 0) ≡ false = ground (arith, closed.real q w.target.in_use) in
      rw
        (
          owned-direct ptr w.owned,
          w.owned,
          w.under_way,
          nonzero_o,
          nonzero_q,
          mark_tagged-ok after o (closed.real o w.in_use) source.held,
          white,
        )
        refl

  pub marked-notify :
      is_marked after o ≡ true
      → notify ≡ (if is_marked after q then ok tt after else queue_mutation q p after)
  unfolding ownership_notify_mutation object_notify_mutation notify_target
  marked-notify black =
      let nonzero_o : (o == 0) ≡ false = ground (arith, closed.real o w.in_use) in
      let nonzero_q : (q == 0) ≡ false = ground (arith, closed.real q w.target.in_use) in
      let traceable : Header.is_traceable source.block.header ≡ true =
        ap Header.is_traceable source.headed ∙ w.traceable in
      let reads : notify ≡ (if is_marked after q then pure tt else queue_mutation q p) after =
        rw
          (
            owned-direct ptr w.owned,
            w.owned,
            w.under_way,
            nonzero_o,
            nonzero_q,
            mark_tagged-ok after o (closed.real o w.in_use) source.held,
            black,
            load-ok after o source.held,
            traceable,
            mark_tagged-ok after q (closed.real q w.target.in_use) target.held,
          )
          refl in
      elim (Bool-cases (is_marked after q)) [
        | inl known ↦
            reads
            ∙ ap (λ x. (if x then pure tt else queue_mutation q p) after) known
            ∙ sym (ap (λ x. if x then ok tt after else queue_mutation q p after) known)
        | inr new ↦
            reads
            ∙ ap (λ x. (if x then pure tt else queue_mutation q p) after) new
            ∙ sym (ap (λ x. if x then ok tt after else queue_mutation q p after) new)
      ]

  pub kept-Seen : (r : ℕ) → Seen s r → Seen after r
  kept-Seen r seen owned = elim (seen owned) [
    | inl marked ↦ inl (written-marked g o i p a (Pointer.untag r) ∙ marked)
    | inr waits ↦ inr waits
  ]

  -- Nothing is to be queued when the object is not marked, or the target is.
  pub kept-Colours : (is_marked s o ≡ true → Seen after p) → Colours g' roots after
  kept-Colours seen_p = record {
    bit = c.bit;
    bit_fits = c.bit_fits;
    current = c.current;
    alive = λ x k. written-Alive g o i p a x (c.alive x k);
    work = c.work;
    listed = written-Listed g o i p a c.listed;
    changed = still-Changed g o i p _ c.changed;
    black = λ x k marked.
        let before = sym (written-marked g o i p a x) ∙ marked in
        elim (c.black x k before) [
          | inl pending ↦ inl pending
          | inr seen ↦
              let kept = All-map kept-Seen (words g x) seen in
              elim (Bool-cases (o == x)) [
                | inl same ↦
                    let at_x : o ≡ x = ground arith in
                    inr (
                      All-written g o i p (Seen after) x (seen_p (ap (is_marked s) at_x ∙ before))
                        kept)
                | inr other ↦ inr (All-unwritten g o i p (Seen after) x (λ e. ground arith) kept)
              ]
        ];
    rooted = All-map kept-Seen roots c.rooted;
  }
