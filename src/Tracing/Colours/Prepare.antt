-- ===== src/Tracing/Colours/Prepare.antt =====
-- One round of the mutations keeps the invariant: what the object owns is pushed.
use mathlib.Core.Path.{subst, ap₂}
use syli.Prelude.{
  ℕ, zero, suc, ◌<◌, ◌≡◌, ◌≢◌, refl, sym, ap, ◌∙◌, Bool-cases, inl, inr, ◌⊎◌, true, false, some,
  List, ◌∷◌, All, All-map, get_elem?, length, ◌==◌, arith,
}
use syli.Prelude.Options.{some-inj}
use syli.Header
use syli.Header.Zone
use syli.Meta
use syli.Meta.{waiting_remove}
use syli.Pointer
use syli.State.{Block, State}
use syli.State.Monad.{ok, and_then, pure, assert, ◌>>◌}
use syli.Object
use syli.Object.Heap.{load-ok, load_object-ok}
use syli.Gc
use syli.Gc.Register.{has_flags-counted}
use syli.Traverse.{traverse}
use syli.Tracing.{
  one_step_prepare_tracing_mutations, pop_mutation, prepare_popped, push_roots, spend_tracing,
}
use syli.Tracing.Mark.{has_references, with_budget, budget_left, traverse-push_roots}
use syli.Tracing.Queue.{Waits, Grows, push_roots-Pushes}
use syli.Tracing.Colours.{
  Graph, InUse, Closed, Alive, Alive-heap, Colours, Seen, Pending, Changed, HasFields, is_marked,
  words, words_of,
}
use syli.Tracing.Colours.Push.{Owns-IsRoot, Pushed, Pushes-Pushed}
use syli.Tracing.Colours.Weight.{weight, pending_of, left_of-le}
use syli.Tracing.Colours.Look.{HasFields-same}

-- A round of the mutations, from `s` to `t`
pub record Prepares (g : Graph) (roots : List ℕ) (s t : State) : Type 0 where
  pub colours : Colours g roots t
  pub state_same : t.tracing_state ≡ s.tracing_state
  pub less : weight g t < weight g s

module _ (s : State) (o : ℕ) (b : Block) (real : o ≢ 0) (held : s.heap o ≡ some b) where
  traverse-words :
      (has_references b.header ≡ true → HasFields b.header b.value)
      → (k : ℕ) × (traverse Gc.tracing_worklist_push spend_tracing (λ n. pure tt) o s
          ≡ push_roots (words_of b.header b.value) (with_budget s k))
  unfolding traverse push_roots
  traverse-words fields = elim (Bool-cases (has_references b.header)) [
    | inl has ↦
        let (n, count, fits) = fields has in
        (
          budget_left b.header s.tracing_budget n s.tracing_budget,
          traverse-push_roots s o b n real held count fits (λ n. pure tt) s.tracing_budget refl has
              ∙ rw (has, count) refl,
        )
    | inr leaf ↦
        let mono : Header.is_mono_ref b.header ≡ false = ground arith in
        let bitmap : Header.is_mixed_bitmap b.header ≡ false = ground arith in
        let order : Header.is_mixed_order b.header ≡ false = ground arith in
        (s.tracing_budget, rw (load_object-ok s o real held, mono, bitmap, order) refl)
  ]

  prepare_popped-words :
      Header.get_zone b.header ≡ Zone.gc_local
      → Meta.has_flags b.meta waiting_remove ≡ false
      → (has_references b.header ≡ true → HasFields b.header b.value)
      → (k : ℕ) × (prepare_popped o s ≡ push_roots (words_of b.header b.value) (with_budget s k))
  unfolding prepare_popped Object.is_counted
  prepare_popped-words zone stays fields =
      let (k, done) = traverse-words fields in
      let counted : Object.is_counted b.header ≡ true = rw zone refl in
      let nonzero : (o == 0) ≡ false = ground arith in
      (
        k,
        rw
            (
              nonzero,
              load-ok s o held,
              zone,
              has_flags-counted s o waiting_remove real held counted,
              stays,
            )
            done,
      )

pop_mutation-ok :
    (s : State) (p : ℕ) (ps : List ℕ)
    → s.tracing_mutations_worklist ≡ p ∷ ps
    → pop_mutation s ≡ ok p (record s { tracing_mutations_worklist = ps })
unfolding pop_mutation
pop_mutation-ok s p ps top = rw top refl

module _ (g : Graph) (roots : List ℕ) (closed : Closed g) {s : State} {p : ℕ} {ps : List ℕ}
    (c : Colours g roots s) (top : s.tracing_mutations_worklist ≡ p ∷ ps) where
  abbrev o : ℕ
  o = Pointer.untag p

  changed : All (Changed g) (p ∷ ps)
  changed = rw top at c.changed

  abbrev a : Alive g s o
  a = c.alive o changed.0.in_use

  abbrev prepared : ℕ → State
  prepared k = record s { tracing_mutations_worklist = ps; tracing_budget = k }

  prepared-alive : (k q : ℕ) → InUse g q → Alive g (prepared k) q
  prepared-alive k q in_use = Alive-heap refl (c.alive q in_use)

  module _ {k : ℕ} {t : State} (grows : Grows (prepared k) t)
      (pushed : Pushed g (prepared k) t (length (words g o)))
      (here : All (λ r. Pointer.is_own_ref r ≡ true → Waits t (Pointer.untag r)) (words g o)) where
    still-Seen : (r : ℕ) → Seen s r → Seen t r
    still-Seen r seen owned = elim (seen owned) [
      | inl marked ↦ inl (pushed.marks (Pointer.untag r) ∙ marked)
      | inr waits ↦ inr (grows.waiting (Pointer.untag r) waits)
    ]

    -- The object that is taken has its words in the worklist.
    unpend : (q : ℕ) → Pending s q → Pending t q ⊎ All (Seen t) (words g q)
    unpend q (zero, r, found, at_q) =
        let first : p ≡ r = some-inj (sym (ap (λ l. get_elem? l 0) top) ∙ found) in
        inr (
          subst (λ x. All (Seen t) (words g x)) (ap Pointer.untag first ∙ at_q)
            (All-map (λ r waits owned. inr (waits owned)) (words g o) here))
    unpend q (suc i, r, found, at_q) = inl (
      i,
      r,
      ap (λ l. get_elem? l i) pushed.mutations_same
          ∙ sym (ap (λ l. get_elem? l (suc i)) top)
          ∙ found,
      at_q,
    )

    black-words :
        (q : ℕ) → InUse g q → is_marked t q ≡ true → Pending t q ⊎ All (Seen t) (words g q)
    black-words q in_use marked = elim (c.black q in_use (sym (pushed.marks q) ∙ marked)) [
      | inl pending ↦ unpend q pending
      | inr seen ↦ inr (All-map still-Seen (words g q) seen)
    ]

  pub step-Prepares :
      (t : State) × (one_step_prepare_tracing_mutations s ≡ ok tt t) × Prepares g roots s t
  unfolding one_step_prepare_tracing_mutations pending_of
  step-Prepares =
      let fields = HasFields-same a.headed a.fields (closed.layout o changed.0.in_use) in
      let (k, done) =
        prepare_popped-words (record s { tracing_mutations_worklist = ps }) o a.block
          (closed.real o changed.0.in_use) a.held (ap Header.get_zone a.headed ∙ changed.0.local)
          a.stays fields in
      let (t, pushed, listed, grows, here, pushes) =
        push_roots-Pushes (words g o) (prepared k) c.listed
          (Owns-IsRoot g (words g o) closed (prepared-alive k) (closed.owns o changed.0.in_use)) in
      let after =
        Pushes-Pushed g pushes (prepared-alive k) c.work (closed.owns o changed.0.in_use) in
      (
        t,
        ap
              (λ r.
                and_then r
                  (λ ptr. assert (Pointer.is_own_ref ptr) >> prepare_popped (Pointer.untag ptr)))
              (pop_mutation-ok s p ps top)
            ∙ ap
                (λ x. (assert x >> prepare_popped o) (record s { tracing_mutations_worklist = ps }))
                changed.0.owned
            ∙ done
            ∙ ap (λ l. push_roots l (prepared k)) (ap₂ words_of a.headed a.fields)
            ∙ pushed,
        record {
          colours = record {
            bit = c.bit;
            bit_fits = c.bit_fits;
            current = after.bit_same ∙ c.current;
            alive = after.alive;
            work = after.work;
            listed = listed;
            changed = subst (All (Changed g)) (sym after.mutations_same) changed.1;
            black = black-words grows after here;
            rooted = All-map (still-Seen grows after here) roots c.rooted;
          };
          state_same = after.state_same;
          less = omega (
            arith,
            after.longer,
            ap (pending_of g) top,
            ap (pending_of g) after.mutations_same,
            left_of-le g s t g.objects (λ q m. after.marks q ∙ m),
          );
        },
      )
