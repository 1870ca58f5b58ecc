-- ===== src/Gc/Register.antt =====
-- `gc_register_candidate` keeps the candidates and the objects in step.
use syli.Prelude.{
  Bool-cases, inl, inr, ℕ, suc, ◌+◌, ◌-◌, ◌^◌, ◌<◌, ◌≡◌, ◌≢◌, refl, sym, ap, ◌∙◌, true, false, some,
  ◌∷◌, length, ◌==◌, ==_refl, get_elem?-set_self, arith,
}
use syli.Prelude.Options.{some-inj}
use syli.Meta
use syli.Meta.{MetaFlag, cyclic_candidate}
use syli.Meta.Laws.{set_flags-flag}
use syli.Pointer
use syli.Stack
use syli.State.{Block, Heap, State}
use syli.State.Monad.{ok, update}
use syli.Object
use syli.Object.Heap.{with_meta, load_object-ok, modify_meta-ok, update-at, update-update}
use syli.Gc
use syli.Gc.Candidates.{
  HasSlot, Numbered, IsCandidate, Registered, with_number, update-other, IsCandidate-other,
  set_candidate_index-ok, HasSlot-with_number, at-lt_length,
}

module _ (s : State) (o : ℕ) (f : MetaFlag) {b : Block} (real : o ≢ 0) (held : s.heap o ≡ some b)
    (counted : Object.is_counted b.header ≡ true) where
  pub has_flags-counted : Object.has_flags o f s ≡ ok (Meta.has_flags b.meta f) s
  unfolding Object.has_flags
  has_flags-counted = rw (load_object-ok s o real held, counted) refl

  pub set_flags-counted : Object.set_flags o f s ≡ ok tt (with_meta s o b (Meta.set_flags b.meta f))
  unfolding Object.set_flags
  set_flags-counted = rw (load_object-ok s o real held, counted) (modify_meta-ok s o _ real held)

  pub clear_flags-counted :
      Object.clear_flags o f s ≡ ok tt (with_meta s o b (Meta.clear_flags b.meta f))
  unfolding Object.clear_flags
  clear_flags-counted = rw (load_object-ok s o real held, counted) (modify_meta-ok s o _ real held)

at-push_last : (xs : Stack.Stack ℕ) (x : ℕ) → Stack.at (x ∷ xs) (length xs) ≡ some x
unfolding Stack.at
at-push_last xs x = rw (==_refl (length xs)) refl

pub at-push_lt :
    (xs : Stack.Stack ℕ) (x i p : ℕ) → Stack.at xs i ≡ some p → Stack.at (x ∷ xs) i ≡ some p
unfolding Stack.at
at-push_lt xs x i p h =
    let other : (i == length xs) ≡ false = ground (arith, at-lt_length xs i p h) in rw other h

module _ (s : State) (ptr : ℕ) {b : Block} {slot : ℕ} (registered : Registered s)
    (real : Pointer.untag ptr ≢ 0) (held : s.heap (Pointer.untag ptr) ≡ some b)
    (has_slot : HasSlot b slot) (room : length s.cyclic_candidates + 1 < 2 ^ 64) where
  -- The block of the new candidate, and the state with it
  abbrev added_block : Block
  added_block = record (with_number b slot (length s.cyclic_candidates)) {
    meta = Meta.set_flags b.meta cyclic_candidate;
  }

  abbrev added : State
  added = record s {
    heap = update s.heap (Pointer.untag ptr) (some added_block);
    cyclic_candidates = ptr ∷ s.cyclic_candidates;
  }

  add_candidate-ok : Gc.add_candidate ptr s ≡ ok tt added
  unfolding Gc.add_candidate Stack.push
  add_candidate-ok =
      let o = Pointer.untag ptr in
      let n = length s.cyclic_candidates in
      let pushed : State = record s { cyclic_candidates = ptr ∷ s.cyclic_candidates } in
      let numbered : State = record pushed {
        heap = update s.heap o (some (with_number b slot n));
      } in
      let last : suc n - 1 ≡ n = omega arith in
      rw (last, set_candidate_index-ok pushed o n real held has_slot)
        (set_flags-counted numbered o cyclic_candidate real (update-at s.heap o _) has_slot.counted
          ∙ ap
              (λ (h : Heap).
                ok tt (record s { heap = h; cyclic_candidates = ptr ∷ s.cyclic_candidates }))
              (update-update s.heap o _ _))

  module _ (unknown : Meta.has_flags b.meta cyclic_candidate ≡ false) where
    added_block-Numbered : Numbered added_block (length s.cyclic_candidates)
    added_block-Numbered =
        let n = length s.cyclic_candidates in
        let h = HasSlot-with_number b slot n has_slot in
        record {
          slot = slot;
          has_slot = record {
            mutable = h.mutable;
            counted = h.counted;
            behind = h.behind;
            inside = h.inside;
          };
          number = get_elem?-set_self b.value slot n has_slot.inside;
          flagged = ground (arith, set_flags-flag b.meta cyclic_candidate cyclic_candidate);
        }

    -- No candidate is the object that is added.
    other_object :
        (i p : ℕ) → Stack.at s.cyclic_candidates i ≡ some p → Pointer.untag ptr ≢ Pointer.untag p
    other_object i p found same =
        let c = registered.each i p found in
        let blocks : c.block ≡ b = some-inj (sym c.held ∙ ap s.heap (sym same) ∙ held) in
        let known =
          sym (ap (λ (x : Block). Meta.has_flags x.meta cyclic_candidate) blocks)
          ∙ c.numbered.flagged in
        absurd (ground (arith, known, unknown))

    added-each :
        (i p : ℕ)
        → Stack.at added.cyclic_candidates i ≡ some p
        → IsCandidate added.heap (Pointer.untag p) i
    unfolding Stack.at
    added-each i p found = elim (Bool-cases (i == length s.cyclic_candidates)) [
      | inl here ↦
          let is_last : i ≡ length s.cyclic_candidates = ground arith in
          let is_new : p ≡ ptr = ground (arith, found, here) in
          rw (is_last, is_new)
            (record {
              block = added_block;
              real = real;
              held = update-at s.heap (Pointer.untag ptr) _;
              numbered = added_block-Numbered;
            })
      | inr elsewhere ↦
          let found' : Stack.at s.cyclic_candidates i ≡ some p = ground (arith, found, elsewhere) in
          IsCandidate-other (Pointer.untag ptr) _ (other_object i p found')
            (registered.each i p found')
    ]

    added-every :
        (o : ℕ) (c : Block)
        → added.heap o ≡ some c
        → Object.is_counted c.header ≡ true
        → Meta.has_flags c.meta cyclic_candidate ≡ true
        → (i : ℕ) × (p : ℕ) × (Stack.at added.cyclic_candidates i ≡ some p) × (Pointer.untag p ≡ o)
    added-every o c there counted flagged = elim (Bool-cases (Pointer.untag ptr == o)) [
      | inl same ↦
          (length s.cyclic_candidates, ptr, at-push_last s.cyclic_candidates ptr, ground arith)
      | inr other ↦
          let (i, p, found, at_o) =
            registered.every o c
              (sym (update-other s.heap (Pointer.untag ptr) _ o (λ e. ground arith)) ∙ there)
              counted flagged in
          (i, p, at-push_lt s.cyclic_candidates ptr i p found, at_o)
    ]

    added-Registered : Registered added
    added-Registered = record { each = added-each; every = added-every; bounded = omega arith }

  -- When candidates and objects are in step, with fewer than `2 ^ 64 - 1` candidates, the
  -- registration of an object that is not null and has a word for its number ends well, keeps them
  -- in step, and leaves the object a candidate.
  pub register_candidate-Registered :
      (t : State) × (Gc.register_candidate ptr s ≡ ok tt t)
      × Registered t
      × ((i : ℕ) × (p : ℕ) × (Stack.at t.cyclic_candidates i ≡ some p)
          × (Pointer.untag p ≡ Pointer.untag ptr))
  unfolding Gc.register_candidate
  register_candidate-Registered =
      let o = Pointer.untag ptr in
      let reads = has_flags-counted s o cyclic_candidate real held has_slot.counted in
      elim (Bool-cases (Meta.has_flags b.meta cyclic_candidate)) [
        | inl known ↦ (
          s,
          rw (reads, known) refl,
          registered,
          registered.every o b held has_slot.counted known,
        )
        | inr unknown ↦ (
          added,
          rw (reads, unknown) add_candidate-ok,
          added-Registered unknown,
          (length s.cyclic_candidates, ptr, at-push_last s.cyclic_candidates ptr, refl),
        )
      ]
