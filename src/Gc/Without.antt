-- ===== src/Gc/Without.antt =====
-- `gc_remove_candidate_at` of runtime/include/syli/gc_helpers.h: the candidates without one object,
-- with the last of them in its place.
use syli.Prelude.{
  Bool-cases, inl, inr, ℕ, ◌+◌, ◌-◌, ◌%◌, ◌^◌, ◌<◌, ◌≡◌, ◌≢◌, refl, sym, ap, ◌∙◌, true, false, some,
  length, ◌==◌, ==_refl, get_elem?-set_self, arith,
}
use syli.Prelude.Options.{some-inj}
use syli.Meta
use syli.Meta.{MetaFlag, cyclic_candidate}
use syli.Pointer
use syli.Stack
use syli.State.{Block, Heap, State}
use syli.State.Monad.{ok, update}
use syli.Object
use syli.Object.Heap.{update-at}
use syli.Gc
use syli.Gc.Candidates.{
  IsCandidate, Registered, with_number, update-other, IsCandidate-other, set_candidate_index-ok,
  HasSlot-with_number, at-lt_length,
}
use syli.Gc.Numbers.{length-pop, at-pop_inv, at_last, distinct, apart}

-- The candidates without the object `o`, which still has the flag
pub record Without (s s' : State) (o : ℕ) : Type 0 where
  pub each :
      (i p : ℕ)
      → Stack.at s'.cyclic_candidates i ≡ some p
      → (o ≢ Pointer.untag p) × IsCandidate s'.heap (Pointer.untag p) i
  pub every :
      (q : ℕ) (b : Block)
      → o ≢ q
      → s'.heap q ≡ some b
      → Object.is_counted b.header ≡ true
      → Meta.has_flags b.meta cyclic_candidate ≡ true
      → (i : ℕ) × (p : ℕ) × (Stack.at s'.cyclic_candidates i ≡ some p) × (Pointer.untag p ≡ q)
  pub same : s'.heap o ≡ s.heap o
  pub bounded : length s'.cyclic_candidates < 2 ^ 64

module _ (s : State) (index p : ℕ) (registered : Registered s)
    (found : Stack.at s.cyclic_candidates index ≡ some p) where
  -- The last candidate is removed.
  abbrev popped : State
  popped = record s { cyclic_candidates = Stack.pop s.cyclic_candidates }

  popped-Without : length s.cyclic_candidates ≡ index + 1 → Without s popped (Pointer.untag p)
  popped-Without last = record {
    each = λ i q h.
        let (h', below) = at-pop_inv s.cyclic_candidates i q h in
        (
          distinct s index p i q registered found h' (λ e. absurd (omega (arith, e, below, last))),
          registered.each i q h',
        );
    every = λ q b other there counted flagged.
        let (i, r, at_i, at_q) = registered.every q b there counted flagged in
        let elsewhere = apart s.cyclic_candidates index p i r found at_i (λ e. other (e ∙ at_q)) in
        let below = at-lt_length s.cyclic_candidates i r at_i in
        (
          i,
          r,
          Stack.at-pop s.cyclic_candidates i (ground (arith, elsewhere, below, last)) ∙ at_i,
          at_q,
        );
    same = refl;
    bounded = omega (arith, registered.bounded, length-pop s.cyclic_candidates);
  }

  module _ (last m : ℕ) (is_last : length s.cyclic_candidates ≡ last + 1) (inner : index ≢ last)
      (found_last : Stack.at s.cyclic_candidates last ≡ some m) where
    moved : IsCandidate s.heap (Pointer.untag m) last
    moved = registered.each last m found_last

    below_last : index < last
    below_last = ground (arith, at-lt_length s.cyclic_candidates index p found, inner, is_last)

    -- The block of the last candidate with its new number, and the state with it
    abbrev renumbered : Block
    renumbered = with_number moved.block moved.numbered.slot index

    abbrev renumbered_heap : Heap
    renumbered_heap = update s.heap (Pointer.untag m) (some renumbered)

    abbrev swapped : State
    swapped = record s {
      heap = renumbered_heap;
      cyclic_candidates = Stack.pop (Stack.set_at s.cyclic_candidates index m);
    }

    at_index : Stack.at swapped.cyclic_candidates index ≡ some m
    at_index =
        let xs = s.cyclic_candidates in
        Stack.at-pop (Stack.set_at xs index m) index
          (omega (arith, below_last, is_last, Stack.length-set_at xs index m))
        ∙ Stack.at-set_at xs index index m (omega (arith, below_last, is_last))
        ∙ rw (==_refl index) refl

    at_other :
        (i q : ℕ)
        → index ≢ i
        → i < last
        → Stack.at swapped.cyclic_candidates i ≡ Stack.at s.cyclic_candidates i
    at_other i q other below =
        let xs = s.cyclic_candidates in
        let elsewhere : (index == i) ≡ false = ground arith in
        Stack.at-pop (Stack.set_at xs index m) i
          (omega (arith, below, is_last, Stack.length-set_at xs index m))
        ∙ Stack.at-set_at xs index i m (omega (arith, below_last, is_last))
        ∙ rw elsewhere refl

    renumbered-IsCandidate : IsCandidate renumbered_heap (Pointer.untag m) index
    renumbered-IsCandidate =
        let slot = moved.numbered.slot in
        let has_slot = moved.numbered.has_slot in
        record {
          block = renumbered;
          real = moved.real;
          held = update-at s.heap (Pointer.untag m) (some renumbered);
          numbered = record {
            slot = slot;
            has_slot = HasSlot-with_number moved.block slot index has_slot;
            number = get_elem?-set_self moved.block.value slot index has_slot.inside;
            flagged = moved.numbered.flagged;
          };
        }

    swapped-each :
        (i q : ℕ)
        → Stack.at swapped.cyclic_candidates i ≡ some q
        → (Pointer.untag p ≢ Pointer.untag q) × IsCandidate renumbered_heap (Pointer.untag q) i
    swapped-each i q h =
        let xs = s.cyclic_candidates in
        let (_, room) = at-pop_inv (Stack.set_at xs index m) i q h in
        let below : i < last = omega (arith, room, is_last, Stack.length-set_at xs index m) in
        elim (Bool-cases (index == i)) [
          | inl here ↦
              let is_index : i ≡ index = ground arith in
              let is_moved : q ≡ m =
                some-inj (sym h ∙ ap (Stack.at swapped.cyclic_candidates) is_index ∙ at_index) in
              rw (is_index, is_moved)
                (
                  distinct s index p last m registered found found_last inner,
                  renumbered-IsCandidate,
                )
          | inr elsewhere ↦
              let other : index ≢ i = ground arith in
              let h' = sym (at_other i q other below) ∙ h in
              (
                distinct s index p i q registered found h' other,
                IsCandidate-other (Pointer.untag m) (some renumbered)
                    (distinct s last m i q registered found_last h'
                      (λ e. absurd (omega (arith, e, below))))
                    (registered.each i q h'),
              )
        ]

    swapped-Without : Without s swapped (Pointer.untag p)
    swapped-Without = record {
      each = swapped-each;
      every = λ q b other there counted flagged. elim (Bool-cases (Pointer.untag m == q)) [
        | inl is_moved ↦ (index, m, at_index, ground arith)
        | inr not_moved ↦
            let xs = s.cyclic_candidates in
            let elsewhere : Pointer.untag m ≢ q = ground arith in
            let (i, r, at_i, at_q) =
              registered.every q b
                (sym (update-other s.heap (Pointer.untag m) _ q elsewhere) ∙ there) counted
                flagged in
            let not_index = apart xs index p i r found at_i (λ e. other (e ∙ at_q)) in
            let not_last = apart xs last m i r found_last at_i (λ e. elsewhere (e ∙ at_q)) in
            let below : i < last = ground (arith, at-lt_length xs i r at_i, not_last, is_last) in
            (i, r, at_other i r not_index below ∙ at_i, at_q)
      ];
      same =
          update-other s.heap (Pointer.untag m) _ (Pointer.untag p)
            (λ e. distinct s index p last m registered found found_last inner (sym e));
      bounded = omega (
        arith,
        registered.bounded,
        length-pop (Stack.set_at s.cyclic_candidates index m),
        Stack.length-set_at s.cyclic_candidates index m,
      );
    }

    remove_candidate_at-swapped : Gc.remove_candidate_at index s ≡ ok tt swapped
    unfolding Gc.remove_candidate_at Gc.move_last_candidate
    remove_candidate_at-swapped =
        let xs = s.cyclic_candidates in
        let back : (length xs + 2 ^ 64 - 1) % 2 ^ 64 ≡ last =
          omega (arith, is_last, registered.bounded) in
        let other : (index == last) ≡ false = ground (arith, inner) in
        let placed : State = record s { cyclic_candidates = Stack.set_at xs index m } in
        rw
          (
            back,
            other,
            found_last,
            found,
            set_candidate_index-ok placed (Pointer.untag m) index moved.real moved.held
                moved.numbered.has_slot,
          )
          refl

  remove_candidate_at-popped :
      length s.cyclic_candidates ≡ index + 1 → Gc.remove_candidate_at index s ≡ ok tt popped
  unfolding Gc.remove_candidate_at
  remove_candidate_at-popped is_last =
      let back : (length s.cyclic_candidates + 2 ^ 64 - 1) % 2 ^ 64 ≡ index =
        omega (arith, is_last, registered.bounded) in
      rw (back, ==_refl index) refl

  -- The removal of a candidate ends well, and the others are in step with their objects.
  pub remove_candidate_at-Without :
      (t : State) × (Gc.remove_candidate_at index s ≡ ok tt t) × Without s t (Pointer.untag p)
  remove_candidate_at-Without =
      let xs = s.cyclic_candidates in
      let below = at-lt_length xs index p found in
      elim (Bool-cases (length xs == index + 1)) [
        | inl e ↦
            let is_last : length xs ≡ index + 1 = ground arith in
            (popped, remove_candidate_at-popped is_last, popped-Without is_last)
        | inr e ↦
            let last = length xs - 1 in
            let is_last : length xs ≡ last + 1 = omega (arith, below) in
            let inner : index ≢ last = ground (arith, below) in
            let (m, found_last) = at_last xs (omega (arith, below)) in
            (
              swapped last m is_last inner found_last,
              remove_candidate_at-swapped last m is_last inner found_last,
              swapped-Without last m is_last inner found_last,
            )
      ]
