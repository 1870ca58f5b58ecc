-- ===== src/Gc/Tests.antt =====
-- A concrete candidate and an object to become one, and the theorems applied to them.
use syli.Prelude.{
  Bool-cases, inl, inr, ℕ, ◌+◌, ◌*◌, ◌^◌, ◌≡◌, refl, ap, ◌∙◌, true, false, none, some, [], ◌∷◌,
  ◌==◌, if◌then◌else◌, arith,
}
use syli.Header
use syli.Meta
use syli.Meta.{cyclic_candidate}
use syli.Pointer
use syli.Stack
use syli.State.{Block, State}
use syli.State.Monad.{ok}
use syli.State.Sample.{start}
use syli.Object
use syli.Gc
use syli.Gc.Candidates.{HasSlot, IsCandidate, Registered}
use syli.Gc.Register.{register_candidate-Registered}
use syli.Gc.Unregister.{NoCandidate}
use syli.Gc.Free.{free_released_object-Registered}

-- A local object of one word, mutable and cyclic, which is the candidate of the number 0
abbrev listed : Block
listed = record {
  header = 2 ^ 61 + 2 ^ 47 + 3 * 2 ^ 43 + 1;
  meta = 2 ^ 56 + 1;
  value = 5 ∷ 0 ∷ [];
  trailing = [];
}

-- The same kind of object, which is no candidate
abbrev unlisted : Block
unlisted = record listed { meta = 1; value = 6 ∷ 7 ∷ [] }

abbrev one_candidate : State
one_candidate = record start {
  heap = λ p. if p == 64 then some listed else if p == 16 then some unlisted else none;
  cyclic_candidates = 65 ∷ [];
}

listed-HasSlot : HasSlot listed 1
unfolding Header.is_cyclic_mutable Object.is_counted Header.get_zone Header.object_length
    Header.mono_length Header.get_layout Header.is_mono Header.is_mono_imm Header.payload
listed-HasSlot = record { mutable = refl; counted = refl; behind = refl; inside = omega arith }

unlisted-HasSlot : HasSlot unlisted 1
unlisted-HasSlot = record {
  mutable = listed-HasSlot.mutable;
  counted = listed-HasSlot.counted;
  behind = listed-HasSlot.behind;
  inside = omega arith;
}

listed_is_flagged : Meta.has_flags listed.meta cyclic_candidate ≡ true
unfolding Meta.has_flags
listed_is_flagged = refl

unlisted_is_free : Meta.has_flags unlisted.meta cyclic_candidate ≡ false
unfolding Meta.has_flags
unlisted_is_free = refl

at_64 : Pointer.untag 65 ≡ 64
unfolding Pointer.untag
at_64 = refl

at_16 : Pointer.untag 17 ≡ 16
unfolding Pointer.untag
at_16 = refl

listed-IsCandidate : IsCandidate one_candidate.heap 64 0
listed-IsCandidate = record {
  block = listed;
  real = λ e. absurd (omega (arith, e));
  held = refl;
  numbered = record {
    slot = 1;
    has_slot = listed-HasSlot;
    number = refl;
    flagged = listed_is_flagged;
  };
}

only_candidate : (i p : ℕ) → Stack.at (65 ∷ []) i ≡ some p → (i ≡ 0) × (p ≡ 65)
unfolding Stack.at
only_candidate i p h = ground arith

one_candidate-Registered : Registered one_candidate
unfolding Stack.at
one_candidate-Registered = record {
  each = λ i p h.
      let (is_first, is_it) = only_candidate i p h in
      rw (is_first, is_it, at_64) listed-IsCandidate;
  every = λ o b held counted flagged. elim (Bool-cases (o == 64)) [
    | inl here ↦ (0, 65, refl, at_64 ∙ ground arith)
    | inr elsewhere ↦ elim (Bool-cases (o == 16)) [
      | inl here ↦
          let is_b : unlisted ≡ b = ground arith in
          let still = ap (λ (x : Block). Meta.has_flags x.meta cyclic_candidate) is_b ∙ flagged in
          absurd (ground (arith, still, unlisted_is_free))
      | inr nowhere ↦ absurd (ground arith)
    ]
  ];
  bounded = omega arith;
}

register_candidate-Registered_example :
    (t : State) × (Gc.register_candidate 17 one_candidate ≡ ok tt t)
    × Registered t
    × ((i : ℕ) × (p : ℕ) × (Stack.at t.cyclic_candidates i ≡ some p)
        × (Pointer.untag p ≡ Pointer.untag 17))
register_candidate-Registered_example =
    register_candidate-Registered one_candidate 17 one_candidate-Registered
      (λ e. absurd (ground (arith, e, at_16))) (ap one_candidate.heap at_16) unlisted-HasSlot
      (omega arith)

free_released_object-Registered_example :
    (t : State) × (Gc.free_released_object 64 one_candidate ≡ ok tt t)
    × Registered t
    × NoCandidate t 64
free_released_object-Registered_example =
    free_released_object-Registered one_candidate 64 listed one_candidate-Registered
      (λ e. absurd (omega (arith, e))) refl (omega arith)
