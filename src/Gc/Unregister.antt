-- ===== src/Gc/Unregister.antt =====
-- `free_released_object` of runtime/include/syli/gc_helpers.h takes an object from the candidates.
use syli.Prelude.{
  Bool-cases, inl, inr, ℕ, ◌^◌, ◌<◌, ◌≡◌, ◌≢◌, refl, sym, ap, ◌∙◌, true, false, some, ◌==◌, arith,
}
use syli.Prelude.Options.{some-inj}
use syli.Meta
use syli.Meta.{MetaFlag, cyclic_candidate}
use syli.Meta.Laws.{clear_flags-flag}
use syli.Pointer
use syli.Stack
use syli.State.{Block, State}
use syli.State.Monad.{ok}
use syli.Object
use syli.Object.Heap.{with_meta, update-at, load_object-ok}
use syli.Gc
use syli.Gc.Candidates.{
  IsCandidate, Registered, update-other, IsCandidate-other, get_candidate_index-ok,
}
use syli.Gc.Register.{has_flags-counted, clear_flags-counted}
use syli.Gc.Without.{Without, remove_candidate_at-Without}

-- No candidate is the object `o`.
abbrev pub NoCandidate : State → ℕ → Type 0
NoCandidate s o = (i p : ℕ) → Stack.at s.cyclic_candidates i ≡ some p → Pointer.untag p ≢ o

module _ (s t : State) (o : ℕ) (b : Block) (without : Without s t o) (held : t.heap o ≡ some b)
    (fits : b.meta < 2 ^ 64) where
  -- The flag is cleared behind the removal.
  abbrev cleared : State
  cleared = with_meta t o b (Meta.clear_flags b.meta cyclic_candidate)

  cleared-Registered : Registered cleared
  cleared-Registered = record {
    each = λ i p h. let (other, c) = without.each i p h in IsCandidate-other o _ other c;
    every = λ q c there counted flagged. elim (Bool-cases (o == q)) [
      | inl here ↦
          let at_o : o ≡ q = ground arith in
          let is_cleared = some-inj (sym (update-at t.heap o _) ∙ ap cleared.heap at_o ∙ there) in
          let still =
            ap (λ (x : Block). Meta.has_flags x.meta cyclic_candidate) is_cleared ∙ flagged in
          absurd
            (ground (arith, still, clear_flags-flag b.meta cyclic_candidate cyclic_candidate fits))
      | inr elsewhere ↦
          let other : o ≢ q = ground arith in
          without.every q c other (sym (update-other t.heap o _ q other) ∙ there) counted flagged
    ];
    bounded = without.bounded;
  }

-- The object of a candidate has the flag.
candidate-flagged :
    (s : State) (o i p : ℕ) (b : Block)
    → Registered s
    → s.heap o ≡ some b
    → Stack.at s.cyclic_candidates i ≡ some p
    → Pointer.untag p ≡ o
    → (Object.is_counted b.header ≡ true) × (Meta.has_flags b.meta cyclic_candidate ≡ true)
candidate-flagged s o i p b registered held found at_o =
    let c = registered.each i p found in
    let blocks : b ≡ c.block = some-inj (sym held ∙ ap s.heap (sym at_o) ∙ c.held) in
    (
      ap (λ (x : Block). Object.is_counted x.header) blocks ∙ c.numbered.has_slot.counted,
      ap (λ (x : Block). Meta.has_flags x.meta cyclic_candidate) blocks ∙ c.numbered.flagged,
    )

pub has_flags-uncounted :
    (s : State) (o : ℕ) (f : MetaFlag) {b : Block}
    → o ≢ 0
    → s.heap o ≡ some b
    → Object.is_counted b.header ≡ false
    → Object.has_flags o f s ≡ ok false s
unfolding Object.has_flags
has_flags-uncounted s o f real held uncounted = rw (load_object-ok s o real held, uncounted) refl

-- When candidates and objects are in step, the removal of an object from the candidates ends well,
-- whether it is one or not, keeps them in step, and leaves no candidate that is the object, which
-- keeps its header.
pub unregister_candidate-Registered :
    (s : State) (o : ℕ) (b : Block)
    → Registered s
    → o ≢ 0
    → s.heap o ≡ some b
    → b.meta < 2 ^ 64
    → (t : State) × (Gc.unregister_candidate o s ≡ ok tt t)
      × Registered t
      × NoCandidate t o
      × ((c : Block) × (t.heap o ≡ some c) × (c.header ≡ b.header))
unfolding Gc.unregister_candidate
unregister_candidate-Registered s o b registered real held fits =
    elim (Bool-cases (Object.is_counted b.header)) [
      | inr uncounted ↦ (
        s,
        rw (has_flags-uncounted s o cyclic_candidate real held uncounted) refl,
        registered,
        λ i p found at_o.
            let (counted, _) = candidate-flagged s o i p b registered held found at_o in
            absurd (ground (arith, counted, uncounted)),
        (b, held, refl),
      )
      | inl counted ↦ elim (Bool-cases (Meta.has_flags b.meta cyclic_candidate)) [
        | inr unknown ↦ (
          s,
          rw (has_flags-counted s o cyclic_candidate real held counted, unknown) refl,
          registered,
          λ i p found at_o.
              let (_, flagged) = candidate-flagged s o i p b registered held found at_o in
              absurd (ground (arith, flagged, unknown)),
          (b, held, refl),
        )
        | inl known ↦
            let (i, p, found, at_o) = registered.every o b held counted known in
            let c : IsCandidate s.heap o i = rw⁻¹ at_o (registered.each i p found) in
            let (t, removed, w) = remove_candidate_at-Without s i p registered found in
            let without : Without s t o = rw⁻¹ at_o w in
            let held' : t.heap o ≡ some b = without.same ∙ held in
            (
              cleared s t o b without held' fits,
              rw
                  (
                    has_flags-counted s o cyclic_candidate real held counted,
                    known,
                    get_candidate_index-ok s o i c,
                    removed,
                  )
                  (clear_flags-counted t o cyclic_candidate real held' counted),
              cleared-Registered s t o b without held' fits,
              λ j q found' at_o'.
                  let (other, _) = without.each j q found' in absurd (other (sym at_o')),
              (_, update-at t.heap o _, refl),
            )
      ]
    ]
