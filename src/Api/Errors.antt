-- ===== src/Api/Errors.antt =====
-- What the primitives do to pointers that own nothing that can be counted.
use syli.Prelude.{arith, ℕ, ◌+◌, ◌%◌, ◌≡◌, ◌∙◌, Bool-cases, ◌⊎◌, inl, inr, Bool, true, false, ◌==◌}
use syli.Header
use syli.Header.Zone
use syli.Pointer
use syli.Pointer.Tags.{is_always_borrow-eq, is_immediate-eq}
use syli.State.{Block, State}
use syli.State.Monad.{ok, assert_failed}
use syli.Object.Heap.{IsObject, load-ok, pointer_to, pointer_to-Tagged}
use syli.Api.{
  assert_countable, object_incr, object_decr, ownership_share, ownership_own, ownership_borrow,
  ownership_release, ownership_incr, ownership_decr,
}

not_countable :
    (p : ℕ) (s : State) → (p % 4 ≡ 2) ⊎ (p % 4 ≡ 3) → assert_countable p s ≡ assert_failed
unfolding assert_countable
not_countable p s (inl e) =
    let t : Pointer.is_always_borrow p ≡ true = is_always_borrow-eq p ∙ rw e in rw t
not_countable p s (inr e) =
    let a : Pointer.is_always_borrow p ≡ false = is_always_borrow-eq p ∙ rw e in
    let t : Pointer.is_immediate p ≡ true = is_immediate-eq p ∙ rw e in rw (a, t)

-- On a permanent borrow (tag 10) and on an immediate (tag 11) every primitive fails an assertion:
-- `borrow`, `own`, `share`, `release`, and the two that count directly.
pub uncountable_asserts :
    (p : ℕ) (s : State)
    → (p % 4 ≡ 2) ⊎ (p % 4 ≡ 3)
    → (ownership_borrow p s ≡ assert_failed)
      × (ownership_own p s ≡ assert_failed)
      × (ownership_share p s ≡ assert_failed)
      × (ownership_release p s ≡ assert_failed)
      × (ownership_incr p s ≡ assert_failed)
      × (ownership_decr p s ≡ assert_failed)
unfolding ownership_borrow ownership_own ownership_share ownership_release ownership_incr
    ownership_decr
uncountable_asserts p s t =
    let failed = not_countable p s t in
    (rw failed, rw failed, rw failed, rw failed, rw failed, rw failed)

module _ (s : State) {o : ℕ} {b : Block} (i : IsObject s.heap o b)
    (foreign : (Header.get_zone b.header == Zone.gc_local) ≡ false) where
  incr-foreign : object_incr o s ≡ ok tt s
  unfolding object_incr
  incr-foreign =
      rw (load-ok s o i.holds, foreign)
        (elim (Bool-cases (Header.get_zone b.header == Zone.static)) [
          | inl e ↦ rw e
          | inr e ↦ rw e
        ])

  decr-foreign : (p : ℕ) → object_decr o p s ≡ ok tt s
  unfolding object_decr
  decr-foreign p =
      let real : (o == 0) ≡ false = ground (arith, i.not_null) in
      rw (real, load-ok s o i.holds, foreign)
        (elim (Bool-cases (Header.get_zone b.header == Zone.static)) [
          | inl e ↦ rw e
          | inr e ↦ rw e
        ])

  -- `share` and `release` of a pointer to an object of any zone but the local one leave the state
  -- as it is: its references are not counted, also where the zone is the shared one.
  pub foreign_uncounted :
      (own : Bool)
      → (ownership_share (pointer_to own o) s ≡ ok (o + 1) s)
        × (ownership_release (pointer_to own o) s ≡ ok tt s)
  unfolding ownership_share ownership_release
  foreign_uncounted true =
      let t = pointer_to-Tagged true i in
      (
        rw (t.not_always, t.not_immediate, t.real, t.untagged, t.owned, incr-foreign),
        rw (t.not_always, t.not_immediate, t.own_read, t.real, t.untagged, decr-foreign (o + 1)),
      )
  foreign_uncounted false =
      let t = pointer_to-Tagged false i in
      (
        rw (t.not_always, t.not_immediate, t.real, t.untagged, t.owned, incr-foreign),
        rw (t.not_always, t.not_immediate, t.own_read),
      )
