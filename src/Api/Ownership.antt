-- ===== src/Api/Ownership.antt =====
-- The ownership primitives on a live local object: what they return, count and free.
use syli.Prelude.{ℕ, ◌+◌, ◌≡◌, Bool, true, false, if◌then◌else◌}
use syli.Meta
use syli.Meta.{MetaFlag}
use syli.State.{Block, State}
use syli.State.Monad.{ok}
use syli.Object
use syli.Object.Heap.{IsLocal, with_meta, load-ok, modify_meta-ok, pointer_to, pointer_to-Tagged}
use syli.Api.{
  object_incr, object_decr, ownership_share, ownership_own, ownership_borrow, ownership_release,
}

module _ (s : State) {o : ℕ} {b : Block} (l : IsLocal s.heap o b) where
  object_incr-ok : object_incr o s ≡ ok tt (with_meta s o b (Meta.incr b.meta))
  unfolding object_incr Object.incr_local
  object_incr-ok =
      rw (load-ok s o l.object.holds, l.zone)
        (modify_meta-ok s o Meta.incr l.object.not_null l.object.holds)

  -- `share` of a borrowed or an owned pointer to a live local object returns the owned pointer
  -- and counts one more reference.
  pub share_lem :
      (own : Bool)
      → ownership_share (pointer_to own o) s ≡ ok (o + 1) (with_meta s o b (Meta.incr b.meta))
  unfolding ownership_share
  share_lem own =
      let t = pointer_to-Tagged own l.object in
      rw (t.not_always, t.not_immediate, t.real, t.untagged, t.owned, object_incr-ok)

  -- `own` of a pointer to a live local object returns the owned pointer; it counts one more
  -- reference if the pointer was borrowed, and changes nothing if it was owned.
  pub own_lem :
      (own : Bool)
      → ownership_own (pointer_to own o) s
        ≡ ok (o + 1) (if own then s else with_meta s o b (Meta.incr b.meta))
  unfolding ownership_own
  own_lem true =
      let t = pointer_to-Tagged true l.object in rw (t.not_always, t.not_immediate, t.own_read)
  own_lem false =
      let t = pointer_to-Tagged false l.object in
      rw (t.not_always, t.not_immediate, t.own_read, t.real, t.untagged, t.owned, object_incr-ok)

  -- `borrow` of a pointer to a live local object returns its bare address and changes nothing.
  pub borrow_lem : (own : Bool) → ownership_borrow (pointer_to own o) s ≡ ok o s
  unfolding ownership_borrow
  borrow_lem own =
      let t = pointer_to-Tagged own l.object in rw (t.not_always, t.not_immediate, t.untagged)

  pub release_borrowed : ownership_release o s ≡ ok tt s
  unfolding ownership_release
  release_borrowed =
      let t = pointer_to-Tagged false l.object in rw (t.not_always, t.not_immediate, t.own_read)

  pub release-object_decr : ownership_release (o + 1) s ≡ object_decr o (o + 1) s
  unfolding ownership_release
  release-object_decr =
      let t = pointer_to-Tagged true l.object in
      rw (t.not_always, t.not_immediate, t.own_read, t.real, t.untagged)
