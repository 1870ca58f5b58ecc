-- ===== src/Api/RoundTrip.antt =====
-- Taking a reference and dropping it again.
use syli.Prelude.{ℕ, ◌+◌, ◌^◌, ◌<◌, ◌≡◌, ◌∙◌, Bool, false, ◌==◌, arith}
use syli.Meta
use syli.Meta.Count.{incr_lem}
use syli.Meta.Laws.{refcount-eq}
use syli.State.{Block, State}
use syli.State.Monad.{ok, ◌>>=◌}
use syli.Object.Heap.{IsLocal, with_meta, update-at, update-update, update_self, pointer_to}
use syli.Api.{ownership_share, ownership_own, ownership_release}
use syli.Api.Ownership.{share_lem, own_lem}
use syli.Api.Release.{release_lem, dropped}

-- One more reference fits the count, and there is one already.
pub record IsHeld (m : ℕ) : Type 0 where
  pub some_left : 0 < Meta.refcount m
  pub room : Meta.refcount m + 1 < 2 ^ 56

dropped-incr : (m : ℕ) → m < 2 ^ 64 → IsHeld m → dropped (Meta.incr m) ≡ m
unfolding Meta.decr_n Meta.incr
dropped-incr m h k = omega (arith, k.room, refcount-eq m)

module _ (s : State) {o : ℕ} {b : Block} (l : IsLocal s.heap o b) (k : IsHeld b.meta) where
  -- The state after one reference is taken
  abbrev taken : State
  taken = with_meta s o b (Meta.incr b.meta)

  taken-IsLocal : IsLocal taken.heap o (record b { meta = Meta.incr b.meta })
  taken-IsLocal = record {
    object = record {
      aligned = l.object.aligned;
      not_null = l.object.not_null;
      address = l.object.address;
      holds = update-at s.heap o _;
      meta_fits = (incr_lem b.meta l.object.meta_fits k.room).fits;
    };
    zone = l.zone;
  }

  release-taken : ownership_release (o + 1) taken ≡ ok tt s
  release-taken =
      let same = dropped-incr b.meta l.object.meta_fits k in
      let left : (Meta.refcount b.meta == 0) ≡ false = ground arith in
      release_lem taken taken-IsLocal
      ∙ (rw (same, left, update-update, update_self s.heap o _ l.object.holds))

  -- `share` of a pointer to a live local object that is referred to, and whose count has room for
  -- one more, and then `release` of the result, leave the state as it was.
  pub release-share :
      (own : Bool) → (ownership_share (pointer_to own o) >>= ownership_release) s ≡ ok tt s
  release-share own = rw (share_lem s l own) release-taken

  -- `own` of a borrowed pointer to a live local object that is referred to, and whose count has
  -- room for one more, and then `release` of the result, leave the state as it was.
  pub release-own : (ownership_own o >>= ownership_release) s ≡ ok tt s
  release-own = rw (own_lem s l false) release-taken
