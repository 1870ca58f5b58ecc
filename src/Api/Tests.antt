-- ===== src/Api/Tests.antt =====
-- A concrete heap, and the theorems of the ownership primitives applied to it.
use syli.Object
use mathlib.Core.List.{Memᴰ}
use syli.Prelude.{[], ◌∷◌, ◌≡◌, inr, refl, true, false, arith}
use syli.Header
use syli.Meta
use syli.State.Sample.{pair, shared, two_objects, start}
use syli.State.Monad.{ok, assert_failed, ◌>>=◌}
use syli.Object.Heap.{IsObject, IsLocal}
use syli.Api.{
  ownership_alloc_object, ownership_share, ownership_own, ownership_borrow, ownership_release,
  is_tracing, ownership_incr, ownership_decr,
}
use syli.Api.Fresh.{IsFresh, release-alloc}
use syli.Api.Release.{release_lem, waiting}
use syli.Api.RoundTrip.{IsHeld, release-share, release-own}
use syli.State.{State}
use syli.Pointer
use syli.Tracing.Colours.{Colours}
use syli.Tracing.Colours.Sample.{graph, graph-Closed, under_way, under_way-Colours}
use syli.Api.Barrier.{Writes}
use syli.Api.Barrier.Queued.{write-Colours}
use syli.Api.Barrier.Course.{Course}
use syli.Api.Errors.{uncountable_asserts, foreign_uncounted}

pair-IsLocal : IsLocal two_objects 16 pair
unfolding Header.get_zone
pair-IsLocal = record {
  object = record {
    aligned = refl;
    not_null = omega arith;
    address = omega arith;
    holds = refl;
    meta_fits = omega arith;
  };
  zone = refl;
}

pair-IsHeld : IsHeld 1
unfolding Meta.refcount
pair-IsHeld = record { some_left = omega arith; room = omega arith }

shared-IsObject : IsObject two_objects 64 shared
shared-IsObject = record {
  aligned = refl;
  not_null = omega arith;
  address = omega arith;
  holds = refl;
  meta_fits = omega arith;
}

release_lem_example : ownership_release 17 start ≡ ok tt (waiting start 16 pair)
unfolding Meta.refcount Meta.decr_n Header.is_mono_imm
release_lem_example = release_lem start pair-IsLocal

release-share_example : (ownership_share 16 >>= ownership_release) start ≡ ok tt start
release-share_example = release-share start pair-IsLocal pair-IsHeld false

release-own_example : (ownership_own 16 >>= ownership_release) start ≡ ok tt start
release-own_example = release-own start pair-IsLocal pair-IsHeld

uncountable_asserts_example :
    (ownership_borrow 7 start ≡ assert_failed)
    × (ownership_own 7 start ≡ assert_failed)
    × (ownership_share 7 start ≡ assert_failed)
    × (ownership_release 7 start ≡ assert_failed)
    × (ownership_incr 7 start ≡ assert_failed)
    × (ownership_decr 7 start ≡ assert_failed)
uncountable_asserts_example = uncountable_asserts 7 start (inr refl)

foreign_uncounted_example :
    (ownership_share 65 start ≡ ok 65 start) × (ownership_release 65 start ≡ ok tt start)
unfolding Header.get_zone
foreign_uncounted_example = foreign_uncounted start shared-IsObject refl true

-- An object of 11 bytes, without pointers
bytes-IsFresh : IsFresh 11 11 128 0 start
unfolding Header.is_cyclic_mutable Header.is_cyclic Header.get_zone
bytes-IsFresh = record {
  zone = refl;
  acyclic = refl;
  fixed = refl;
  not_null = omega arith;
  aligned = refl;
  address = omega arith;
  unused = refl;
  fits = omega arith;
  current = refl;
  is_bit = omega arith;
}

release-alloc_example :
    (ownership_alloc_object 128 99 11 1 11 >>= ownership_release) start
    ≡ ok tt (record start { total_objects_freed = 1 })
unfolding Header.is_mono_imm
release-alloc_example = release-alloc 11 11 128 99 0 start bytes-IsFresh

-- The second field of the pair gets a reference to the pair itself.
under_way-Writes : Writes graph under_way 17 1 17
unfolding Pointer.is_own_ref Pointer.untag Header.is_traceable Header.get_zone is_tracing
under_way-Writes = record {
  owned = refl;
  in_use = Memᴰ.head refl;
  inside = omega arith;
  traceable = refl;
  target = record { owned = refl; in_use = Memᴰ.head refl; local = refl };
  under_way = refl;
}

-- The reference is written, and then the budget is filled.
abbrev rewritten : State
rewritten =
    (write-Colours graph (17 ∷ []) graph-Closed under_way-Colours 17 1 17 under_way-Writes).1.0
