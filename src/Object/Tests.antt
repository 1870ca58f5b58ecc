-- ===== src/Object/Tests.antt =====
-- A shared object that is counted up and down, and the theorem applied to it.
use mathlib.Core.Option
use syli.Prelude.{refl, some, [], ◌∷◌, arith}
use syli.Header
use syli.Meta
use syli.State.Sample.{start, shared, two_objects}
use syli.Object.{is_counted}
use syli.Object.Heap.{IsObject}
use syli.Object.Counts.{take_one, give, performs, counter, counters, Meets, performs-Meets}

shared-IsObject : IsObject two_objects 64 shared
shared-IsObject = record {
  aligned = refl;
  not_null = omega arith;
  address = omega arith;
  holds = refl;
  meta_fits = omega arith;
}

performs-Meets_example :
    Meets start 64 shared (some 1) (performs (take_one ∷ take_one ∷ give 2 ∷ []) 64 start)
unfolding is_counted Header.get_zone Meta.refcount counters counter Option.bind
performs-Meets_example =
    performs-Meets (take_one ∷ take_one ∷ give 2 ∷ []) start shared-IsObject refl (omega arith)
