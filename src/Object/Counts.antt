-- ===== src/Object/Counts.antt =====
-- runtime/include/syli/object.h: the counting of references to an object of either zone that is
-- counted, against a counter.
use mathlib.Core.Option
use syli.Prelude.{
  ℕ, ◌+◌, ◌-◌, ◌^◌, ◌≤◌, ◌<◌, ◌≡◌, refl, ◌∙◌, true, false, Bool-cases, Option-cases, inl, inr,
  Option, none, some, List, [], ◌∷◌, length, ltb, leb, ◌==◌, ==_refl, if◌then◌else◌, arith,
}
use syli.Header
use syli.Header.Zone
use syli.Meta
use syli.Meta.{refcount}
use syli.Meta.Count.{Counts, incr_lem, decr_n_lem}
use syli.State.{Block, State}
use syli.State.Monad.{M, Result, ok, assert_failed, pure, ◌>>◌, load_object}
use syli.Object
use syli.Object.{
  is_counted, by_zone, incr_local, incr_shared, decr_local, decr_shared, decr_local_n,
  decr_shared_n,
}
use syli.Object.Heap.{
  IsObject, with_meta, load_object-ok, modify_meta-ok, update-update, update_self,
}

pub data CountOp : Type 0 where
  take_one give_one : CountOp
  give : ℕ → CountOp

abbrev pub perform : CountOp → ℕ → M (Unit {0})
perform take_one o = Object.incr o
perform give_one o = Object.decr o
perform (give n) o = Object.decr_n o n

unfoldable pub performs : List CountOp → ℕ → M (Unit {0})
performs [] o = pure tt
performs (p ∷ ps) o = perform p o >> performs ps o

-- A counter, which stops rather than go below 0
unfoldable pub counter : CountOp → ℕ → Option ℕ
counter take_one c = some (c + 1)
counter give_one c = if c == 0 then none else some (c - 1)
counter (give n) c = if leb n c then some (c - n) else none

unfoldable pub counters : List CountOp → ℕ → Option ℕ
counters [] c = some c
counters (p ∷ ps) c = Option.bind (counter p c) (counters ps)

-- The result that goes with what the counter says: only the count of the object has changed, or an
-- assertion has failed.
unfoldable pub Meets : State → ℕ → Block → Option ℕ → Result (Unit {0}) → Type 0
Meets s o b (some c) r = (m : ℕ) × (r ≡ ok tt (with_meta s o b m)) × Counts b.meta c m
Meets s o b none r = r ≡ assert_failed

module _ (s : State) {o : ℕ} {b : Block} (i : IsObject s.heap o b)
    (fixed : is_counted b.header ≡ true) where
  loads : load_object o s ≡ ok b s
  loads = load_object-ok s o i.not_null i.holds

  -- Both counted zones have the same effect.
  either_zone :
      (f g : M (Unit {0})) (r : Result (Unit {0})) → f s ≡ r → g s ≡ r → by_zone o f g s ≡ r
  unfolding by_zone is_counted
  either_zone f g r e e' = elim (Bool-cases (Header.get_zone b.header == Zone.gc_local)) [
    | inl here ↦ rw (loads, here) e
    | inr away ↦
        let shared : (Header.get_zone b.header == Zone.gc_shared) ≡ true = ground (arith, fixed) in
        rw (loads, away, shared) e'
  ]

  incr-ok : Object.incr o s ≡ ok tt (with_meta s o b (Meta.incr b.meta))
  unfolding Object.incr incr_local incr_shared
  incr-ok =
      either_zone _ _ _ (modify_meta-ok s o Meta.incr i.not_null i.holds)
        (modify_meta-ok s o Meta.incr i.not_null i.holds)

  -- Counting down, with the assertion before it
  less : ℕ → Result (Unit {0})
  less n = ok tt (with_meta s o b (Meta.decr_n b.meta n))

  decr_n-fits : (n : ℕ) → leb n (refcount b.meta) ≡ true → Object.decr_n o n s ≡ less n
  unfolding less Object.decr_n decr_local_n decr_shared_n
  decr_n-fits n e =
      let changed = modify_meta-ok s o (λ m. Meta.decr_n m n) i.not_null i.holds in
      either_zone _ _ _ (rw (loads, e) changed) (rw (loads, e) changed)

  decr_n-fails : (n : ℕ) → leb n (refcount b.meta) ≡ false → Object.decr_n o n s ≡ assert_failed
  unfolding Object.decr_n decr_local_n decr_shared_n
  decr_n-fails n e = either_zone _ _ _ (rw (loads, e) refl) (rw (loads, e) refl)

  decr-fits : (refcount b.meta == 0) ≡ false → Object.decr o s ≡ less 1
  unfolding less Object.decr decr_local decr_shared
  decr-fits e =
      let changed = modify_meta-ok s o (λ m. Meta.decr_n m 1) i.not_null i.holds in
      let some_left : ltb 0 (refcount b.meta) ≡ true = ground arith in
      either_zone _ _ _ (rw (loads, some_left) changed) (rw (loads, some_left) changed)

  decr-fails : (refcount b.meta == 0) ≡ true → Object.decr o s ≡ assert_failed
  unfolding Object.decr decr_local decr_shared
  decr-fails e =
      let none_left : ltb 0 (refcount b.meta) ≡ false = ground arith in
      either_zone _ _ _ (rw (loads, none_left) refl) (rw (loads, none_left) refl)

  perform-Meets :
      (p : CountOp)
      → refcount b.meta + 1 < 2 ^ 56
      → Meets s o b (counter p (refcount b.meta)) (perform p o s)
  unfolding counter Meets less
  perform-Meets take_one room = (Meta.incr b.meta, incr-ok, incr_lem b.meta i.meta_fits room)
  perform-Meets (give n) room = elim (Bool-cases (leb n (refcount b.meta))) [
    | inl e ↦
        rw e (Meta.decr_n b.meta n, decr_n-fits n e, decr_n_lem b.meta n i.meta_fits (ground arith))
    | inr e ↦ rw e (decr_n-fails n e)
  ]
  perform-Meets give_one room = elim (Bool-cases (refcount b.meta == 0)) [
    | inl e ↦ rw e (decr-fails e)
    | inr e ↦
        rw e (Meta.decr_n b.meta 1, decr-fits e, decr_n_lem b.meta 1 i.meta_fits (ground arith))
  ]

counter-le : (p : CountOp) (c d : ℕ) → counter p c ≡ some d → d ≤ c + 1
unfolding counter
counter-le take_one c d e = ground arith
counter-le give_one c d e = ground arith
counter-le (give n) c d e = ground arith

module _ (s : State) {o : ℕ} {b : Block} (i : IsObject s.heap o b) {c m : ℕ}
    (counts : Counts b.meta c m) where
  counted-IsObject : IsObject (with_meta s o b m).heap o (record b { meta = m })
  counted-IsObject = record {
    aligned = i.aligned;
    not_null = i.not_null;
    address = i.address;
    holds = rw (==_refl o) refl;
    meta_fits = counts.fits;
  }

  -- What holds of the object with its new count
  Meets-behind :
      (d : Option ℕ) (r : Result (Unit {0}))
      → Meets (with_meta s o b m) o (record b { meta = m }) d r
      → Meets s o b d r
  unfolding Meets
  Meets-behind none r e = e
  Meets-behind (some d) r (m', e, later) = (
    m',
    e
        ∙ rw (update-update s.heap o (some (record b { meta = m })) (some (record b { meta = m' })))
            refl,
    record {
      count = later.count;
      flags_same = λ f. later.flags_same f ∙ counts.flags_same f;
      mark_same = later.mark_same ∙ counts.mark_same;
      fits = later.fits;
    },
  )

module _ (p : CountOp) (ps : List CountOp) (s : State) {o : ℕ} {b : Block}
    (i : IsObject s.heap o b) where
  stops :
      counter p (refcount b.meta) ≡ none
      → perform p o s ≡ assert_failed
      → Meets s o b (counters (p ∷ ps) (refcount b.meta)) (performs (p ∷ ps) o s)
  unfolding counters performs Meets Option.bind
  stops e failed = rw (e, failed) refl

  goes_on :
      {c m : ℕ}
      → counter p (refcount b.meta) ≡ some c
      → perform p o s ≡ ok tt (with_meta s o b m)
      → Counts b.meta c m
      → Meets
          (with_meta s o b m)
          o
          (record b { meta = m })
          (counters ps (refcount m))
          (performs ps o (with_meta s o b m))
      → Meets s o b (counters (p ∷ ps) (refcount b.meta)) (performs (p ∷ ps) o s)
  unfolding counters performs Option.bind
  goes_on {c} {m} e done counts later =
      rw (e, done)
        (Meets-behind s i counts (counters ps c) (performs ps o (with_meta s o b m))
          (rw counts.count at later))

-- On an object of the local or the shared zone, whose count has room for as many more as there are
-- operations, `incr`, `decr` and `decr_n` in any sequence do what a counter does: where the counter
-- would go below 0 an assertion fails, and else they end well with the count that the counter has,
-- the flags and the mark unchanged, and nothing else changes.
pub performs-Meets :
    (ops : List CountOp) (s : State) {o : ℕ} {b : Block}
    → IsObject s.heap o b
    → is_counted b.header ≡ true
    → refcount b.meta + length ops < 2 ^ 56
    → Meets s o b (counters ops (refcount b.meta)) (performs ops o s)
unfolding Meets counters performs
performs-Meets [] s {o} {b} i fixed room = (
  b.meta,
  rw (update_self s.heap o (some b) i.holds) refl,
  record { count = refl; flags_same = λ f. refl; mark_same = refl; fits = i.meta_fits },
)
performs-Meets (p ∷ ps) s {o} {b} i fixed room =
    let first = perform-Meets s i fixed p (omega arith) in
    elim (Option-cases (counter p (refcount b.meta))) [
      | inl e ↦ stops p ps s i e (rw e at first)
      | inr (c, e) ↦
          let (m, done, counts) = rw e at first in
          goes_on p ps s i e done counts (
            performs-Meets ps (with_meta s o b m) (counted-IsObject s i counts) fixed
              (omega (arith, counts.count, counter-le p (refcount b.meta) c e)))
    ]
