-- ===== src/Gc/Free.antt =====
-- `free_released_object` of runtime/include/syli/gc_helpers.h leaves no candidate without an object.
use syli.Prelude.{
  Option-cases, Bool-cases, inl, inr, ℕ, ◌+◌, ◌^◌, ◌<◌, ◌≡◌, ◌≢◌, refl, sym, ap, ◌∙◌, true, false,
  Option, none, some, ◌==◌, arith,
}
use syli.Prelude.Options.{some-inj}
use syli.Word.{u64}
use syli.Header
use syli.Header.Payload.{object_length-total, total_bytes-exact}
use syli.Meta
use syli.Meta.{cyclic_candidate, tracing, waiting_remove}
use syli.Meta.Laws.{set_flags-flag}
use syli.State.{Block, State}
use syli.State.Monad.{ok, update}
use syli.Object
use syli.Object.Heap.{with_meta, update-at, load-ok, free-ok}
use syli.Gc
use syli.Gc.Candidates.{Registered, update-other, IsCandidate-other}
use syli.Gc.Register.{has_flags-counted, set_flags-counted}
use syli.Gc.Unregister.{NoCandidate, unregister_candidate-Registered, has_flags-uncounted}

-- A block that is no candidate's
abbrev Plain : Option Block → Type 0
Plain b =
    (c : Block)
    → b ≡ some c
    → Object.is_counted c.header ≡ true
    → Meta.has_flags c.meta cyclic_candidate ≡ false

module _ (s : State) (o : ℕ) (b : Option Block) (registered : Registered s)
    (unlisted : NoCandidate s o) (plain : Plain b) where
  -- The heap changes at an object that is no candidate.
  elsewhere-Registered : Registered (record s { heap = update s.heap o b })
  elsewhere-Registered = record {
    each = λ i p h. IsCandidate-other o b (λ e. unlisted i p h (sym e)) (registered.each i p h);
    every = λ q c there counted flagged. elim (Bool-cases (o == q)) [
      | inl here ↦
          let at_o : o ≡ q = ground arith in
          let is_b : b ≡ some c =
            sym (update-at s.heap o b) ∙ ap (update s.heap o b) at_o ∙ there in
          absurd (ground (arith, plain c is_b counted, flagged))
      | inr elsewhere ↦
          let other : o ≢ q = ground arith in
          registered.every q c (sym (update-other s.heap o b q other) ∙ there) counted flagged
    ];
    bounded = registered.bounded;
  }

none-ne-some : {n : ℕ} → none ≢ some n
none-ne-some e = ground arith

account_cyclic_free-ok :
    (s : State) (o : ℕ) (b : Block)
    → s.heap o ≡ some b
    → (mem : ℕ) × (obj : ℕ) × (Gc.account_cyclic_free o s
        ≡ ok tt (record s { cyclic_mem_dealloc = mem; cyclic_obj_dealloc = obj }))
unfolding Gc.account_cyclic_free
account_cyclic_free-ok s o b held = elim (Bool-cases (Header.is_cyclic b.header)) [
  | inl cyclic ↦
      let (n, len, _) = object_length-total b.header in
      let (_, bytes) = total_bytes-exact b.header n len in
      elim (Option-cases (Header.total_bytes b.header)) [
        | inl e ↦ absurd (none-ne-some (sym e ∙ bytes))
        | inr (m, e) ↦ (
          u64 (s.cyclic_mem_dealloc + m),
          u64 (s.cyclic_obj_dealloc + 1),
          rw (load-ok s o held, cyclic, e) refl,
        )
      ]
  | inr acyclic ↦ (s.cyclic_mem_dealloc, s.cyclic_obj_dealloc, rw (load-ok s o held, acyclic) refl)
]

module _ (s : State) (o : ℕ) (b : Block) (registered : Registered s) (unlisted : NoCandidate s o)
    (held : s.heap o ≡ some b) where
  free_now-Registered : (t : State) × (Gc.free_now o s ≡ ok tt t) × Registered t × NoCandidate t o
  unfolding Gc.free_now
  free_now-Registered =
      let counted : State = record s { total_objects_freed = u64 (s.total_objects_freed + 1) } in
      let (mem, obj, accounted) = account_cyclic_free-ok counted o b held in
      let t : State = record counted { cyclic_mem_dealloc = mem; cyclic_obj_dealloc = obj } in
      let r = elsewhere-Registered s o none registered unlisted (λ c e. absurd (ground arith)) in
      (
        record t { heap = update s.heap o none },
        rw accounted (free-ok t o held),
        record { each = r.each; every = r.every; bounded = r.bounded },
        unlisted,
      )

  -- An object that waits to be traced is only flagged.
  waiting-Registered : Registered (with_meta s o b (Meta.set_flags b.meta waiting_remove))
  waiting-Registered = elsewhere-Registered s o _ registered unlisted (λ c e counted.
      elim (Bool-cases (Meta.has_flags c.meta cyclic_candidate)) [
        | inr unknown ↦ unknown
        | inl known ↦
            let is_c = some-inj e in
            let before =
              sym (set_flags-flag b.meta waiting_remove cyclic_candidate)
              ∙ ap (λ (x : Block). Meta.has_flags x.meta cyclic_candidate) is_c
              ∙ known in
            let counted' = ap (λ (x : Block). Object.is_counted x.header) is_c ∙ counted in
            let (i, p, found, at_o) = registered.every o b held counted' before in
            absurd (unlisted i p found at_o)
      ])

-- When candidates and objects are in step, the freeing of an object that is not null ends well,
-- whether the object is freed or flagged, keeps them in step, and leaves no candidate that is the
-- object.
pub free_released_object-Registered :
    (s : State) (o : ℕ) (b : Block)
    → Registered s
    → o ≢ 0
    → s.heap o ≡ some b
    → b.meta < 2 ^ 64
    → (t : State) × (Gc.free_released_object o s ≡ ok tt t) × Registered t × NoCandidate t o
unfolding Gc.free_released_object
free_released_object-Registered s o b registered real held fits =
    let (t, gone, kept, unlisted, (c, there, header)) =
      unregister_candidate-Registered s o b registered real held fits in
    let (u, freed, kept', unlisted') = free_now-Registered t o c kept unlisted there in
    elim (Bool-cases (Object.is_counted c.header)) [
      | inr uncounted ↦ (
        u,
        rw (gone, has_flags-uncounted t o tracing real there uncounted) freed,
        kept',
        unlisted',
      )
      | inl counted ↦ elim (Bool-cases (Meta.has_flags c.meta tracing)) [
        | inr idle ↦ (
          u,
          rw (gone, has_flags-counted t o tracing real there counted, idle) freed,
          kept',
          unlisted',
        )
        | inl queued ↦ (
          with_meta t o c (Meta.set_flags c.meta waiting_remove),
          rw (gone, has_flags-counted t o tracing real there counted, queued)
              (set_flags-counted t o waiting_remove real there counted),
          waiting-Registered t o c kept unlisted there,
          unlisted,
        )
      ]
    ]
