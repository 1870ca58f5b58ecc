-- ===== src/Api/Barrier/Queued.antt =====
-- The target of a mutation marked and queued, and the write barrier as a whole.
use syli.Prelude.{
  ℕ, suc, ◌≡◌, refl, sym, ap, ◌∙◌, Bool-cases, inl, inr, ◌⊎◌, true, List, ◌∷◌, All, All-map, ◌==◌,
  if◌then◌else◌, arith,
}
use syli.Prelude.Options.{some-inj}
use syli.Meta
use syli.Meta.{tracing, waiting_remove}
use syli.Pointer
use syli.Stack
use syli.State.{Block, State}
use syli.State.Monad.{ok, Result, and_then, ◌>>◌}
use syli.Object
use syli.Object.Heap.{with_meta, modify_meta-ok}
use syli.Gc
use syli.Tracing.Queue.{Listed}
use syli.Tracing.Colours.{Graph, InUse, Closed, Alive, Colours, Seen, Pending, is_marked, words}
use syli.Tracing.Colours.Paint.{
  Painted, painted-Alive, painted-at, painted-other, painted-same, painted-marked, painted-marks,
  MarkOf, set_mark-MarkOf,
}
use syli.Tracing.Colours.Written.{
  written, with_field, written-Closed, set_value-ok, written-marked, written-Alive, written-Listed,
  All-written,
}
use syli.Api.{queue_mutation, ownership_notify_mutation}
use syli.Api.Barrier.{
  Writes, unmarked-notify, marked-notify, kept-Seen, kept-Colours, still-Changed,
}

module _ (g : Graph) (roots : List ℕ) (closed : Closed g) {s : State} (c : Colours g roots s)
    (ptr i p : ℕ) (w : Writes g s ptr i p) where
  abbrev o : ℕ
  o = Pointer.untag ptr

  abbrev q : ℕ
  q = Pointer.untag p

  abbrev a : Alive g s o
  a = c.alive o w.in_use

  abbrev after : State
  after = with_field s o a.block i p

  abbrev g' : Graph
  g' = written g o i p

  abbrev source : Alive g' after o
  source = written-Alive g o i p a o a

  abbrev target : Alive g' after q
  target = written-Alive g o i p a q (c.alive q w.target.in_use)

  abbrev notify : Result (Unit {0})
  notify = ownership_notify_mutation ptr p after

  abbrev new_meta : ℕ
  new_meta = Meta.set_mark s.tracing_current_bit_mark target.block.meta

  -- The target marked, and waiting among the mutations
  abbrev queued : State
  queued = record (with_meta after q target.block new_meta) {
    tracing_mutations_worklist = p ∷ s.tracing_mutations_worklist;
  }

  queue_mutation-ok : queue_mutation q p after ≡ ok tt queued
  unfolding queue_mutation Gc.mark_tag_object Stack.push
  queue_mutation-ok =
      rw
        (modify_meta-ok after q (Meta.set_mark s.tracing_current_bit_mark)
          (closed.real q w.target.in_use) target.held)
        refl

  set-MarkOf : MarkOf target.block.meta s.tracing_current_bit_mark
  set-MarkOf =
      set_mark-MarkOf c.bit s.tracing_current_bit_mark target.block.meta target.fits c.bit_fits
        c.current

  queued-Painted : Painted after queued q target.block new_meta
  queued-Painted =
      let (mark, count, flags, fits) = set-MarkOf in
      record {
        before = target.held;
        heap = refl;
        bit_same = refl;
        count_same = count;
        stays_same = flags waiting_remove;
        mark = inr mark;
        fits = fits;
      }

  target_marked : is_marked queued q ≡ true
  target_marked = painted-marks queued-Painted set-MarkOf.0

  queued-Seen : (r : ℕ) → Seen s r → Seen queued r
  queued-Seen r seen owned = elim (kept-Seen g roots closed c ptr i p w r seen owned) [
    | inl marked ↦ inl (painted-marked queued-Painted (Pointer.untag r) marked)
    | inr waits ↦ inr waits
  ]

  queued-Listed : Listed queued
  queued-Listed x d there counted flagged = elim (Bool-cases (q == x)) [
    | inl same ↦
        let at_x : q ≡ x = ground arith in
        let (mark, count, flags, fits) = set-MarkOf in
        let blocks = some-inj (sym (painted-at queued-Painted) ∙ ap queued.heap at_x ∙ there) in
        written-Listed g o i p a c.listed x target.block (ap after.heap (sym at_x) ∙ target.held)
          (ap (λ (y : Block). Object.is_counted y.header) blocks ∙ counted)
          (sym (flags tracing) ∙ ap (λ (y : Block). Meta.has_flags y.meta tracing) blocks ∙ flagged)
    | inr other ↦
        written-Listed g o i p a c.listed x d
          (sym (painted-other queued-Painted x (λ e. ground arith)) ∙ there) counted flagged
  ]

  queued-black :
      (x : ℕ)
      → InUse g' x
      → is_marked queued x ≡ true
      → Pending queued x ⊎ All (Seen queued) (words g' x)
  queued-black x k marked = elim (Bool-cases (q == x)) [
    | inl same ↦ inl (0, p, refl, ground arith)
    | inr other ↦
        let before =
          sym (written-marked g o i p a x)
          ∙ sym (painted-same queued-Painted x (λ e. ground arith))
          ∙ marked in
        elim (c.black x k before) [
          | inl (j, r, found, at_x) ↦ inl (suc j, r, found, at_x)
          | inr seen ↦ inr (
              All-written g o i p (Seen queued) x (λ owned. inl target_marked)
                (All-map queued-Seen (words g x) seen))
        ]
  ]

  queued-Colours : Colours g' roots queued
  queued-Colours = record {
    bit = c.bit;
    bit_fits = c.bit_fits;
    current = c.current;
    alive = λ x k. painted-Alive queued-Painted g' x (written-Alive g o i p a x (c.alive x k));
    work = c.work;
    listed = queued-Listed;
    changed = still-Changed g o i p (p ∷ s.tracing_mutations_worklist) (w.target, c.changed);
    black = queued-black;
    rooted = All-map queued-Seen roots c.rooted;
  }

  notified :
      (t : State) × (notify ≡ ok tt t)
      × Colours g' roots t
      × (t.tracing_state ≡ s.tracing_state)
      × (t.tracing_worklist ≡ s.tracing_worklist)
  notified = elim (Bool-cases (is_marked after o)) [
    | inr white ↦ (
      after,
      unmarked-notify g roots closed c ptr i p w white,
      kept-Colours g roots closed c ptr i p w
          (λ black. absurd (ground (arith, white, written-marked g o i p a o, black))),
      refl,
      refl,
    )
    | inl black ↦ elim (Bool-cases (is_marked after q)) [
      | inl known ↦ (
        after,
        marked-notify g roots closed c ptr i p w black
            ∙ ap (λ x. if x then ok tt after else queue_mutation q p after) known,
        kept-Colours g roots closed c ptr i p w (λ _ owned. inl known),
        refl,
        refl,
      )
      | inr new ↦ (
        queued,
        marked-notify g roots closed c ptr i p w black
            ∙ ap (λ x. if x then ok tt after else queue_mutation q p after) new
            ∙ queue_mutation-ok,
        queued-Colours,
        refl,
        refl,
      )
    ]
  ]

  pub write-Colours :
      Closed g'
      × ((t : State) × ((Object.set_value o i p >> ownership_notify_mutation ptr p) s ≡ ok tt t)
          × Colours g' roots t
          × (t.tracing_state ≡ s.tracing_state)
          × (t.tracing_worklist ≡ s.tracing_worklist))
  write-Colours =
      let (t, done, colours, state_same, work_same) = notified in
      (
        written-Closed g o i p closed (λ _. w.target.in_use),
        (
          t,
          ap (λ r. and_then r (λ _. ownership_notify_mutation ptr p))
                (set_value-ok g o i p a w.inside)
              ∙ done,
          colours,
          state_same,
          work_same,
        ),
      )
