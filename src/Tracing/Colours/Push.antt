-- ===== src/Tracing/Colours/Push.antt =====
-- Pushing references paints nothing that the marking reads, but the flag of the worklist.
use syli.Prelude.{
  ℕ, ◌+◌, ◌≤◌, ◌<◌, ◌^◌, ◌≡◌, refl, sym, ap, ◌∙◌, true, List, All, All-map, length, inl, arith,
}
use syli.Prelude.Options.{some-inj}
use syli.Meta
use syli.Meta.{tracing, waiting_remove}
use syli.Meta.Laws.{set_flags_lem}
use syli.Pointer
use syli.State.{Block, State}
use syli.Object
use syli.Tracing.Queue.{
  OnePush, passed, queued, Pushes, pushes_end, pushes_next, pushed, Held, IsRoot,
}
use syli.Tracing.Colours.{Graph, InUse, Closed, Alive, is_marked}
use syli.Tracing.Colours.Paint.{Painted, painted-Alive, painted-kept}

-- What pushing `k` words leaves as it was, and what it adds
pub record Pushed (g : Graph) (s t : State) (k : ℕ) : Type 0 where
  pub alive : (q : ℕ) → InUse g q → Alive g t q
  pub marks : (q : ℕ) → is_marked t q ≡ is_marked s q
  pub bit_same : t.tracing_current_bit_mark ≡ s.tracing_current_bit_mark
  pub state_same : t.tracing_state ≡ s.tracing_state
  pub mutations_same : t.tracing_mutations_worklist ≡ s.tracing_mutations_worklist
  pub work : All (λ p. InUse g (Pointer.untag p)) t.tracing_worklist
  pub longer : length t.tracing_worklist ≤ length s.tracing_worklist + k

module _ (g : Graph) where
  abbrev pub Owns : ℕ → Type 0
  Owns p = Pointer.is_own_ref p ≡ true → InUse g (Pointer.untag p)

  -- The words own only objects in use.
  abbrev pub Owning : List ℕ → Type 0
  Owning ps = All Owns ps

  -- What owns an object in use is a root.
  pub Owns-IsRoot :
      {u : State} (ps : List ℕ)
      → Closed g
      → ((q : ℕ) → InUse g q → Alive g u q)
      → Owning ps
      → All (IsRoot u) ps
  Owns-IsRoot {u} ps closed alive owning = All-map each ps owning
    where
      each : (r : ℕ) → Owns r → IsRoot u r
      each r uses owned =
          let k = uses owned in
          let d = alive (Pointer.untag r) k in
          record {
            block = d.block;
            real = closed.real (Pointer.untag r) k;
            held = d.held;
            counted = ap Object.is_counted d.headed ∙ closed.counted (Pointer.untag r) k;
          }

  block-fits : (s : State) {o : ℕ} (h : Held s o) → Alive g s o → h.block.meta < 2 ^ 64
  block-fits s {o} h a = rw (ap (λ (x : Block). x.meta) (some-inj (sym h.held ∙ a.held))) a.fits

  queued-Painted :
      (s : State) (p : ℕ) (h : Held s (Pointer.untag p))
      → Alive g s (Pointer.untag p)
      → Painted s (pushed s p h) (Pointer.untag p) h.block (Meta.set_flags h.block.meta tracing)
  queued-Painted s p h a =
      let fits = block-fits s h a in
      let set = set_flags_lem h.block.meta tracing waiting_remove fits in
      record {
        before = h.held;
        heap = refl;
        bit_same = refl;
        count_same = set.1.refcount_same;
        stays_same = set.0;
        mark = inl set.1.mark_same;
        fits = set.1.fits;
      }

  Push-Pushed :
      {s : State} {p : ℕ} {t : State}
      → ((q : ℕ) → InUse g q → Alive g s q)
      → All (λ p. InUse g (Pointer.untag p)) s.tracing_worklist
      → (Pointer.is_own_ref p ≡ true → InUse g (Pointer.untag p))
      → OnePush s p t
      → Pushed g s t 1
  Push-Pushed alive work in_use passed = record {
    alive = alive;
    marks = λ q. refl;
    bit_same = refl;
    state_same = refl;
    mutations_same = refl;
    work = work;
    longer = omega arith;
  }
  Push-Pushed {s} {p} alive work in_use (queued h owned) =
      let paint = queued-Painted s p h (alive (Pointer.untag p) (in_use owned)) in
      let same =
        (set_flags_lem h.block.meta tracing tracing
          (block-fits s h (alive (Pointer.untag p) (in_use owned)))).1.mark_same in
      record {
        alive = λ q k. painted-Alive paint g q (alive q k);
        marks = painted-kept paint same;
        bit_same = refl;
        state_same = refl;
        mutations_same = refl;
        work = (in_use owned, work);
        longer = omega arith;
      }

  pub Pushes-Pushed :
      {s t : State} {ps : List ℕ}
      → Pushes s ps t
      → ((q : ℕ) → InUse g q → Alive g s q)
      → All (λ p. InUse g (Pointer.untag p)) s.tracing_worklist
      → Owning ps
      → Pushed g s t (length ps)
  Pushes-Pushed pushes_end alive work owning = record {
    alive = alive;
    marks = λ q. refl;
    bit_same = refl;
    state_same = refl;
    mutations_same = refl;
    work = work;
    longer = omega arith;
  }
  Pushes-Pushed (pushes_next one others) alive work (first, owning) =
      let a = Push-Pushed alive work first one in
      let b = Pushes-Pushed others a.alive a.work owning in
      record {
        alive = b.alive;
        marks = λ q. b.marks q ∙ a.marks q;
        bit_same = b.bit_same ∙ a.bit_same;
        state_same = b.state_same ∙ a.state_same;
        mutations_same = b.mutations_same ∙ a.mutations_same;
        work = b.work;
        longer = omega (arith, a.longer, b.longer);
      }
