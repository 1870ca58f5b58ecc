-- ===== src/Tracing/Colours/Reached.antt =====
-- What the invariant gives when there is nothing left to trace, and that the counters do not
-- matter to it.
use syli.Prelude.{All, ℕ, ◌≡◌, refl, ap, inl, inr, true, List, [], All_at, get_elem?, arith}
use syli.Pointer
use syli.State.{State, TracingState}
use syli.Tracing.Machine.{Traced}
use syli.Tracing.Colours.{
  Graph, InUse, Closed, Alive-heap, Colours, Seen, Reaches, is_marked, words,
}
use syli.Tracing.Colours.Push.{Owns, Owning}

-- The same state with other counters and another state of the machine
abbrev pub resumed : State → (steps mutations : ℕ) → TracingState → State
resumed t steps mutations p = record t {
  tracing_steps = steps;
  mutation_steps = mutations;
  tracing_state = p;
}

pub resumed-Colours :
    {g : Graph} {roots : List ℕ} {t : State} (steps mutations : ℕ) (p : TracingState)
    → Colours g roots t
    → Colours g roots (resumed t steps mutations p)
resumed-Colours steps mutations p c = record {
  bit = c.bit;
  bit_fits = c.bit_fits;
  current = c.current;
  alive = λ q k. Alive-heap refl (c.alive q k);
  work = c.work;
  listed = c.listed;
  changed = c.changed;
  black = c.black;
  rooted = c.rooted;
}

Seen-marked :
    (t : State) (p : ℕ)
    → t.tracing_worklist ≡ []
    → Seen t p
    → Pointer.is_own_ref p ≡ true
    → is_marked t (Pointer.untag p) ≡ true
Seen-marked t p empty seen owned = elim (seen owned) [
  | inl marked ↦ marked
  | inr (i, q, there, at_q) ↦ absurd (ground (arith, ap (λ l. get_elem? l i) empty, there))
]

-- With nothing in either worklist all that is reached is marked.
pub Reaches-marked :
    {g : Graph} {roots : List ℕ} {t : State} {o : ℕ}
    → Closed g
    → Owning g roots
    → Colours g roots t
    → Traced t
    → Reaches g roots o
    → InUse g o × (is_marked t o ≡ true)
Reaches-marked {g} {roots} {t} closed owning c (empty, none_changed) (Reaches.root {p} m owned) = (
  All_at (Owns g) roots owning m owned,
  Seen-marked t p empty (All_at (Seen t) roots c.rooted m) owned,
)
Reaches-marked {g} {roots} {t} closed owning c (empty, none_changed)
      (Reaches.child {o} {p} r m owned) =
    let (in_use, marked) = Reaches-marked closed owning c (empty, none_changed) r in
    let seen : All (Seen t) (words g o) = elim (c.black o in_use marked) [
      | inl (i, q, there, at_q) ↦
          absurd (ground (arith, ap (λ l. get_elem? l i) none_changed, there))
      | inr seen ↦ seen
    ] in
    (
      All_at (Owns g) (words g o) (closed.owns o in_use) m owned,
      Seen-marked t p empty (All_at (Seen t) (words g o) seen m) owned,
    )
