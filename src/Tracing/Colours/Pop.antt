-- ===== src/Tracing/Colours/Pop.antt =====
-- An object taken from the worklist and painted: what waited for it has been seen, and the others
-- wait still.
use syli.Prelude.{
  ℕ, zero, suc, ◌≡◌, ◌≢◌, sym, ap, ◌∙◌, Bool-cases, inl, inr, ◌⊎◌, true, false, List, ◌∷◌, All,
  All-map, get_elem?, ◌==◌, arith,
}
use syli.Prelude.Options.{some-inj}
use syli.Meta
use syli.Meta.{tracing}
use syli.Pointer
use syli.State.{Block, State}
use syli.Tracing.Queue.{Listed, Waits}
use syli.Tracing.Colours.{Graph, InUse, Colours, Seen, Pending, is_marked, words}
use syli.Tracing.Colours.Paint.{Painted, painted-at, painted-other, painted-marked}

module _ {g : Graph} {roots : List ℕ} {s u : State} {p : ℕ} {ps : List ℕ} {b : Block} {m : ℕ}
    (c : Colours g roots s) (paint : Painted s u (Pointer.untag p) b m)
    (popped : s.tracing_worklist ≡ p ∷ ps) (rest : u.tracing_worklist ≡ ps)
    (unchanged : u.tracing_mutations_worklist ≡ s.tracing_mutations_worklist)
    (cleared : Meta.has_flags m tracing ≡ false)
    (black : is_marked u (Pointer.untag p) ≡ true) where
  waits_after : (q : ℕ) → Waits s q → Pointer.untag p ≢ q → Waits u q
  waits_after q (zero, r, found, at_q) other =
      let first : p ≡ r = some-inj (sym (ap (λ l. get_elem? l 0) popped) ∙ found) in
      absurd (other (ap Pointer.untag first ∙ at_q))
  waits_after q (suc i, r, found, at_q) other = (
    i,
    r,
    ap (λ l. get_elem? l i) rest ∙ sym (ap (λ l. get_elem? l (suc i)) popped) ∙ found,
    at_q,
  )

  pub popped-Listed : Listed u
  popped-Listed q d there counted flagged = elim (Bool-cases (Pointer.untag p == q)) [
    | inl here ↦
        let at_q : Pointer.untag p ≡ q = ground arith in
        let blocks = some-inj (sym (painted-at paint) ∙ ap u.heap at_q ∙ there) in
        let set = ap (λ (x : Block). Meta.has_flags x.meta tracing) blocks ∙ flagged in
        absurd (ground (arith, cleared, set))
    | inr elsewhere ↦
        let other : Pointer.untag p ≢ q = λ e. ground arith in
        waits_after q (c.listed q d (sym (painted-other paint q other) ∙ there) counted flagged)
          other
  ]

  pub popped-Seen : (r : ℕ) → Seen s r → Seen u r
  popped-Seen r seen owned = elim (Bool-cases (Pointer.untag p == Pointer.untag r)) [
    | inl here ↦ inl (ap (is_marked u) (sym (same here)) ∙ black)
    | inr elsewhere ↦ elim (seen owned) [
      | inl marked ↦ inl (painted-marked paint (Pointer.untag r) marked)
      | inr waits ↦ inr (waits_after (Pointer.untag r) waits (λ e. ground arith))
    ]
  ]
    where
      same : (Pointer.untag p == Pointer.untag r) ≡ true → Pointer.untag p ≡ Pointer.untag r
      same e = ground arith

  pub popped-black :
      (q : ℕ) → InUse g q → is_marked s q ≡ true → Pending u q ⊎ All (Seen u) (words g q)
  popped-black q in_use marked = elim (c.black q in_use marked) [
    | inl (i, r, found, at_q) ↦ inl (i, r, ap (λ l. get_elem? l i) unchanged ∙ found, at_q)
    | inr seen ↦ inr (All-map popped-Seen (words g q) seen)
  ]

  pub popped-rooted : All (Seen u) roots
  popped-rooted = All-map popped-Seen roots c.rooted
