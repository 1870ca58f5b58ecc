-- ===== src/Tracing/Colours/Step.antt =====
-- One step of the tracing keeps the invariant, and leaves less to trace.
use mathlib.Core.Path.{subst, ap₂}
use syli.Prelude.{
  ◌⊎◌, get_elem?, ℕ, ◌<◌, ◌≡◌, refl, sym, ap, ◌∙◌, Bool-cases, inl, inr, true, false, some, List,
  [], ◌∷◌, All, All-map, length, ◌==◌, if◌then◌else◌, arith,
}
use syli.Meta
use syli.Meta.{tracing, waiting_remove}
use syli.Meta.Laws.{clear_flags_lem}
use syli.Pointer
use syli.State.{Block, State}
use syli.State.Monad.{ok, and_then}
use syli.Object
use syli.Object.Heap.{with_meta, update-at, update-update}
use syli.Tracing.{one_step_tracing, trace_popped, trace_unmarked, push_roots}
use syli.Tracing.Queue.{Listed, Waits, IsRoot, push_roots-Pushes, Grows}
use syli.Tracing.Colours.{
  Graph, InUse, Closed, Alive, Colours, Seen, Pending, Changed, is_marked, words, words_of,
}
use syli.Tracing.Colours.Paint.{
  MarkOf, set_mark-MarkOf, Painted, painted-Alive, painted-same, painted-kept, painted-marks,
  painted-marked, block-marked,
}
use syli.Tracing.Colours.Push.{Owns-IsRoot, Pushed, Pushes-Pushed}
use syli.Tracing.Colours.Pop.{popped-Listed, popped-black, popped-rooted}
use syli.Tracing.Colours.Weight.{weight, pending_of, left_of-le, left_of-mark}
use syli.Tracing.Colours.Look.{HasFields-same, trace_popped-cleared, pop_tracing-ok}
use syli.Tracing.Colours.Mark.{Marks, trace_unmarked-words}

-- A step of the tracing, from `s` to `t`
pub record Traces (g : Graph) (roots : List ℕ) (s t : State) : Type 0 where
  pub colours : Colours g roots t
  pub state_same : t.tracing_state ≡ s.tracing_state
  pub mutations_same : t.tracing_mutations_worklist ≡ s.tracing_mutations_worklist
  pub less : weight g t < weight g s

module _ (g : Graph) (roots : List ℕ) (closed : Closed g) {s : State} {p : ℕ} {ps : List ℕ}
    (c : Colours g roots s) (top : s.tracing_worklist ≡ p ∷ ps) where
  abbrev o : ℕ
  o = Pointer.untag p

  in_use : All (λ q. InUse g (Pointer.untag q)) (p ∷ ps)
  in_use = rw top at c.work

  abbrev a : Alive g s o
  a = c.alive o in_use.0

  abbrev cleared : ℕ
  cleared = Meta.clear_flags a.block.meta tracing

  abbrev popped : State
  popped = record s { tracing_worklist = ps }

  abbrev seen_before : State
  seen_before = with_meta popped o a.block cleared

  is_counted-block : Object.is_counted a.block.header ≡ true
  is_counted-block = ap Object.is_counted a.headed ∙ closed.counted o in_use.0

  seen_before-Painted : Painted s seen_before o a.block cleared
  seen_before-Painted =
      let clear = clear_flags_lem a.block.meta tracing waiting_remove a.fits in
      record {
        before = a.held;
        heap = refl;
        bit_same = refl;
        count_same = clear.1.refcount_same;
        stays_same = clear.0;
        mark = inl clear.1.mark_same;
        fits = clear.1.fits;
      }

  cleared-flag : Meta.has_flags cleared tracing ≡ false
  cleared-flag = (clear_flags_lem a.block.meta tracing tracing a.fits).0

  -- A marked object is passed over.
  passed-Traces :
      (Meta.mark_tag a.block.meta == s.tracing_current_bit_mark) ≡ true
      → Traces g roots s seen_before
  passed-Traces test =
      let paint = seen_before-Painted in
      let same =
        painted-kept paint (clear_flags_lem a.block.meta tracing tracing a.fits).1.mark_same in
      let black : is_marked seen_before o ≡ true = same o ∙ block-marked s o a.held ∙ test in
      record {
        colours = record {
          bit = c.bit;
          bit_fits = c.bit_fits;
          current = c.current;
          alive = λ q k. painted-Alive paint g q (c.alive q k);
          work = in_use.1;
          changed = c.changed;
          listed = popped-Listed c paint top refl refl cleared-flag black;
          black = λ q k marked.
              popped-black c paint top refl refl cleared-flag black q k (sym (same q) ∙ marked);
          rooted = popped-rooted c paint top refl refl cleared-flag black;
        };
        state_same = refl;
        mutations_same = refl;
        less =
            omega (arith, ap length top, left_of-le g s seen_before g.objects (λ q k. same q ∙ k));
      }

  module _ {u : State} (marks : Marks seen_before u o (record a.block { meta = cleared }))
      (test : (Meta.mark_tag a.block.meta == s.tracing_current_bit_mark) ≡ false) where
    abbrev set : ℕ
    set = Meta.set_mark s.tracing_current_bit_mark cleared

    set-MarkOf : MarkOf cleared s.tracing_current_bit_mark
    set-MarkOf =
        set_mark-MarkOf c.bit s.tracing_current_bit_mark cleared seen_before-Painted.fits c.bit_fits
          c.current

    marked-Painted : Painted s u o a.block set
    marked-Painted =
        let paint = seen_before-Painted in
        let (mark, count, flags, fits) = set-MarkOf in
        record {
          before = a.held;
          heap = marks.heap ∙ update-update s.heap o _ _;
          bit_same = marks.bit_same;
          count_same = count ∙ paint.count_same;
          stays_same = flags waiting_remove ∙ paint.stays_same;
          mark = inr mark;
          fits = fits;
        }

    set-flag : Meta.has_flags set tracing ≡ false
    set-flag = let (mark, count, flags, fits) = set-MarkOf in flags tracing ∙ cleared-flag

    black : is_marked u o ≡ true
    black = painted-marks marked-Painted set-MarkOf.0

    rest : u.tracing_worklist ≡ ps
    rest = marks.work_same

    marked-alive : (q : ℕ) → InUse g q → Alive g u q
    marked-alive q k = painted-Alive marked-Painted g q (c.alive q k)

    -- The words of an object are roots.
    words-IsRoot : All (IsRoot u) (words g o)
    words-IsRoot = Owns-IsRoot g (words g o) closed marked-alive (closed.owns o in_use.0)

    listed : Listed u
    listed = popped-Listed c marked-Painted top rest marks.mutations_same set-flag black

    module _ {t : State} (listed' : Listed t) (grows : Grows u t)
        (pushed : Pushed g u t (length (words g o)))
        (here : All
          (λ r. Pointer.is_own_ref r ≡ true → Waits t (Pointer.untag r))
          (words g o)) where
      still-Seen : (r : ℕ) → Seen u r → Seen t r
      still-Seen r seen owned = elim (seen owned) [
        | inl marked ↦ inl (pushed.marks (Pointer.untag r) ∙ marked)
        | inr waits ↦ inr (grows.waiting (Pointer.untag r) waits)
      ]

      black-words :
          (q : ℕ) → InUse g q → is_marked t q ≡ true → Pending t q ⊎ All (Seen t) (words g q)
      black-words q k marked = elim (Bool-cases (o == q)) [
        | inl same ↦
            let at_q : o ≡ q = ground arith in
            inr (
              subst (λ x. All (Seen t) (words g x)) at_q
                (All-map (λ r waits owned. inr (waits owned)) (words g o) here))
        | inr other ↦
            let before =
              sym (painted-same marked-Painted q (λ e. ground arith))
              ∙ sym (pushed.marks q)
              ∙ marked in
            elim (popped-black c marked-Painted top rest marks.mutations_same set-flag black q k
              before) [
                | inl (i, r, found, at_q) ↦
                    inl (i, r, ap (λ l. get_elem? l i) pushed.mutations_same ∙ found, at_q)
                | inr seen ↦ inr (All-map still-Seen (words g q) seen)
              ]
      ]

      marked-Traces : Traces g roots s t
      marked-Traces = record {
        colours = record {
          bit = c.bit;
          bit_fits = c.bit_fits;
          current = pushed.bit_same ∙ marks.bit_same ∙ c.current;
          alive = pushed.alive;
          work = pushed.work;
          changed =
              subst (All (Changed g)) (sym (pushed.mutations_same ∙ marks.mutations_same))
                c.changed;
          listed = listed';
          black = black-words;
          rooted =
              All-map still-Seen roots
                (popped-rooted c marked-Painted top rest marks.mutations_same set-flag black);
        };
        state_same = pushed.state_same ∙ marks.state_same;
        mutations_same = pushed.mutations_same ∙ marks.mutations_same;
        less = omega (
          arith,
          pushed.longer,
          ap length top,
          ap length rest,
          ap (pending_of g) (pushed.mutations_same ∙ marks.mutations_same),
          left_of-le g u t g.objects (λ q k. pushed.marks q ∙ k),
          left_of-mark g s u o g.objects (painted-marked marked-Painted)
              (block-marked s o a.held ∙ test) black in_use.0,
        );
      }

  own_words : words_of a.block.header a.block.value ≡ words g o
  own_words = ap₂ words_of a.headed a.fields

  -- An object that is not marked is traced.
  traced-Traces :
      (Meta.mark_tag a.block.meta == s.tracing_current_bit_mark) ≡ false
      → (t : State) × (trace_unmarked o seen_before ≡ ok tt t) × Traces g roots s t
  traced-Traces test =
      let d : Block = record a.block { meta = cleared } in
      let (u, traced, marks) =
        trace_unmarked-words seen_before o d (closed.real o in_use.0) (update-at s.heap o (some d))
          (HasFields-same a.headed a.fields (closed.layout o in_use.0)) in
      let (t, pushed, listed', grows, here, pushes) =
        push_roots-Pushes (words g o) u (listed marks test) (words-IsRoot marks test) in
      let work =
        subst (λ l. All (λ q. InUse g (Pointer.untag q)) l) (sym marks.work_same) in_use.1 in
      let after = Pushes-Pushed g pushes (marked-alive marks test) work (closed.owns o in_use.0) in
      (
        t,
        traced ∙ ap (λ l. push_roots l u) own_words ∙ pushed,
        marked-Traces marks test listed' grows after here,
      )

  step-Traces : (t : State) × (trace_popped o popped ≡ ok tt t) × Traces g roots s t
  step-Traces =
      let done =
        trace_popped-cleared popped o a.block (closed.real o in_use.0) a.held is_counted-block
          a.fits a.referred a.stays in
      elim (Bool-cases (Meta.mark_tag a.block.meta == s.tracing_current_bit_mark)) [
        | inl test ↦
            let eq = ap (λ x. if x then ok tt seen_before else trace_unmarked o seen_before) test in
            (seen_before, done ∙ eq, passed-Traces test)
        | inr test ↦
            let eq = ap (λ x. if x then ok tt seen_before else trace_unmarked o seen_before) test in
            let (t, traced, traces) = traced-Traces test in (t, done ∙ eq ∙ traced, traces)
      ]

-- While a closed graph of objects is in use, and the invariant of the marking holds (the objects
-- are referred to and do not wait to be freed, the worklist is of objects in use and has all that
-- are flagged, and what a marked object or a root owns is marked or in the worklist), a step of the
-- tracing with something in the worklist ends well, keeps the invariant, the state and the
-- mutations, and leaves less to trace: the words of the objects that are not marked, and the
-- worklist.
pub one_step_tracing-Traces :
    (g : Graph) (roots : List ℕ)
    → Closed g
    → {s : State} → Colours g roots s
    → 0 < length s.tracing_worklist
    → (t : State) × (one_step_tracing s ≡ ok tt t) × Traces g roots s t
unfolding one_step_tracing
one_step_tracing-Traces g roots closed {s} c some_left = split s.tracing_worklist refl
  where
    split :
        (l : List ℕ)
        → s.tracing_worklist ≡ l
        → (t : State) × (one_step_tracing s ≡ ok tt t) × Traces g roots s t
    split [] top = absurd (omega (arith, some_left, ap length top))
    split (p ∷ ps) top =
        let (t, done, traces) = step-Traces g roots closed c top in
        (
          t,
          ap (λ r. and_then r (λ ptr. trace_popped (Pointer.untag ptr))) (pop_tracing-ok s p ps top)
              ∙ done,
          traces,
        )
