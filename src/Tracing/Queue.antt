-- ===== src/Tracing/Queue.antt =====
-- What is pushed to be traced stands in the worklist.
use syli.Prelude.{
  Bool-cases, inl, inr, ℕ, suc, ◌≡◌, ◌≢◌, refl, sym, ap, ◌∙◌, true, false, some, List, [], ◌∷◌, All,
  get_elem?, ◌==◌, if◌then◌else◌, arith,
}
use syli.Meta
use syli.Meta.{tracing}
use syli.Pointer
use syli.Pointer.Tags.{is_own_ref-eq}
use syli.Stack
use syli.State.{Block, State}
use syli.State.Monad.{ok, update, and_then, pure}
use syli.Object
use syli.Object.Heap.{update-at}
use syli.Gc
use syli.Gc.Candidates.{update-other}
use syli.Gc.Register.{has_flags-counted, set_flags-counted}
use syli.Tracing.{push_roots}

-- A counted object at `o`
pub record Held (s : State) (o : ℕ) : Type 0 where
  pub block : Block
  pub real : o ≢ 0
  pub held : s.heap o ≡ some block
  pub counted : Object.is_counted block.header ≡ true

-- A pointer of the worklist is to `o`.
abbrev pub Waits : State → ℕ → Type 0
Waits s o = (i : ℕ) × (p : ℕ) × (get_elem? s.tracing_worklist i ≡ some p) × (Pointer.untag p ≡ o)

-- Each counted object with the flag stands in the worklist.
abbrev pub Listed : State → Type 0
Listed s =
    (o : ℕ) (b : Block)
    → s.heap o ≡ some b
    → Object.is_counted b.header ≡ true
    → Meta.has_flags b.meta tracing ≡ true
    → Waits s o

-- From `s` to `t`, no object goes and none leaves the worklist.
pub record Grows (s t : State) : Type 0 where
  pub objects : (o : ℕ) → Held s o → Held t o
  pub waiting : (o : ℕ) → Waits s o → Waits t o

abbrev pub IsRoot : State → ℕ → Type 0
IsRoot s p = Pointer.is_own_ref p ≡ true → Held s (Pointer.untag p)

abbrev pub IsListed : State → ℕ → Type 0
IsListed t p = Pointer.is_own_ref p ≡ true → Waits t (Pointer.untag p)

module _ (s : State) (p : ℕ) (h : Held s (Pointer.untag p)) where
  abbrev pub pushed : State
  pushed = record s {
    heap =
        update s.heap (Pointer.untag p)
          (some (record h.block { meta = Meta.set_flags h.block.meta tracing }));
    tracing_worklist = p ∷ s.tracing_worklist;
  }

  pushed-Grows : Grows s pushed
  pushed-Grows = record {
    objects = λ o k. elim (Bool-cases (Pointer.untag p == o)) [
      | inl here ↦
          let at_o : Pointer.untag p ≡ o = ground arith in
          record {
            block = record h.block { meta = Meta.set_flags h.block.meta tracing };
            real = k.real;
            held = sym (ap pushed.heap at_o) ∙ update-at s.heap (Pointer.untag p) _;
            counted = h.counted;
          }
      | inr elsewhere ↦ record {
        block = k.block;
        real = k.real;
        held = update-other s.heap (Pointer.untag p) _ o (λ e. ground arith) ∙ k.held;
        counted = k.counted;
      }
    ];
    waiting = λ o (i, q, found, at_o). (suc i, q, found, at_o);
  }

  pushed-Listed : Listed s → Listed pushed
  pushed-Listed listed o b there counted flagged = elim (Bool-cases (Pointer.untag p == o)) [
    | inl here ↦ (0, p, refl, ground arith)
    | inr elsewhere ↦
        let (i, q, found, at_o) =
          listed o b (sym (update-other s.heap (Pointer.untag p) _ o (λ e. ground arith)) ∙ there)
            counted flagged in
        (suc i, q, found, at_o)
  ]

-- One push that returns, and those of some words
pub data OnePush (s : State) (p : ℕ) : State → Type 0 where
  passed : OnePush s p s
  queued : (h : Held s (Pointer.untag p)) → Pointer.is_own_ref p ≡ true → OnePush s p (pushed s p h)

pub data Pushes : State → List ℕ → State → Type 0 where
  pushes_end : {s : State} → Pushes s [] s
  pushes_next :
      {s t u : State} {p : ℕ} {ps : List ℕ} → OnePush s p t → Pushes t ps u → Pushes s (p ∷ ps) u

push-borrowed :
    (s : State) (p : ℕ)
    → Pointer.is_own_ref p ≡ false
    → (if p == 0 then pure tt else Gc.tracing_worklist_push p) s ≡ ok tt s
unfolding Gc.tracing_worklist_push
push-borrowed s p borrowed = elim (Bool-cases (p == 0)) [
  | inl null ↦ rw null refl
  | inr real ↦ rw (real, borrowed) refl
]

-- One pointer is pushed, or passed over.
push-Listed :
    (s : State) (p : ℕ)
    → Listed s
    → IsRoot s p
    → (t : State) × ((if p == 0 then pure tt else Gc.tracing_worklist_push p) s ≡ ok tt t)
      × Listed t
      × Grows s t
      × IsListed t p
      × OnePush s p t
unfolding Gc.tracing_worklist_push Stack.push
push-Listed s p listed root =
    let same : Grows s s = record { objects = λ o k. k; waiting = λ o w. w } in
    elim (Bool-cases (Pointer.is_own_ref p)) [
      | inr borrowed ↦ (
        s,
        push-borrowed s p borrowed,
        listed,
        same,
        (λ owned. absurd (ground (arith, owned, borrowed))),
        passed,
      )
      | inl owned ↦
          let h = root owned in
          let real : (p == 0) ≡ false = ground (arith, owned, is_own_ref-eq p) in
          let reads = has_flags-counted s (Pointer.untag p) tracing h.real h.held h.counted in
          elim (Bool-cases (Meta.has_flags h.block.meta tracing)) [
            | inl known ↦ (
              s,
              rw (real, owned, reads, known) refl,
              listed,
              same,
              (λ _. listed (Pointer.untag p) h.block h.held h.counted known),
              passed,
            )
            | inr idle ↦ (
              pushed s p h,
              rw
                  (
                    real,
                    owned,
                    reads,
                    idle,
                    set_flags-counted s (Pointer.untag p) tracing h.real h.held h.counted,
                  )
                  refl,
              pushed-Listed s p h listed,
              pushed-Grows s p h,
              (λ _. (0, p, refl, refl)),
              queued h owned,
            )
          ]
    ]

IsRoot-All :
    (s t : State) (ps : List ℕ)
    → ((o : ℕ) → Held s o → Held t o)
    → All (IsRoot s) ps
    → All (IsRoot t) ps
IsRoot-All s t [] objects roots = tt
IsRoot-All s t (p ∷ ps) objects (root, roots) =
    (λ owned. objects _ (root owned), IsRoot-All s t ps objects roots)

pub push_roots-Pushes :
    (ps : List ℕ) (s : State)
    → Listed s
    → All (IsRoot s) ps
    → (t : State) × (push_roots ps s ≡ ok tt t)
      × Listed t
      × Grows s t
      × All (IsListed t) ps
      × Pushes s ps t
unfolding push_roots
push_roots-Pushes [] s listed roots =
    (s, refl, listed, record { objects = λ o k. k; waiting = λ o w. w }, tt, pushes_end)
push_roots-Pushes (p ∷ ps) s listed (root, roots) =
    let (t, pushed_p, listed', grows, here, one) = push-Listed s p listed root in
    let (u, pushed_ps, listed'', grows', rest, others) =
      push_roots-Pushes ps t listed' (IsRoot-All s t ps grows.objects roots) in
    (
      u,
      ap (λ r. and_then r (λ a. push_roots ps)) pushed_p ∙ pushed_ps,
      listed'',
      record {
        objects = λ o k. grows'.objects o (grows.objects o k);
        waiting = λ o w. grows'.waiting o (grows.waiting o w);
      },
      (λ owned. grows'.waiting _ (here owned), rest),
      pushes_next one others,
    )

-- When each flagged object stands in the worklist, and each word of `ps` that is an owned reference
-- is one to a counted object of the heap, the words are pushed without an end other than a return.
-- Behind it each flagged object stands in the worklist, the objects are there and the worklist has
-- what it had, and for each owned reference of `ps` the worklist has one to the same object.
pub push_roots-Listed :
    (ps : List ℕ) (s : State)
    → Listed s
    → All (IsRoot s) ps
    → (t : State) × (push_roots ps s ≡ ok tt t) × Listed t × Grows s t × All (IsListed t) ps
push_roots-Listed ps s listed roots =
    let (t, done, listed', grows, here, pushes) = push_roots-Pushes ps s listed roots in
    (t, done, listed', grows, here)
