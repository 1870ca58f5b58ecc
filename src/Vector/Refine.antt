-- ===== src/Vector/Refine.antt =====
-- A valid chunked vector behaves as the stack of its elements.
use mathlib.Core.Option
use syli.Prelude.{
  ℕ, ◌+◌, ◌-◌, ◌*◌, ◌/◌, ◌%◌, ◌^◌, ◌≤◌, ◌<◌, ◌≡◌, ◌≢◌, refl, true, Option, none, some, ltb, leb,
  ◌==◌, [], ◌∷◌, length, Option-cases, inl, inr, Bool-cases, sym, ◌∙◌, arith,
}
use syli.Vector.{
  Vector, Slot, chunk_size, read, write, put, push_back, alloc_slot, pop_back, clear, claim,
  claimed, push_active, back, at, index_to_chunk, chunk_before,
}
use syli.Vector.Inv.{
  IsValid, Ready, room, room-Ready, room-ne-none, push_back-room, alloc_slot-room, pop_back-IsValid,
  clear-IsValid,
}
use syli.Stack
use syli.Stack.{Stack, at-pop, back-at, at-ge_length}

abbrev pub slot : ℕ → Slot
slot i = record { chunk = i / chunk_size; offset = i % chunk_size }

module _ {A : Type 0} where
  -- The element at an offset of a chunk
  cell : Vector A → ℕ → ℕ → Option A
  cell v c o = Option.map (λ ch. ch o) (v.chunks c)

  -- The vector is valid and its elements, by number, are those of the stack.
  pub record Holds (v : Vector A) (xs : Stack A) : Type 0 where
    pub valid : IsValid v
    pub count : v.total_elements ≡ length xs
    pub items : (i : ℕ) → i < length xs → read v (slot i) ≡ Stack.at xs i

  read-cell :
      {v : Vector A} (c o : ℕ)
      → IsValid v
      → c < v.chunk_count
      → o < chunk_size
      → read v (record { chunk = c; offset = o }) ≡ cell v c o
  unfolding read cell
  read-cell c o i hc ho = ground arith

  -- One write at the active slot
  record Pushed (x : A) (v v' : Vector A) : Type 0 where
    valid : IsValid v'
    count : v'.total_elements ≡ v.total_elements + 1
    chunk_count_same : v'.chunk_count ≡ v.chunk_count
    new : cell v' v.active_chunk v.active_offset ≡ some x
    old :
        (c o : ℕ)
        → c * chunk_size + o < v.total_elements
        → o < chunk_size
        → cell v' c o ≡ cell v c o

  push_active-Pushed :
      (x : A) {v v' : Vector A} → Ready v → push_active x v ≡ some v' → Pushed x v v'
  unfolding push_active claim write put cell
  push_active-Pushed x r e = record {
    valid = grind arith;
    count = ground arith;
    chunk_count_same = ground arith;
    new = ground arith;
    old = grind arith;
  }

  push_active-ne-none : (x : A) {v : Vector A} → Ready v → push_active x v ≢ none
  unfolding push_active claim write put
  push_active-ne-none x r = grind arith

  -- Room is made without touching an element.
  record Roomy (v v' : Vector A) : Type 0 where
    ready : Ready v'
    total_same : v'.total_elements ≡ v.total_elements
    chunk_count_grows : v'.chunk_count ≤ v.chunk_count + 1
    chunks_kept : (c : ℕ) → c < v.chunk_count → v'.chunks c ≡ v.chunks c

  room-Roomy :
      (junk : ℕ → A) {v : Vector A}
      → IsValid v
      → v.chunk_count < 2 ^ 30
      → (v' : Vector A) × (room junk v ≡ some v') × Roomy v v'
  room-Roomy junk {v} i h = elim (Option-cases (room junk v)) [
    | inl e ↦ absurd (room-ne-none junk i h e)
    | inr (v', e) ↦ (
      v',
      e,
      (let (r, t, g, k) = room-Ready junk i h e in
          record { ready = r; total_same = t; chunk_count_grows = g; chunks_kept = k }),
    )
  ]

  cell-kept :
      {v v' : Vector A} → Roomy v v' → (c o : ℕ) → c < v.chunk_count → cell v' c o ≡ cell v c o
  unfolding cell
  cell-kept r c o h = rw (r.chunks_kept c h)

  module _ (x : A) {v v₁ v₂ : Vector A} {xs : Stack A} (h : Holds v xs) (r : Roomy v v₁)
      (p : Pushed x v₁ v₂) (i : ℕ) where
    new_item : i ≡ length xs → read v₂ (slot i) ≡ some x
    new_item e =
        let chunk_at : i / 512 ≡ v₁.active_chunk =
          omega (arith, h.count, r.total_same, r.ready.valid.total, r.ready.free) in
        let offset_at : i % 512 ≡ v₁.active_offset =
          omega (arith, h.count, r.total_same, r.ready.valid.total, r.ready.free) in
        rw (chunk_at, offset_at)
          (read-cell v₁.active_chunk v₁.active_offset p.valid
              (omega (arith, p.chunk_count_same, r.ready.valid.active)) r.ready.free
            ∙ p.new)

    old_item : i < length xs → read v₂ (slot i) ≡ Stack.at xs i
    old_item lt =
        read-cell (i / 512) (i % 512) p.valid
          (omega
            (arith, h.count, r.total_same, p.valid.total, p.count, p.valid.active, p.valid.offset))
          (omega arith)
        ∙ p.old (i / 512) (i % 512) (omega (arith, h.count, r.total_same)) (omega arith)
        ∙ cell-kept r (i / 512) (i % 512)
            (omega (arith, h.count, h.valid.total, h.valid.active, h.valid.offset))
        ∙ sym (
            read-cell (i / 512) (i % 512) h.valid
              (omega (arith, h.count, h.valid.total, h.valid.active, h.valid.offset)) (omega arith))
        ∙ h.items i lt

  Pushed-Holds :
      (x : A) {v v₁ v₂ : Vector A} {xs : Stack A}
      → Holds v xs
      → Roomy v v₁
      → Pushed x v₁ v₂
      → Holds v₂ (x ∷ xs)
  unfolding Stack.at
  Pushed-Holds x {v} {v₁} {v₂} {xs} h r p = record {
    valid = p.valid;
    count = omega (arith, h.count, r.total_same, p.count);
    items = λ i lt. elim (Bool-cases (i == length xs)) [
      | inl e ↦ rw e (new_item x h r p i (ground arith))
      | inr e ↦ rw e (old_item x h r p i (ground arith))
    ];
  }

  -- On a valid vector of fewer than 2 ^ 30 chunks, while allocation succeeds, `vector_push_back`
  -- adds the element as the newest, keeps the others, and adds at most one chunk.
  pub push_back-Holds :
      (junk : ℕ → A) (x : A) {v : Vector A} {xs : Stack A}
      → Holds v xs
      → v.chunk_count < 2 ^ 30
      → (v' : Vector A) × (push_back true true junk x v ≡ some v')
        × Holds v' (x ∷ xs)
        × (v'.chunk_count ≤ v.chunk_count + 1)
  unfolding Option.bind
  push_back-Holds junk x {v} h small =
      let (v₁, made, roomy) = room-Roomy junk h.valid small in
      elim (Option-cases (push_active x v₁)) [
        | inl e ↦ absurd (push_active-ne-none x roomy.ready e)
        | inr (v₂, e) ↦
            let p = push_active-Pushed x roomy.ready e in
            (
              v₂,
              rw (push_back-room, made) e,
              Pushed-Holds x h roomy p,
              omega (arith, p.chunk_count_same, roomy.chunk_count_grows),
            )
      ]

  claimed-write :
      (x : A) (v : Vector A)
      → Option.bind (claimed v) (λ (s, v'). Option.bind s (λ p. write v' p x)) ≡ push_active x v
  unfolding claimed push_active Option.bind
  claimed-write x v = refl

  -- While allocation succeeds, a write to the slot from `vector_alloc_slot` has the effect of
  -- `vector_push_back`.
  pub alloc_slot-push_back :
      (junk : ℕ → A) (x : A) (v : Vector A)
      → Option.bind (alloc_slot true true junk v) (λ (s, v'). Option.bind s (λ p. write v' p x))
        ≡ push_back true true junk x v
  unfolding Option.bind
  alloc_slot-push_back junk x v = rw (alloc_slot-room, push_back-room) (go (room junk v))
    where
      go :
          (o : Option (Vector A))
          → Option.bind (Option.bind o claimed) (λ (s, v'). Option.bind s (λ p. write v' p x))
            ≡ Option.bind o (push_active x)
      go none = refl
      go (some v₁) = claimed-write x v₁

  length-pop : (xs : Stack A) → length (Stack.pop xs) ≡ length xs - 1
  unfolding Stack.pop
  length-pop [] = refl
  length-pop (x ∷ xs) = omega arith

  total_elements-pop_back :
      (v : Vector A) (xs : Stack A)
      → v.total_elements ≡ length xs
      → (pop_back v).total_elements ≡ length (Stack.pop xs)
  unfolding pop_back
  total_elements-pop_back v xs e = ground (arith, length-pop xs)

  read-pop_back : (v : Vector A) (s : Slot) → read (pop_back v) s ≡ read v s
  unfolding read pop_back
  read-pop_back v s = ground arith

  -- `vector_pop_back` of a valid vector drops the newest element and keeps the others; on no
  -- elements it does nothing.
  pub pop_back-Holds :
      {v : Vector A} {xs : Stack A} → Holds v xs → Holds (pop_back v) (Stack.pop xs)
  pop_back-Holds {v} {xs} h = record {
    valid = pop_back-IsValid h.valid;
    count = total_elements-pop_back v xs h.count;
    items = λ i lt.
        read-pop_back v (slot i)
        ∙ h.items i (omega (arith, length-pop xs))
        ∙ sym (at-pop xs i (omega (arith, length-pop xs)));
  }

  -- `vector_back` of a valid vector points to the newest element, and is null on no elements.
  pub back-Holds :
      {v : Vector A} {xs : Stack A} → Holds v xs → Option.bind (back v) (read v) ≡ Stack.back xs
  unfolding back chunk_before Option.bind
  back-Holds {v} {xs} h = elim (Bool-cases (v.total_elements == 0)) [
    | inl none_left ↦ rw (none_left, back-at) (sym (at-ge_length xs _ (ground (arith, h.count))))
    | inr some_left ↦
        let newest = h.items (length xs - 1) (ground (arith, h.count)) in
        elim (Bool-cases (ltb 0 v.active_offset)) [
          | inl inside ↦
              let c : (length xs - 1) / 512 ≡ v.active_chunk =
                ground (arith, h.count, h.valid.total, h.valid.offset) in
              let o : (length xs - 1) % 512 ≡ v.active_offset - 1 =
                ground (arith, h.count, h.valid.total, h.valid.offset) in
              rw (some_left, inside, back-at) (rw (c, o) at newest)
          | inr start ↦
              let c : (length xs - 1) / 512 ≡ chunk_before v.active_chunk =
                ground (arith, h.count, h.valid.total) in
              let o : (length xs - 1) % 512 ≡ 511 = ground (arith, h.count, h.valid.total) in
              rw (some_left, start, back-at) (rw (c, o) at newest)
        ]
  ]

  -- On a valid vector of fewer than 2 ^ 30 chunks, `vector_at` points to the element of that
  -- number, and is null past the end.
  pub at-Holds :
      {v : Vector A} {xs : Stack A} (i : ℕ)
      → Holds v xs
      → v.chunk_count < 2 ^ 30
      → Option.bind (at v i) (read v) ≡ Stack.at xs i
  unfolding at index_to_chunk Option.bind
  at-Holds {v} {xs} i h small = elim (Bool-cases (leb v.total_elements i)) [
    | inl past ↦ rw past (sym (at-ge_length xs i (ground (arith, h.count))))
    | inr within ↦
        let fits : i / 512 % 2 ^ 32 ≡ i / 512 =
          ground (arith, h.count, h.valid.total, h.valid.active, h.valid.offset) in
        rw (within, fits) (h.items i (ground (arith, h.count)))
  ]

  -- `vector_clear` forgets every element and keeps the chunks.
  pub clear-Holds : {v : Vector A} {xs : Stack A} → Holds v xs → Holds (clear v) []
  unfolding clear
  clear-Holds h = record {
    valid = clear-IsValid h.valid;
    count = refl;
    items = λ i lt. absurd (omega arith);
  }
