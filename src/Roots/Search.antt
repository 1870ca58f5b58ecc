-- ===== src/Roots/Search.antt =====
-- The search of the stack map table is right on a table in order.
use syli.Prelude.{
  ℕ, zero, suc, ◌+◌, ◌-◌, ◌/◌, ◌%◌, ◌^◌, ◌≤◌, ◌<◌, ◌≡◌, ◌≢◌, ◌⊎◌, inl, inr, refl, Bool-cases, false,
  Option-cases, none, some, List, [], ◌∷◌, get_elem?, length, ltb, leb, ◌==◌, arith,
}
use mathlib.Core.Option
use syli.Roots.{RecordEntry, not_found, search_entry, lookup_record_entry}

abbrev pub Sorted : List RecordEntry → Type 0
Sorted entries =
    (i j : ℕ) (d e : RecordEntry)
    → i ≤ j
    → get_elem? entries i ≡ some d
    → get_elem? entries j ≡ some e
    → d.pc ≤ e.pc

-- `r` is an entry of the table for `pc`, or there is none and `r` says so.
abbrev pub Answers : List RecordEntry → ℕ → RecordEntry → Type 0
Answers entries pc r =
    ((i : ℕ) × (get_elem? entries i ≡ some r) × (r.pc ≡ pc))
    ⊎ ((r ≡ not_found) × ((i : ℕ) (e : RecordEntry) → get_elem? entries i ≡ some e → e.pc ≢ pc))

get_elem?-lt : {A : Type 0} (xs : List A) (i : ℕ) → i < length xs → get_elem? xs i ≢ none
get_elem?-lt [] i h = absurd (omega arith)
get_elem?-lt (x ∷ xs) zero h = ground arith
get_elem?-lt (x ∷ xs) (suc i) h = get_elem?-lt xs i (omega arith)

get_elem?-ge_length : {A : Type 0} (xs : List A) (i : ℕ) → length xs ≤ i → get_elem? xs i ≡ none
get_elem?-ge_length [] i h = refl
get_elem?-ge_length (x ∷ xs) zero h = absurd (omega arith)
get_elem?-ge_length (x ∷ xs) (suc i) h = get_elem?-ge_length xs i (omega arith)

module _ (entries : List RecordEntry) (pc : ℕ) where
  -- The entries for `pc`, if any, stand from `low` and below `high`.
  record Within (low high : ℕ) : Type 0 where
    fits : high ≤ length entries
    below : (i : ℕ) (e : RecordEntry) → i < low → get_elem? entries i ≡ some e → e.pc < pc
    above : (i : ℕ) (e : RecordEntry) → high ≤ i → get_elem? entries i ≡ some e → pc < e.pc

  search_entry-Answers :
      (fuel low high : ℕ)
      → Sorted entries
      → high - low < fuel
      → Within low high
      → (r : RecordEntry) × (search_entry fuel entries pc low high ≡ some r) × Answers entries pc r
  unfolding search_entry Option.bind
  search_entry-Answers zero low high sorted enough w = absurd (omega arith)
  search_entry-Answers (suc fuel) low high sorted enough w = elim (Bool-cases (ltb low high)) [
    | inr over ↦ (
      not_found,
      rw over,
      inr (
        refl,
        (λ i e h same. elim (Bool-cases (ltb i low)) [
          | inl early ↦ absurd (omega (arith, w.below i e (ground arith) h))
          | inr late ↦ absurd (omega (arith, w.above i e (ground arith) h))
        ]),
      ),
    )
    | inl open_range ↦
        let mid : ℕ = low + (high - low) / 2 in
        elim (Option-cases (get_elem? entries mid)) [
          | inl outside ↦ absurd (get_elem?-lt entries mid (ground (arith, w.fits)) outside)
          | inr (entry, held) ↦ elim (Bool-cases (entry.pc == pc)) [
            | inl found ↦ (entry, rw (open_range, held, found), inl (mid, held, ground arith))
            | inr other ↦ elim (Bool-cases (ltb pc entry.pc)) [
              | inl less ↦
                  let (r, e, a) = search_entry-Answers fuel low mid sorted (ground arith) (record {
                    fits = ground (arith, w.fits);
                    below = w.below;
                    above = λ i e from h. ground (arith, sorted mid i entry e from held h);
                  }) in
                  (r, rw (open_range, held, other, less) e, a)
              | inr more ↦
                  let (r, e, a) =
                    search_entry-Answers fuel (mid + 1) high sorted (ground arith) (record {
                      fits = w.fits;
                      below =
                          λ i e to h. ground (arith, sorted i mid e entry (ground arith) h held);
                      above = w.above;
                    }) in
                  (r, rw (open_range, held, other, more) e, a)
            ]
          ]
        ]
  ]

-- On a table in order of fewer than `2 ^ 31` entries, the search ends without a read past the
-- table, and its result is an entry for the program counter, or says that there is none.
pub lookup_record_entry-Answers :
    (entries : List RecordEntry) (pc : ℕ)
    → Sorted entries
    → length entries < 2 ^ 31
    → (r : RecordEntry) × (lookup_record_entry entries pc ≡ some r) × Answers entries pc r
unfolding lookup_record_entry
lookup_record_entry-Answers entries pc sorted small =
    let e : length entries % 2 ^ 32 ≡ length entries = omega arith in
    let within : leb (2 ^ 31) (length entries) ≡ false = ground arith in
    rw (e, within)
      (search_entry-Answers entries pc (length entries + 1) 0 (length entries) sorted (omega arith)
        (record {
          fits = omega arith;
          below = λ i e h. absurd (omega arith);
          above = λ i e h held. absurd (ground (arith, get_elem?-ge_length entries i h));
        }))
