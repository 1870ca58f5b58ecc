-- ===== src/Roots.antt =====
-- runtime/src/syli_state_gc_roots.c: the table of stack map records, ordered by program counter,
-- and its search. A record and its locations are addresses.
pub mod Search
pub mod Section
pub mod Format
pub mod Bytes
pub mod Build
pub mod Record
pub mod Frames
pub mod Collect
pub mod Table
pub mod Cache
pub mod Decode
mod Tests
use syli.Prelude.{
  ℕ, zero, suc, ◌+◌, ◌-◌, ◌/◌, ◌%◌, ◌^◌, Option, none, some, List, get_elem?, length, ltb, leb,
  ◌==◌, if◌then◌else◌,
}
use mathlib.Core.Option

-- `SyliStackMap_Record_Entry`
pub record RecordEntry : Type 0 where
  pub pc : ℕ
  pub locations : ℕ
  pub stack_record : ℕ

-- What the search returns for an unknown program counter
abbrev pub not_found : RecordEntry
not_found = record { pc = 2 ^ 63 - 1; locations = 0; stack_record = 0 }

-- The loop, with fuel for its rounds; a `none` is a read past the table, or the end of the fuel.
pub search_entry : (fuel : ℕ) → List RecordEntry → (pc low high : ℕ) → Option RecordEntry
search_entry zero entries pc low high = none
search_entry (suc fuel) entries pc low high =
    if ltb low high
    then (let mid = low + (high - low) / 2 in
        let lower = search_entry fuel entries pc low mid in
        let upper = search_entry fuel entries pc (mid + 1) high in
        Option.bind (get_elem? entries mid) (λ entry.
          if entry.pc == pc then some entry else if ltb pc entry.pc then lower else upper))
    else some not_found

-- The number of entries as an `int`: a negative one ends the loop at once.
pub lookup_record_entry : List RecordEntry → (pc : ℕ) → Option RecordEntry
lookup_record_entry entries pc =
    let high = length entries % 2 ^ 32 in
    if leb (2 ^ 31) high
    then some not_found
    else search_entry (length entries + 1) entries pc 0 high
