-- ===== src/Roots/Tests.antt =====
-- A concrete table of stack map records, a concrete section, and the theorems applied to them.
use syli.Prelude.{
  inl, ℕ, zero, suc, ◌+◌, ◌^◌, ◌<◌, ◌≡◌, ◌≢◌, refl, Bool, true, All, Option, none, some, List, [],
  ◌∷◌, ltb, ◌==◌, if◌then◌else◌, arith,
}
use syli.State.Monad.{pure, ◌>>◌}
use syli.Roots.{RecordEntry, lookup_record_entry}
use syli.Roots.Section.{Location, build_record_entry}
use syli.Roots.Format.{
  MapRecord, StackMap, LocationFits, RecordFits, Fits, print, function_entries, entries_of,
  records_at, count_records,
}
use syli.Roots.Build.{build_record_entry-print}
use syli.Roots.Decode.{decode_location_lem}
use syli.Roots.Frames.{
  loc_register, loc_direct, loc_indirect, decode_location, Frame, collect_frame, collect_frames,
  collect_stack_roots,
}
use syli.Roots.Table.{Collects, collect_frame-Collects}
use syli.Roots.Cache.{collect_stack_roots-kept}
use syli.Roots.Search.{Sorted, Answers, lookup_record_entry-Answers}

abbrev table : List RecordEntry
table =
    record { pc = 100; locations = 8; stack_record = 0 }
    ∷ record { pc = 140; locations = 40; stack_record = 32 }
    ∷ record { pc = 200; locations = 72; stack_record = 64 }
    ∷ []

table-Sorted : Sorted table
table-Sorted zero zero d e le hd he = ground arith
table-Sorted zero (suc zero) d e le hd he = ground arith
table-Sorted zero (suc (suc zero)) d e le hd he = ground arith
table-Sorted (suc zero) zero d e le hd he = absurd (omega arith)
table-Sorted (suc zero) (suc zero) d e le hd he = ground arith
table-Sorted (suc zero) (suc (suc zero)) d e le hd he = ground arith
table-Sorted (suc (suc zero)) zero d e le hd he = absurd (omega arith)
table-Sorted (suc (suc zero)) (suc zero) d e le hd he = absurd (omega arith)
table-Sorted (suc (suc zero)) (suc (suc zero)) d e le hd he = ground arith
table-Sorted (suc (suc (suc i))) j d e le hd he = absurd (ground arith)
table-Sorted i (suc (suc (suc j))) d e le hd he = absurd (ground arith)

lookup_record_entry-Answers_example :
    (r : RecordEntry) × (lookup_record_entry table 140 ≡ some r) × Answers table 140 r
lookup_record_entry-Answers_example =
    lookup_record_entry-Answers table 140 table-Sorted (omega arith)

-- A section of one function with two calls
abbrev slot : Location
slot = record { kind = 3; size = 8; dwarf_reg = 7; offset = 16 }

abbrev saved : Location
saved = record { kind = 1; size = 8; dwarf_reg = 3; offset = 0 }

abbrev first_call : MapRecord
first_call = record {
  id = 5;
  instr_offset = 8;
  flags = 0;
  locations = slot ∷ saved ∷ [];
  live_outs = [];
}

abbrev second_call : MapRecord
second_call = record {
  id = 6;
  instr_offset = 20;
  flags = 0;
  locations = slot ∷ [];
  live_outs = 77 ∷ [];
}

abbrev sample : StackMap
sample = record {
  functions = record { addr = 4096; stack_size = 32; records = first_call ∷ second_call ∷ [] } ∷ [];
  constants = 9 ∷ [];
}

slot-Fits : LocationFits slot
slot-Fits = (omega arith, omega arith, omega arith, omega arith)

saved-Fits : LocationFits saved
saved-Fits = (omega arith, omega arith, omega arith, omega arith)

few_records_fit : count_records sample.functions < 2 ^ 32
unfolding count_records
few_records_fit = omega arith

sample-Fits : Fits sample
sample-Fits =
    let calls : All RecordFits (first_call ∷ second_call ∷ []) = (
      (omega arith, omega arith, omega arith, (slot-Fits, (saved-Fits, tt))),
      ((omega arith, omega arith, omega arith, (slot-Fits, tt)), tt),
    ) in
    (omega arith, omega arith, few_records_fit, ((omega arith, omega arith, calls), tt))

abbrev sample_table : List RecordEntry
sample_table =
    record { pc = 4104; locations = 8384568; stack_record = 8384552 }
    ∷ record { pc = 4116; locations = 8384616; stack_record = 8384600 }
    ∷ []

sample_entries : function_entries 8384504 (records_at sample) sample.functions ≡ sample_table
unfolding function_entries entries_of
sample_entries = refl

sample_table-Sorted : Sorted sample_table
sample_table-Sorted zero zero d e le hd he = ground arith
sample_table-Sorted zero (suc zero) d e le hd he = ground arith
sample_table-Sorted (suc zero) zero d e le hd he = absurd (omega arith)
sample_table-Sorted (suc zero) (suc zero) d e le hd he = ground arith
sample_table-Sorted (suc (suc i)) j d e le hd he = absurd (ground arith)
sample_table-Sorted i (suc (suc j)) d e le hd he = absurd (ground arith)

sample_entries-Sorted : Sorted (function_entries 8384504 (records_at sample) sample.functions)
sample_entries-Sorted = rw sample_entries sample_table-Sorted

few_records : count_records sample.functions < 2 ^ 31
unfolding count_records
few_records = omega arith

start_is_there : ◌≢◌ {A = ℕ} 8384504 0
start_is_there e = absurd (omega (arith, e))

-- A stack with the words 4112 and above at 1000 and above
abbrev stack_word : ℕ → Option ℕ
stack_word a = if ltb a 1000 then none else some (a + 3112)

abbrev registers : ℕ → Option ℕ
registers r = if r == 7 then some 1000 else some 5001

abbrev frame : Frame
frame = record { ip = some 4104; register = registers }

build_record_entry-print_example :
    build_record_entry 8384504 (print sample)
    ≡ some (function_entries 8384504 (records_at sample) sample.functions)
build_record_entry-print_example = build_record_entry-print 8384504 sample sample-Fits

collect_frame-Collects_example : Collects stack_word 8384504 sample 4104 registers (
    collect_frame stack_word 8384504
      (print sample)
      (function_entries 8384504 (records_at sample) sample.functions)
      4104
      registers)
collect_frame-Collects_example =
    collect_frame-Collects stack_word 8384504 sample 4104 registers sample-Fits start_is_there
      few_records sample_entries-Sorted

collect_stack_roots-kept_example :
    let table = function_entries 8384504 (records_at sample) sample.functions in
    let kept =
      collect_frames stack_word 8384504 (print sample) table (frame ∷ []) >> pure (some table) in
    (collect_stack_roots stack_word 8384504 (print sample) true 8384800 none (frame ∷ []) ≡ kept)
    × ((calloc_ok : Bool)
        → collect_stack_roots stack_word 8384504
            (print sample)
            calloc_ok
            8384800
            (some table)
            (frame ∷ [])
          ≡ kept)
collect_stack_roots-kept_example =
    collect_stack_roots-kept stack_word 8384504 8384800 sample (frame ∷ []) sample-Fits
      start_is_there (λ e. absurd (omega (arith, e))) (λ e. absurd (omega (arith, e)))

-- The slot is 16 bytes above the register.
decode_location_lem_example :
    ((slot.kind ≡ loc_register) → decode_location stack_word registers slot ≡ some 1000)
    × ((slot.kind ≡ loc_direct) → decode_location stack_word registers slot ≡ some 1016)
    × ((slot.kind ≡ loc_indirect) → decode_location stack_word registers slot ≡ stack_word 1016)
decode_location_lem_example =
    decode_location_lem stack_word registers slot 1000 1016 refl (λ e. absurd (omega (arith, e)))
      (omega arith) (omega arith) (inl (omega arith, refl))
