-- ===== src/Roots/Build.antt =====
-- runtime/src/syli_state_gc_roots.c: the table that is built from a section holds the records that
-- the section says.
use mathlib.Core.List.{append-nil}
use syli.Prelude.{
  ℕ, zero, suc, ◌+◌, ◌*◌, ◌^◌, ◌<◌, ◌≤◌, ◌-◌, length-append, ◌≡◌, refl, ap, ◌∙◌, some, List, [],
  ◌∷◌, length, All, arith,
}
use syli.Roots.{RecordEntry}
use syli.Roots.Section.{
  record_entry, place, each_record, each_function, build_record_entry, read_header, read_function,
}
use syli.Roots.Format.{
  MapRecord, MapFunction, StackMap, concat, count_records, entry_of, entries_of, function_entries,
  records_at, print, print_tables, FunctionFits, Fits, le_bytes, print_record, print_function,
  RecordFits,
}
use syli.Roots.Bytes.{At, whole-At, At-front, At-back, read_le-le_bytes}
use syli.Roots.Record.{length-concat, advance_record-print_record, read_record-print_record}

length-entries_of :
    (start addr i : ℕ) (rs : List MapRecord) → length (entries_of start addr i rs) ≡ length rs
unfolding entries_of
length-entries_of start addr i [] = refl
length-entries_of start addr i (r ∷ rs) =
    ap suc (length-entries_of start addr (i + length (print_record r)) rs)

pub length-function_entries :
    (start i : ℕ) (fs : List MapFunction) → length (function_entries start i fs) ≡ count_records fs
unfolding function_entries count_records
length-function_entries start i [] = refl
length-function_entries start i (f ∷ fs) =
    let next = i + length (concat print_record f.records) in
    omega (
      arith,
      length-append (entries_of start f.addr i f.records) (function_entries start next fs),
      length-entries_of start f.addr i f.records,
      length-function_entries start next fs,
    )

read_function-print_function :
    {bytes : List ℕ} {f : ℕ} (g : MapFunction)
    → g.addr < 2 ^ 64
    → length g.records < 2 ^ 64
    → At bytes f (print_function g)
    → read_function bytes f ≡ some (record { addr = g.addr; num_records = length g.records })
unfolding read_function
read_function-print_function {f = f} g addr_fits count_fits at =
    rw
      (
        read_le-le_bytes 8 g.addr addr_fits (At-front _ _ at),
        read_le-le_bytes 8 (length g.records) {i = f + 16} count_fits (
            At-back (le_bytes 8 g.stack_size) _ (omega arith)
              (At-back (le_bytes 8 g.addr) _ refl at)),
      )
      refl

module _ {bytes : List ℕ} (start : ℕ) where
  each_record-concat :
      (addr room i : ℕ) (rs : List MapRecord)
      → All RecordFits rs
      → length rs ≤ room
      → At bytes i (concat print_record rs)
      → each_record start bytes addr (length rs) room i
        ≡ some (entries_of start addr i rs, i + length (concat print_record rs))
  unfolding each_record entries_of record_entry place
  each_record-concat addr room i [] fits small at = ap some (ap (λ n. ([], n)) (omega arith))
  each_record-concat addr zero i (r ∷ rs) fits small at = absurd (omega arith)
  each_record-concat addr (suc room) i (r ∷ rs) (fits, rest) small at =
      let next = i + length (print_record r) in
      let more : each_record start bytes addr (length rs) (suc room - 1) next
          ≡ some (entries_of start addr next rs, next + length (concat print_record rs)) =
        each_record-concat addr (suc room - 1) next rs rest (omega arith)
          (At-back (print_record r) _ refl at) in
      rw
        (
          read_record-print_record r fits (At-front _ _ at),
          advance_record-print_record r fits (At-front _ _ at),
        )
        (ap (place (suc room) (entry_of start addr i r)) more
          ∙ ap (λ n. some (entry_of start addr i r ∷ entries_of start addr next rs, n))
              (omega (arith, length-append (print_record r) (concat print_record rs))))

  each_function-concat :
      (room f i : ℕ) (fs : List MapFunction)
      → All FunctionFits fs
      → count_records fs ≤ room
      → At bytes f (concat print_function fs)
      → At bytes i (concat (λ f. concat print_record f.records) fs)
      → each_function start bytes (length fs) room f i ≡ some (function_entries start i fs)
  unfolding each_function function_entries count_records
  each_function-concat room f i [] fits small at records = refl
  each_function-concat room f i (g ∷ fs) ((addr_fits, count_fits, records_fit), rest) small at
        records =
      let next = i + length (concat print_record g.records) in
      rw
        (
          read_function-print_function g addr_fits count_fits (At-front _ _ at),
          each_record-concat g.addr room i g.records records_fit (omega arith)
              (At-front _ _ records),
          length-entries_of start g.addr i g.records,
          each_function-concat (room - length g.records) (f + 24) next fs rest (omega arith)
              (At-back (print_function g) _ refl at)
              (At-back (concat print_record g.records) _ refl records),
        )
        refl

read_header-print :
    (m : StackMap)
    → Fits m
    → read_header (print m)
      ≡ some (record {
        version = 3;
        num_functions = length m.functions;
        num_constants = length m.constants;
        num_records = count_records m.functions;
      })
unfolding read_header
read_header-print m (functions_fit, constants_fit, records_fit, _) =
    let whole : At (print m) 0 (print m) = whole-At (print m) in
    let counts : At (print m) 4 _ =
      At-back (le_bytes 2 0) _ refl
        (At-back (le_bytes 1 0) _ refl (At-back (le_bytes 1 3) _ refl whole)) in
    let constants : At (print m) 8 _ = At-back (le_bytes 4 (length m.functions)) _ refl counts in
    let records : At (print m) 12 _ = At-back (le_bytes 4 (length m.constants)) _ refl constants in
    rw
      (
        read_le-le_bytes 1 3 (omega arith) (At-front _ _ whole),
        read_le-le_bytes 4 (length m.functions) functions_fit (At-front _ _ counts),
        read_le-le_bytes 4 (length m.constants) constants_fit (At-front _ _ constants),
        read_le-le_bytes 4 (count_records m.functions) records_fit (At-front _ _ records),
      )
      refl

tables-At : (m : StackMap) → At (print m) 16 (print_tables m)
tables-At m = At-back (le_bytes 4 (count_records m.functions)) _ refl (
    At-back (le_bytes 4 (length m.constants)) _ refl (
      At-back (le_bytes 4 (length m.functions)) _ refl (
        At-back (le_bytes 2 0) _ refl
          (At-back (le_bytes 1 0) _ refl (At-back (le_bytes 1 3) _ refl (whole-At (print m)))))))

pub records-At :
    (m : StackMap)
    → At (print m) (records_at m) (concat (λ f. concat print_record f.records) m.functions)
records-At m =
    At-back {i = 16 + 24 * length m.functions} (concat (le_bytes 8) m.constants) _
      (omega (arith, length-concat (le_bytes 8) 8 m.constants (λ x. refl)))
      (At-back (concat print_function m.functions) _
        (omega (arith, length-concat print_function 24 m.functions (λ f. refl))) (tables-At m))

-- On the bytes of a section whose numbers fit their fields, the table that is built has an entry
-- for each record of each function, in the order of the section and no other: its program counter
-- is the function's address plus the record's offset modulo `2 ^ 64`, and its addresses are those
-- where the record and its locations stand.
pub build_record_entry-print :
    (start : ℕ) (m : StackMap)
    → Fits m
    → build_record_entry start (print m) ≡ some (function_entries start (records_at m) m.functions)
unfolding build_record_entry
build_record_entry-print start m fits =
    let (_, _, _, functions_fit) = fits in
    let entries : List RecordEntry = function_entries start (records_at m) m.functions in
    let none_left : count_records m.functions - length entries ≡ 0 =
      omega (arith, length-function_entries start (records_at m) m.functions) in
    rw
      (
        read_header-print m fits,
        each_function-concat start (count_records m.functions) 16 (records_at m) m.functions
            functions_fit (omega arith) (At-front _ _ (tables-At m)) (records-At m),
      )
      (rw none_left (ap some (append-nil entries)))
