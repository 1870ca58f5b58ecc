-- ===== src/Roots/Format.antt =====
-- The section of stack maps as LLVM documents it, which runtime/include/syli/gc_roots.h quotes: what
-- a section says, and its bytes.
use syli.Prelude.{
  ℕ, zero, suc, ◌+◌, ◌*◌, ◌/◌, ◌%◌, ◌^◌, ◌<◌, List, [], ◌∷◌, ◌++◌, length, All, ◌==◌, if◌then◌else◌,
}
use syli.Roots.{RecordEntry}
use syli.Roots.Section.{Location}

-- `StkMapRecord`; a live-out is its four bytes.
pub record MapRecord : Type 0 where
  pub id : ℕ
  pub instr_offset : ℕ
  pub flags : ℕ
  pub locations : List Location
  pub live_outs : List ℕ

-- `StkSizeRecord`, with the records of the function
pub record MapFunction : Type 0 where
  pub addr : ℕ
  pub stack_size : ℕ
  pub records : List MapRecord

pub record StackMap : Type 0 where
  pub functions : List MapFunction
  pub constants : List ℕ

abbrev pub concat : {A : Type 0} → (A → List ℕ) → List A → List ℕ
concat print [] = []
concat print (x ∷ xs) = print x ++ concat print xs

-- `w` bytes, the lowest first
abbrev pub le_bytes : (w v : ℕ) → List ℕ
le_bytes zero v = []
le_bytes (suc w) v = v % 256 ∷ le_bytes w (v / 256)

abbrev pub print_location : Location → List ℕ
print_location l =
    le_bytes 1 l.kind
    ++ (le_bytes 1 0
        ++ (le_bytes 2 l.size ++ (le_bytes 2 l.dwarf_reg ++ (le_bytes 2 0 ++ le_bytes 4 l.offset))))

-- Padding to a multiple of 8 bytes
abbrev pub align : ℕ → List ℕ
align n = if n % 8 == 4 then le_bytes 4 0 else []

-- The locations of a record and what stands behind them
abbrev pub print_live_outs : List ℕ → List ℕ
print_live_outs live_outs =
    le_bytes 2 0
    ++ (le_bytes 2 (length live_outs)
        ++ (concat (le_bytes 4) live_outs ++ align (4 * length live_outs + 4)))

abbrev pub print_locations : MapRecord → List ℕ
print_locations r =
    concat print_location r.locations
    ++ (align (12 * length r.locations) ++ print_live_outs r.live_outs)

abbrev pub print_record : MapRecord → List ℕ
print_record r =
    le_bytes 8 r.id
    ++ (le_bytes 4 r.instr_offset
        ++ (le_bytes 2 r.flags ++ (le_bytes 2 (length r.locations) ++ print_locations r)))

abbrev pub print_function : MapFunction → List ℕ
print_function f = le_bytes 8 f.addr ++ (le_bytes 8 f.stack_size ++ le_bytes 8 (length f.records))

unfoldable pub count_records : List MapFunction → ℕ
count_records [] = 0
count_records (f ∷ fs) = length f.records + count_records fs

abbrev pub print_tables : StackMap → List ℕ
print_tables m =
    concat print_function m.functions
    ++ (concat (le_bytes 8) m.constants ++ concat (λ f. concat print_record f.records) m.functions)

abbrev pub print : StackMap → List ℕ
print m =
    le_bytes 1 3
    ++ (le_bytes 1 0
        ++ (le_bytes 2 0
            ++ (le_bytes 4 (length m.functions)
                ++ (le_bytes 4 (length m.constants)
                    ++ (le_bytes 4 (count_records m.functions) ++ print_tables m)))))

-- The fields fit their widths.
abbrev pub LocationFits : Location → Type 0
LocationFits l = (l.kind < 2 ^ 8) × (l.size < 2 ^ 16) × (l.dwarf_reg < 2 ^ 16) × (l.offset < 2 ^ 32)

abbrev pub RecordFits : MapRecord → Type 0
RecordFits r =
    (r.instr_offset < 2 ^ 32)
    × (length r.locations < 2 ^ 16)
    × (length r.live_outs < 2 ^ 16)
    × All LocationFits r.locations

abbrev pub FunctionFits : MapFunction → Type 0
FunctionFits f = (f.addr < 2 ^ 64) × (length f.records < 2 ^ 64) × All RecordFits f.records

abbrev pub Fits : StackMap → Type 0
Fits m =
    (length m.functions < 2 ^ 32)
    × (length m.constants < 2 ^ 32)
    × (count_records m.functions < 2 ^ 32)
    × All FunctionFits m.functions

-- The entry of a record at the position `i`
abbrev pub entry_of : (start addr i : ℕ) → MapRecord → RecordEntry
entry_of start addr i r = record {
  pc = (addr + r.instr_offset) % 2 ^ 64;
  locations = start + i + 16;
  stack_record = start + i;
}

-- The entries of records that stand one behind the other from `i`
unfoldable pub entries_of : (start addr i : ℕ) → List MapRecord → List RecordEntry
entries_of start addr i [] = []
entries_of start addr i (r ∷ rs) =
    entry_of start addr i r ∷ entries_of start addr (i + length (print_record r)) rs

unfoldable pub function_entries : (start i : ℕ) → List MapFunction → List RecordEntry
function_entries start i [] = []
function_entries start i (f ∷ fs) =
    entries_of start f.addr i f.records
    ++ function_entries start (i + length (concat print_record f.records)) fs

abbrev pub records_at : StackMap → ℕ
records_at m = 16 + 24 * length m.functions + 8 * length m.constants
