-- ===== src/Roots/Section.antt =====
-- runtime/src/syli_state_gc_roots.c and the layout in runtime/include/syli/gc_roots.h: reading the
-- section of stack maps, which LLVM writes, and building the table of its records. The section is
-- its bytes, from the address `start`; a position is an offset in it. A `none` is a read past it.
use mathlib.Core.Option
use syli.Prelude.{
  ℕ, zero, suc, ◌+◌, ◌-◌, ◌*◌, ◌%◌, ◌^◌, Bool, true, false, ◌||◌, Option, none, some, List, [], ◌∷◌,
  ◌++◌, replicate, get_elem?, length, ◌==◌, if◌then◌else◌,
}
use syli.Prelude.Options.{◌>>=◌}
use syli.Roots.{RecordEntry}

abbrev pub stackmap_version : ℕ
stackmap_version = 3

-- `SyliStackMap_Location`; `offset` is the bit pattern of an `int32_t`.
pub record Location : Type 0 where
  pub kind : ℕ
  pub size : ℕ
  pub dwarf_reg : ℕ
  pub offset : ℕ

-- `SyliStackMap_Header`, `SyliStackMap_Function` and `SyliStackMap_Record`, the fields that are read
pub record SectionHeader : Type 0 where
  pub version : ℕ
  pub num_functions : ℕ
  pub num_constants : ℕ
  pub num_records : ℕ

pub record FunctionEntry : Type 0 where
  pub addr : ℕ
  pub num_records : ℕ

pub record StackRecord : Type 0 where
  pub instr_offset : ℕ
  pub num_locations : ℕ

-- A little-endian number of `w` bytes
unfoldable pub read_le : (w : ℕ) → List ℕ → ℕ → Option ℕ
read_le zero bytes i = some 0
read_le (suc w) bytes i = do
  b ← get_elem? bytes i
  rest ← read_le w bytes (i + 1)
  some (b + 256 * rest)

unfoldable pub read_header : List ℕ → Option SectionHeader
read_header bytes = do
  version ← read_le 1 bytes 0
  num_functions ← read_le 4 bytes 4
  num_constants ← read_le 4 bytes 8
  num_records ← read_le 4 bytes 12
  some (record {
    version = version;
    num_functions = num_functions;
    num_constants = num_constants;
    num_records = num_records;
  })

unfoldable pub read_function : List ℕ → ℕ → Option FunctionEntry
read_function bytes i = do
  addr ← read_le 8 bytes i
  num_records ← read_le 8 bytes (i + 16)
  some (record { addr = addr; num_records = num_records })

unfoldable pub read_record : List ℕ → ℕ → Option StackRecord
read_record bytes i = do
  instr_offset ← read_le 4 bytes (i + 8)
  num_locations ← read_le 2 bytes (i + 14)
  some (record { instr_offset = instr_offset; num_locations = num_locations })

unfoldable pub read_location : List ℕ → ℕ → Option Location
read_location bytes i = do
  kind ← read_le 1 bytes i
  size ← read_le 2 bytes (i + 2)
  dwarf_reg ← read_le 2 bytes (i + 4)
  offset ← read_le 4 bytes (i + 8)
  some (record { kind = kind; size = size; dwarf_reg = dwarf_reg; offset = offset })

-- No section is fine.
unfoldable pub stackmap_supported : (start stop : ℕ) → List ℕ → Option Bool
stackmap_supported start stop bytes =
    if start == 0 || stop == 0 || start == stop
    then some true
    else Option.map (λ version. version == stackmap_version) (read_le 1 bytes 0)

-- The position of the record behind the one at `i`
unfoldable pub advance_record : List ℕ → ℕ → Option ℕ
advance_record bytes i = do
  r ← read_record bytes i
  let locations = 12 * r.num_locations
  let p = i + 16 + locations + (if locations % 8 == 4 then 4 else 0) + 2
  num_liveouts ← read_le 2 bytes p
  some (p + 2 + 4 * num_liveouts + (if (4 * num_liveouts + 4) % 8 == 4 then 4 else 0))

-- A write to the table when there are `room` places left.
unfoldable pub place :
    (room : ℕ) → RecordEntry → Option (List RecordEntry × ℕ) → Option (List RecordEntry × ℕ)
place zero entry more = none
place (suc room) entry more = Option.map (λ (entries, i). (entry ∷ entries, i)) more

module _ (start : ℕ) (bytes : List ℕ) where
  unfoldable pub record_entry : (addr i : ℕ) → StackRecord → RecordEntry
  record_entry addr i r = record {
    pc = (addr + r.instr_offset) % 2 ^ 64;
    locations = start + i + 16;
    stack_record = start + i;
  }

  -- The inner loop: `left` records of one function from the position `i`. The entries and the
  -- position behind are given back; `room` places of the table are left.
  unfoldable pub each_record : (addr left room i : ℕ) → Option (List RecordEntry × ℕ)
  each_record addr zero room i = some ([], i)
  each_record addr (suc left) room i = do
    r ← read_record bytes i
    next ← advance_record bytes i
    place room (record_entry addr i r) (each_record addr left (room - 1) next)

  -- The outer loop: `left` functions from the position `f`, with their records from `i`
  unfoldable pub each_function : (left room f i : ℕ) → Option (List RecordEntry)
  each_function zero room f i = some []
  each_function (suc left) room f i = do
    function ← read_function bytes f
    (entries, next) ← each_record function.addr function.num_records room i
    more ← each_function left (room - length entries) (f + 24) next
    some (entries ++ more)

  -- The table has a place for each record of the header; `calloc` leaves zeros in the others.
  unfoldable pub build_record_entry : Option (List RecordEntry)
  build_record_entry = do
    h ← read_header bytes
    entries ←
        each_function h.num_functions h.num_records 16
          (16 + 24 * h.num_functions + 8 * h.num_constants)
    some (
        entries
        ++ replicate (h.num_records - length entries)
            (record { pc = 0; locations = 0; stack_record = 0 }))

  -- A table that is there is kept. The inner `none` is the exit when `calloc` fails.
  unfoldable pub build_stackmap_record_entry :
      (calloc_ok : Bool) → Option (List RecordEntry) → Option (Option (List RecordEntry))
  build_stackmap_record_entry calloc_ok (some table) = some (some table)
  build_stackmap_record_entry true none = Option.map some build_record_entry
  build_stackmap_record_entry false none = Option.map (λ h. none) (read_header bytes)
