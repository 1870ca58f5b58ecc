-- ===== src/Roots/Frames.antt =====
-- runtime/src/syli_state_gc_roots.c: the words that the stack maps name in the frames of the stack,
-- and the tracing of them.
use syli.Prelude.{
  ℕ, zero, suc, ◌+◌, ◌-◌, ◌%◌, ◌^◌, Bool, ◌||◌, Option, none, some, List, [], ◌∷◌, leb, ◌==◌,
  if◌then◌else◌,
}
use syli.State.Monad.{M, pure, ◌>>=◌, ◌>>◌, asserted, or_fault}
use syli.Gc
use syli.Roots.{RecordEntry, lookup_record_entry}
use syli.Roots.Section.{
  Location, stackmap_supported, read_record, read_location, build_stackmap_record_entry,
}

-- The stack, as the unwinder gives it: for each frame its instruction pointer and its registers by
-- their DWARF numbers, where `none` is a register that the unwinder cannot give.
pub record Frame : Type 0 where
  pub ip : Option ℕ
  pub register : ℕ → Option ℕ

unfoldable pub get_register_value : (register : ℕ → Option ℕ) → (dwarf : ℕ) → ℕ
get_register_value register dwarf = elim (register dwarf) [ none ↦ 0 | some value ↦ value ]

-- `base + offset` for an `int32_t` offset of the bit pattern `offset`
abbrev pub add_offset : (base offset : ℕ) → ℕ
add_offset base offset =
    (base + offset + (if leb (2 ^ 31) offset then 2 ^ 64 - 2 ^ 32 else 0)) % 2 ^ 64

abbrev pub loc_register : ℕ
loc_register = 1

abbrev pub loc_direct : ℕ
loc_direct = 2

abbrev pub loc_indirect : ℕ
loc_indirect = 3

unfoldable pub collect_value : ℕ → M (Unit {0})
collect_value value = if value == 0 then pure tt else Gc.tracing_worklist_push value

-- `word` reads a word of the stack: `none` is a read outside of it.
module _ (word : ℕ → Option ℕ) where
  unfoldable pub decode_location : (register : ℕ → Option ℕ) → Location → Option ℕ
  decode_location register l =
      let base = get_register_value register l.dwarf_reg in
      if l.kind == loc_register
      then some base
      else if l.kind == loc_direct
      then (if base == 0 then some 0 else some (add_offset base l.offset))
      else if l.kind == loc_indirect
      then (if base == 0 then some 0 else word (add_offset base l.offset))
      else some 0

  -- The section stands at `start`.
  module _ (start : ℕ) (bytes : List ℕ) where
    -- `left` locations from the position `i`
    unfoldable pub collect_locations : (register : ℕ → Option ℕ) → (left i : ℕ) → M (Unit {0})
    collect_locations register zero i = pure tt
    collect_locations register (suc left) i = do
      l ← or_fault (read_location bytes i)
      value ← or_fault (decode_location register l)
      collect_value value
      collect_locations register left (i + 12)

    unfoldable pub collect_entry : (register : ℕ → Option ℕ) → RecordEntry → M (Unit {0})
    collect_entry register entry =
        if entry.locations == 0 || entry.stack_record == 0 then pure tt else (do
          r ← or_fault (read_record bytes (entry.stack_record - start))
          collect_locations register r.num_locations (entry.locations - start))

    unfoldable pub collect_frame : List RecordEntry → (ip : ℕ) → (ℕ → Option ℕ) → M (Unit {0})
    collect_frame table ip register = do
      entry ← or_fault (lookup_record_entry table ip)
      collect_entry register entry

    -- A frame whose instruction pointer is not known is left out.
    unfoldable pub collect_frames : List RecordEntry → List Frame → M (Unit {0})
    collect_frames table [] = pure tt
    collect_frames table (f ∷ fs) = do
      elim f.ip [ none ↦ pure tt | some ip ↦ collect_frame table ip f.register ]
      collect_frames table fs

    -- The table when there is a section: it is built when there is none. The exit that ends the
    -- program when `calloc` fails is a failed assertion here.
    unfoldable pub stack_roots_ready :
        (calloc_ok : Bool) → (stop : ℕ) → Option (List RecordEntry) → M (Option (List RecordEntry))
    stack_roots_ready calloc_ok stop table =
        if start == 0 || stop == 0 || start == stop then pure none else (do
          built ← or_fault (build_stackmap_record_entry start bytes calloc_ok table)
          entries ← asserted built
          pure (some entries))

    -- The result is the table that is kept in the state.
    unfoldable pub collect_stack_roots :
        (calloc_ok : Bool)
        → (stop : ℕ) → Option (List RecordEntry)
        → List Frame
        → M (Option (List RecordEntry))
    collect_stack_roots calloc_ok stop table frames = do
      ready ← stack_roots_ready calloc_ok stop table
      elim ready [
        | none ↦ pure table
        | some entries ↦ collect_frames entries frames >> pure (some entries)
      ]

-- The check when the runtime starts: the exit for another version of the section is a failed
-- assertion here.
unfoldable pub stackmap_check_version : (start stop : ℕ) → List ℕ → M (Unit {0})
stackmap_check_version start stop bytes = do
  supported ← or_fault (stackmap_supported start stop bytes)
  asserted (if supported then some tt else none)
