-- ===== src/Roots/Record.antt =====
-- runtime/src/syli_state_gc_roots.c: a record of a section is read as it was written.
use syli.Prelude.{
  ℕ, ◌+◌, ◌*◌, ◌%◌, length-append, ◌≡◌, refl, ap, some, List, [], ◌∷◌, ◌++◌, length, ◌==◌,
  if◌then◌else◌, Bool-cases, inl, inr, arith,
}
use syli.Roots.Section.{read_record, advance_record, Location}
use syli.Roots.Format.{
  MapRecord, concat, print, le_bytes, print_location, align, print_record, print_locations,
  print_live_outs, RecordFits,
}
use syli.Roots.Bytes.{At, At-front, At-back, read_le-le_bytes}

pub length-concat :
    {A : Type 0} (print : A → List ℕ) (n : ℕ) (xs : List A)
    → ((x : A) → length (print x) ≡ n)
    → length (concat print xs) ≡ n * length xs
length-concat print n [] h = omega arith
length-concat print n (x ∷ xs) h =
    omega (arith, length-append (print x) (concat print xs), h x, length-concat print n xs h)

length-print_location : (l : Location) → length (print_location l) ≡ 12
length-print_location l = refl

-- The parts of a printed record
record-head :
    {bytes : List ℕ} {i : ℕ} (r : MapRecord)
    → At bytes i (print_record r)
    → At bytes (i + 8) (le_bytes 4 r.instr_offset)
record-head r at = At-front _ _ (At-back (le_bytes 8 r.id) _ refl at)

record-num_locations :
    {bytes : List ℕ} {i : ℕ} (r : MapRecord)
    → At bytes i (print_record r)
    → At bytes (i + 14) (le_bytes 2 (length r.locations))
record-num_locations r at = At-front _ _ (
    At-back (le_bytes 2 r.flags) _ (omega arith)
      (At-back (le_bytes 4 r.instr_offset) _ refl (At-back (le_bytes 8 r.id) _ refl at)))

-- The bytes behind the live-outs' count and before it
abbrev align_bytes : ℕ → ℕ
align_bytes n = if n % 8 == 4 then 4 else 0

length-align : (n : ℕ) → length (align n) ≡ align_bytes n
length-align n = elim (Bool-cases (n % 8 == 4)) [ inl h ↦ rw h refl | inr h ↦ rw h refl ]

pub record-locations :
    {bytes : List ℕ} {i : ℕ} (r : MapRecord)
    → At bytes i (print_record r)
    → At bytes (i + 16) (print_locations r)
record-locations r at = At-back (le_bytes 2 (length r.locations)) _ (omega arith) (
    At-back (le_bytes 2 r.flags) _ refl
      (At-back (le_bytes 4 r.instr_offset) _ refl (At-back (le_bytes 8 r.id) _ refl at)))

record-num_live_outs :
    {bytes : List ℕ} {i : ℕ} (r : MapRecord)
    → At bytes i (print_record r)
    → At bytes
        (i + 16 + 12 * length r.locations + align_bytes (12 * length r.locations) + 2)
        (le_bytes 2 (length r.live_outs))
record-num_live_outs {i = i} r at = At-front _ _ (
    At-back (le_bytes 2 0) (le_bytes 2 (length r.live_outs) ++ _) refl (
      At-back (align (12 * length r.locations)) _
        {j = i + 16 + 12 * length r.locations + align_bytes (12 * length r.locations)}
        (omega (arith, length-align (12 * length r.locations)))
        (At-back {i = i + 16} (concat print_location r.locations) _
          {j = i + 16 + 12 * length r.locations}
          (omega (arith, length-concat print_location 12 r.locations length-print_location))
          (record-locations r at))))

pub length-print_record :
    (r : MapRecord)
    → length (print_record r)
      ≡ 16
        + 12 * length r.locations
        + align_bytes (12 * length r.locations)
        + 4
        + 4 * length r.live_outs
        + align_bytes (4 * length r.live_outs + 4)
length-print_record r = omega (
  arith,
  length-append (concat print_location r.locations)
      (align (12 * length r.locations) ++ print_live_outs r.live_outs),
  length-concat print_location 12 r.locations length-print_location,
  length-append (align (12 * length r.locations)) (print_live_outs r.live_outs),
  length-align (12 * length r.locations),
  length-append (concat (le_bytes 4) r.live_outs) (align (4 * length r.live_outs + 4)),
  length-concat (le_bytes 4) 4 r.live_outs (λ x. refl),
  length-align (4 * length r.live_outs + 4),
)

pub read_record-print_record :
    {bytes : List ℕ} {i : ℕ} (r : MapRecord)
    → RecordFits r
    → At bytes i (print_record r)
    → read_record bytes i
      ≡ some (record { instr_offset = r.instr_offset; num_locations = length r.locations })
unfolding read_record
read_record-print_record r (instr_fits, locations_fit, _, _) at =
    rw
      (
        read_le-le_bytes 4 r.instr_offset instr_fits (record-head r at),
        read_le-le_bytes 2 (length r.locations) locations_fit (record-num_locations r at),
      )
      refl

pub advance_record-print_record :
    {bytes : List ℕ} {i : ℕ} (r : MapRecord)
    → RecordFits r
    → At bytes i (print_record r)
    → advance_record bytes i ≡ some (i + length (print_record r))
unfolding advance_record
advance_record-print_record r fits at =
    let (_, _, live_outs_fit, _) = fits in
    rw
      (
        read_record-print_record r fits at,
        read_le-le_bytes 2 (length r.live_outs) live_outs_fit (record-num_live_outs r at),
      )
      (ap some (omega (arith, length-print_record r)))
