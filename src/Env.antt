-- ===== src/Env.antt =====
-- runtime/src/env.c and runtime/include/syli/env.h: the tuning values that the environment gives.
-- `getenv`, `strtoull` and `strtod` of the C library are parameters. A C string is its bytes without
-- the terminator; the two readers give a value and what they leave unread, and a `double` is its
-- bit pattern.
use syli.Prelude.{ℕ, ◌*◌, Option, none, some, List, length, ◌&&◌, not, ◌==◌, if◌then◌else◌}

pub record Env : Type 0 where
  pub syli_gc_mem_cyclic_obj_threshold : ℕ
  pub syli_gc_candidates_ratio_threshold : ℕ
  pub syli_gc_release_threshold : ℕ

-- The environment variables `SYLI_GC_MEM_CYCLIC_OBJ_THRESHOLD`,
-- `SYLI_GC_CANDIDATES_RATIO_THRESHOLD` and `SYLI_GC_RELEASING_THRESHOLD`
pub data Variable : Type 0 where
  mem_cyclic_obj_threshold candidates_ratio_threshold releasing_threshold : Variable

abbrev pub default_gc_release_threshold : ℕ
default_gc_release_threshold = 0

abbrev pub default_mem_cyclic_obj_threshold : ℕ
default_mem_cyclic_obj_threshold = 512 * 1024

-- `0.2`
abbrev pub default_gc_candidates_ratio_threshold : ℕ
default_gc_candidates_ratio_threshold = 0x3FC999999999999A

-- The value is taken when something was read, and nothing is left.
unfoldable pub read_or : (read : List ℕ → ℕ × List ℕ) → Option (List ℕ) → (default : ℕ) → ℕ
read_or read none default = default
read_or read (some text) default =
    let (value, end) = read text in
    if not (length end == length text) && length end == 0 then value else default

module _ (getenv : Variable → Option (List ℕ)) (strtoull strtod : List ℕ → ℕ × List ℕ) where
  unfoldable pub load_env : Env
  load_env = record {
    syli_gc_mem_cyclic_obj_threshold =
        read_or strtoull (getenv mem_cyclic_obj_threshold) default_mem_cyclic_obj_threshold;
    syli_gc_candidates_ratio_threshold =
        read_or strtod (getenv candidates_ratio_threshold) default_gc_candidates_ratio_threshold;
    syli_gc_release_threshold =
        read_or strtoull (getenv releasing_threshold) default_gc_release_threshold;
  }
