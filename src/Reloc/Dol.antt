-- ===== src/Reloc/Dol.antt =====
-- `reloc_dol`: the sections of a DOL image.
pub mod Confined
pub mod Overlay
use hbc.Base.{
  ℕ, zero, suc, ◌+◌, ◌*◌, Bool, true, false, ◌&&◌, Option, none, some, if◌then◌else◌, ltb, ◌==◌,
}
use hbc.Base.Word.{add32}
use hbc.Memory.{Mem, load32, memmove}
use hbc.Reloc.Area.{overlaps}

-- One row of the three parallel tables of `dolheader`.
pub record Section : Type 0 where
  pub pos : ℕ
  pub start : ℕ
  pub size : ℕ

-- `text_pos`, `text_start`, `text_size` at index i: tables of 7, 11, 7, 11, 7, 11 words.
unfoldable pub text_section : ℕ → ℕ → Mem → Section
text_section addr i m = record {
  pos = load32 m (addr + 4 * i);
  start = load32 m (addr + 72 + 4 * i);
  size = load32 m (addr + 144 + 4 * i);
}

unfoldable pub data_section : ℕ → ℕ → Mem → Section
data_section addr i m = record {
  pos = load32 m (addr + 28 + 4 * i);
  start = load32 m (addr + 100 + 4 * i);
  size = load32 m (addr + 172 + 4 * i);
}

-- The body of either loop on one section: whether to go on, and the memory.
unfoldable pub load_section : Bool → ℕ → ℕ → Section → Mem → Bool × Mem
load_section check addr size s m =
    if s.size == 0
    then (true, m)
    else if ltb size (add32 s.pos s.size)
    then (false, m)
    else if check && overlaps s.start s.size
    then (false, m)
    else (true, memmove s.start (add32 addr s.pos) s.size m)

-- `for (i = ...; n more rounds; i++)`. The header is read from memory in each round, as in the code.
unfoldable pub load_sections : (ℕ → Mem → Section) → Bool → ℕ → ℕ → ℕ → ℕ → Mem → Bool × Mem
load_sections section check addr size zero i m = (true, m)
load_sections section check addr size (suc n) i m =
    let (more, m') = load_section check addr size (section i m) m in
    let rest = load_sections section check addr size n (i + 1) m' in
    if more then rest else (false, m')

-- `reloc_dol`: the entry point if it returns true, and the memory in either case.
unfoldable pub reloc_dol : ℕ → ℕ → Bool → Mem → Option ℕ × Mem
reloc_dol addr size check m =
    let (more, m') = load_sections (text_section addr) check addr size 7 0 m in
    let (done, m'') = load_sections (data_section addr) check addr size 11 0 m' in
    if more then (if done then some (load32 m'' (addr + 224)) else none, m'') else (none, m')
