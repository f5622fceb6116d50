-- ===== src/Reloc/Elf.antt =====
-- `is_valid_elf` and `reloc_elf`: the program headers of an ELF image.
pub mod Confined
pub mod Rounds
use hbc.Base.{
  ℕ, zero, suc, ◌+◌, ◌*◌, ◌%◌, ◌^◌, Bool, true, false, not, ◌&&◌, ◌||◌, Option, none, some,
  if◌then◌else◌, ltb, ◌==◌,
}
use hbc.Base.Word.{add32}
use hbc.Memory.{Mem, load16, load32, store32, memmove}
use hbc.Reloc.Area.{overlaps}

-- `IS_ELF`: the magic bytes of `e_ident`.
unfoldable pub is_elf : ℕ → Mem → Bool
is_elf addr m =
    m addr == 0x7f && m (addr + 1) == b'E' && m (addr + 2) == b'L' && m (addr + 3) == b'F'

-- The three answers of `is_valid_elf`: 0, -1 and 1.
pub data ElfCheck : Type 0 where
  not_elf bad_elf good_elf : ElfCheck

-- `e_ident[EI_CLASS]`, `e_ident[EI_DATA]`, `e_ident[EI_VERSION]`, `e_type`, `e_machine`.
unfoldable pub is_valid_elf : ℕ → Mem → ElfCheck
unfolding is_elf
is_valid_elf addr m =
    if not (is_elf addr m)
    then not_elf
    else if not (m (addr + 4) == 1)
    then bad_elf
    else if not (m (addr + 5) == 2)
    then bad_elf
    else if not (m (addr + 6) == 1)
    then bad_elf
    else if not (load16 m (addr + 16) == 2)
    then bad_elf
    else if not (load16 m (addr + 18) == 20)
    then bad_elf
    else good_elf

-- `(a & 0x3FFFFFFF) | 0x80000000`.
abbrev pub cached_address : ℕ → ℕ
cached_address a = a % 2 ^ 30 + 2 ^ 31

-- The fields of the `Elf32_Phdr` at `ph` that are read after `p_type`.
pub record Segment : Type 0 where
  pub offset : ℕ
  pub paddr : ℕ
  pub filesz : ℕ
  pub memsz : ℕ

unfoldable pub segment : ℕ → Mem → Segment
segment ph m = record {
  offset = load32 m (ph + 4);
  paddr = cached_address (load32 m (ph + 12));
  filesz = load32 m (ph + 16);
  memsz = load32 m (ph + 20);
}

-- The tests and the move for a loadable segment, once `p_paddr` has been rewritten in place.
unfoldable pub load_segment : Bool → ℕ → Segment → Mem → Bool × Mem
load_segment check addr s m =
    if ltb s.memsz s.filesz
    then (false, m)
    else if s.filesz == 0
    then (true, m)
    else if check && overlaps s.paddr s.filesz
    then (false, m)
    else (true, memmove s.paddr (add32 addr s.offset) s.filesz m)

-- The body of the loop, on the program header at `ph`: `PT_LOAD` is 1.
unfoldable pub load_phdr : Bool → ℕ → ℕ → Mem → Bool × Mem
load_phdr check addr ph m =
    if not (load32 m ph == 1)
    then (true, m)
    else load_segment check addr (segment ph m) (store32 (ph + 12) (segment ph m).paddr m)

-- The loop, from round `i` on, with its header at `ph`; a header has 32 bytes. `e_phnum` is read
-- anew in each round, and `fuel` bounds the rounds.
unfoldable pub load_phdrs : Bool → ℕ → ℕ → ℕ → ℕ → Mem → Bool × Mem
load_phdrs check addr zero i ph m = (true, m)
load_phdrs check addr (suc fuel) i ph m = elim (ltb i (load16 m (addr + 44))) [
  | false ↦ (true, m)
  | true ↦
      let (more, m') = load_phdr check addr ph m in
      elim more [ false ↦ (false, m') | true ↦ load_phdrs check addr fuel (i + 1) (ph + 32) m' ]
]

-- `e_phnum` has 16 bits.
abbrev pub max_phdrs : ℕ
max_phdrs = 2 ^ 16

-- `reloc_elf`: `e_phoff`, `e_phnum`, `e_phentsize`, `e_entry`. The size of the file, which the code
-- takes and does not use, is not an argument.
unfoldable pub reloc_elf : ℕ → Bool → Mem → Option ℕ × Mem
reloc_elf addr check m =
    if load32 m (addr + 28) == 0 || load16 m (addr + 44) == 0
    then (none, m)
    else if not (load16 m (addr + 42) == 32)
    then (none, m)
    else let (done, m') = load_phdrs check addr max_phdrs 0 (add32 addr (load32 m (addr + 28))) m in
      (if done then some (cached_address (load32 m' (addr + 24))) else none, m')
