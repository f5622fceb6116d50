-- ===== src/Reloc/Tests.antt =====
-- A DOL and an ELF image at 0x90000000, each with one section of four bytes for 0x80004000.
use hbc.Base.{
  ℕ, zero, suc, ◌+◌, ◌-◌, ◌*◌, ◌<◌, ◌≡◌, inl, inr, refl, arith, Bool, true, if◌then◌else◌, ltb,
  ◌==◌, ◌&&◌, some,
}
use hbc.Base.Word.{u32_mod, add32}
use hbc.Memory.{Mem, load16, load32, store32, memmove}
use hbc.Memory.Frame.{Outside}
use hbc.Reloc.Area.{base_addr}
use hbc.Reloc.Dol.{text_section, data_section, load_section, load_sections, reloc_dol}
use hbc.Reloc.Dol.Confined.{IsUnwrapped, load_section_wraps}
use hbc.Reloc.Dol.Overlay.{loaded_byte, dol_sections, FitsWords, reloc_dol-loaded_byte}
use hbc.Reloc.Elf.{not_elf, is_valid_elf, segment, load_segment, load_phdr, load_phdrs, reloc_elf}
use hbc.Reloc.Elf.Confined.{table_of, count_of}
use hbc.Reloc.Run.{ArgvLayout, prepare, loader_reloc}
use hbc.Reloc.Run.Confined.{IsSafeImage, EntryFits, loader_reloc-KeepsChannel}

abbrev image : ℕ
image = 0x9000_0000

abbrev blank : Mem
blank a = 0

abbrev dol_memory : Mem
unfolding store32
dol_memory = store32 image 0x100 (
    store32 (image + 72) 0x8000_4000 (
      store32 (image + 144) 4
        (store32 (image + 224) 0x8000_4000 (store32 (image + 256) 0xdead_beef blank))))

abbrev elf_memory : Mem
unfolding store32
elf_memory = store32 image 0x7f45_4c46 (
    store32 (image + 4) 0x0102_0100 (
      store32 (image + 16) 0x0002_0014 (
        store32 (image + 24) 0x8000_4000 (
          store32 (image + 28) 52 (
            store32 (image + 40) 0x0034_0020 (
              store32 (image + 44) 0x0001_0000 (
                store32 (image + 52) 1 (
                  store32 (image + 56) 84 (
                    store32 (image + 64) 0x4000 (
                      store32 (image + 68) 4
                        (store32 (image + 72) 4 (store32 (image + 84) 0xdead_beef blank))))))))))))

reloc_dol_runs :
    ((reloc_dol image 260 true dol_memory).0 ≡ some 0x8000_4000)
    × (load32 (reloc_dol image 260 true dol_memory).1 0x8000_4000 ≡ 0xdead_beef)
unfolding reloc_dol load_sections load_section text_section data_section load32 memmove dol_memory
reloc_dol_runs = (refl, refl)

reloc_elf_runs :
    ((reloc_elf image true elf_memory).0 ≡ some 0x8000_4000)
    × (load32 (reloc_elf image true elf_memory).1 0x8000_4000 ≡ 0xdead_beef)
    × (load32 (reloc_elf image true elf_memory).1 (image + 64) ≡ 0x8000_4000)
unfolding reloc_elf load_phdrs load_phdr load_segment segment load16 load32 store32 memmove
    elf_memory
reloc_elf_runs = (refl, refl, refl)

-- A test of every index below n.
every_below : ℕ → (ℕ → Bool) → Bool
every_below zero p = true
every_below (suc n) p = p n && every_below n p

every_below_sound : (n : ℕ) (p : ℕ → Bool) (i : ℕ) → every_below n p ≡ true → i < n → p i ≡ true
unfolding every_below
every_below_sound zero p i h lt = absurd (omega arith)
every_below_sound (suc n) p i h lt = ground (arith, every_below_sound n p i)

dol_texts_end :
    every_below 7 (λ i.
      ltb ((text_section image i dol_memory).start + (text_section image i dol_memory).size) u32_mod
      && ltb
          ((text_section image i dol_memory).pos + (text_section image i dol_memory).size)
          u32_mod)
    ≡ true
unfolding every_below text_section load32 dol_memory
dol_texts_end = refl

dol_datas_end :
    every_below 11 (λ i.
      ltb ((data_section image i dol_memory).start + (data_section image i dol_memory).size) u32_mod
      && ltb
          ((data_section image i dol_memory).pos + (data_section image i dol_memory).size)
          u32_mod)
    ≡ true
unfolding every_below data_section load32 dol_memory
dol_datas_end = refl

dol_IsUnwrapped : IsUnwrapped image dol_memory
dol_IsUnwrapped = record {
  text_ends = λ i h. let fact = every_below_sound 7 _ i dol_texts_end h in ground arith;
  data_ends = λ i h. let fact = every_below_sound 11 _ i dol_datas_end h in ground arith;
}

dol_FitsWords : FitsWords image dol_memory
dol_FitsWords = record {
  text_files = λ i h. let fact = every_below_sound 7 _ i dol_texts_end h in ground arith;
  data_files = λ i h. let fact = every_below_sound 11 _ i dol_datas_end h in ground arith;
}

reloc_dol-loaded_byte_example :
    (0x8000_4000 ≡ load32 dol_memory (image + 224))
    × ((a : ℕ)
        → (reloc_dol image 260 true dol_memory).1 a
          ≡ loaded_byte image dol_memory (dol_sections image dol_memory) a)
reloc_dol-loaded_byte_example =
    reloc_dol-loaded_byte image 260 dol_memory (omega arith) (omega arith) (omega arith)
      dol_IsUnwrapped dol_FitsWords reloc_dol_runs.0

load_section_wraps_example :
    ((load_section true image 260
        (record { pos = 0x8000_0000; start = 0x8100_0000; size = 0x8000_0000 })
        dol_memory).0
      ≡ true)
    × ((load_section true image 260
            (record { pos = 0x8000_0000; start = 0x8100_0000; size = 0x8000_0000 })
            dol_memory).1
          base_addr
        ≡ dol_memory (add32 image 0x8000_0000 + (base_addr - 0x8100_0000)))
load_section_wraps_example =
    load_section_wraps image 260
      (record { pos = 0x8000_0000; start = 0x8100_0000; size = 0x8000_0000 }) dol_memory
      (omega arith) (omega arith) (omega arith) (omega arith) (omega arith)

abbrev layout : ArgvLayout
layout = record { argv_magic = 0x5f61_7267; magic_at = 0; command_line_at = 4; length_at = 8 }

dol_is_no_elf : is_valid_elf image dol_memory ≡ not_elf
unfolding is_valid_elf dol_memory
dol_is_no_elf = refl

dol_IsSafeImage : IsSafeImage image dol_memory
dol_IsSafeImage = record {
  dol_clear = λ e. omega arith;
  dol_ends = λ e. dol_IsUnwrapped;
  elf_tame = λ e. cc dol_is_no_elf;
}

dol_entry : (loader_reloc layout image 260 (image + 512) 4 true dol_memory).0 ≡ some 0x8000_4000
unfolding loader_reloc prepare is_valid_elf reloc_dol load_sections load_section text_section
    data_section load32 memmove dol_memory
dol_entry = refl

-- `0x80004000` is an entry point for the arguments.
start_EntryFits : (ep : ℕ) → ep ≡ 0x8000_4000 → EntryFits layout ep
start_EntryFits ep at = record {
  above = omega (arith, at);
  crt0 = omega (arith, at);
  magic = omega (arith, at);
  command_line = omega (arith, at);
  length = omega (arith, at);
}

dol_keeps_base_addr :
    (loader_reloc layout image 260 (image + 512) 4 true dol_memory).1 base_addr
    ≡ dol_memory base_addr
dol_keeps_base_addr =
    loader_reloc-KeepsChannel layout image 260 (image + 512) 4 dol_memory dol_IsSafeImage
      (omega arith) (λ ep e. start_EntryFits ep (cc dol_entry)) base_addr (inr (omega arith))
      outside
  where
    outside :
        Outside
          (table_of image dol_memory)
          (table_of image dol_memory + 32 * count_of image dol_memory)
          base_addr
    outside = unfold load32 load16 dol_memory in inl (omega arith)

-- The ELF image as a little-endian file.
abbrev odd_memory : Mem
odd_memory a = if a == image + 5 then 1 else elf_memory a
