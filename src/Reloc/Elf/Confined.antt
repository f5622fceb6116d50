-- ===== src/Reloc/Elf/Confined.antt =====
-- Where `reloc_elf` writes.
use hbc.Base.{
  ℕ, zero, suc, ◌+◌, ◌*◌, ◌≤◌, ◌<◌, ◌≡◌, inl, inr, refl, sym, ap, ◌∙◌, subst, arith, true,
  Bool-cases, ltb, ◌==◌, ◌||◌,
}
use hbc.Base.Word.{u32_mod, add32}
use hbc.Memory.{Mem, load16, load32, store32}
use hbc.Memory.Frame.{
  Outside, Keeps, Clear, Keeps-refl, memmove-Keeps, store32-Keeps, load16_same, load32_same,
}
use hbc.Reloc.Area.{ld_min_addr, ld_max_addr, overlaps}
use hbc.Reloc.Elf.{
  cached_address, Segment, segment, load_segment, load_phdr, load_phdrs, max_phdrs, reloc_elf,
}

-- The end of the segment in memory does not wrap.
abbrev pub EndsInMemory : Segment → Type 0
EndsInMemory s = s.paddr + s.filesz < u32_mod

-- Two memories that differ in the load area and in the bytes [base, ph) at most.
abbrev pub KeepsBut : ℕ → ℕ → Mem → Mem → Type 0
KeepsBut base ph m n = (a : ℕ) → Outside ld_min_addr ld_max_addr a → Outside base ph a → n a ≡ m a

load_segment-Keeps :
    (addr : ℕ) (s : Segment) (m : Mem)
    → EndsInMemory s
    → Keeps ld_min_addr ld_max_addr m (load_segment true addr s m).1
unfolding load_segment
load_segment-Keeps addr s m h = elim (Bool-cases (ltb s.memsz s.filesz)) [
  | inl bad ↦ rw bad (Keeps-refl _ _ m)
  | inr good ↦ rw good (elim (Bool-cases (s.filesz == 0)) [
    | inl empty ↦ rw empty (Keeps-refl _ _ m)
    | inr full ↦ rw full (elim (Bool-cases (overlaps s.paddr s.filesz)) [
      | inl over ↦ rw over (Keeps-refl _ _ m)
      | inr free ↦
          rw free (
            memmove-Keeps _ _ s.paddr (add32 addr s.offset) s.filesz m (ground arith)
              (ground arith))
    ])
  ])
]

load_phdr-KeepsBut :
    (addr base ph : ℕ) (m k : Mem)
    → base ≤ ph
    → EndsInMemory (segment ph k)
    → KeepsBut base ph m k
    → KeepsBut base (ph + 32) m (load_phdr true addr ph k).1
unfolding load_phdr
load_phdr-KeepsBut addr base ph m k le h same a out off = elim (Bool-cases (load32 k ph == 1)) [
  | inl load ↦ rw load (
      load_segment-Keeps addr (segment ph k) (store32 (ph + 12) (segment ph k).paddr k) h a out
      ∙ store32-Keeps base (ph + 32) (ph + 12) (segment ph k).paddr k (omega arith) (omega arith) a
          off
      ∙ same a out (omega arith))
  | inr skip ↦ rw skip (same a out (omega arith))
]

Segment_path :
    {s t : Segment}
    → s.offset ≡ t.offset
    → s.paddr ≡ t.paddr
    → s.filesz ≡ t.filesz
    → s.memsz ≡ t.memsz
    → s ≡ t
Segment_path p q r u = λ i. record { offset = p i; paddr = q i; filesz = r i; memsz = u i }

-- A header that was not yet reached reads as at the start.
segment-KeepsBut :
    (base ph : ℕ) (m k : Mem)
    → KeepsBut base ph m k
    → Clear ld_min_addr ld_max_addr ph 32
    → segment ph k ≡ segment ph m
unfolding segment
segment-KeepsBut base ph m k same c =
    Segment_path (word 4 (omega arith)) (ap cached_address (word 12 (omega arith)))
      (word 16 (omega arith)) (word 20 (omega arith))
  where
    word : (off : ℕ) → off ≤ 28 → load32 k (ph + off) ≡ load32 m (ph + off)
    word off h = load32_same m k (ph + off) (λ b lo hi. same b (omega arith) (omega arith))

-- The n headers from `base` on lie in memory, clear of the load area and of the count in the ELF
-- header at addr, which lies clear of the load area too; and no segment ends past 2 ^ 32.
pub record IsTame (addr base n : ℕ) (m : Mem) : Type 0 where
  pub table_fits : base + 32 * n ≤ u32_mod
  pub header_fits : addr + 52 ≤ u32_mod
  pub clear : Clear ld_min_addr ld_max_addr base (32 * n)
  pub count_clear : Clear ld_min_addr ld_max_addr (addr + 44) 2
  pub count_apart : Clear base (base + 32 * n) (addr + 44) 2
  pub ends : (i : ℕ) → i < n → EndsInMemory (segment (base + 32 * i) m)

-- In every round the loop reads the same count.
load16-KeepsBut :
    (addr base n : ℕ) (m : Mem)
    → IsTame addr base n m
    → (i : ℕ) (k : Mem) → i ≤ n
    → KeepsBut base (base + 32 * i) m k
    → load16 k (addr + 44) ≡ load16 m (addr + 44)
load16-KeepsBut addr base n m tame i k less same =
    load16_same m k (addr + 44)
      (λ b lo hi. same b (omega (arith, tame.count_clear)) (omega (arith, tame.count_apart)))

pub load_phdrs-KeepsBut :
    (addr base n : ℕ) (m : Mem)
    → IsTame addr base n m
    → load16 m (addr + 44) ≡ n
    → (fuel i ph : ℕ) (k : Mem) → ph ≡ base + 32 * i
    → i ≤ n
    → KeepsBut base ph m k
    → KeepsBut base (base + 32 * n) m (load_phdrs true addr fuel i ph k).1
unfolding load_phdrs
load_phdrs-KeepsBut addr base n m tame count zero i ph k at less same =
    λ a out off. same a out (omega arith)
load_phdrs-KeepsBut addr base n m tame count (suc fuel) i ph k at less same =
    let one = load_phdr true addr ph k in
    let stays : load16 k (addr + 44) ≡ n =
      load16-KeepsBut addr base n m tame i k less (subst (λ p. KeepsBut base p m k) at same)
      ∙ count in
    elim (Bool-cases (ltb i (load16 k (addr + 44)))) [
      | inr done ↦ rw (done, load_phdrs) (λ a out off. same a out (omega arith))
      | inl inside ↦
          let below : i < n = ground arith in
          let read : segment ph k ≡ segment (base + 32 * i) m =
            segment-KeepsBut base ph m k same (omega (arith, tame.clear))
            ∙ ap (λ p. segment p m) at in
          let kept : KeepsBut base (ph + 32) m one.1 =
            load_phdr-KeepsBut addr base ph m k (omega arith)
              (subst EndsInMemory (sym read) (tame.ends i below)) same in
          rw (inside, load_phdrs)
            (elim (Bool-cases one.0) [
              | inl more ↦ rw more (
                  load_phdrs-KeepsBut addr base n m tame count fuel (i + 1) (ph + 32) one.1
                    (omega arith) (omega arith) kept)
              | inr stop ↦ rw stop (λ a out off. kept a out (omega arith))
            ])
    ]

-- The program headers of the image at `addr`: where they start, and how many.
abbrev pub table_of : ℕ → Mem → ℕ
table_of addr m = add32 addr (load32 m (addr + 28))

abbrev pub count_of : ℕ → Mem → ℕ
count_of addr m = load16 m (addr + 44)

-- With the overlap test on, reloc_elf writes no byte outside [LD_MIN_ADDR, LD_MAX_ADDR) but in the
-- image's own program headers, if these and the count of them lie clear of that area and of each
-- other and no segment's address plus file size wraps.
pub reloc_elf-KeepsBut :
    (addr : ℕ) (m : Mem)
    → IsTame addr (table_of addr m) (count_of addr m) m
    → KeepsBut
        (table_of addr m)
        (table_of addr m + 32 * count_of addr m)
        m
        (reloc_elf addr true m).1
unfolding reloc_elf
reloc_elf-KeepsBut addr m tame =
    elim (Bool-cases (load32 m (addr + 28) == 0 || load16 m (addr + 44) == 0)) [
      | inl none_there ↦ rw none_there (λ a out off. refl)
      | inr some_there ↦ rw some_there (elim (Bool-cases (load16 m (addr + 42) == 32)) [
        | inl sized ↦ rw sized (
            load_phdrs-KeepsBut addr (table_of addr m) (count_of addr m) m tame refl max_phdrs 0
              (table_of addr m) m (omega arith) (omega arith) (λ a out off. refl))
        | inr odd ↦ rw odd (λ a out off. refl)
      ])
    ]
