-- ===== src/Reloc/Dol/Overlay.antt =====
-- What memory holds after `reloc_dol`: each byte comes from the last section that covers it.
use mathlib.Core.Bool.{false≢true}
use hbc.Base.{
  ℕ, zero, suc, ◌+◌, ◌-◌, ◌≤◌, ◌<◌, ◌≡◌, inl, inr, refl, ◌∙◌, subst, arith, Bool, true, Bool-cases,
  ◌&&◌, List, [], ◌∷◌, none, some, if◌then◌else◌, ltb, leb,
}
use hbc.Base.Word.{u32_mod}
use hbc.Memory.{Mem, load32, memmove}
use hbc.Memory.Frame.{Keeps-refl, Keeps-trans, load32-Keeps}
use hbc.Reloc.Dol.{Section, text_section, data_section, load_section, load_sections, reloc_dol}
use hbc.Reloc.Dol.Confined.{
  EndsInMemory, KeepsRest, ClearOfLoadArea, SectionRun, skipped, refused, moved,
  load_section-SectionRun, Stable, SectionRun-KeepsRest, HeaderIsClear, IsUnwrapped,
  text_section-Stable, data_section-Stable, text-KeepsRest, data-KeepsRest,
}

abbrev pub covers : Section → ℕ → Bool
covers s a = leb s.start a && ltb a (s.start + s.size)

-- The byte at `a` after the sections of the list, the last one first, were copied out of the image
-- at `addr` as it stands in `m`.
abbrev pub loaded_byte : ℕ → Mem → List Section → ℕ → ℕ
loaded_byte addr m [] a = m a
loaded_byte addr m (s ∷ before) a =
    if covers s a then m (addr + s.pos + (a - s.start)) else loaded_byte addr m before a

-- The rows i, i + 1, ... (n of them), each put in front of those before it.
abbrev pub newest_first : (ℕ → Mem → Section) → Mem → ℕ → ℕ → List Section → List Section
newest_first section m zero i before = before
newest_first section m (suc n) i before = newest_first section m n (i + 1) (section i m ∷ before)

abbrev pub EndsInFile : Section → Type 0
EndsInFile s = s.pos + s.size < u32_mod

-- One round keeps memory equal to the description, if it goes on.
SectionRun-loaded_byte :
    {addr size : ℕ} {s : Section} {k : Mem} {r : Bool × Mem} (m : Mem) (before : List Section)
    → SectionRun addr size s k r
    → r.0 ≡ true
    → ClearOfLoadArea addr size
    → addr + size ≤ u32_mod
    → EndsInFile s
    → KeepsRest m k
    → ((a : ℕ) → k a ≡ loaded_byte addr m before a)
    → (a : ℕ) → r.1 a ≡ loaded_byte addr m (s ∷ before) a
unfolding memmove
SectionRun-loaded_byte m before (skipped e) t c w f h same a = ground (arith, same a)
SectionRun-loaded_byte m before refused t c w f h same a = cc
SectionRun-loaded_byte {addr} {size} {s} {k} m before (moved ne fits clear) t c w f h same a =
    ground (arith, same a, h (addr + s.pos + (a - s.start)))

load_sections-loaded_byte :
    (section : ℕ → Mem → Section) (addr size b : ℕ) (m : Mem)
    → Stable section b m
    → ((i : ℕ) → i < b → EndsInMemory (section i m))
    → ((i : ℕ) → i < b → EndsInFile (section i m))
    → ClearOfLoadArea addr size
    → addr + size ≤ u32_mod
    → (n i : ℕ) (before : List Section) (k : Mem) → i + n ≤ b
    → KeepsRest m k
    → ((a : ℕ) → k a ≡ loaded_byte addr m before a)
    → (load_sections section true addr size n i k).0 ≡ true
    → (a : ℕ)
    → (load_sections section true addr size n i k).1 a
      ≡ loaded_byte addr m (newest_first section m n i before) a
unfolding load_sections
load_sections-loaded_byte section addr size b m st ends files c w zero i before k le h same t = same
load_sections-loaded_byte section addr size b m st ends files c w (suc n) i before k le h same t =
    let one = load_section true addr size (section i k) k in
    let run : SectionRun addr size (section i m) k one =
      subst (λ s. SectionRun addr size s k one) (st i (omega arith) k h)
        (load_section-SectionRun addr size (section i k) k) in
    elim (Bool-cases one.0) [
      | inl more ↦ rw more (
          load_sections-loaded_byte section addr size b m st ends files c w n (i + 1)
            (section i m ∷ before) one.1 (omega arith)
            (Keeps-trans _ _ m k one.1 h (SectionRun-KeepsRest run (ends i (omega arith))))
            (SectionRun-loaded_byte m before run more c w (files i (omega arith)) h same)
            (rw more at t))
      | inr stop ↦ absurd (false≢true (rw stop at t))
    ]

-- No section of the header wraps past the end of the address space in the file.
pub record FitsWords (addr : ℕ) (m : Mem) : Type 0 where
  pub text_files : (i : ℕ) → i < 7 → EndsInFile (text_section addr i m)
  pub data_files : (i : ℕ) → i < 11 → EndsInFile (data_section addr i m)

-- The 18 sections of the header, the last one loaded first.
abbrev pub dol_sections : ℕ → Mem → List Section
dol_sections addr m =
    newest_first (data_section addr) m 11 0 (newest_first (text_section addr) m 7 0 [])

-- When reloc_dol accepts an image, each byte of memory is the one that the last section over it
-- has in the image, or the old byte where no section lies, and the entry point is the header's.
-- The image ends in the address space, it and its header lie clear of the load area, the overlap
-- test is on, and no section's end wraps, in memory or in the file.
pub reloc_dol-loaded_byte :
    (addr size : ℕ) (m : Mem) {ep : ℕ}
    → HeaderIsClear addr
    → ClearOfLoadArea addr size
    → addr + size ≤ u32_mod
    → IsUnwrapped addr m
    → FitsWords addr m
    → (reloc_dol addr size true m).0 ≡ some ep
    → (ep ≡ load32 m (addr + 224))
      × ((a : ℕ) → (reloc_dol addr size true m).1 a ≡ loaded_byte addr m (dol_sections addr m) a)
unfolding reloc_dol
reloc_dol-loaded_byte addr size m {ep} hc c w u f e = elim (Bool-cases texts.0) [
  | inl more ↦ elim (Bool-cases datas.0) [
    | inl done ↦ (
      entry more done ∙ load32-Keeps _ _ m datas.1 (addr + 224) kept_all (omega arith),
      rw more (
          load_sections-loaded_byte (data_section addr) addr size 11 m
            (data_section-Stable addr m hc) u.data_ends f.data_files c w 11 0
            (newest_first (text_section addr) m 7 0 []) texts.1 (omega arith) kept
            (after_texts more) done),
    )
    | inr stop ↦ (let e' : none ≡ some ep = rw (more, stop) at e in cc)
  ]
  | inr stop ↦ (let e' : none ≡ some ep = rw stop at e in cc)
]
  where
    texts : Bool × Mem
    texts = load_sections (text_section addr) true addr size 7 0 m

    datas : Bool × Mem
    datas = load_sections (data_section addr) true addr size 11 0 texts.1

    kept : KeepsRest m texts.1
    kept = text-KeepsRest addr size m hc u

    kept_all : KeepsRest m datas.1
    kept_all = data-KeepsRest addr size m texts.1 hc u kept

    entry : texts.0 ≡ true → datas.0 ≡ true → ep ≡ load32 datas.1 (addr + 224)
    entry more done =
        let e' : some (load32 datas.1 (addr + 224)) ≡ some ep = rw (more, done) at e in cc

    after_texts :
        texts.0 ≡ true
        → (a : ℕ) → texts.1 a ≡ loaded_byte addr m (newest_first (text_section addr) m 7 0 []) a
    after_texts more =
        load_sections-loaded_byte (text_section addr) addr size 7 m (text_section-Stable addr m hc)
          u.text_ends f.text_files c w 7 0 [] m (omega arith) (Keeps-refl _ _ m) (λ a. refl) more
