-- ===== src/Reloc/Dol/Confined.antt =====
-- Where `reloc_dol` writes.
use hbc.Base.{
  ◌%◌, ◌-◌, ℕ, zero, suc, ◌+◌, ◌*◌, ◌≤◌, ◌<◌, ◌≡◌, ◌≢◌, inl, inr, refl, sym, subst, arith, Bool,
  true, false, Bool-cases, ltb, ◌==◌,
}
use hbc.Base.Word.{u32_mod, add32}
use hbc.Memory.{Mem, memmove}
use hbc.Memory.Frame.{Keeps, Clear, Keeps-refl, Keeps-trans, memmove-Keeps, load32-Keeps}
use hbc.Reloc.Area.{ld_min_addr, ld_max_addr, base_addr, overlaps}
use hbc.Reloc.Dol.{Section, text_section, data_section, load_section, load_sections, reloc_dol}

-- The end of the section in memory does not wrap.
abbrev pub EndsInMemory : Section → Type 0
EndsInMemory s = s.start + s.size < u32_mod

-- The load area, which the overlap test guards.
abbrev pub KeepsRest : Mem → Mem → Type 0
KeepsRest = Keeps ld_min_addr ld_max_addr

abbrev pub ClearOfLoadArea : ℕ → ℕ → Type 0
ClearOfLoadArea = Clear ld_min_addr ld_max_addr

-- What one round does: an empty section is skipped, a section that ends outside the file or meets
-- the overlap test ends the loop with the memory as it was, and any other is moved.
pub data SectionRun (addr size : ℕ) (s : Section) (m : Mem) : Bool × Mem → Type 0 where
  skipped : s.size ≡ 0 → SectionRun addr size s m (true, m)
  refused : SectionRun addr size s m (false, m)
  moved :
      s.size ≢ 0
      → add32 s.pos s.size ≤ size
      → overlaps s.start s.size ≡ false
      → SectionRun addr size s m (true, memmove s.start (add32 addr s.pos) s.size m)

pub load_section-SectionRun :
    (addr size : ℕ) (s : Section) (m : Mem)
    → SectionRun addr size s m (load_section true addr size s m)
unfolding load_section
load_section-SectionRun addr size s m = elim (Bool-cases (s.size == 0)) [
  | inl empty ↦ rw empty (skipped (ground arith))
  | inr full ↦ rw full (elim (Bool-cases (ltb size (add32 s.pos s.size))) [
    | inl long ↦ rw long refused
    | inr within ↦ rw within (elim (Bool-cases (overlaps s.start s.size)) [
      | inl bad ↦ rw bad refused
      | inr good ↦ rw good (moved (ground arith) (ground arith) good)
    ])
  ])
]

pub SectionRun-KeepsRest :
    {addr size : ℕ} {s : Section} {m : Mem} {r : Bool × Mem}
    → SectionRun addr size s m r
    → EndsInMemory s
    → KeepsRest m r.1
SectionRun-KeepsRest {m = m} (skipped _) h = Keeps-refl _ _ m
SectionRun-KeepsRest {m = m} refused h = Keeps-refl _ _ m
SectionRun-KeepsRest {addr} {s = s} {m = m} (moved _ _ clear) h =
    memmove-Keeps _ _ s.start (add32 addr s.pos) s.size m (ground arith) (ground arith)

-- The first b rows that a loop reads do not change while the load area alone is written.
abbrev pub Stable : (ℕ → Mem → Section) → ℕ → Mem → Type 0
Stable section b m = (i : ℕ) → i < b → (n : Mem) → KeepsRest m n → section i n ≡ section i m

pub load_sections-KeepsRest :
    (section : ℕ → Mem → Section) (addr size b : ℕ) (m : Mem)
    → Stable section b m
    → ((i : ℕ) → i < b → EndsInMemory (section i m))
    → (n i : ℕ) (k : Mem) → i + n ≤ b
    → KeepsRest m k
    → KeepsRest m (load_sections section true addr size n i k).1
unfolding load_sections
load_sections-KeepsRest section addr size b m st ends zero i k le h = h
load_sections-KeepsRest section addr size b m st ends (suc n) i k le h =
    let one = load_section true addr size (section i k) k in
    let kept : KeepsRest m one.1 = Keeps-trans _ _ m k one.1 h (
      SectionRun-KeepsRest (load_section-SectionRun addr size (section i k) k)
        (subst EndsInMemory (sym (st i (omega arith) k h)) (ends i (omega arith)))) in
    elim (Bool-cases one.0) [
      | inl more ↦
          rw more (
            load_sections-KeepsRest section addr size b m st ends n (i + 1) one.1 (omega arith)
              kept)
      | inr stop ↦ rw stop kept
    ]

-- The 256 bytes of the header lie clear of the load area.
abbrev pub HeaderIsClear : ℕ → Type 0
HeaderIsClear addr = ClearOfLoadArea addr 256

Section_path : {s t : Section} → s.pos ≡ t.pos → s.start ≡ t.start → s.size ≡ t.size → s ≡ t
Section_path p q r = λ i. record { pos = p i; start = q i; size = r i }

pub text_section-Stable : (addr : ℕ) (m : Mem) → HeaderIsClear addr → Stable (text_section addr) 7 m
unfolding text_section
text_section-Stable addr m c i h n k =
    Section_path (load32-Keeps _ _ m n (addr + 4 * i) k (omega arith))
      (load32-Keeps _ _ m n (addr + 72 + 4 * i) k (omega arith))
      (load32-Keeps _ _ m n (addr + 144 + 4 * i) k (omega arith))

pub data_section-Stable :
    (addr : ℕ) (m : Mem) → HeaderIsClear addr → Stable (data_section addr) 11 m
unfolding data_section
data_section-Stable addr m c i h n k =
    Section_path (load32-Keeps _ _ m n (addr + 28 + 4 * i) k (omega arith))
      (load32-Keeps _ _ m n (addr + 100 + 4 * i) k (omega arith))
      (load32-Keeps _ _ m n (addr + 172 + 4 * i) k (omega arith))

-- No section's end wraps, in the header as it was loaded.
pub record IsUnwrapped (addr : ℕ) (m : Mem) : Type 0 where
  pub text_ends : (i : ℕ) → i < 7 → EndsInMemory (text_section addr i m)
  pub data_ends : (i : ℕ) → i < 11 → EndsInMemory (data_section addr i m)

pub text-KeepsRest :
    (addr size : ℕ) (m : Mem)
    → HeaderIsClear addr
    → IsUnwrapped addr m
    → KeepsRest m (load_sections (text_section addr) true addr size 7 0 m).1
text-KeepsRest addr size m c u =
    load_sections-KeepsRest (text_section addr) addr size 7 m (text_section-Stable addr m c)
      u.text_ends 7 0 m (omega arith) (Keeps-refl _ _ m)

pub data-KeepsRest :
    (addr size : ℕ) (m k : Mem)
    → HeaderIsClear addr
    → IsUnwrapped addr m
    → KeepsRest m k
    → KeepsRest m (load_sections (data_section addr) true addr size 11 0 k).1
data-KeepsRest addr size m k c u h =
    load_sections-KeepsRest (data_section addr) addr size 11 m (data_section-Stable addr m c)
      u.data_ends 11 0 k (omega arith) h

-- With the overlap test on, reloc_dol writes no byte outside [LD_MIN_ADDR, LD_MAX_ADDR), whether
-- it accepts the image or gives up half way, if the header lies clear of that area and no
-- section's start plus size wraps.
pub reloc_dol-KeepsRest :
    (addr size : ℕ) (m : Mem)
    → HeaderIsClear addr
    → IsUnwrapped addr m
    → KeepsRest m (reloc_dol addr size true m).1
unfolding reloc_dol
reloc_dol-KeepsRest addr size m c u =
    let texts = load_sections (text_section addr) true addr size 7 0 m in
    let kept = text-KeepsRest addr size m c u in
    elim (Bool-cases texts.0) [
      | inl more ↦ rw more (data-KeepsRest addr size m texts.1 c u kept)
      | inr stop ↦ rw stop kept
    ]

-- A DOL section whose start plus size passes 2 ^ 32 by at most LD_MAX_ADDR, starts at or above
-- LD_MIN_ADDR and at or below BASE_ADDR, and passes the file test with its wrapped end, is moved
-- although it runs over the channel's own code: the byte at BASE_ADDR is overwritten with the byte
-- of memory that lies as far behind the section's source address (the image's address plus the
-- section's offset, mod 2 ^ 32) as BASE_ADDR lies behind its start.
pub load_section_wraps :
    (addr size : ℕ) (s : Section) (m : Mem)
    → ld_min_addr ≤ s.start
    → s.start ≤ base_addr
    → u32_mod ≤ s.start + s.size
    → s.start + s.size ≤ u32_mod + ld_max_addr
    → (s.pos + s.size) % u32_mod ≤ size
    → ((load_section true addr size s m).0 ≡ true)
      × ((load_section true addr size s m).1 base_addr
          ≡ m (add32 addr s.pos + (base_addr - s.start)))
unfolding load_section memmove
load_section_wraps addr size s m lo hi wraps low file = elim (Bool-cases (s.size == 0)) [
  | inl empty ↦ absurd (ground arith)
  | inr full ↦
      let fits : ltb size (add32 s.pos s.size) ≡ false = ground arith in
      let passes : overlaps s.start s.size ≡ false = ground arith in
      rw (full, fits, passes) (refl, ground arith)
]
