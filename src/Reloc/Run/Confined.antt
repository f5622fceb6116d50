-- ===== src/Reloc/Run/Confined.antt =====
-- `loader_reloc` and the channel's own code.
use hbc.Base.{
  ℕ, ◌+◌, ◌*◌, ◌≤◌, ◌<◌, ◌≡◌, ◌≢◌, ◌⊎◌, inl, inr, refl, ◌∙◌, arith, Bool, true, Bool-cases, ◌==◌,
  not, ◌&&◌, Option, some, none,
}
use hbc.Memory.{Mem, load16, load32}
use hbc.Memory.Frame.{
  Outside, Keeps, Keeps-refl, Keeps-trans, memmove-Keeps, store8-Keeps, store32-Keeps,
}
use hbc.Reloc.Area.{ld_min_addr, ld_args_addr, base_addr, args_max_len}
use hbc.Reloc.Dol.Confined.{HeaderIsClear, IsUnwrapped, reloc_dol-KeepsRest}
use hbc.Reloc.Elf.{ElfCheck, not_elf, bad_elf, good_elf, is_valid_elf}
use hbc.Reloc.Elf.Confined.{IsTame, table_of, count_of, reloc_elf-KeepsBut}
use hbc.Reloc.Run.{
  ArgvLayout, patch_crt0, set_argv, prepare, finish_reloc, move_image, loader_reloc,
}

-- The start-up code at `ep`, with the words of `struct __argv`, lies below the channel.
pub record EntryFits (abi : ArgvLayout) (ep : ℕ) : Type 0 where
  pub above : ld_min_addr ≤ ep
  pub crt0 : ep + 0x20 < base_addr
  pub magic : ep + 8 + abi.magic_at + 4 ≤ base_addr
  pub command_line : ep + 8 + abi.command_line_at + 4 ≤ base_addr
  pub length : ep + 8 + abi.length_at + 4 ≤ base_addr

abbrev pub KeepsChannel : Mem → Mem → Type 0
KeepsChannel = Keeps ld_min_addr base_addr

module _ (abi : ArgvLayout) (ep : ℕ) (fits : EntryFits abi ep) where
  patch_crt0-KeepsChannel : (m : Mem) → KeepsChannel m (patch_crt0 ep m)
  unfolding patch_crt0
  patch_crt0-KeepsChannel m = elim (Bool-cases (m (ep + 0x20) == 0x41)) [
    | inl old ↦
        rw old (
          store8-Keeps _ _ (ep + 0x20) 0x40 m (omega (arith, fits.above))
            (omega (arith, fits.crt0)))
    | inr new ↦ rw new (Keeps-refl _ _ m)
  ]

  set_argv-KeepsChannel :
      (args arg_len : ℕ) (m : Mem)
      → arg_len ≤ args_max_len
      → KeepsChannel m (set_argv abi ep args arg_len m)
  unfolding set_argv
  set_argv-KeepsChannel args arg_len m h a o =
      elim (Bool-cases (load32 m (ep + 4) == abi.argv_magic)) [
        | inr no_argv ↦ rw no_argv
        | inl argv ↦ rw argv (
            store32-Keeps _ _ (ep + 8 + abi.length_at) arg_len _ (omega (arith, fits.above))
              fits.length a o
            ∙ store32-Keeps _ _ (ep + 8 + abi.command_line_at) ld_args_addr _
                (omega (arith, fits.above)) fits.command_line a o
            ∙ store32-Keeps _ _ (ep + 8 + abi.magic_at) abi.argv_magic _ (omega (arith, fits.above))
                fits.magic a o
            ∙ memmove-Keeps _ _ ld_args_addr args arg_len m (omega arith) (omega arith) a o)
      ]

  prepare-KeepsChannel :
      (args arg_len : ℕ) (m : Mem)
      → arg_len ≤ args_max_len
      → KeepsChannel m (prepare abi ep args arg_len m)
  unfolding prepare
  prepare-KeepsChannel args arg_len m h =
      elim (Bool-cases (not (args == 0) && not (arg_len == 0))) [
        | inl given ↦ rw given (
            Keeps-trans _ _ m (patch_crt0 ep m) _ (patch_crt0-KeepsChannel m)
              (set_argv-KeepsChannel args arg_len (patch_crt0 ep m) h))
        | inr absent ↦ rw absent (patch_crt0-KeepsChannel m)
      ]

finish_reloc-KeepsChannel :
    (abi : ArgvLayout) (args arg_len : ℕ) (r : Option ℕ × Mem)
    → arg_len ≤ args_max_len
    → ((ep : ℕ) → (finish_reloc abi args arg_len r).0 ≡ some ep → EntryFits abi ep)
    → KeepsChannel r.1 (finish_reloc abi args arg_len r).1
unfolding finish_reloc
finish_reloc-KeepsChannel abi args arg_len (none, m) h fits = Keeps-refl _ _ m
finish_reloc-KeepsChannel abi args arg_len (some ep, m) h fits =
    prepare-KeepsChannel abi ep (fits ep refl) args arg_len m h

-- What an image must be for the loader to be safe: as a DOL, its header lies clear of the load area
-- and no section wraps; as an ELF, so do its program headers and the count of them, which lie apart,
-- and no segment wraps.
pub record IsSafeImage (addr : ℕ) (m : Mem) : Type 0 where
  pub dol_clear : is_valid_elf addr m ≡ not_elf → HeaderIsClear addr
  pub dol_ends : is_valid_elf addr m ≡ not_elf → IsUnwrapped addr m
  pub elf_tame : is_valid_elf addr m ≡ good_elf → IsTame addr (table_of addr m) (count_of addr m) m

move_image-Keeps :
    (check : ElfCheck) (addr size : ℕ) (m : Mem)
    → is_valid_elf addr m ≡ check
    → IsSafeImage addr m
    → (a : ℕ) → Outside ld_min_addr base_addr a
    → Outside (table_of addr m) (table_of addr m + 32 * count_of addr m) a
    → (move_image check addr size true m).1 a ≡ m a
unfolding move_image
move_image-Keeps not_elf addr size m e safe a o t =
    reloc_dol-KeepsRest addr size m (safe.dol_clear e) (safe.dol_ends e) a (omega arith)
move_image-Keeps bad_elf addr size m e safe a o t = refl
move_image-Keeps good_elf addr size m e safe a o t =
    reloc_elf-KeepsBut addr m (safe.elf_tame e) a (omega arith) t

pub loader_reloc-KeepsChannel :
    (abi : ArgvLayout) (addr size args arg_len : ℕ) (m : Mem)
    → IsSafeImage addr m
    → arg_len ≤ args_max_len
    → ((ep : ℕ) → (loader_reloc abi addr size args arg_len true m).0 ≡ some ep → EntryFits abi ep)
    → (a : ℕ) → Outside ld_min_addr base_addr a
    → Outside (table_of addr m) (table_of addr m + 32 * count_of addr m) a
    → (loader_reloc abi addr size args arg_len true m).1 a ≡ m a
unfolding loader_reloc
loader_reloc-KeepsChannel abi addr size args arg_len m safe h fits a o t =
    finish_reloc-KeepsChannel abi args arg_len (move_image (is_valid_elf addr m) addr size true m) h
      fits a o
    ∙ move_image-Keeps (is_valid_elf addr m) addr size m refl safe a o t

-- A file with the ELF magic that is not a big-endian 32-bit PowerPC executable of the current
-- version is turned down, and memory stays as it is.
loader_reloc-bad_elf :
    (abi : ArgvLayout) (addr size args arg_len : ℕ) (check : Bool) (m : Mem)
    → (m addr ≡ 0x7f) × (m (addr + 1) ≡ b'E') × (m (addr + 2) ≡ b'L') × (m (addr + 3) ≡ b'F')
    → (m (addr + 4) ≢ 1)
      ⊎ (m (addr + 5) ≢ 2)
      ⊎ (m (addr + 6) ≢ 1)
      ⊎ (load16 m (addr + 16) ≢ 2)
      ⊎ (load16 m (addr + 18) ≢ 20)
    → loader_reloc abi addr size args arg_len check m ≡ (none, m)
unfolding loader_reloc is_valid_elf
loader_reloc-bad_elf abi addr size args arg_len check m magic odd = ground arith
