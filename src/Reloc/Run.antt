-- ===== src/Reloc/Run.antt =====
-- `loader_reloc`: the image is moved into place, its start-up code patched, and its arguments set.
--
-- The magic word and the layout of `struct __argv` are the system library's.
pub mod Confined
use hbc.Base.{ℕ, ◌+◌, Bool, true, false, not, ◌&&◌, Option, none, some, if◌then◌else◌, ◌==◌}
use hbc.Memory.{Mem, load32, store8, store32, memmove}
use hbc.Reloc.Area.{ld_args_addr}
use hbc.Reloc.Dol.{reloc_dol}
use hbc.Reloc.Elf.{ElfCheck, not_elf, bad_elf, good_elf, is_valid_elf, reloc_elf}

-- `ARGV_MAGIC`, and the offsets of `argvMagic`, `commandLine` and `length`.
pub record ArgvLayout : Type 0 where
  pub argv_magic : ℕ
  pub magic_at : ℕ
  pub command_line_at : ℕ
  pub length_at : ℕ

unfoldable pub patch_crt0 : ℕ → Mem → Mem
patch_crt0 ep m = if m (ep + 0x20) == 0x41 then store8 (ep + 0x20) 0x40 m else m

-- `argv` is `&p[2]`, 8 bytes behind the entry point.
unfoldable pub set_argv : ArgvLayout → ℕ → ℕ → ℕ → Mem → Mem
set_argv abi ep args arg_len m =
    if not (load32 m (ep + 4) == abi.argv_magic)
    then m
    else store32 (ep + 8 + abi.length_at) arg_len (
        store32 (ep + 8 + abi.command_line_at) ld_args_addr
          (store32 (ep + 8 + abi.magic_at) abi.argv_magic (memmove ld_args_addr args arg_len m)))

-- What `loader_reloc` does once an image was moved.
unfoldable pub prepare : ArgvLayout → ℕ → ℕ → ℕ → Mem → Mem
prepare abi ep args arg_len m =
    if not (args == 0) && not (arg_len == 0)
    then set_argv abi ep args arg_len (patch_crt0 ep m)
    else patch_crt0 ep m

unfoldable pub finish_reloc : ArgvLayout → ℕ → ℕ → Option ℕ × Mem → Option ℕ × Mem
finish_reloc abi args arg_len (none, m) = (none, m)
finish_reloc abi args arg_len (some ep, m) = (some ep, prepare abi ep args arg_len m)

unfoldable pub move_image : ElfCheck → ℕ → ℕ → Bool → Mem → Option ℕ × Mem
move_image not_elf addr size check m = reloc_dol addr size check m
move_image bad_elf addr size check m = (none, m)
move_image good_elf addr size check m = reloc_elf addr check m

-- `loader_reloc`: the entry point if it returns true, and the memory in either case.
unfoldable pub loader_reloc : ArgvLayout → ℕ → ℕ → ℕ → ℕ → Bool → Mem → Option ℕ × Mem
unfolding finish_reloc move_image
loader_reloc abi addr size args arg_len check m =
    finish_reloc abi args arg_len (move_image (is_valid_elf addr m) addr size check m)
