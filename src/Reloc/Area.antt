-- ===== src/Reloc/Area.antt =====
-- The bounds of channel/channelapp/config.h. `BASE_ADDR` is the channel's own load address, set in
-- channel/channelapp/Makefile.
use hbc.Base.{ℕ, ◌-◌, ◌+◌, Bool, ◌||◌, ltb}
use hbc.Base.Word.{add32}

abbrev pub base_addr : ℕ
base_addr = 0x8133_0000

abbrev pub args_max_len : ℕ
args_max_len = 1024

abbrev pub ld_min_addr : ℕ
ld_min_addr = 0x8000_3400

abbrev pub ld_max_addr : ℕ
ld_max_addr = base_addr - 1 - args_max_len

abbrev pub ld_max_size : ℕ
ld_max_size = ld_max_addr - ld_min_addr

abbrev pub ld_args_addr : ℕ
ld_args_addr = ld_max_addr + 1

-- The overlap test of both image formats: `start < LD_MIN_ADDR || start + size > LD_MAX_ADDR`.
abbrev pub overlaps : ℕ → ℕ → Bool
overlaps start size = ltb start ld_min_addr || ltb ld_max_addr (add32 start size)
