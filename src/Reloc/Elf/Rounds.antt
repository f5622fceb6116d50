-- ===== src/Reloc/Elf/Rounds.antt =====
-- The number of rounds of the loop of `reloc_elf`.
use hbc.Base.{ℕ, ◌<◌, arith}
use hbc.Memory.{Mem, store32}

-- Every cell of the memory holds a byte.
abbrev pub HasBytes : Mem → Type 0
HasBytes m = (a : ℕ) → m a < 256

pub store32-HasBytes : (p v : ℕ) (m : Mem) → HasBytes m → HasBytes (store32 p v m)
unfolding store32
store32-HasBytes p v m h a = ground (arith, h a)
