-- ===== src/Memory.antt =====
-- Memory as the loader sees it: a byte at each address, big-endian words, and the C library's
-- `memmove`. A pointer is a number; the cache calls (`DCFlushRange`, `ICInvalidateRange`) leave
-- every byte as it is and are left out.
pub mod Frame
use hbc.Base.{ℕ, ◌+◌, ◌-◌, ◌*◌, ◌/◌, ◌%◌, ◌^◌, ◌&&◌, if◌then◌else◌, leb, ltb, ◌==◌}

abbrev pub Mem : Type 0
Mem = ℕ → ℕ

unfoldable pub load16 : Mem → ℕ → ℕ
load16 m a = m a * 256 + m (a + 1)

unfoldable pub load32 : Mem → ℕ → ℕ
load32 m a = ((m a * 256 + m (a + 1)) * 256 + m (a + 2)) * 256 + m (a + 3)

unfoldable pub store8 : ℕ → ℕ → Mem → Mem
store8 p v m a = if a == p then v else m a

unfoldable pub store32 : ℕ → ℕ → Mem → Mem
unfolding store8
store32 p v m = store8 (p + 3) (v % 256) (
    store8 (p + 2) (v / 2 ^ 8 % 256)
      (store8 (p + 1) (v / 2 ^ 16 % 256) (store8 p (v / 2 ^ 24 % 256) m)))

unfoldable pub memmove : ℕ → ℕ → ℕ → Mem → Mem
memmove dst src n m a = if leb dst a && ltb a (dst + n) then m (src + (a - dst)) else m a
