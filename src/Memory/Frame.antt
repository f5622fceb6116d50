-- ===== src/Memory/Frame.antt =====
-- What a write leaves alone.
use hbc.Base.{ℕ, ◌+◌, ◌≤◌, ◌<◌, ◌≡◌, ◌⊎◌, refl, ◌∙◌, arith}
use hbc.Memory.{Mem, load16, load32, store8, store32, memmove}

-- The address lies in no byte of [lo, hi).
abbrev pub Outside : ℕ → ℕ → ℕ → Type 0
Outside lo hi a = (a < lo) ⊎ (hi ≤ a)

-- Two memories that differ in [lo, hi) at most.
abbrev pub Keeps : ℕ → ℕ → Mem → Mem → Type 0
Keeps lo hi m n = (a : ℕ) → Outside lo hi a → n a ≡ m a

-- The n bytes at a lie clear of [lo, hi).
abbrev pub Clear : ℕ → ℕ → ℕ → ℕ → Type 0
Clear lo hi a n = (a + n ≤ lo) ⊎ (hi ≤ a)

pub Keeps-refl : (lo hi : ℕ) (m : Mem) → Keeps lo hi m m
Keeps-refl lo hi m a o = refl

pub Keeps-trans : (lo hi : ℕ) (l m n : Mem) → Keeps lo hi l m → Keeps lo hi m n → Keeps lo hi l n
Keeps-trans lo hi l m n h k a o = k a o ∙ h a o

pub memmove-Keeps :
    (lo hi dst src n : ℕ) (m : Mem) → lo ≤ dst → dst + n ≤ hi → Keeps lo hi m (memmove dst src n m)
unfolding memmove
memmove-Keeps lo hi dst src n m h k a o = ground arith

pub store8-Keeps : (lo hi p v : ℕ) (m : Mem) → lo ≤ p → p < hi → Keeps lo hi m (store8 p v m)
unfolding store8
store8-Keeps lo hi p v m h k a o = ground arith

pub store32-Keeps : (lo hi p v : ℕ) (m : Mem) → lo ≤ p → p + 4 ≤ hi → Keeps lo hi m (store32 p v m)
unfolding store32
store32-Keeps lo hi p v m h k a o = ground arith

-- A word reads the same if its bytes do.
pub load32_same :
    (m n : Mem) (a : ℕ) → ((b : ℕ) → a ≤ b → b < a + 4 → n b ≡ m b) → load32 n a ≡ load32 m a
unfolding load32
load32_same m n a h = ground (
  arith,
  h a (omega arith) (omega arith),
  h (a + 1) (omega arith) (omega arith),
  h (a + 2) (omega arith) (omega arith),
  h (a + 3) (omega arith) (omega arith),
)

pub load16_same :
    (m n : Mem) (a : ℕ) → ((b : ℕ) → a ≤ b → b < a + 2 → n b ≡ m b) → load16 n a ≡ load16 m a
unfolding load16
load16_same m n a h =
    ground (arith, h a (omega arith) (omega arith), h (a + 1) (omega arith) (omega arith))

pub load32-Keeps :
    (lo hi : ℕ) (m n : Mem) (a : ℕ) → Keeps lo hi m n → Clear lo hi a 4 → load32 n a ≡ load32 m a
load32-Keeps lo hi m n a h c = load32_same m n a (λ b l u. h b (omega arith))
