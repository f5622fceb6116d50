-- ===== src/Loader/Filled.antt =====
-- The Gecko thread's buffer.
use hbc.Base.{
  ℕ, zero, suc, ◌+◌, ◌-◌, ◌%◌, ◌≤◌, ◌<◌, ◌≡◌, arith, List, [], ◌∷◌, ◌++◌, some, length,
  length-append, All,
}
use hbc.Loader.Threads.{GeckoRound, read_gecko}

-- `usb_recvbuffer_safe_ex` stores at most as many bytes as were asked for.
abbrev pub IsLawful : List GeckoRound → Type 0
IsLawful = All (λ r. (n : ℕ) → length (r.received n) ≤ n)

-- When the Gecko thread's loop fills its buffer, it holds what it held and exactly the bytes asked
-- for, below 256, however they arrive: the u8 count does not wrap, if each call stores at most as
-- many bytes as it was asked for.
length-read_gecko :
    (millisecs : ℕ → ℕ → ℕ) (t : ℕ) (rounds : List GeckoRound) (left : ℕ) (buf out : List ℕ)
    → IsLawful rounds
    → left < 256
    → read_gecko millisecs t rounds left buf ≡ some (some out)
    → length out ≡ length buf + left
unfolding read_gecko
length-read_gecko millisecs t [] zero buf out law w e = ground arith
length-read_gecko millisecs t (r ∷ rs) zero buf out law w e = ground arith
length-read_gecko millisecs t [] (suc n) buf out law w e = cc
length-read_gecko millisecs t (r ∷ rs) (suc n) buf out law w e = ground (
  arith,
  law.0 (suc n),
  length-append buf (r.received (suc n)),
  length-read_gecko millisecs t rs ((suc n + 256 - length (r.received (suc n))) % 256)
      (buf ++ r.received (suc n)) out law.1 (omega arith),
  length-read_gecko millisecs t rs (suc n) buf out law.1 w,
)
