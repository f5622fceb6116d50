-- ===== src/Tcp/Line.antt =====
-- `tcp_readln`: one line from the socket, byte by byte.
--
-- Each round takes from a schedule what the clock says and what `net_read` answers for one byte. A
-- schedule that runs out leaves the loop `waiting`.
pub mod Found
use hbc.Base.{
  ℕ, zero, suc, ◌+◌, ◌-◌, Bool, true, false, ◌&&◌, List, [], ◌∷◌, ◌++◌, if◌then◌else◌, ltb, ◌==◌,
  length, take, get_or, Option, some, none,
}

-- A positive answer is 1, and stores a byte; 0 and -EAGAIN; another negative number.
pub data ByteAnswer : Type 0 where
  byte : ℕ → ByteAnswer
  no_byte : ByteAnswer
  broken : ByteAnswer

pub record LineRound : Type 0 where
  pub now : ℕ
  pub answer : ByteAnswer

-- The pointer returned (none is NULL), or a loop that has not ended.
pub data LineOutcome : Type 0 where
  line : Option (List ℕ) → LineOutcome
  waiting : LineOutcome

-- A C string ends at the first 0: what `strndup` copies.
unfoldable pub until_nul : List ℕ → List ℕ
until_nul [] = []
until_nul (x ∷ xs) = if x == 0 then [] else x ∷ until_nul xs

-- One stored byte `b`, with the bytes `buf[0] .. buf[c - 1]` before it: the result that ends the
-- loop, or none. `c` is `length buf`.
unfoldable pub take_byte : ℕ → List ℕ → ℕ → Option (Option (List ℕ))
unfolding until_nul
take_byte max_length buf b =
    let c = length buf in
    if ltb 0 c && get_or buf (c - 1) 0 == b'\r' && b == b'\n'
    then some (some (if c == 1 then [] else until_nul (take (c - 1) buf)))
    else if c + 1 == max_length
    then some none
    else none

module _ (millisecs : ℕ → ℕ → ℕ) (max_length start_time timeout : ℕ) where
  unfoldable pub tcp_readln : List LineRound → List ℕ → LineOutcome
  tcp_readln [] buf = waiting
  tcp_readln (r ∷ rs) buf = elim (ltb timeout (millisecs start_time r.now)) [
    | true ↦ line none
    | false ↦ elim r.answer [
      | no_byte ↦ tcp_readln rs buf
      | broken ↦ line none
      | byte b ↦ elim (take_byte max_length buf b) [
        | some result ↦ line result
        | none ↦ tcp_readln rs (buf ++ b ∷ [])
      ]
    ]
  ]
