-- ===== src/Tcp/Tests.antt =====
-- Runs of the transfer loops and of `tcp_readln`, with a clock that counts milliseconds.
use hbc.Base.{
  ℕ, ◌-◌, ◌≤◌, ◌≡◌, ◌↔◌, refl, arith, Bool, true, false, List, [], ◌∷◌, ◌++◌, leb, if◌then◌else◌,
  length, ◌==◌, some,
}
use hbc.Tcp.Transfer.{
  Answer, moved, again, Round, Transfer, ended, transfer_loop, tcp_read, tcp_write,
}
use hbc.Tcp.Transfer.Bounds.{IsLawful, transfer_of}
use hbc.Tcp.Transfer.Ends.{Ends, tcp_read-Ends}
use hbc.Tcp.Transfer.Exact.{IsRead, IsWritten, tcp_read-IsRead, tcp_write-IsWritten}
use hbc.Tcp.Line.{ByteAnswer, byte, no_byte, LineRound, line, tcp_readln, until_nul}
use hbc.Tcp.Line.Found.{InTime, HasNoCrlf, tcp_readln-line}

abbrev millisecs : ℕ → ℕ → ℕ
millisecs a b = b - a

-- A peer that has three bytes and hands out as many as are asked for.
abbrev three_bytes : ℕ → Answer (List ℕ)
three_bytes b = if leb 3 b then moved (7 ∷ 8 ∷ 9 ∷ []) else again

abbrev incoming : List (Round (List ℕ))
incoming =
    record { now = 5; answer = λ b. again; restart = 5 }
    ∷ record { now = 30; answer = three_bytes; restart = 31 }
    ∷ []

abbrev received : Transfer
received = record {
  left = 0;
  count = 3;
  step = 0;
  t = 0;
  moved_bytes = 7 ∷ 8 ∷ 9 ∷ [];
  progress = 3;
}

read_three : tcp_read millisecs 3 true 0 incoming 0 ≡ ended true received
unfolding tcp_read transfer_loop
read_three = refl

three_bytes-lawful :
    (b : ℕ) (a : List ℕ) → three_bytes b ≡ moved a → (1 ≤ length a) × (length a ≤ b)
three_bytes-lawful b a e = ground arith

incoming-IsLawful : IsLawful length incoming
incoming-IsLawful = (λ b a e. cc, (three_bytes-lawful, tt))

tcp_read-IsRead_example :
    IsRead 3 true (transfer_of (tcp_read millisecs 3 true 0 incoming 0))
    × ((b : Bool) (t : Transfer)
        → tcp_read millisecs 3 true 0 incoming 0 ≡ ended b t
        → b ≡ (length t.moved_bytes == 3))
tcp_read-IsRead_example =
    tcp_read-IsRead millisecs 3 true incoming 0 (omega arith) incoming-IsLawful

abbrev silence : Round (List ℕ)
silence = record { now = 10100; answer = λ b. again; restart = 0 }

tcp_read-Ends_example : Ends (tcp_read millisecs 4 false 0 (incoming ++ silence ∷ []) 0)
tcp_read-Ends_example =
    tcp_read-Ends millisecs 4 false 0 incoming silence [] 0 (omega arith) (omega arith)

-- A network that takes two bytes at most.
abbrev two_at_most : ℕ → Answer ℕ
two_at_most b = if leb 2 b then moved 2 else if leb 1 b then moved 1 else again

abbrev outgoing : List (Round ℕ)
outgoing =
    record { now = 1; answer = two_at_most; restart = 1 }
    ∷ record { now = 2; answer = two_at_most; restart = 2 }
    ∷ []

write_three :
    tcp_write millisecs (4 ∷ 5 ∷ 6 ∷ []) false 0 outgoing 0
    ≡ ended true (record {
      left = 0;
      count = 3;
      step = 0;
      t = 0;
      moved_bytes = 4 ∷ 5 ∷ 6 ∷ [];
      progress = 0;
    })
unfolding tcp_write transfer_loop
write_three = refl

two_at_most-lawful : (b n : ℕ) → two_at_most b ≡ moved n → (1 ≤ n) × (n ≤ b)
two_at_most-lawful b n e = ground arith

outgoing-IsLawful : IsLawful (λ n. n) outgoing
outgoing-IsLawful = (two_at_most-lawful, (two_at_most-lawful, tt))

tcp_write-IsWritten_example :
    IsWritten
      (4 ∷ 5 ∷ 6 ∷ [])
      (transfer_of (tcp_write millisecs (4 ∷ 5 ∷ 6 ∷ []) false 0 outgoing 0))
    × ((b : Bool) (t : Transfer)
        → tcp_write millisecs (4 ∷ 5 ∷ 6 ∷ []) false 0 outgoing 0 ≡ ended b t
        → (b ≡ true) ↔ (t.moved_bytes ≡ 4 ∷ 5 ∷ 6 ∷ []))
tcp_write-IsWritten_example =
    tcp_write-IsWritten millisecs (4 ∷ 5 ∷ 6 ∷ []) false 0 outgoing 0 (omega arith)
      outgoing-IsLawful

abbrev at_once : ByteAnswer → LineRound
at_once x = record { now = 0; answer = x }

abbrev hello : List LineRound
hello =
    at_once (byte b'h')
    ∷ at_once no_byte
    ∷ at_once (byte b'i')
    ∷ at_once (byte b'\r')
    ∷ at_once (byte b'\n')
    ∷ []

tcp_readln-line_example :
    tcp_readln millisecs 8 0 100 hello [] ≡ line (some (until_nul (b'h' ∷ b'i' ∷ [])))
tcp_readln-line_example =
    tcp_readln-line millisecs 8 0 100 hello (b'h' ∷ b'i' ∷ []) [] hello_in_time refl hello_free
      (omega arith)
  where
    hello_in_time : InTime millisecs 0 100 hello
    hello_in_time = omega arith

    hello_free : HasNoCrlf 0 (b'h' ∷ b'i' ∷ [])
    hello_free = (λ e. omega arith, (λ e. omega arith, tt))
