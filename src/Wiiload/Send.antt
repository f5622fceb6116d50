-- ===== src/Wiiload/Send.antt =====
-- `send_tcp` and what it calls.
--
-- What `send` answers to each further call is a schedule: an error, or how many of the bytes at hand
-- it took. Finding the host, the socket and the connection come in as one flag.
pub mod Sent
pub mod Header
pub mod Ends
use hbc.Base.{
  ℕ, zero, suc, ◌+◌, ◌-◌, ◌*◌, ◌/◌, ◌%◌, ◌^◌, Bool, true, false, not, Option, none, some, List, [],
  ◌∷◌, ◌++◌, if◌then◌else◌, ◌==◌, ltb, length, take, drop,
}

-- The answers still to come, and the bytes that went over so far.
pub record Wire : Type 0 where
  pub sends : List (ℕ → Option ℕ)
  pub sent : List ℕ

-- A call returned, or it still loops at the end of the schedule.
pub data Sending : Type 0 where
  returned : Bool → Wire → Sending
  blocked : Wire → Sending

-- `tcp_write`, with the bytes from `p` on that are left.
unfoldable pub write_all : List (ℕ → Option ℕ) → List ℕ → List ℕ → Sending
write_all sends [] sent = returned true (record { sends = sends; sent = sent })
write_all [] (b ∷ bs) sent = blocked (record { sends = []; sent = sent })
write_all (answer ∷ sends) (b ∷ bs) sent = elim (answer (length (b ∷ bs))) [
  | none ↦ returned false (record { sends = sends; sent = sent })
  | some n ↦ write_all sends (drop n (b ∷ bs)) (sent ++ take n (b ∷ bs))
]

unfoldable pub tcp_write : List ℕ → Wire → Sending
unfolding write_all
tcp_write buf w = write_all w.sends buf w.sent

-- A false answer returns at once.
abbrev pub and_then : Sending → (Wire → Sending) → Sending
and_then o f = elim o [
  | returned true w ↦ f w
  | returned false w ↦ returned false w
  | blocked w ↦ blocked w
]

abbrev pub block_size : ℕ
block_size = 4 * 1024

-- The loop over blocks, on as much fuel as there are bytes.
unfoldable pub send_blocks : ℕ → List ℕ → Wire → Sending
send_blocks fuel [] w = returned true w
send_blocks zero (b ∷ bs) w = blocked w
send_blocks (suc fuel) (b ∷ bs) w =
    let block = if ltb block_size (length (b ∷ bs)) then block_size else length (b ∷ bs) in
    and_then (tcp_write (take block (b ∷ bs)) w) (send_blocks fuel (drop block (b ∷ bs)))

-- `(n >> k) & 0xff`.
abbrev pub byte_of : ℕ → ℕ → ℕ
byte_of k n = n / 2 ^ k % 256

abbrev pub magic_word : List ℕ
magic_word = b'H' ∷ b'A' ∷ b'X' ∷ b'X' ∷ []

abbrev pub version_word : ℕ → List ℕ
version_word args_len = 0 ∷ 5 ∷ byte_of 8 args_len ∷ byte_of 0 args_len ∷ []

abbrev pub size_word : ℕ → List ℕ
size_word n = byte_of 24 n ∷ byte_of 16 n ∷ byte_of 8 n ∷ byte_of 0 n ∷ []

unfoldable pub send_tcp : Bool → List ℕ → ℕ → ℕ → List ℕ → ℕ → Wire → Sending
unfolding tcp_write send_blocks
send_tcp connects buf len len_un args args_len w =
    if not connects
    then returned false w
    else and_then (tcp_write magic_word w) (λ w.
      and_then (tcp_write (version_word args_len) w) (λ w.
        and_then (tcp_write (size_word len) w) (λ w. and_then (tcp_write (size_word len_un) w) (λ w.
          and_then (send_blocks len (take len buf) w)
            (λ w. if args_len == 0 then returned true w else tcp_write (take args_len args) w)))))
