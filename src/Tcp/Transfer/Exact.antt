-- ===== src/Tcp/Transfer/Exact.antt =====
-- What `tcp_read` stores and what `tcp_write` sends.
use hbc.Base.{
  subst, ℕ, ◌+◌, ◌≤◌, ◌<◌, ◌≡◌, ◌↔◌, refl, ◌∙◌, arith, Bool, true, List, ◌==◌, length, take, drop,
  take-add, take-length, length-append, length-take,
}
use hbc.Base.Word.{u32_mod, add32}
use hbc.Tcp.Transfer.{
  Round, block_of, Transfer, ended, advance, transfer_loop, start, tcp_read, tcp_write,
  tcp_block_recv_timeout, tcp_block_send_timeout,
}
use hbc.Tcp.Transfer.Bounds.{IsLawful, transfer_of, transfer_loop-inv, transfer_loop-verdict}

-- After any number of rounds of `tcp_read` of `total` bytes.
pub record IsRead (total : ℕ) (shared : Bool) (s : Transfer) : Type 0 where
  pub adds : s.count + s.left ≡ total
  pub stored : length s.moved_bytes ≡ s.count
  pub reported : shared ≡ true → s.progress ≡ s.count

advance-IsRead :
    {total : ℕ} {shared : Bool} (restart : ℕ) (bytes : List ℕ) (s : Transfer)
    → total < u32_mod
    → IsRead total shared s
    → length bytes ≤ block_of s.left
    → IsRead total shared (advance shared restart (length bytes) bytes s)
unfolding advance
advance-IsRead restart bytes s w h le = record {
  adds = ground (arith, h.adds);
  stored = ground (arith, h.adds, h.stored, length-append s.moved_bytes bytes);
  reported = λ e. ground arith;
}

-- tcp_read stores at most the size asked for, below 2 ^ 32, counts it and (if asked, from 0 on)
-- reports it, and if it returns, returns true exactly when all bytes were stored: on every clock
-- and every network whose positive answers are at most the count asked for.
pub tcp_read-IsRead :
    (millisecs : ℕ → ℕ → ℕ) (size : ℕ) (shared : Bool) (rounds : List (Round (List ℕ))) (now : ℕ)
    → size < u32_mod
    → IsLawful length rounds
    → IsRead size shared (transfer_of (tcp_read millisecs size shared 0 rounds now))
      × ((b : Bool) (t : Transfer)
          → tcp_read millisecs size shared 0 rounds now ≡ ended b t
          → b ≡ (length t.moved_bytes == size))
unfolding tcp_read
tcp_read-IsRead millisecs size shared rounds now w law = (
  here,
  λ b t e.
      let verdict =
        transfer_loop-verdict millisecs tcp_block_recv_timeout shared length (λ bytes s. bytes)
          rounds (start size now 0) b t e in
      let read : IsRead size shared t = subst (λ o. IsRead size shared (transfer_of o)) e here in
      ground (arith, read.adds, read.stored),
)
  where
    here : IsRead size shared (
        transfer_of (
          transfer_loop millisecs tcp_block_recv_timeout shared length
            (λ bytes s. bytes)
            rounds
            (start size now 0)))
    here =
        transfer_loop-inv millisecs tcp_block_recv_timeout shared length (λ bytes s. bytes)
          (IsRead size shared) (λ restart a s h le. advance-IsRead restart a s w h le) rounds
          (start size now 0) law
          (record { adds = omega arith; stored = refl; reported = λ e. refl })

-- The same, but for the report, from any value of the caller's cell on.
pub record IsStored (total : ℕ) (s : Transfer) : Type 0 where
  pub adds : s.count + s.left ≡ total
  pub stored : length s.moved_bytes ≡ s.count

advance-IsStored :
    {total : ℕ} (shared : Bool) (restart : ℕ) (bytes : List ℕ) (s : Transfer)
    → total < u32_mod
    → IsStored total s
    → length bytes ≤ block_of s.left
    → IsStored total (advance shared restart (length bytes) bytes s)
unfolding advance
advance-IsStored shared restart bytes s w h le = record {
  adds = ground (arith, h.adds);
  stored = ground (arith, h.adds, h.stored, length-append s.moved_bytes bytes);
}

pub tcp_read-IsStored :
    (millisecs : ℕ → ℕ → ℕ) (size : ℕ) (shared : Bool) (progress : ℕ)
    (rounds : List (Round (List ℕ))) (now : ℕ) (b : Bool) (t : Transfer)
    → size < u32_mod
    → IsLawful length rounds
    → tcp_read millisecs size shared progress rounds now ≡ ended b t
    → (b ≡ (length t.moved_bytes == size)) × (length t.moved_bytes ≤ size)
unfolding tcp_read
tcp_read-IsStored millisecs size shared progress rounds now b t w law e =
    let verdict =
      transfer_loop-verdict millisecs tcp_block_recv_timeout shared length (λ bytes s. bytes) rounds
        (start size now progress) b t e in
    let read : IsStored size t = subst (λ o. IsStored size (transfer_of o)) e here in
    (ground (arith, read.adds, read.stored), omega (arith, read.adds, read.stored))
  where
    here : IsStored size (
        transfer_of (
          transfer_loop millisecs tcp_block_recv_timeout shared length
            (λ bytes s. bytes)
            rounds
            (start size now progress)))
    here =
        transfer_loop-inv millisecs tcp_block_recv_timeout shared length (λ bytes s. bytes)
          (IsStored size) (λ restart a s h le. advance-IsStored shared restart a s w h le) rounds
          (start size now progress) law (record { adds = omega arith; stored = refl })

-- After any number of rounds of `tcp_write` of `buffer`.
pub record IsWritten (buffer : List ℕ) (s : Transfer) : Type 0 where
  pub adds : s.count + s.left ≡ length buffer
  pub sent : s.moved_bytes ≡ take s.count buffer

advance-IsWritten :
    {buffer : List ℕ} (shared : Bool) (restart n : ℕ) (s : Transfer)
    → length buffer < u32_mod
    → IsWritten buffer s
    → n ≤ block_of s.left
    → IsWritten buffer (advance shared restart n (take n (drop s.count buffer)) s)
unfolding advance
advance-IsWritten {buffer} shared restart n s w h le =
    let sum : add32 s.count n ≡ s.count + n = ground (arith, h.adds) in
    record { adds = ground (arith, h.adds); sent = rw (sum, take-add s.count n buffer, h.sent) }

-- What tcp_write hands to the network is at every moment the first bytes of the buffer in order,
-- and if it returns, it returns true exactly when that is the whole buffer: for buffers below 2 ^
-- 32 bytes and every network whose positive answers are at most the count offered.
pub tcp_write-IsWritten :
    (millisecs : ℕ → ℕ → ℕ) (buffer : List ℕ) (shared : Bool) (progress : ℕ)
    (rounds : List (Round ℕ)) (now : ℕ)
    → length buffer < u32_mod
    → IsLawful (λ n. n) rounds
    → IsWritten buffer (transfer_of (tcp_write millisecs buffer shared progress rounds now))
      × ((b : Bool) (t : Transfer)
          → tcp_write millisecs buffer shared progress rounds now ≡ ended b t
          → (b ≡ true) ↔ (t.moved_bytes ≡ buffer))
unfolding tcp_write
tcp_write-IsWritten millisecs buffer shared progress rounds now w law = (
  here,
  λ b t e.
      let verdict =
        transfer_loop-verdict millisecs tcp_block_send_timeout shared (λ n. n) pick rounds
          (start (length buffer) now progress) b t e in
      let written : IsWritten buffer t = subst (λ o. IsWritten buffer (transfer_of o)) e here in
      (
        λ yes_all.
            let all : t.count ≡ length buffer = ground (arith, written.adds) in
            written.sent ∙ rw all (take-length buffer),
        λ same.
            let count : length (take t.count buffer) ≡ length buffer = cc written.sent in
            ground (arith, written.adds, length-take t.count buffer),
      ),
)
  where
    pick : ℕ → Transfer → List ℕ
    pick n s = take n (drop s.count buffer)

    here : IsWritten buffer (
        transfer_of (
          transfer_loop millisecs tcp_block_send_timeout shared
            (λ n. n)
            pick
            rounds
            (start (length buffer) now progress)))
    here =
        transfer_loop-inv millisecs tcp_block_send_timeout shared (λ n. n) pick (IsWritten buffer)
          (λ restart n s h le. advance-IsWritten shared restart n s w h le) rounds
          (start (length buffer) now progress) law (record { adds = omega arith; sent = refl })
