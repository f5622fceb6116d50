-- ===== src/Tcp/Transfer.antt =====
-- `tcp_read` and `tcp_write`: the same loop around `net_read` and `net_write`.
--
-- The clock and the network are the system library's. Each round of the loop takes from a schedule
-- what the clock says at the test (`now`), the answer of the call, by the number of bytes asked for,
-- and what the clock says if the timer is started again (`restart`). The conversion of a pair of
-- clock values to milliseconds is a parameter. A schedule that runs out before the loop ends leaves
-- it `waiting`. The `usleep` between two rounds is part of the schedule; the lock around the store
-- to `*progress` makes it one step.
pub mod Bounds
pub mod Ends
pub mod Exact
use hbc.Base.{
  ℕ, ◌+◌, ◌-◌, ◌*◌, ◌/◌, Bool, true, false, ◌||◌, List, [], ◌∷◌, ◌++◌, if◌then◌else◌, ltb, ◌==◌,
  length, take, drop,
}
use hbc.Base.Word.{add32, sub32}

abbrev pub tcp_block_size : ℕ
tcp_block_size = 16 * 1024

abbrev pub tcp_block_recv_timeout : ℕ
tcp_block_recv_timeout = 10000

abbrev pub tcp_block_send_timeout : ℕ
tcp_block_send_timeout = 4000

-- What a call gives: a positive count with the bytes, 0 or -EAGAIN, another negative number.
pub data Answer (A : Type 0) : Type 0 where
  moved : A → Answer A
  again : Answer A
  failed : Answer A

pub record Round (A : Type 0) : Type 0 where
  pub now : ℕ
  pub answer : ℕ → Answer A
  pub restart : ℕ

-- `block`: at most 2048 bytes are asked for at once.
abbrev pub block_of : ℕ → ℕ
block_of left = if ltb 2048 left then 2048 else left

-- The loop's variables. `moved_bytes` is what went over so far: the bytes stored at `buffer`, or
-- those handed to the network. `progress` is the caller's cell.
pub record Transfer : Type 0 where
  pub left : ℕ
  pub count : ℕ
  pub step : ℕ
  pub t : ℕ
  pub moved_bytes : List ℕ
  pub progress : ℕ

pub data Outcome : Type 0 where
  ended : Bool → Transfer → Outcome
  waiting : Transfer → Outcome

-- The bookkeeping after `res` bytes went over; `shared` is `mutex && progress`.
unfoldable pub advance : Bool → ℕ → ℕ → List ℕ → Transfer → Transfer
advance shared restart res bytes s =
    let count = add32 s.count res in
    let full = ltb s.step (count / tcp_block_size) in
    record {
      left = sub32 s.left res;
      count = count;
      step = if full then s.step + 1 else s.step;
      t = if full then restart else s.t;
      moved_bytes = s.moved_bytes ++ bytes;
      progress = if shared then count else s.progress;
    }

-- The code behind the loop: `return left == 0`.
abbrev pub close : Transfer → Outcome
close s = ended (s.left == 0) s

module _ (millisecs : ℕ → ℕ → ℕ) (timeout : ℕ) (shared : Bool) where
  -- The loop. `size` and `pick` give the count and the bytes that an answer stands for.
  unfoldable pub transfer_loop :
      {A : Type 0} → (A → ℕ) → (A → Transfer → List ℕ) → List (Round A) → Transfer → Outcome
  unfolding advance
  transfer_loop size pick [] s = if s.left == 0 then close s else waiting s
  transfer_loop size pick (r ∷ rs) s = elim (s.left == 0 || ltb timeout (millisecs s.t r.now)) [
    | true ↦ close s
    | false ↦ elim (r.answer (block_of s.left)) [
      | again ↦ transfer_loop size pick rs s
      | failed ↦ close s
      | moved a ↦ transfer_loop size pick rs (advance shared r.restart (size a) (pick a s) s)
    ]
  ]

abbrev pub start : ℕ → ℕ → ℕ → Transfer
start size now progress = record {
  left = size;
  count = 0;
  step = 0;
  t = now;
  moved_bytes = [];
  progress = progress;
}

-- `tcp_read`: an answer of `net_read` is the bytes that it stored.
unfoldable pub tcp_read : (ℕ → ℕ → ℕ) → ℕ → Bool → ℕ → List (Round (List ℕ)) → ℕ → Outcome
tcp_read millisecs size shared progress rounds now =
    transfer_loop millisecs tcp_block_recv_timeout shared length (λ bytes s. bytes) rounds
      (start size now progress)

-- `tcp_write`: an answer of `net_write` is the count of bytes that it took from `p`, which points
-- `sent` bytes into the buffer.
unfoldable pub tcp_write : (ℕ → ℕ → ℕ) → List ℕ → Bool → ℕ → List (Round ℕ) → ℕ → Outcome
tcp_write millisecs buffer shared progress rounds now =
    transfer_loop millisecs tcp_block_send_timeout shared (λ n. n)
      (λ n s. take n (drop s.count buffer)) rounds (start (length buffer) now progress)
