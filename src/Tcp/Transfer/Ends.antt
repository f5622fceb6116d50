-- ===== src/Tcp/Transfer/Ends.antt =====
-- The loop ends.
use hbc.Base.{ℕ, ◌<◌, ◌≡◌, refl, arith, Bool, List, [], ◌∷◌, ◌++◌, ◌==◌, All, length}
use hbc.Tcp.Transfer.{
  Round, Transfer, Outcome, ended, advance, transfer_loop, start, tcp_read, tcp_block_recv_timeout,
}
use hbc.Tcp.Transfer.Bounds.{closed, waited, advanced, transfer_loop-LoopRound}

abbrev pub Ends : Outcome → Type 0
Ends o = (b : Bool) × (t : Transfer) × (o ≡ ended b t)

-- The clock at this round is past the timeout, counted from `t`.
abbrev pub IsLate : {A : Type 0} → (ℕ → ℕ → ℕ) → ℕ → Round A → ℕ → Type 0
IsLate millisecs timeout r t = timeout < millisecs t r.now

module _ (millisecs : ℕ → ℕ → ℕ) (timeout : ℕ) (shared : Bool) {A : Type 0} (size : A → ℕ)
    (pick : A → Transfer → List ℕ) where
  pub transfer_loop-Ends :
      (front : List (Round A)) (r : Round A) (back : List (Round A)) (s : Transfer)
      → All (λ q. IsLate millisecs timeout r q.restart) front
      → IsLate millisecs timeout r s.t
      → Ends (transfer_loop millisecs timeout shared size pick (front ++ r ∷ back) s)
  transfer_loop-Ends [] r back s all late =
      elim (transfer_loop-LoopRound millisecs timeout shared size pick r back s)
        as (λ o _. Ends o) [
          | closed ↦ (s.left == 0, s, refl)
          | waited e ne t ↦ absurd (omega arith)
          | advanced a e ne t ↦ absurd (omega arith)
        ]
  transfer_loop-Ends (q ∷ front) r back s all late =
      elim (transfer_loop-LoopRound millisecs timeout shared size pick q (front ++ r ∷ back) s)
        as (λ o _. Ends o) [
          | closed ↦ (s.left == 0, s, refl)
          | waited e ne t ↦ transfer_loop-Ends front r back s all.1 late
          | advanced a e ne t ↦
              transfer_loop-Ends front r back _ all.1 (unfold advance in ground (arith, all.0))
        ]

-- tcp_read ends, whatever the peer does, if at some round the clock is past the timeout counted
-- from every value that the timer may have been started with: the first one and those of the
-- rounds before.
pub tcp_read-Ends :
    (millisecs : ℕ → ℕ → ℕ) (size : ℕ) (shared : Bool) (progress : ℕ)
    (front : List (Round (List ℕ))) (r : Round (List ℕ)) (back : List (Round (List ℕ))) (now : ℕ)
    → All (λ q. IsLate millisecs tcp_block_recv_timeout r q.restart) front
    → IsLate millisecs tcp_block_recv_timeout r now
    → Ends (tcp_read millisecs size shared progress (front ++ r ∷ back) now)
unfolding tcp_read
tcp_read-Ends millisecs size shared progress front r back now all late =
    transfer_loop-Ends millisecs tcp_block_recv_timeout shared length (λ bytes s. bytes) front r
      back (start size now progress) all late
