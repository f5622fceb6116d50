-- ===== src/Tcp/Transfer/Bounds.antt =====
-- Every byte is moved once, in order, and none beyond the size asked for.
use hbc.Base.{
  ℕ, ◌≤◌, ◌≡◌, ◌≢◌, ◌⊎◌, inl, inr, refl, arith, Bool, Bool-cases, ◌||◌, List, [], ◌∷◌, ltb, ◌==◌,
  All,
}
use hbc.Tcp.Transfer.{
  Answer, moved, again, failed, Round, block_of, Transfer, Outcome, ended, waiting, advance, close,
  transfer_loop,
}

abbrev pub transfer_of : Outcome → Transfer
transfer_of (ended b s) = s
transfer_of (waiting s) = s

-- What the network's documentation says: a positive answer is at most the count asked for.
abbrev pub IsLawful : {A : Type 0} → (A → ℕ) → List (Round A) → Type 0
IsLawful {A} size = All (λ r. (b : ℕ) (a : A) → r.answer b ≡ moved a → (1 ≤ size a) × (size a ≤ b))

Answer-cases :
    {A : Type 0} (x : Answer A) → ((a : A) × (x ≡ moved a)) ⊎ ((x ≡ again) ⊎ (x ≡ failed))
Answer-cases (moved a) = inl (a, refl)
Answer-cases again = inr (inl refl)
Answer-cases failed = inr (inr refl)

module _ (millisecs : ℕ → ℕ → ℕ) (timeout : ℕ) (shared : Bool) {A : Type 0} (size : A → ℕ)
    (pick : A → Transfer → List ℕ) where
  -- One round: it closes, waits, or advances.
  pub data LoopRound (r : Round A) (rs : List (Round A)) (s : Transfer) : Outcome → Type 0 where
    closed : LoopRound r rs s (close s)
    waited :
        r.answer (block_of s.left) ≡ again
        → s.left ≢ 0
        → millisecs s.t r.now ≤ timeout
        → LoopRound r rs s (transfer_loop millisecs timeout shared size pick rs s)
    advanced :
        (a : A)
        → r.answer (block_of s.left) ≡ moved a
        → s.left ≢ 0
        → millisecs s.t r.now ≤ timeout
        → LoopRound r rs s (
            transfer_loop millisecs timeout shared size pick rs
              (advance shared r.restart (size a) (pick a s) s))

  pub transfer_loop-LoopRound :
      (r : Round A) (rs : List (Round A)) (s : Transfer)
      → LoopRound r rs s (transfer_loop millisecs timeout shared size pick (r ∷ rs) s)
  unfolding transfer_loop
  transfer_loop-LoopRound r rs s =
      elim (Bool-cases (s.left == 0 || ltb timeout (millisecs s.t r.now))) [
        | inl stop ↦ rw (stop, transfer_loop) closed
        | inr go ↦
            rw (go, transfer_loop)
              (elim (Answer-cases (r.answer (block_of s.left))) [
                | inl (a, e) ↦ rw (e, transfer_loop) (advanced a e (ground arith) (ground arith))
                | inr (inl e) ↦ rw (e, transfer_loop) (waited e (ground arith) (ground arith))
                | inr (inr e) ↦ rw (e, transfer_loop) closed
              ])
      ]

  transfer_loop-nil :
      (s : Transfer)
      → (transfer_loop millisecs timeout shared size pick [] s ≡ close s)
        ⊎ (transfer_loop millisecs timeout shared size pick [] s ≡ waiting s)
  unfolding transfer_loop
  transfer_loop-nil s = elim (Bool-cases (s.left == 0)) [ inl e ↦ inl (rw e) | inr e ↦ inr (rw e) ]

  -- What every lawful advance keeps holds where the loop stops.
  pub transfer_loop-inv :
      (P : Transfer → Type 0)
      → ((restart : ℕ) (a : A) (s : Transfer)
          → P s
          → size a ≤ block_of s.left
          → P (advance shared restart (size a) (pick a s) s))
      → (rounds : List (Round A)) (s : Transfer) → IsLawful size rounds
      → P s
      → P (transfer_of (transfer_loop millisecs timeout shared size pick rounds s))
  transfer_loop-inv P keep [] s law h = elim (transfer_loop-nil s) [
    | inl e ↦ rw e h
    | inr e ↦ rw e h
  ]
  transfer_loop-inv P keep (r ∷ rs) s law h =
      elim (transfer_loop-LoopRound r rs s) as (λ o _. P (transfer_of o)) [
        | closed ↦ h
        | waited e ne t ↦ transfer_loop-inv P keep rs s law.1 h
        | advanced a e ne t ↦
            transfer_loop-inv P keep rs _ law.1
              (keep r.restart a s h (law.0 (block_of s.left) a e).1)
      ]

  -- The answer is `left == 0`, however the loop ends.
  pub transfer_loop-verdict :
      (rounds : List (Round A)) (s : Transfer) (b : Bool) (t : Transfer)
      → transfer_loop millisecs timeout shared size pick rounds s ≡ ended b t
      → b ≡ (t.left == 0)
  transfer_loop-verdict [] s b t = elim (transfer_loop-nil s) [
    | inl e ↦ rw e (λ e. cc)
    | inr e ↦ rw e (λ e. cc)
  ]
  transfer_loop-verdict (r ∷ rs) s b t =
      elim (transfer_loop-LoopRound r rs s) as (λ o _. o ≡ ended b t → b ≡ (t.left == 0)) [
        | closed ↦ λ e. cc
        | waited e ne q ↦ transfer_loop-verdict rs s b t
        | advanced a e ne q ↦ transfer_loop-verdict rs _ b t
      ]
