-- ===== src/Blob/Blocks.antt =====
-- The abstract stack of blocks: what callers of the allocator see.
use hbc.Base.{ℕ, ◌+◌, ◌%◌, ◌≤◌, ◌<◌, ◌≡◌, List, [], ◌∷◌, length}
use hbc.Blob.{max_blobs, blob_minslack}

-- A call of the allocator.
pub data Call : Type 0 where
  alloc free : ℕ → Call

-- The address and the size of each block that is live, the last one first.
abbrev pub Blocks : Type 0
Blocks = List (ℕ × ℕ)

-- Where the free part ends that lies below the blocks.
abbrev pub end_of : ℕ → Blocks → ℕ
end_of top [] = top
end_of top ((p, size) ∷ bs) = p

-- What a call may answer, and what it does to the stack, with the arena between `lo` and `top`.
pub data Allows (lo top : ℕ) : Call → ℕ → Blocks → Blocks → Type 0 where
  null_answer :
      (size : ℕ) (bs : Blocks)
      → end_of top bs < lo + blob_minslack + size + 32
      → Allows lo top (alloc size) 0 bs bs
  new_block :
      (size p : ℕ) (bs : Blocks)
      → length bs < max_blobs
      → p % 32 ≡ 0
      → lo + blob_minslack ≤ p
      → p + size ≤ end_of top bs
      → Allows lo top (alloc size) p bs ((p, size) ∷ bs)
  free_null : (bs : Blocks) → Allows lo top (free 0) 0 bs bs
  free_last : (p size : ℕ) (bs : Blocks) → Allows lo top (free p) 0 ((p, size) ∷ bs) bs

pub data Follows (lo top : ℕ) : List Call → List ℕ → Blocks → Blocks → Type 0 where
  ends : (bs : Blocks) → Follows lo top [] [] bs bs
  one_call :
      (c : Call) (p : ℕ) (cs : List Call) (ps : List ℕ) (bs bs' bs'' : Blocks)
      → Allows lo top c p bs bs'
      → Follows lo top cs ps bs' bs''
      → Follows lo top (c ∷ cs) (p ∷ ps) bs bs''
