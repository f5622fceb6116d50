-- ===== src/Blob/Tests.antt =====
-- Concrete runs of the blob allocator, over an arena whose registers are two numbers.
use hbc.Base.{List, ℕ, ◌+◌, ◌≤◌, ◌≡◌, refl, [], ◌∷◌, arith}
use hbc.Base.Word.{u32_mod}
use hbc.Blob.{Arena, Blobs, returned, panicked, blob_addr, blob_alloc, pop_blob, blob_free}
use hbc.Blob.Stack.{IsStacked, Allocated, blob_alloc-Allocated, blob_alloc_wraps}
use hbc.Blob.Blocks.{Call, alloc, free, Follows}
use hbc.Blob.Refined.{run, Refines, run-Follows}

pub record Registers : Type 0 where
  pub lo : ℕ
  pub hi : ℕ

abbrev pub registers : Arena
registers = record {
  Sys = Registers;
  get_hi = λ r. r.hi;
  get_lo = λ r. r.lo;
  set_hi = λ p r. record r { hi = p };
  get_hi-set_hi = λ p r. refl;
  get_lo-set_hi = λ p r. refl;
}

abbrev pub start : Blobs Registers
start = record { live = []; sys = record { lo = 0x9000_2000; hi = 0x933e_0000 } }

abbrev one_blob : Blobs Registers
one_blob = record {
  live = record { the_blob = 0x933d_ff80; blob_size = 100; old_arena2hi = 0x933e_0000 } ∷ [];
  sys = record { lo = 0x9000_2000; hi = 0x933d_ff80 };
}

pub start-IsStacked : IsStacked registers start
start-IsStacked = record {
  room = omega arith;
  low_end = omega arith;
  high_end = omega arith;
  stacked = tt;
}

one_blob-IsStacked : IsStacked registers one_blob
one_blob-IsStacked = record {
  room = omega arith;
  low_end = omega arith;
  high_end = omega arith;
  stacked = omega arith;
}

alloc_100 : blob_alloc registers 100 start ≡ returned (0x933d_ff80, one_blob)
unfolding blob_alloc blob_addr
alloc_100 = refl

free_100 : blob_free registers 0x933d_ff80 one_blob ≡ returned start
unfolding blob_free pop_blob
free_100 = refl

free_other : blob_free registers 0x9300_0000 one_blob ≡ panicked
unfolding blob_free pop_blob
free_other = refl

blob_alloc-Allocated_example : Allocated registers 100 start (blob_alloc registers 100 start)
blob_alloc-Allocated_example =
    blob_alloc-Allocated registers 100 start start-IsStacked (omega arith)

blob_alloc_wraps_example :
    (p : ℕ) × (t : Blobs Registers) × (blob_alloc registers 0xa000_0000 start ≡ returned (p, t))
    × (0x933e_0000 + u32_mod ≤ p + 0xa000_0000 + 31)
blob_alloc_wraps_example =
    blob_alloc_wraps registers 0xa000_0000 start start-IsStacked (omega arith) (omega arith)
      (omega arith) (omega arith)

abbrev calls : List Call
calls = alloc 100 ∷ free 0x933d_ff80 ∷ []

run-calls : run registers calls start ≡ returned (0x933d_ff80 ∷ 0 ∷ [], start)
unfolding blob_alloc blob_addr blob_free pop_blob
run-calls = refl

start-Refines : Refines registers 0x9000_2000 0x933e_0000 start
start-Refines = record {
  stacked = start-IsStacked;
  low_end = refl;
  high_end = refl;
  chained = refl;
}

run-Follows_example :
    Follows 0x9000_2000 0x933e_0000 calls (0x933d_ff80 ∷ 0 ∷ []) [] []
    × Refines registers 0x9000_2000 0x933e_0000 start
run-Follows_example =
    run-Follows registers 0x9000_2000 0x933e_0000 calls (0x933d_ff80 ∷ 0 ∷ []) start start
      (omega arith) (omega arith, (tt, tt)) start-Refines run-calls
