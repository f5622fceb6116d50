-- ===== src/Blob.antt =====
-- channel/channelapp/source/blob.c: the allocator for large buffers at the top of MEM2.
--
-- The arena registers are the system library's. They come in as a record of their operations with
-- the two laws that the code relies on: what `SYS_SetArena2Hi` stores is what `SYS_GetArena2Hi`
-- reads next, and it leaves the low end alone.
-- The interrupt lock around both functions makes each of them one step. A call of `panic` does not
-- return: it is the outcome `panicked`.
pub mod Stack
pub mod Blocks
pub mod Refined
pub mod Tests
use hbc.Base.{
  ℕ, ◌+◌, ◌*◌, Bool, true, false, not, List, [], ◌∷◌, if◌then◌else◌, leb, ltb, ◌==◌, length, ◌≡◌,
}
use hbc.Base.Word.{add32, sub32, align_down32}

-- SYS_GetArena2Hi, SYS_GetArena2Lo, SYS_SetArena2Hi.
pub record Arena : Type 1 where
  pub Sys : Type 0
  pub get_hi : Sys → ℕ
  pub get_lo : Sys → ℕ
  pub set_hi : ℕ → Sys → Sys
  pub get_hi-set_hi : (p : ℕ) (s : Sys) → get_hi (set_hi p s) ≡ p
  pub get_lo-set_hi : (p : ℕ) (s : Sys) → get_lo (set_hi p s) ≡ get_lo s

abbrev pub max_blobs : ℕ
max_blobs = 8

abbrev pub blob_minslack : ℕ
blob_minslack = 512 * 1024

-- `blob_t`.
pub record Blob : Type 0 where
  pub the_blob : ℕ
  pub blob_size : ℕ
  pub old_arena2hi : ℕ

-- The cells of `blobs` below `num_blobs`, the last one first. No cell above is ever read.
pub record Blobs (Sys : Type 0) : Type 0 where
  pub live : List Blob
  pub sys : Sys

pub data Outcome {ℓ} (A : Type ℓ) : Type ℓ where
  returned : A → Outcome A
  panicked : Outcome A

module _ (arena : Arena) where
  open arena use {Sys, get_hi, get_lo, set_hi}

  -- The address that `blob_alloc` tries.
  unfoldable pub blob_addr : ℕ → Sys → ℕ
  blob_addr size sys = align_down32 (sub32 (get_hi sys) size)

  -- `blob_alloc`, with the pointer that it returns; 0 is NULL.
  unfoldable pub blob_alloc : ℕ → Blobs Sys → Outcome (ℕ × Blobs Sys)
  blob_alloc size s =
      if leb max_blobs (length s.live)
      then panicked
      else if ltb (blob_addr size s.sys) (add32 blob_minslack (get_lo s.sys))
      then returned (0, s)
      else returned (
        blob_addr size s.sys,
        record {
          live =
              record {
                the_blob = blob_addr size s.sys;
                blob_size = size;
                old_arena2hi = get_hi s.sys;
              }
              ∷ s.live;
          sys = set_hi (blob_addr size s.sys) s.sys;
        },
      )

  -- The tests of `blob_free` on a pointer that is not NULL, by the live cells.
  unfoldable pub pop_blob : ℕ → List Blob → Sys → Outcome (Blobs Sys)
  pop_blob p [] sys = panicked
  pop_blob p (b ∷ live) sys =
      if not (p == b.the_blob)
      then panicked
      else if not (get_hi sys == p)
      then panicked
      else returned (record { live = live; sys = set_hi b.old_arena2hi sys })

  -- `blob_free`.
  unfoldable pub blob_free : ℕ → Blobs Sys → Outcome (Blobs Sys)
  blob_free p s = if p == 0 then returned s else pop_blob p s.live s.sys
