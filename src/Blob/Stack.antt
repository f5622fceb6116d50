-- ===== src/Blob/Stack.antt =====
-- What the blob allocator promises.
use hbc.Base.{
  subst, ap, ◌==◌, ◌⊎◌, ◌≢◌, ltb, leb, leb→le, ℕ, ◌+◌, ◌%◌, ◌≤◌, ◌<◌, ◌≡◌, ◌≢◌, ◌⊎◌, inl, inr, refl,
  sym, List, [], ◌∷◌, arith, length, Bool-cases,
}
use hbc.Base.Word.{align_down32, sub32, u32_mod, add32}
use hbc.Blob.{
  Arena, Blob, Blobs, Outcome, returned, panicked, blob_addr, blob_alloc, pop_blob, blob_free,
  max_blobs, blob_minslack,
}

-- The live cells, the last one first, under an arena whose high end is `hi`: each blob is aligned,
-- lies below the arena end that it was cut from, and above `lo` and all younger blobs.
abbrev pub Stacked : ℕ → ℕ → List Blob → Type 0
Stacked lo hi [] = Unit
Stacked lo hi (b ∷ bs) =
    (hi ≤ b.the_blob)
    × (lo + blob_minslack ≤ b.the_blob)
    × (b.the_blob % 32 ≡ 0)
    × (b.the_blob + b.blob_size ≤ b.old_arena2hi)
    × (b.old_arena2hi < u32_mod)
    × Stacked lo b.old_arena2hi bs

returned-snd :
    {A : Type 0} {B : Type 0} {a c : A} {b d : B}
    → ◌≡◌ {A = Outcome (A × B)} (returned (a, b)) (returned (c, d))
    → b ≡ d
returned-snd e = cc

returned-injective : {A : Type 0} {a b : A} → returned a ≡ returned b → a ≡ b
returned-injective e = cc

module _ (arena : Arena) where
  open arena use {Sys, get_hi, get_lo, set_hi, get_hi-set_hi, get_lo-set_hi}

  pub record IsStacked (s : Blobs Sys) : Type 0 where
    pub room : length s.live ≤ max_blobs
    pub low_end : get_lo s.sys + blob_minslack < u32_mod
    pub high_end : get_hi s.sys < u32_mod
    pub stacked : Stacked (get_lo s.sys) (get_hi s.sys) s.live

  -- A size that the arena can hold does not wrap the subtraction.
  blob_addr_lem :
      (size : ℕ) (sys : Sys)
      → size ≤ get_hi sys
      → get_hi sys < u32_mod
      → (blob_addr arena size sys % 32 ≡ 0)
        × (blob_addr arena size sys + size ≤ get_hi sys)
        × (get_hi sys < blob_addr arena size sys + size + 32)
  unfolding blob_addr
  blob_addr_lem size sys h u = (omega arith, omega arith, omega arith)

  -- The three answers of `blob_alloc` on a size that is at most the arena's end: it stops the
  -- program exactly when eight blobs are live, it answers NULL and changes nothing only when less than
  -- the slack (and the alignment) would be left, and else it cuts an aligned block off the arena's end and records it.
  pub data Allocated (size : ℕ) (s : Blobs Sys) : Outcome (ℕ × Blobs Sys) → Type 0 where
    too_many : max_blobs ≤ length s.live → Allocated size s panicked
    no_room :
        length s.live < max_blobs
        → get_hi s.sys < get_lo s.sys + blob_minslack + size + 32
        → Allocated size s (returned (0, s))
    cut :
        (p : ℕ) (t : Blobs Sys)
        → length s.live < max_blobs
        → p % 32 ≡ 0
        → get_lo s.sys + blob_minslack ≤ p
        → p + size ≤ get_hi s.sys
        → get_hi t.sys ≡ p
        → get_lo t.sys ≡ get_lo s.sys
        → t.live ≡ record { the_blob = p; blob_size = size; old_arena2hi = get_hi s.sys } ∷ s.live
        → Allocated size s (returned (p, t))

  -- While the live blocks are stacked, on a size at most the arena's end, blob_alloc has three
  -- answers: it stops the program at eight live blocks, answers NULL and changes nothing for want
  -- of slack, or cuts an aligned block off the arena's end and records it.
  pub blob_alloc-Allocated :
      (size : ℕ) (s : Blobs Sys)
      → IsStacked s
      → size ≤ get_hi s.sys
      → Allocated size s (blob_alloc arena size s)
  unfolding blob_alloc
  blob_alloc-Allocated size s v h = elim (Bool-cases (leb max_blobs (length s.live))) [
    | inl full ↦ rw full (too_many (leb→le _ _ full))
    | inr free ↦
        rw free
          (elim (Bool-cases
            (ltb (blob_addr arena size s.sys) (add32 blob_minslack (get_lo s.sys)))) [
              | inl low ↦ rw low (
                  no_room (ground arith)
                    (ground (arith, low, blob_addr_lem size s.sys, v.low_end, v.high_end)))
              | inr fits ↦ rw fits (
                  let new = blob_addr_lem size s.sys h v.high_end in
                  cut _ _ (ground arith) new.0 (ground (arith, v.low_end)) new.1 (get_hi-set_hi _ _)
                    (get_lo-set_hi _ _) refl)
            ])
  ]

  -- Every block that `blob_alloc` hands out keeps the live blocks stacked.
  pub Allocated-IsStacked :
      {size : ℕ} {s : Blobs Sys} {o : Outcome (ℕ × Blobs Sys)} {p : ℕ} {t : Blobs Sys}
      → Allocated size s o
      → IsStacked s
      → o ≡ returned (p, t)
      → IsStacked t
  Allocated-IsStacked (too_many _) v e = cc
  Allocated-IsStacked {s = s} (no_room _ _) v e = rw (returned-snd e) at v
  Allocated-IsStacked {s = s} {t = t} (cut p u free al lo hi eh el live) v e =
      subst IsStacked (returned-snd e) (record {
        room = rw live (omega arith);
        low_end = rw el v.low_end;
        high_end = omega (arith, v.high_end);
        stacked =
            rw (live, eh)
              (
                omega arith,
                rw el lo,
                al,
                hi,
                v.high_end,
                subst (λ l. Stacked l (get_hi s.sys) s.live) (sym el) v.stacked,
              );
      })

  -- If the live blocks are stacked (disjoint, aligned and inside the arena, above its slack) and
  -- the size is at most the arena's end, they are stacked after a blob_alloc that returns.
  pub blob_alloc-IsStacked :
      (size : ℕ) (s : Blobs Sys) {p : ℕ} {t : Blobs Sys}
      → IsStacked s
      → size ≤ get_hi s.sys
      → blob_alloc arena size s ≡ returned (p, t)
      → IsStacked t
  blob_alloc-IsStacked size s v h e = Allocated-IsStacked (blob_alloc-Allocated size s v h) v e

  -- The three ways of `blob_free`: NULL changes nothing; the block that was allocated last is
  -- dropped, if the arena still ends at it, and the arena gets its former end back; on all else the
  -- program stops.
  pub data Freed (p : ℕ) (s : Blobs Sys) : Outcome (Blobs Sys) → Type 0 where
    null : p ≡ 0 → Freed p s (returned s)
    dropped :
        (b : Blob) (bs : List Blob)
        → p ≢ 0
        → s.live ≡ b ∷ bs
        → b.the_blob ≡ p
        → get_hi s.sys ≡ p
        → Freed p s (returned (record { live = bs; sys = set_hi b.old_arena2hi s.sys }))
    stopped :
        p ≢ 0
        → ((b : Blob) (bs : List Blob) → s.live ≡ b ∷ bs → (b.the_blob ≢ p) ⊎ (get_hi s.sys ≢ p))
        → Freed p s panicked

  pop_blob-Freed :
      (p : ℕ) (live : List Blob) (sys : Sys)
      → p ≢ 0
      → Freed p (record { live = live; sys = sys }) (pop_blob arena p live sys)
  unfolding pop_blob
  pop_blob-Freed p [] sys h = stopped h (λ b bs e. cc)
  pop_blob-Freed p (b ∷ live) sys h = elim (Bool-cases (p == b.the_blob)) [
    | inl same ↦ rw same (elim (Bool-cases (get_hi sys == p)) [
      | inl top ↦ rw top (dropped b live h refl (ground arith) (ground arith))
      | inr moved ↦ rw moved (stopped h (λ c cs e. inr (ground arith)))
    ])
    | inr other ↦ rw other (stopped h (λ c cs e. inl (ground arith)))
  ]

  -- blob_free has three ways: NULL changes nothing; the last block is dropped and the arena gets
  -- its former end back, if the arena still ends at that block; on all else the program stops.
  pub blob_free-Freed : (p : ℕ) (s : Blobs Sys) → Freed p s (blob_free arena p s)
  unfolding blob_free
  blob_free-Freed p s = elim (Bool-cases (p == 0)) [
    | inl z ↦ rw z (null (ground arith))
    | inr n ↦ rw n (pop_blob-Freed p s.live s.sys (ground arith))
  ]

  Freed-IsStacked :
      {p : ℕ} {s : Blobs Sys} {o : Outcome (Blobs Sys)} {t : Blobs Sys}
      → Freed p s o
      → IsStacked s
      → o ≡ returned t
      → IsStacked t
  Freed-IsStacked {s = s} (null _) v e = subst IsStacked (returned-injective e) v
  Freed-IsStacked {s = s} (dropped b bs _ live at top) v e =
      let cell = subst (λ l. Stacked (get_lo s.sys) (get_hi s.sys) l) live v.stacked in
      subst IsStacked (returned-injective e) (record {
        room = omega (arith, v.room, ap length live);
        low_end = rw get_lo-set_hi v.low_end;
        high_end = rw get_hi-set_hi cell.4;
        stacked = rw (get_hi-set_hi, get_lo-set_hi) cell.5;
      })
  Freed-IsStacked (stopped _ _) v e = cc

  -- If the live blocks are stacked, they are stacked after a blob_free that returns.
  pub blob_free-IsStacked :
      (p : ℕ) (s : Blobs Sys) {t : Blobs Sys}
      → IsStacked s
      → blob_free arena p s ≡ returned t
      → IsStacked t
  blob_free-IsStacked p s v e = Freed-IsStacked (blob_free-Freed p s) v e

  -- Freeing the block that was just allocated, if it was not NULL, gives the live blocks and both
  -- arena ends back.
  blob_free-blob_alloc :
      (size : ℕ) (s : Blobs Sys) {p : ℕ} {t : Blobs Sys}
      → blob_alloc arena size s ≡ returned (p, t)
      → p ≢ 0
      → (u : Blobs Sys) × (blob_free arena p t ≡ returned u)
        × (u.live ≡ s.live)
        × (get_hi u.sys ≡ get_hi s.sys)
        × (get_lo u.sys ≡ get_lo s.sys)
  unfolding blob_alloc blob_free pop_blob
  blob_free-blob_alloc size s {p} {t} e h = (
    record { live = s.live; sys = set_hi (get_hi s.sys) t.sys },
    ground (arith, get_hi-set_hi (blob_addr arena size s.sys) s.sys),
    refl,
    get_hi-set_hi (get_hi s.sys) t.sys,
    ground (
      arith,
      get_lo-set_hi (get_hi s.sys) t.sys,
      get_lo-set_hi (blob_addr arena size s.sys) s.sys,
    ),
  )

  -- While the live blocks are stacked and fewer than eight, a size above the arena's end, below 2
  -- ^ 32, wraps the u32 subtraction: unless the wrapped value falls into the slack, the answer is
  -- a block that ends 2 ^ 32 (less the alignment) past the arena's end.
  pub blob_alloc_wraps :
      (size : ℕ) (s : Blobs Sys)
      → IsStacked s
      → length s.live < max_blobs
      → get_hi s.sys < size
      → size < u32_mod
      → size + get_lo s.sys + blob_minslack + 31 ≤ get_hi s.sys + u32_mod
      → (p : ℕ) × (t : Blobs Sys) × (blob_alloc arena size s ≡ returned (p, t))
        × (get_hi s.sys + u32_mod ≤ p + size + 31)
  unfolding blob_alloc blob_addr
  blob_alloc_wraps size s v room big word fits = (
    align_down32 (sub32 (get_hi s.sys) size),
    record {
      live =
          record {
            the_blob = align_down32 (sub32 (get_hi s.sys) size);
            blob_size = size;
            old_arena2hi = get_hi s.sys;
          }
          ∷ s.live;
      sys = set_hi (align_down32 (sub32 (get_hi s.sys) size)) s.sys;
    },
    ground (arith, v.low_end),
    omega arith,
  )
