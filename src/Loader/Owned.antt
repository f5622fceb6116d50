-- ===== src/Loader/Owned.antt =====
-- Which blocks `loader_load` leaves allocated.
use hbc.Base.{ℕ, ◌+◌, ◌≤◌, ◌<◌, ◌≡◌, ◌≢◌, refl, sym, ◌∙◌, subst, arith, List, [], ◌∷◌, length}
use hbc.Blob.{
  Arena, Blob, Blobs, Outcome, returned, blob_alloc, pop_blob, blob_free, max_blobs, blob_minslack,
}
use hbc.Blob.Stack.{
  IsStacked, Allocated, too_many, no_room, cut, blob_alloc-Allocated, Allocated-IsStacked,
}

-- Over the blocks of `old`, under its arena's end, those at `ps` were allocated, the last one first.
abbrev pub Above : ℕ → List Blob → List ℕ → ℕ → List Blob → Type 0
Above hi0 old [] hi live = (hi ≡ hi0) × (live ≡ old)
Above hi0 old (p ∷ ps) hi live =
    (b : Blob) × (bs : List Blob) × (live ≡ b ∷ bs)
    × (b.the_blob ≡ p)
    × (hi ≡ p)
    × (p ≢ 0)
    × Above hi0 old ps b.old_arena2hi bs

module _ (arena : Arena) where
  open arena use {Sys, get_hi, get_lo, set_hi, get_hi-set_hi, get_lo-set_hi}

  abbrev pub Holds : Blobs Sys → List ℕ → Blobs Sys → Type 0
  Holds s ps t = Above (get_hi s.sys) s.live ps (get_hi t.sys) t.live

  -- The block that was allocated last can be freed.
  pub blob_free-Holds :
      (s t : Blobs Sys) (p : ℕ) (ps : List ℕ)
      → Holds s (p ∷ ps) t
      → (u : Blobs Sys) × (blob_free arena p t ≡ returned u) × Holds s ps u
  unfolding blob_free pop_blob
  blob_free-Holds s t p ps (b, bs, e, at, top, ne, rest) = (
    record { live = bs; sys = set_hi b.old_arena2hi t.sys },
    ground arith,
    subst (λ h. Above (get_hi s.sys) s.live ps h bs) (sym (get_hi-set_hi b.old_arena2hi t.sys))
        rest,
  )

  -- Whatever `blob_alloc` answers, when it does.
  pub data Added (s : Blobs Sys) (ps : List ℕ) : Outcome (ℕ × Blobs Sys) → Type 0 where
    refused :
        (t : Blobs Sys)
        → IsStacked arena t
        → Holds s ps t
        → get_lo t.sys ≡ get_lo s.sys
        → Added s ps (returned (0, t))
    added :
        (p : ℕ) (t : Blobs Sys)
        → p ≢ 0
        → IsStacked arena t
        → Holds s (p ∷ ps) t
        → get_lo s.sys + blob_minslack ≤ p
        → get_lo t.sys ≡ get_lo s.sys
        → Added s ps (returned (p, t))

  -- An allocation with room for one more cell and of a size below the arena's low end.
  pub blob_alloc-Added :
      (s t : Blobs Sys) (ps : List ℕ) (size : ℕ)
      → IsStacked arena t
      → Holds s ps t
      → get_lo t.sys ≡ get_lo s.sys
      → length t.live < max_blobs
      → size ≤ get_hi t.sys
      → Added s ps (blob_alloc arena size t)
  blob_alloc-Added s t ps size v h lo room fits =
      answer (blob_alloc arena size t) (blob_alloc-Allocated arena size t v fits)
        (λ p u e. Allocated-IsStacked arena (blob_alloc-Allocated arena size t v fits) v e)
    where
      answer :
          (o : Outcome (ℕ × Blobs Sys))
          → Allocated arena size t o
          → ((p : ℕ) (u : Blobs Sys) → o ≡ returned (p, u) → IsStacked arena u)
          → Added s ps o
      answer o (too_many full) k = absurd (omega arith)
      answer o (no_room _ _) k = refused t v h lo
      answer o (cut p u _ al above low eh el live) k =
          added p u (λ z. omega (arith, z)) (k p u refl)
            (_, t.live, live, refl, eh, (λ z. omega (arith, z)), h) (omega (arith, lo)) (el ∙ lo)
