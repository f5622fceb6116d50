-- ===== src/Blob/Refined.antt =====
-- The blob allocator against an abstract stack of blocks.
use hbc.Base.{subst, ap, ℕ, suc, ◌≤◌, ◌≡◌, refl, sym, ◌∙◌, List, [], ◌∷◌, arith, length, map, All}
use hbc.Blob.{Arena, Blob, Blobs, Outcome, returned, panicked, blob_alloc, blob_free}
use hbc.Blob.Stack.{
  Stacked, IsStacked, Allocated, too_many, no_room, cut, blob_alloc-Allocated, blob_alloc-IsStacked,
  Freed, null, dropped, stopped, blob_free-Freed, blob_free-IsStacked,
}
use hbc.Blob.Blocks.{
  Call, alloc, free, Blocks, end_of, Allows, null_answer, new_block, free_null, free_last, Follows,
  ends, one_call,
}

-- Each cell holds the arena's end from before.
abbrev Chained : ℕ → ℕ → List Blob → Type 0
Chained top hi [] = hi ≡ top
Chained top hi (b ∷ live) = (hi ≡ b.the_blob) × Chained top b.old_arena2hi live

abbrev pub blocks_of : List Blob → Blocks
blocks_of = map (λ b. (b.the_blob, b.blob_size))

Chained-end_of :
    (top hi : ℕ) (live : List Blob) → Chained top hi live → hi ≡ end_of top (blocks_of live)
Chained-end_of top hi [] h = h
Chained-end_of top hi (b ∷ live) h = h.0

length-blocks_of : (live : List Blob) → length (blocks_of live) ≡ length live
length-blocks_of [] = refl
length-blocks_of (b ∷ live) = ap suc (length-blocks_of live)

Stacked-room :
    (lo hi top : ℕ) (live : List Blob)
    → Stacked lo hi live
    → Chained top hi live
    → lo ≤ top
    → lo ≤ hi
Stacked-room lo hi top [] s c h = omega arith
Stacked-room lo hi top (b ∷ live) s c h = omega arith

-- No block is asked for that is larger than the low end's address.
abbrev pub IsSmall : ℕ → Call → Type 0
IsSmall lo (alloc size) = size ≤ lo
IsSmall lo (free p) = Unit

answer-injective :
    {A B : Type 0} {a c : A} {b d : B}
    → ◌≡◌ {A = Outcome (A × B)} (returned (a, b)) (returned (c, d))
    → (a ≡ c) × (b ≡ d)
answer-injective e = (cc, cc)

returned-injective : {A : Type 0} {a b : A} → returned a ≡ returned b → a ≡ b
returned-injective e = cc

module _ (arena : Arena) where
  open arena use {Sys, get_hi, get_lo, set_hi, get_hi-set_hi, get_lo-set_hi}

  abbrev freed : Outcome (Blobs Sys) → Outcome (ℕ × Blobs Sys)
  freed o = elim o [ panicked ↦ panicked | returned t ↦ returned (0, t) ]

  -- `blob_free` answers nothing, which is 0 here.
  abbrev call : Call → Blobs Sys → Outcome (ℕ × Blobs Sys)
  call (alloc size) s = blob_alloc arena size s
  call (free p) s = freed (blob_free arena p s)

  abbrev and_answer : ℕ → Outcome (List ℕ × Blobs Sys) → Outcome (List ℕ × Blobs Sys)
  and_answer p o = elim o [ panicked ↦ panicked | returned (ps, u) ↦ returned (p ∷ ps, u) ]

  -- A sequence of calls and their answers.
  abbrev pub run : List Call → Blobs Sys → Outcome (List ℕ × Blobs Sys)
  run [] s = returned ([], s)
  run (c ∷ cs) s = elim (call c s) [
    | panicked ↦ panicked
    | returned (p, t) ↦ and_answer p (run cs t)
  ]

  -- The chain of saved ends starts at the arena's end and leads to `top`.
  pub record Refines (lo top : ℕ) (s : Blobs Sys) : Type 0 where
    pub stacked : IsStacked arena s
    pub low_end : get_lo s.sys ≡ lo
    pub high_end : get_hi s.sys ≡ end_of top (blocks_of s.live)
    pub chained : Chained top (get_hi s.sys) s.live

  abbrev Simulates : ℕ → ℕ → Call → ℕ → Blobs Sys → Blobs Sys → Type 0
  Simulates lo top c p s t =
      Allows lo top c p (blocks_of s.live) (blocks_of t.live) × Refines lo top t

  module _ (lo top : ℕ) where
    Allocated-Simulates :
        (size p : ℕ) (s t : Blobs Sys) {o : Outcome (ℕ × Blobs Sys)}
        → Refines lo top s
        → Allocated arena size s o
        → IsStacked arena t
        → o ≡ returned (p, t)
        → Simulates lo top (alloc size) p s t
    Allocated-Simulates size p s t r (too_many full) v e = cc
    Allocated-Simulates size p s t r (no_room room low) v e =
        let (zero_answer, same) = answer-injective e in
        let low_end = r.low_end in
        let high_end = r.high_end in
        subst (λ u. Simulates lo top (alloc size) p s u) same
          (
            subst (λ q. Allows lo top (alloc size) q (blocks_of s.live) (blocks_of s.live))
                zero_answer (null_answer size (blocks_of s.live) (omega arith)),
            r,
          )
    Allocated-Simulates size p s t r (cut q u room al low hi eh el live) v e =
        let (same_p, same) = answer-injective e in
        let v' = subst (IsStacked arena) (sym same) v in
        let low_end = r.low_end in
        let high_end = r.high_end in
        let chained = r.chained in
        let n = length-blocks_of s.live in
        subst (λ w. Simulates lo top (alloc size) p s w) same
          (subst (λ x. Simulates lo top (alloc size) x s u) same_p
            (
              subst (λ l. Allows lo top (alloc size) q (blocks_of s.live) (blocks_of l)) (sym live)
                  (new_block size q (blocks_of s.live) (omega arith) al (omega arith)
                    (omega arith)),
              record {
                stacked = v';
                low_end = el ∙ low_end;
                high_end = subst (λ l. get_hi u.sys ≡ end_of top (blocks_of l)) (sym live) eh;
                chained = subst (λ l. Chained top (get_hi u.sys) l) (sym live) (eh, chained);
              },
            ))

    Freed-Simulates :
        (p : ℕ) (s t : Blobs Sys) {o : Outcome (Blobs Sys)}
        → Refines lo top s
        → IsStacked arena t
        → Freed arena p s o
        → o ≡ returned t
        → Simulates lo top (free p) 0 s t
    Freed-Simulates p s t r v (null z) e =
        let same : s ≡ t = returned-injective e in
        subst (λ u. Simulates lo top (free p) 0 s u) same
          (
            subst (λ q. Allows lo top (free q) 0 (blocks_of s.live) (blocks_of s.live)) (sym z)
                (free_null (blocks_of s.live)),
            r,
          )
    Freed-Simulates p s t r v (dropped b live nz cells at hi) e =
        let same = returned-injective e in
        let u : Blobs Sys = record { live = live; sys = set_hi b.old_arena2hi s.sys } in
        let chained = (subst (λ l. Chained top (get_hi s.sys) l) cells r.chained).1 in
        let chained' =
          subst (λ h. Chained top h live) (sym (get_hi-set_hi b.old_arena2hi s.sys)) chained in
        subst (λ w. Simulates lo top (free p) 0 s w) same
          (
            subst (λ l. Allows lo top (free p) 0 (blocks_of l) (blocks_of live)) (sym cells)
                (subst
                  (λ q.
                    Allows lo top (free q) 0 ((b.the_blob, b.blob_size) ∷ blocks_of live)
                      (blocks_of live))
                  at (free_last b.the_blob b.blob_size (blocks_of live))),
            record {
              stacked = subst (IsStacked arena) (sym same) v;
              low_end = get_lo-set_hi b.old_arena2hi s.sys ∙ r.low_end;
              high_end = Chained-end_of top (get_hi u.sys) live chained';
              chained = chained';
            },
          )
    Freed-Simulates p s t r v (stopped nz h) e = cc

    call-Simulates :
        (c : Call) (p : ℕ) (s t : Blobs Sys)
        → lo ≤ top
        → IsSmall lo c
        → Refines lo top s
        → call c s ≡ returned (p, t)
        → Simulates lo top c p s t
    call-Simulates (alloc size) p s t order small r e =
        let low_end = r.low_end in
        let low = subst (λ l. Stacked l (get_hi s.sys) s.live) low_end r.stacked.stacked in
        let room = Stacked-room lo (get_hi s.sys) top s.live low r.chained order in
        let view = blob_alloc-Allocated arena size s r.stacked (omega arith) in
        Allocated-Simulates size p s t r view
          (blob_alloc-IsStacked arena size s r.stacked (omega arith) e) e
    call-Simulates (free q) p s t order small r e = by_free (blob_free arena q s) refl e
      where
        by_free :
            (o : Outcome (Blobs Sys))
            → blob_free arena q s ≡ o
            → freed o ≡ returned (p, t)
            → Simulates lo top (free q) p s t
        by_free panicked f g = cc
        by_free (returned u) f g =
            let (z, same) = answer-injective g in
            subst (λ x. Simulates lo top (free q) x s t) z
              (Freed-Simulates q s t r
                (blob_free-IsStacked arena q s r.stacked (f ∙ ap returned same))
                (blob_free-Freed arena q s) (f ∙ ap returned same))

    -- Every sequence of calls of blob_alloc and blob_free that returns follows an abstract stack
    -- of blocks between the low end and the top of the arena: an allocation answers NULL for want
    -- of room or pushes an aligned block below the last one, and a free takes NULL or the last
    -- block; and the state it ends in stands for the abstract stack it ends in, so that the arena
    -- ends at its top again once the stack is empty. The state it starts in stands for its blocks,
    -- and no size is above the low end's address, which is at most the top.
    pub run-Follows :
        (cs : List Call) (ps : List ℕ) (s t : Blobs Sys)
        → lo ≤ top
        → All (IsSmall lo) cs
        → Refines lo top s
        → run cs s ≡ returned (ps, t)
        → Follows lo top cs ps (blocks_of s.live) (blocks_of t.live) × Refines lo top t
    run-Follows [] ps s t order small r e =
        let (no_answer, same) = answer-injective e in
        subst (λ u. Follows lo top [] ps (blocks_of s.live) (blocks_of u.live) × Refines lo top u)
          same
          (
            subst (λ qs. Follows lo top [] qs (blocks_of s.live) (blocks_of s.live)) no_answer
                (ends (blocks_of s.live)),
            r,
          )
    run-Follows (c ∷ cs) ps s t order small r e =
        by_call (λ qs u r' f. run-Follows cs qs u t order small.1 r' f) (call c s) refl e
      where
        Rest : List ℕ → Blobs Sys → Type 0
        Rest qs u = Follows lo top cs qs (blocks_of u.live) (blocks_of t.live) × Refines lo top t

        Whole : List ℕ → Type 0
        Whole qs =
            Follows lo top (c ∷ cs) qs (blocks_of s.live) (blocks_of t.live) × Refines lo top t

        rest_of : Outcome (ℕ × Blobs Sys) → Outcome (List ℕ × Blobs Sys)
        rest_of o = elim o [ panicked ↦ panicked | returned (p, u) ↦ and_answer p (run cs u) ]

        by_rest :
            ((qs : List ℕ) (u : Blobs Sys)
              → Refines lo top u
              → run cs u ≡ returned (qs, t)
              → Rest qs u)
            → (p : ℕ) (u : Blobs Sys) → Simulates lo top c p s u
            → (o : Outcome (List ℕ × Blobs Sys)) → run cs u ≡ o
            → and_answer p o ≡ returned (ps, t)
            → Whole ps
        by_rest next p u (allowed, r') panicked f g = cc
        by_rest next p u (allowed, r') (returned (qs, w)) f g =
            let (answers, same) = answer-injective g in
            let (follows, last) = next qs u r' (f ∙ ap (λ x. returned (qs, x)) same) in
            subst Whole answers (one_call c p cs qs _ (blocks_of u.live) _ allowed follows, last)

        by_call :
            ((qs : List ℕ) (u : Blobs Sys)
              → Refines lo top u
              → run cs u ≡ returned (qs, t)
              → Rest qs u)
            → (o : Outcome (ℕ × Blobs Sys)) → call c s ≡ o
            → rest_of o ≡ returned (ps, t)
            → Whole ps
        by_call next panicked f g = cc
        by_call next (returned (p, u)) f g =
            by_rest next p u (call-Simulates c p s u order small.0 r f) (run cs u) refl g
