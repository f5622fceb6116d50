-- ===== src/Loader/Result.antt =====
-- `loader_load` hands out one block or none, and loses none.
use hbc.Base.{
  ℕ, ◌+◌, ◌≤◌, ◌<◌, ◌≡◌, ◌≢◌, refl, arith, Bool, true, not, Option, none, some, List, [], ◌∷◌, ◌==◌,
  length, Bool-cases, inl, inr, if◌then◌else◌,
}
use hbc.Base.Word.{add32, u32_mod}
use hbc.Blob.{Arena, Blobs, Outcome, returned, blob_free, max_blobs}
use hbc.Blob.Stack.{IsStacked}
use hbc.Apps.Text.{Text}
use hbc.Apps.Entry.{AppEntry, EntryType, boot_elf, boot_dol, theme}
use hbc.Loader.Load.{
  lt_unknown, lt_executable, lt_zip_app, lt_zip_theme, LoaderResult, LoadState, lds_success,
  lds_err_read, lds_err_receive, lds_err_uncompress, Loaded, Job, manage_is_zip, file_args,
  classify, conclude, run_load, alloc_data, no_result, bind_outcome,
}
use hbc.Loader.Owned.{Holds, blob_free-Holds, Added, refused, added, blob_alloc-Added}

module _ (arena : Arena) where
  open arena use {Sys, get_hi, get_lo}

  -- A result of a known kind owns the one block that was added; an unknown one comes with none.
  pub data Owns (s : Blobs Sys) : Outcome (LoaderResult × Blobs Sys) → Type 0 where
    one_block :
        (r : LoaderResult) (t : Blobs Sys)
        → r.type ≢ lt_unknown
        → Holds arena s (r.address ∷ []) t
        → Owns s (returned (r, t))
    no_block :
        (r : LoaderResult) (t : Blobs Sys)
        → r.type ≡ lt_unknown
        → Holds arena s [] t
        → Owns s (returned (r, t))

  -- The last block is freed and the result is unknown.
  dropped-Owns :
      (s t : Blobs Sys) (p : ℕ) (r : LoaderResult)
      → r.type ≡ lt_unknown
      → Holds arena s (p ∷ []) t
      → Owns s (bind_outcome (blob_free arena p t) (λ u. returned (r, u)))
  dropped-Owns s t p r k h =
      let (u, e, h') = blob_free-Holds arena s t p [] h in rw e (no_block r u k h')

  classify-Owns :
      (job : Job) (zip_app zip_theme : Bool) (bytes : List ℕ) (r : LoaderResult) (s t : Blobs Sys)
      → r.type ≡ lt_unknown
      → Holds arena s (r.address ∷ []) t
      → Owns s (classify arena job zip_app zip_theme bytes r t)
  unfolding classify
  classify-Owns job zip_app zip_theme bytes r s t k h = of_file job.file
    where
      of_bytes : Owns s (
          if not (manage_is_zip bytes)
          then returned (record r { type = lt_executable }, t)
          else if zip_app
          then returned (record r { type = lt_zip_app }, t)
          else if zip_theme
          then returned (record r { type = lt_zip_theme }, t)
          else bind_outcome (blob_free arena r.address t) (λ u. returned (r, u)))
      of_bytes = elim (Bool-cases (not (manage_is_zip bytes))) [
        | inl e ↦ rw e (one_block _ t (λ f. cc) h)
        | inr e ↦ rw e (elim (Bool-cases zip_app) [
          | inl f ↦ rw f (one_block _ t (λ g. cc) h)
          | inr f ↦ rw f (elim (Bool-cases zip_theme) [
            | inl g ↦ rw g (one_block _ t (λ x. cc) h)
            | inr g ↦ rw g (dropped-Owns s t r.address r k h)
          ])
        ])
      ]

      of_file :
          (o : Option (AppEntry × Text))
          → Owns s (classify arena (record job { file = o }) zip_app zip_theme bytes r t)
      of_file none = of_bytes
      of_file (some (e, name)) = of_type e.type
        where
          made : EntryType → Outcome (LoaderResult × Blobs Sys)
          made ty = elim ty [
            | theme ↦ returned (record r { type = lt_zip_theme }, t)
            | boot_elf ↦ returned (record r { type = lt_executable; args = file_args e name }, t)
            | boot_dol ↦ returned (record r { type = lt_executable; args = file_args e name }, t)
          ]

          of_type : (ty : EntryType) → Owns s (made ty)
          of_type theme = one_block _ t (λ f. cc) h
          of_type boot_elf = one_block _ t (λ f. cc) h
          of_type boot_dol = one_block _ t (λ f. cc) h

  conclude-Owns :
      (job : Job) (zip_app zip_theme : Bool) (state : LoadState) (p len : ℕ) (bytes args : List ℕ)
      (s t : Blobs Sys)
      → Holds arena s (p ∷ []) t
      → Owns s (conclude arena job zip_app zip_theme state p len bytes args t)
  unfolding conclude
  conclude-Owns job za zt lds_success p len bytes args s t h =
      classify-Owns job za zt bytes _ s t refl h
  conclude-Owns job za zt lds_err_read p len bytes args s t h = dropped-Owns s t p _ refl h
  conclude-Owns job za zt lds_err_receive p len bytes args s t h = dropped-Owns s t p _ refl h
  conclude-Owns job za zt lds_err_uncompress p len bytes args s t h = dropped-Owns s t p _ refl h

  -- The blocks that `run_load` is given.
  abbrev blocks_of : Job → ℕ → List ℕ
  blocks_of job un = if job.data_len_un == 0 then [] else un ∷ []

  run_load-Owns :
      (job : Job) (zip_app zip_theme : Bool) (l : Loaded) (un block : ℕ) (s t : Blobs Sys)
      → Holds arena s (block ∷ blocks_of job un) t
      → Owns s (run_load arena job true zip_app zip_theme l un block t)
  unfolding run_load
  run_load-Owns job za zt l un block s t = elim (Bool-cases (job.data_len_un == 0)) [
    | inl e ↦ rw e (λ h. conclude-Owns job za zt l.state block job.data_len l.received [] s t h)
    | inr e ↦ rw e (λ h.
        let (u, f, h') = blob_free-Holds arena s t block (un ∷ []) h in
        rw f (conclude-Owns job za zt l.state un job.data_len_un l.unpacked _ s u h'))
  ]

  -- NULL is freed without effect, and the block for the unpacked data with it.
  free_blocks-Owns :
      (job : Job) (un : ℕ) (s t : Blobs Sys)
      → (job.data_len_un ≡ 0 → un ≡ 0)
      → Holds arena s (blocks_of job un) t
      → Owns s (bind_outcome (blob_free arena un t) (λ u. returned (no_result, u)))
  unfolding blob_free
  free_blocks-Owns job un s t z = elim (Bool-cases (job.data_len_un == 0)) [
    | inl e ↦ rw e (λ h. rw (z (ground arith)) (no_block _ t refl h))
    | inr e ↦ rw e (λ h. dropped-Owns s t un _ refl h)
  ]

  pub alloc_data-Owns :
      (job : Job) (zip_app zip_theme : Bool) (l : Loaded) (un : ℕ) (s t : Blobs Sys)
      → (job.data_len_un ≡ 0 → un ≡ 0)
      → IsStacked arena t
      → get_lo t.sys ≡ get_lo s.sys
      → length t.live < max_blobs
      → job.data_len + job.args_len < u32_mod
      → job.data_len + job.args_len ≤ get_hi t.sys
      → Holds arena s (blocks_of job un) t
      → Owns s (alloc_data arena job true zip_app zip_theme l un t)
  unfolding alloc_data
  alloc_data-Owns job za zt l un s t z v lo room word fits h = answer (
      blob_alloc-Added arena s t (blocks_of job un) (add32 job.data_len job.args_len) v h lo room
        (omega (arith, word, fits)))
    where
      next : ℕ × Blobs Sys → Outcome (LoaderResult × Blobs Sys)
      next (block, u) =
          if block == 0
          then bind_outcome (blob_free arena un u) (λ w. returned (no_result, w))
          else run_load arena job true za zt l un block u

      answer :
          {o : Outcome (ℕ × Blobs Sys)}
          → Added arena s (blocks_of job un) o
          → Owns s (bind_outcome o next)
      answer (refused u _ k _) = free_blocks-Owns job un s u z k
      answer (added block u ne _ k _ _) = elim (Bool-cases (block == 0)) [
        | inl e ↦ absurd (ne (ground arith))
        | inr e ↦ rw e (run_load-Owns job za zt l un block s u k)
      ]
