-- ===== src/Loader/Lost.antt =====
-- The arguments of an upload that was not packed.
use hbc.Base.{
  ℕ, ◌≡◌, refl, sym, ap, ◌∙◌, subst, arith, Bool, true, false, not, Option, none, List, [], ◌==◌,
  Bool-cases, inl, inr, if◌then◌else◌,
}
use hbc.Base.Word.{add32}
use hbc.Blob.{Arena, Blobs, Outcome, returned, panicked, blob_alloc, blob_free}
use hbc.Apps.Text.{Text}
use hbc.Apps.Entry.{AppEntry}
use hbc.Loader.Request.{Request}
use hbc.Loader.Threads.{from_tcp}
use hbc.Loader.Load.{
  LoaderResult, LoadState, lds_success, lds_err_read, lds_err_receive, lds_err_uncompress, Loaded,
  Job, upload_job, job_of, manage_is_zip, classify, conclude, run_load, alloc_data, load_job,
  loader_load, no_result, bind_outcome,
}

module _ (arena : Arena) where
  open arena use {Sys}

  -- A result without arguments, or a stop.
  pub data NoArgs : Outcome (LoaderResult × Blobs Sys) → Type 0 where
    gave : (r : LoaderResult) (t : Blobs Sys) → r.args ≡ [] → NoArgs (returned (r, t))
    stopped : NoArgs panicked

  freed-NoArgs :
      (o : Outcome (Blobs Sys)) (r : LoaderResult)
      → r.args ≡ []
      → NoArgs (bind_outcome o (λ u. returned (r, u)))
  freed-NoArgs (returned u) r e = gave r u e
  freed-NoArgs panicked r e = stopped

  classify-NoArgs :
      (job : Job) (za zt : Bool) (bytes : List ℕ) (r : LoaderResult) (s : Blobs Sys)
      → job.file ≡ none
      → r.args ≡ []
      → NoArgs (classify arena job za zt bytes r s)
  unfolding classify
  classify-NoArgs job za zt bytes r s f e =
      rw (f, classify)
        (elim (Bool-cases (not (manage_is_zip bytes))) [
          | inl a ↦ rw a (gave _ s e)
          | inr a ↦ rw a (elim (Bool-cases za) [
            | inl b ↦ rw b (gave _ s e)
            | inr b ↦ rw b (elim (Bool-cases zt) [
              | inl c ↦ rw c (gave _ s e)
              | inr c ↦ rw c (freed-NoArgs (blob_free arena r.address s) r e)
            ])
          ])
        ])

  conclude-NoArgs :
      (job : Job) (za zt : Bool) (state : LoadState) (p len : ℕ) (bytes : List ℕ) (s : Blobs Sys)
      → job.file ≡ none
      → NoArgs (conclude arena job za zt state p len bytes [] s)
  unfolding conclude
  conclude-NoArgs job za zt lds_success p len bytes s f = classify-NoArgs job za zt bytes _ s f refl
  conclude-NoArgs job za zt lds_err_read p len bytes s f = freed-NoArgs (blob_free arena p s) _ refl
  conclude-NoArgs job za zt lds_err_receive p len bytes s f =
      freed-NoArgs (blob_free arena p s) _ refl
  conclude-NoArgs job za zt lds_err_uncompress p len bytes s f =
      freed-NoArgs (blob_free arena p s) _ refl

  run_load-NoArgs :
      (job : Job) (started za zt : Bool) (l : Loaded) (un block : ℕ) (s : Blobs Sys)
      → job.file ≡ none
      → job.data_len_un ≡ 0
      → NoArgs (run_load arena job started za zt l un block s)
  unfolding run_load
  run_load-NoArgs job false za zt l un block s f z = stopped
  run_load-NoArgs job true za zt l un block s f z =
      let flat : (job.data_len_un == 0) ≡ true = ground arith in
      rw flat (conclude-NoArgs job za zt l.state block job.data_len l.received s f)

  load_job-NoArgs :
      (job : Job) (started za zt : Bool) (l : Loaded) (s : Blobs Sys)
      → job.file ≡ none
      → job.data_len_un ≡ 0
      → NoArgs (load_job arena job started za zt l s)
  unfolding load_job alloc_data
  load_job-NoArgs job started za zt l s f z =
      let flat : (job.data_len_un == 0) ≡ true = ground arith in
      subst (λ b. NoArgs (if b then first else packed)) (sym flat)
        (answer (blob_alloc arena (add32 job.data_len job.args_len) s))
    where
      next : ℕ × Blobs Sys → Outcome (LoaderResult × Blobs Sys)
      next (block, t) =
          if block == 0
          then bind_outcome (blob_free arena 0 t) (λ u. returned (no_result, u))
          else run_load arena job started za zt l 0 block t

      first : Outcome (LoaderResult × Blobs Sys)
      first = alloc_data arena job started za zt l 0 s

      packed : Outcome (LoaderResult × Blobs Sys)
      packed = bind_outcome (blob_alloc arena job.data_len_un s) (λ (un, t).
          if un == 0 then returned (no_result, t) else alloc_data arena job started za zt l un t)

      answer : (o : Outcome (ℕ × Blobs Sys)) → NoArgs (bind_outcome o next)
      answer panicked = stopped
      answer (returned (block, t)) = elim (Bool-cases (block == 0)) [
        | inl e ↦ rw e (freed-NoArgs (blob_free arena 0 t) no_result refl)
        | inr e ↦ rw e (run_load-NoArgs job started za zt l 0 block t f z)
      ]

  returned-args :
      {o : Outcome (LoaderResult × Blobs Sys)} (x : LoaderResult) (t : Blobs Sys)
      → NoArgs o
      → o ≡ returned (x, t)
      → x.args ≡ []
  returned-args x t (gave r u e) h = let same : r ≡ x = cc in ap (λ y. y.args) (sym same) ∙ e
  returned-args x t stopped h = cc

  -- An upload over TCP that announces no unpacked size loses its arguments: whatever was received,
  -- a result that loader_load returns has none.
  pub loader_load_lost_args :
      (filename_of : AppEntry → Option Text) (opens : Text → Bool) (r : Request) (client : ℕ)
      (started zip_app zip_theme : Bool) (run : Job → Loaded) (s t : Blobs Sys) (x : LoaderResult)
      → r.data_len_un ≡ 0
      → loader_load arena none filename_of opens (from_tcp r client) started zip_app zip_theme run s
        ≡ returned (x, t)
      → x.args ≡ []
  unfolding loader_load job_of
  loader_load_lost_args filename_of opens r client started za zt run s t x z =
      returned-args x t
        (load_job-NoArgs (upload_job r) started za zt (run (upload_job r)) s refl (ground arith))
