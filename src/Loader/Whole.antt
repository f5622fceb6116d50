-- ===== src/Loader/Whole.antt =====
-- `loader_load` as a whole: it hands out one block or none, and loses none.
use hbc.Base.{
  some-injective, ℕ, ◌+◌, ◌≤◌, ◌≡◌, refl, sym, ap, subst, arith, Bool, true, false, Option, none,
  some, [], ◌==◌, length, Bool-cases, Option-cases, inl, inr, if◌then◌else◌,
}
use hbc.Reloc.Area.{ld_max_size, args_max_len}
use hbc.Blob.{Arena, Blobs, Outcome, returned, blob_alloc, max_blobs}
use hbc.Blob.Stack.{IsStacked}
use hbc.Apps.Text.{Text}
use hbc.Apps.Entry.{AppEntry}
use hbc.Loader.Request.{Request, IsBounded}
use hbc.Loader.Threads.{Upload, from_file, no_upload, from_gecko, from_tcp}
use hbc.Loader.Load.{
  LoaderResult, Loaded, Job, upload_job, job_of, alloc_data, load_job, loader_load, no_result,
  bind_outcome,
}
use hbc.Loader.Owned.{Added, refused, added, blob_alloc-Added}
use hbc.Loader.Result.{Owns, no_block, alloc_data-Owns}

-- What the loader can take.
abbrev pub IsLoadable : Job → Type 0
IsLoadable job =
    (job.data_len + job.args_len ≤ ld_max_size + args_max_len) × (job.data_len_un ≤ ld_max_size)

-- The arena lies in MEM2, above all that the loader allocates; two cells are free.
pub record IsRoomy (arena : Arena) (s : Blobs arena.Sys) : Type 0 where
  pub stacked : IsStacked arena s
  pub cells : length s.live + 2 ≤ max_blobs
  pub high : ld_max_size + args_max_len ≤ arena.get_lo s.sys
  pub ordered : arena.get_lo s.sys ≤ arena.get_hi s.sys

upload_job-IsLoadable : (r : Request) → IsBounded r → IsLoadable (upload_job r)
upload_job-IsLoadable r v = (ground (arith, v.args, v.received), ground (arith, v.unpacked))

job_of-IsLoadable :
    (entry : Option AppEntry) (filename_of : AppEntry → Option Text) (opens : Text → Bool)
    (u : Upload) (job : Job)
    → ((e : AppEntry) → entry ≡ some e → e.size ≤ ld_max_size)
    → ((r : Request) → u ≡ from_gecko r → IsBounded r)
    → ((r : Request) (n : ℕ) → u ≡ from_tcp r n → IsBounded r)
    → job_of entry filename_of opens u ≡ some job
    → IsLoadable job
unfolding job_of
job_of-IsLoadable (some e) filename_of opens u job size gecko tcp h =
    let bound = size e refl in (ground (arith, bound), ground arith)
job_of-IsLoadable none filename_of opens (from_gecko r) job size gecko tcp h =
    subst IsLoadable (some-injective h) (upload_job-IsLoadable r (gecko r refl))
job_of-IsLoadable none filename_of opens (from_tcp r n) job size gecko tcp h =
    subst IsLoadable (some-injective h) (upload_job-IsLoadable r (tcp r n refl))
job_of-IsLoadable none filename_of opens from_file job size gecko tcp h = cc
job_of-IsLoadable none filename_of opens no_upload job size gecko tcp h = cc

module _ (arena : Arena) where
  open arena use {Sys, get_hi, get_lo}

  -- The packed data have a block of their own, which is allocated first.
  abbrev after_un : Job → Bool → Bool → Loaded → ℕ × Blobs Sys → Outcome (LoaderResult × Blobs Sys)
  after_un job za zt l (un, t) =
      if un == 0 then returned (no_result, t) else alloc_data arena job true za zt l un t

  packed-Owns :
      (job : Job) (zip_app zip_theme : Bool) (l : Loaded) (s : Blobs Sys)
      {o : Outcome (ℕ × Blobs Sys)}
      → IsRoomy arena s
      → IsLoadable job
      → (job.data_len_un == 0) ≡ false
      → Added arena s [] o
      → Owns arena s (bind_outcome o (after_un job zip_app zip_theme l))
  packed-Owns job za zt l s v k e (refused t _ h _) = no_block no_result t refl h
  packed-Owns job za zt l s v k e (added un t ne w h low lo) = elim (Bool-cases (un == 0)) [
    | inl f ↦ absurd (ne (ground arith))
    | inr f ↦ rw f (
        alloc_data-Owns arena job za zt l un s t (λ z. absurd (ground arith)) w lo
          (omega (arith, v.cells, ap length h.2, ap length h.6.1)) (omega arith)
          (omega (arith, v.high, low, h.4)) (rw e h))
  ]

  load_job-Owns :
      (job : Job) (zip_app zip_theme : Bool) (l : Loaded) (s : Blobs Sys)
      → IsRoomy arena s
      → IsLoadable job
      → Owns arena s (load_job arena job true zip_app zip_theme l s)
  unfolding load_job
  load_job-Owns job za zt l s v k = elim (Bool-cases (job.data_len_un == 0)) [
    | inl e ↦
        subst (λ b. Owns arena s (branch b)) (sym e)
          (alloc_data-Owns arena job za zt l 0 s s (λ z. refl) v.stacked refl
            (omega (arith, v.cells)) (omega arith) (omega (arith, v.high, v.ordered))
            (rw e (refl, refl)))
    | inr e ↦
        subst (λ b. Owns arena s (branch b)) (sym e)
          (packed-Owns job za zt l s v k e (
            blob_alloc-Added arena s s [] job.data_len_un v.stacked (refl, refl) refl
              (omega (arith, v.cells)) (omega (arith, v.high, v.ordered))))
  ]
    where
      branch : Bool → Outcome (LoaderResult × Blobs Sys)
      branch b =
          if b
          then alloc_data arena job true za zt l 0 s
          else bind_outcome (blob_alloc arena job.data_len_un s) (after_un job za zt l)

  -- loader_load never stops in the allocator and loses no block: if two cells of the allocator are
  -- free, its arena lies above the sizes that the loader takes, the entry or the upload is one
  -- that the loader takes, and the thread could be started, it returns either a result of a known
  -- kind, whose block is the only one added, or one of unknown kind, with the live blocks and the
  -- arena's end as before, whatever was received.
  pub loader_load-Owns :
      (entry : Option AppEntry) (filename_of : AppEntry → Option Text) (opens : Text → Bool)
      (u : Upload) (zip_app zip_theme : Bool) (run : Job → Loaded) (s : Blobs Sys)
      → IsRoomy arena s
      → ((e : AppEntry) → entry ≡ some e → e.size ≤ ld_max_size)
      → ((r : Request) → u ≡ from_gecko r → IsBounded r)
      → ((r : Request) (n : ℕ) → u ≡ from_tcp r n → IsBounded r)
      → Owns arena s (loader_load arena entry filename_of opens u true zip_app zip_theme run s)
  unfolding loader_load
  loader_load-Owns entry filename_of opens u za zt run s v size gecko tcp =
      elim (Option-cases (job_of entry filename_of opens u)) [
        | inl e ↦ rw (e, loader_load) (no_block no_result s refl (refl, refl))
        | inr (job, e) ↦
            rw (e, loader_load)
              (load_job-Owns job za zt (run job) s v
                (job_of-IsLoadable entry filename_of opens u job size gecko tcp e))
      ]
