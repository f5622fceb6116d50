-- ===== src/Loader/Load.antt =====
-- `loader_load`: from an application or an upload to a block of memory and its kind.
--
-- What the receiving thread (Loader/Receive) ends with is an argument, by the job that it is given. The
-- answers of the two checks of an archive (manage.c) are arguments too. Dialogs, the closing of
-- sockets and the name of the archive's directory are left out. `started` says whether the mutex and the
-- thread could be made.
use hbc.Base.{
  ℕ, Bool, not, ◌&&◌, Option, none, some, List, [], ◌∷◌, ◌++◌, if◌then◌else◌, ◌==◌, get_or, take,
  drop,
}
use hbc.Base.Word.{add32}
use hbc.Blob.{Arena, Blobs, Outcome, returned, panicked, blob_alloc, blob_free}
use hbc.Apps.Text.{Text}
use hbc.Apps.Entry.{AppEntry, boot_elf, boot_dol, theme}
use hbc.Loader.Request.{Request}
use hbc.Loader.Threads.{Upload, from_file, no_upload, from_gecko, from_tcp}

-- `loader_type` and `loader_result`.
pub data LoaderType : Type 0 where
  lt_unknown lt_executable lt_zip_app lt_zip_theme : LoaderType

pub record LoaderResult : Type 0 where
  pub type : LoaderType
  pub address : ℕ
  pub data_len : ℕ
  pub args : List ℕ

abbrev pub no_result : LoaderResult
no_result = record { type = lt_unknown; address = 0; data_len = 0; args = [] }

-- `ld_load_state`.
pub data LoadState : Type 0 where
  lds_success lds_err_read lds_err_receive lds_err_uncompress : LoadState

-- What the thread leaves at `data` and at `data_un`.
pub record Loaded : Type 0 where
  pub state : LoadState
  pub received : List ℕ
  pub unpacked : List ℕ

-- The lengths in `ld_load_arg`, and the entry and file name when the source is a file.
pub record Job : Type 0 where
  pub file : Option (AppEntry × Text)
  pub data_len : ℕ
  pub data_len_un : ℕ
  pub args_len : ℕ

-- `ta.data_len_un = 0` when nothing is packed.
abbrev pub upload_job : Request → Job
upload_job r = record {
  file = none;
  data_len = r.data_len;
  data_len_un = if r.data_len == r.data_len_un then 0 else r.data_len_un;
  args_len = r.args_len;
}

-- Which of the sources is taken; none if `loader_load` returns at once.
unfoldable pub job_of :
    Option AppEntry → (AppEntry → Option Text) → (Text → Bool) → Upload → Option Job
job_of (some e) filename_of opens u = elim (filename_of e) [
  | none ↦ none
  | some name ↦
      if opens name
      then some (record { file = some (e, name); data_len = e.size; data_len_un = 0; args_len = 0 })
      else none
]
job_of none filename_of opens (from_gecko r) = some (upload_job r)
job_of none filename_of opens (from_tcp r client) = some (upload_job r)
job_of none filename_of opens from_file = none
job_of none filename_of opens no_upload = none

-- `manage_is_zip`.
unfoldable pub manage_is_zip : List ℕ → Bool
manage_is_zip bytes =
    get_or bytes 0 0 == b'P'
    && get_or bytes 1 0 == b'K'
    && get_or bytes 2 0 == 3
    && get_or bytes 3 0 == 4

-- The arguments of an application: its file name, those of its description, and two zeros.
unfoldable pub file_args : AppEntry → Text → List ℕ
file_args e name = elim e.meta [
  | none ↦ name ++ (0 ∷ 0 ∷ [])
  | some m ↦ elim m.args [ none ↦ name ++ (0 ∷ 0 ∷ []) | some a ↦ name ++ (0 ∷ a ++ (0 ∷ 0 ∷ [])) ]
]

abbrev pub bind_outcome : {A B : Type 0} → Outcome A → (A → Outcome B) → Outcome B
bind_outcome (returned a) next = next a
bind_outcome panicked next = panicked

module _ (arena : Arena) where
  open arena use {Sys}

  -- The kind of what was received.
  unfoldable pub classify :
      Job → Bool → Bool → List ℕ → LoaderResult → Blobs Sys → Outcome (LoaderResult × Blobs Sys)
  classify job zip_app zip_theme bytes r s = elim job.file [
    | some (e, name) ↦ elim e.type [
      | theme ↦ returned (record r { type = lt_zip_theme }, s)
      | boot_elf ↦ returned (record r { type = lt_executable; args = file_args e name }, s)
      | boot_dol ↦ returned (record r { type = lt_executable; args = file_args e name }, s)
    ]
    | none ↦
        if not (manage_is_zip bytes)
        then returned (record r { type = lt_executable }, s)
        else if zip_app
        then returned (record r { type = lt_zip_app }, s)
        else if zip_theme
        then returned (record r { type = lt_zip_theme }, s)
        else bind_outcome (blob_free arena r.address s) (λ t. returned (r, t))
  ]

  -- From the end of the thread on, with the block that is left, its length and its bytes.
  unfoldable pub conclude :
      Job
      → Bool
      → Bool
      → LoadState
      → ℕ
      → ℕ
      → List ℕ
      → List ℕ
      → Blobs Sys
      → Outcome (LoaderResult × Blobs Sys)
  unfolding classify
  conclude job zip_app zip_theme lds_success p len bytes args s =
      classify job zip_app zip_theme bytes
        (record { type = lt_unknown; address = p; data_len = len; args = args }) s
  conclude job zip_app zip_theme _ p len bytes args s =
      bind_outcome (blob_free arena p s) (λ t. returned (record no_result { args = args }, t))

  -- The two blocks are there: `un` is NULL when nothing is packed.
  unfoldable pub run_load :
      Job → Bool → Bool → Bool → Loaded → ℕ → ℕ → Blobs Sys → Outcome (LoaderResult × Blobs Sys)
  unfolding conclude
  run_load job started zip_app zip_theme l un block s =
      if not started
      then panicked
      else if not (job.data_len_un == 0)
      then bind_outcome (blob_free arena block s) (λ t.
        conclude job zip_app zip_theme l.state un job.data_len_un l.unpacked
          (take job.args_len (drop job.data_len l.received)) t)
      else conclude job zip_app zip_theme l.state block job.data_len l.received [] s

  unfoldable pub alloc_data :
      Job → Bool → Bool → Bool → Loaded → ℕ → Blobs Sys → Outcome (LoaderResult × Blobs Sys)
  unfolding run_load
  alloc_data job started zip_app zip_theme l un s =
      bind_outcome (blob_alloc arena (add32 job.data_len job.args_len) s) (λ (block, t).
        if block == 0
        then bind_outcome (blob_free arena un t) (λ u. returned (no_result, u))
        else run_load job started zip_app zip_theme l un block t)

  unfoldable pub load_job :
      Job → Bool → Bool → Bool → Loaded → Blobs Sys → Outcome (LoaderResult × Blobs Sys)
  unfolding alloc_data
  load_job job started zip_app zip_theme l s =
      if job.data_len_un == 0
      then alloc_data job started zip_app zip_theme l 0 s
      else bind_outcome (blob_alloc arena job.data_len_un s) (λ (un, t).
        if un == 0
        then returned (no_result, t)
        else alloc_data job started zip_app zip_theme l un t)

  -- `loader_load`.
  unfoldable pub loader_load :
      Option AppEntry
      → (AppEntry → Option Text)
      → (Text → Bool)
      → Upload
      → Bool
      → Bool
      → Bool
      → (Job → Loaded)
      → Blobs Sys
      → Outcome (LoaderResult × Blobs Sys)
  unfolding job_of load_job
  loader_load entry filename_of opens u started zip_app zip_theme run s =
      elim (job_of entry filename_of opens u) [
        | none ↦ returned (no_result, s)
        | some job ↦ load_job job started zip_app zip_theme (run job) s
      ]
