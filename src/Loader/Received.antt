-- ===== src/Loader/Received.antt =====
-- What `ld_load_func` has stored when it succeeds.
use hbc.Base.{
  ℕ, zero, suc, ◌+◌, ◌≤◌, ◌<◌, ◌≡◌, ◌≢◌, refl, sym, ap, ◌∙◌, subst, arith, true, false, Option,
  none, some, List, [], ◌∷◌, ◌++◌, ◌==◌, length, length-append, All, replicate, inl, inr, ◌⊎◌, not,
  ◌&&◌, leb, if◌then◌else◌,
}
use hbc.Base.Word.{add32, sub32, u32_mod}
use hbc.Tcp.Transfer.{Outcome, ended, waiting, tcp_read}
use hbc.Tcp.Transfer.Exact.{tcp_read-IsRead}
use hbc.Loader.Load.{
  Job, Loaded, LoadState, lds_success, lds_err_read, lds_err_receive, lds_err_uncompress,
}
use hbc.Loader.Receive.{
  ReadAnswer, got, read_failed, chunk, load_file, LoadRound, load_gecko, LoadCmd, ldc_file,
  ldc_gecko, ldc_tcp, Schedule, receive, unpack, after_receive, ld_load_func,
}
use hbc.Tcp.Transfer.Bounds.{IsLawful}

-- `read` and `usb_recvbuffer_ex` store at most as many bytes as were asked for, and so does `net_read`.
abbrev pub FileLaw : List (ℕ → ReadAnswer) → Type 0
FileLaw = All (λ r. (n : ℕ) (b : List ℕ) → r n ≡ got b → length b ≤ n)

abbrev pub GeckoLaw : List LoadRound → Type 0
GeckoLaw = All (λ r. (n : ℕ) → length (r.received n) ≤ n)

pub record IsLawfulSchedule (w : Schedule) : Type 0 where
  pub file_law : FileLaw w.file_rounds
  pub gecko_law : GeckoLaw w.gecko_rounds
  pub tcp_law : IsLawful length w.tcp_rounds

ReadAnswer-cases : (a : ReadAnswer) → (a ≡ read_failed) ⊎ ((b : List ℕ) × (a ≡ got b))
ReadAnswer-cases read_failed = inl refl
ReadAnswer-cases (got b) = inr (b, refl)

length-load_file :
    (rounds : List (ℕ → ReadAnswer)) (left : ℕ) (bytes out : List ℕ)
    → FileLaw rounds
    → left < u32_mod
    → load_file rounds left bytes ≡ some (lds_success, out)
    → length out ≡ length bytes + left
unfolding load_file
length-load_file [] zero bytes out law w e = ground arith
length-load_file (r ∷ rs) zero bytes out law w e = ground arith
length-load_file [] (suc n) bytes out law w e = cc
length-load_file (r ∷ rs) (suc n) bytes out law w e = elim (ReadAnswer-cases (r (chunk (suc n)))) [
  | inl f ↦ absurd (ground (arith, f))
  | inr (b, f) ↦
      let small = law.0 (chunk (suc n)) b f in
      let rest =
        length-load_file rs (sub32 (suc n) (length b)) (bytes ++ b) out law.1 (omega arith) in
      ground (arith, f, small, rest, length-append bytes b)
]

length-load_gecko :
    (millisecs : ℕ → ℕ → ℕ) (rounds : List LoadRound) (t block left : ℕ) (bytes out : List ℕ)
    → GeckoLaw rounds
    → left < u32_mod
    → load_gecko millisecs rounds t block left bytes ≡ some (lds_success, out)
    → length out ≡ length bytes + left
unfolding load_gecko
length-load_gecko millisecs [] t block zero bytes out law w e = ground arith
length-load_gecko millisecs (r ∷ rs) t block zero bytes out law w e = ground arith
length-load_gecko millisecs [] t block (suc n) bytes out law w e = cc
length-load_gecko millisecs (r ∷ rs) t block (suc n) bytes out law w e =
    let b = r.received (suc n) in
    let full = not (length b == 0) && leb 1024 (block + length b) in
    let t' = if full then r.restart else t in
    let block' = if full then 0 else block + length b in
    let small = law.0 (suc n) in
    let rest =
      length-load_gecko millisecs rs t' block' (sub32 (suc n) (length b)) (bytes ++ b) out law.1
        (omega arith) in
    ground (arith, small, rest, length-append bytes b)

-- A successful switch has stored all that was asked for.
length-receive :
    (millisecs : ℕ → ℕ → ℕ) (cmd : LoadCmd) (w : Schedule) (left : ℕ) (out : List ℕ)
    → IsLawfulSchedule w
    → left < u32_mod
    → receive millisecs cmd w left ≡ some (lds_success, out)
    → length out ≡ left
unfolding receive
length-receive millisecs ldc_file w left out v h e =
    length-load_file w.file_rounds left [] out v.file_law h e ∙ omega arith
length-receive millisecs ldc_gecko w left out v h e =
    length-load_gecko millisecs w.gecko_rounds w.now 0 left [] out v.gecko_law h e ∙ omega arith
length-receive millisecs ldc_tcp w left out v h e =
    by_outcome (tcp_read millisecs left true 0 w.tcp_rounds w.now) refl e
  where
    answer : Outcome → Option (LoadState × List ℕ)
    answer o = elim o [
      | waiting _ ↦ none
      | ended false t ↦ some (lds_err_receive, t.moved_bytes)
      | ended true t ↦ some (lds_success, t.moved_bytes)
    ]

    by_outcome :
        (o : Outcome)
        → tcp_read millisecs left true 0 w.tcp_rounds w.now ≡ o
        → answer o ≡ some (lds_success, out)
        → length out ≡ left
    by_outcome (waiting _) q f = cc
    by_outcome (ended false t) q f = cc
    by_outcome (ended true t) q f =
        let verdict =
          (tcp_read-IsRead millisecs left true w.tcp_rounds w.now h v.tcp_law).1 true t q in
        let same : t.moved_bytes ≡ out = cc in ground arith

unpack-success :
    (uncompress : ℕ → List ℕ → Option (List ℕ)) (job : Job) (bytes : List ℕ)
    → ((unpack uncompress job bytes).received ≡ bytes)
      × ((unpack uncompress job bytes).state ≡ lds_success
          → job.data_len_un ≢ 0
          → length (unpack uncompress job bytes).unpacked ≡ job.data_len_un)
unfolding unpack
unpack-success uncompress job bytes = (ground arith, λ e ne. ground arith)

-- When ld_load_func ends with success, it has stored exactly as many bytes as the data and the
-- arguments have and, if the data were packed, unpacked exactly as many as were announced: from a
-- file, the USB Gecko or the network, if each stores no more than asked for, and the lengths
-- together stay below 2 ^ 32.
pub ld_load_func_success :
    (millisecs : ℕ → ℕ → ℕ) (uncompress : ℕ → List ℕ → Option (List ℕ)) (cmd : LoadCmd)
    (w : Schedule) (job : Job) (l : Loaded)
    → IsLawfulSchedule w
    → job.data_len + job.args_len < u32_mod
    → ld_load_func millisecs uncompress cmd w job ≡ some l
    → l.state ≡ lds_success
    → (length l.received ≡ job.data_len + job.args_len)
      × (job.data_len_un ≢ 0 → length l.unpacked ≡ job.data_len_un)
unfolding ld_load_func after_receive
ld_load_func_success millisecs uncompress cmd w job l v h =
    by_answer (receive millisecs cmd w left) refl
  where
    left : ℕ
    left = add32 job.data_len job.args_len

    answer : Option (LoadState × List ℕ) → Option Loaded
    answer o = elim o [
      | none ↦ none
      | some (state, bytes) ↦ some (after_receive uncompress job state bytes)
    ]

    by_answer :
        (o : Option (LoadState × List ℕ))
        → receive millisecs cmd w left ≡ o
        → answer o ≡ some l
        → l.state ≡ lds_success
        → (length l.received ≡ job.data_len + job.args_len)
          × (job.data_len_un ≢ 0 → length l.unpacked ≡ job.data_len_un)
    by_answer none q e k = cc
    by_answer (some (lds_success, bytes)) q e k =
        let u = unpack-success uncompress job bytes in
        let same : unpack uncompress job bytes ≡ l = cc in
        let all = length-receive millisecs cmd w left bytes v (omega arith) q in
        (
          ap length (sym (ap (λ x. x.received) same) ∙ u.0) ∙ all ∙ omega arith,
          λ ne. sym (ap (λ x. length x.unpacked) same) ∙ u.1 (ap (λ x. x.state) same ∙ k) ne,
        )
    by_answer (some (lds_err_read, bytes)) q e k = cc
    by_answer (some (lds_err_receive, bytes)) q e k = cc
    by_answer (some (lds_err_uncompress, bytes)) q e k = cc

-- A file that ends while at least one byte, and fewer than 2 ^ 32, are still to come keeps the
-- loop of ld_load_func busy: after any number of further rounds it has not ended.
pub load_file_stalls :
    (rounds : ℕ) (left : ℕ) (bytes : List ℕ)
    → 1 ≤ left
    → left < u32_mod
    → load_file (replicate rounds (λ n. got [])) left bytes ≡ none
unfolding load_file
load_file_stalls rounds zero bytes h w = absurd (omega arith)
load_file_stalls zero (suc n) bytes h w = refl
load_file_stalls (suc rounds) (suc n) bytes h w =
    let same : sub32 (suc n) 0 ≡ suc n = omega arith in
    subst (λ k. load_file (replicate rounds (λ n. got [])) k (bytes ++ []) ≡ none) (sym same)
      (load_file_stalls rounds (suc n) (bytes ++ []) h w)
