-- ===== src/Loader/Receive.antt =====
-- `ld_load_func`: the thread that receives what is loaded, and unpacks it.
--
-- The file, the USB Gecko, the network and the clock are schedules, one element per round of a loop;
-- `none` says that the schedule was too short, and the thread still runs. `uncompress` is zlib's: the bytes that
-- it stored, for a buffer of the given size, or none on an error. The locks, the stores to
-- `progress` of the first two loops and the closing of files are left out.
use hbc.Base.{
  ℕ, zero, suc, ◌+◌, ◌*◌, ◌^◌, true, false, not, ◌&&◌, Option, none, some, List, [], ◌∷◌, ◌++◌,
  if◌then◌else◌, ltb, leb, ◌==◌, length, take,
}
use hbc.Base.Word.{add32, sub32}
use hbc.Tcp.Transfer.{Round, ended, waiting, tcp_read}
use hbc.Loader.Threads.{ld_timeout}
use hbc.Loader.Load.{
  Job, Loaded, LoadState, lds_success, lds_err_read, lds_err_receive, lds_err_uncompress,
}

-- `read`: the bytes stored, none at the end of the file, or a negative number.
pub data ReadAnswer : Type 0 where
  got : List ℕ → ReadAnswer
  read_failed : ReadAnswer

-- At most 32 KB are read at once; but `block` is an s32, and negative, so not cut, from 2 ^ 31 on.
abbrev pub chunk : ℕ → ℕ
chunk left = if ltb (32 * 1024) left && ltb left (2 ^ 31) then 32 * 1024 else left

-- LDC_FILE, from `left` bytes on: the state and what was stored.
unfoldable pub load_file : List (ℕ → ReadAnswer) → ℕ → List ℕ → Option (LoadState × List ℕ)
load_file rounds zero bytes = some (lds_success, bytes)
load_file [] (suc n) bytes = none
load_file (r ∷ rs) (suc n) bytes = elim (r (chunk (suc n))) [
  | read_failed ↦ some (lds_err_read, bytes)
  | got b ↦ load_file rs (sub32 (suc n) (length b)) (bytes ++ b)
]

-- A call of `usb_recvbuffer_ex`, the clock if the timer is started again, and at the test.
pub record LoadRound : Type 0 where
  pub received : ℕ → List ℕ
  pub restart : ℕ
  pub now : ℕ

-- LDC_GECKO. The timer starts again whenever 1024 bytes have come.
unfoldable pub load_gecko :
    (ℕ → ℕ → ℕ) → List LoadRound → ℕ → ℕ → ℕ → List ℕ → Option (LoadState × List ℕ)
load_gecko millisecs rounds t block zero bytes = some (lds_success, bytes)
load_gecko millisecs [] t block (suc n) bytes = none
load_gecko millisecs (r ∷ rs) t block (suc n) bytes =
    let b = r.received (suc n) in
    let full = not (length b == 0) && leb 1024 (block + length b) in
    let t' = if full then r.restart else t in
    let block' = if full then 0 else block + length b in
    let rest = load_gecko millisecs rs t' block' (sub32 (suc n) (length b)) (bytes ++ b) in
    if ltb ld_timeout (millisecs t' r.now) then some (lds_err_receive, bytes ++ b) else rest

-- `ld_load_cmd`.
pub data LoadCmd : Type 0 where
  ldc_file ldc_gecko ldc_tcp : LoadCmd

pub record Schedule : Type 0 where
  pub file_rounds : List (ℕ → ReadAnswer)
  pub gecko_rounds : List LoadRound
  pub tcp_rounds : List (Round (List ℕ))
  pub now : ℕ

-- The switch over the sources.
unfoldable pub receive : (ℕ → ℕ → ℕ) → LoadCmd → Schedule → ℕ → Option (LoadState × List ℕ)
unfolding load_file load_gecko
receive millisecs ldc_file w left = load_file w.file_rounds left []
receive millisecs ldc_gecko w left = load_gecko millisecs w.gecko_rounds w.now 0 left []
receive millisecs ldc_tcp w left = elim (tcp_read millisecs left true 0 w.tcp_rounds w.now) [
  | waiting _ ↦ none
  | ended false t ↦ some (lds_err_receive, t.moved_bytes)
  | ended true t ↦ some (lds_success, t.moved_bytes)
]

-- The unpacking, if there is a buffer for it.
unfoldable pub unpack : (ℕ → List ℕ → Option (List ℕ)) → Job → List ℕ → Loaded
unpack uncompress job bytes =
    if job.data_len_un == 0
    then record { state = lds_success; received = bytes; unpacked = [] }
    else elim (uncompress job.data_len_un (take job.data_len bytes)) [
      | none ↦ record { state = lds_err_uncompress; received = bytes; unpacked = [] }
      | some out ↦ record {
        state = if length out == job.data_len_un then lds_success else lds_err_uncompress;
        received = bytes;
        unpacked = out;
      }
    ]

unfoldable pub after_receive : (ℕ → List ℕ → Option (List ℕ)) → Job → LoadState → List ℕ → Loaded
unfolding unpack
after_receive uncompress job lds_success bytes = unpack uncompress job bytes
after_receive uncompress job state bytes = record { state = state; received = bytes; unpacked = [] }

-- `ld_load_func`.
unfoldable pub ld_load_func :
    (ℕ → ℕ → ℕ) → (ℕ → List ℕ → Option (List ℕ)) → LoadCmd → Schedule → Job → Option Loaded
unfolding receive after_receive
ld_load_func millisecs uncompress cmd w job =
    elim (receive millisecs cmd w (add32 job.data_len job.args_len)) [
      | none ↦ none
      | some (state, bytes) ↦ some (after_receive uncompress job state bytes)
    ]
