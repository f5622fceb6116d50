-- ===== src/Loader/Tests.antt =====
-- An upload over the USB Gecko, in two pieces.
use hbc.Base.{
  ◌+◌, ℕ, ◌≡◌, ◌≢◌, refl, arith, true, false, List, [], ◌∷◌, ◌++◌, none, some, length, ltb, ◌-◌,
  replicate, subst, if◌then◌else◌,
}
use hbc.Loader.Request.{Request, IsBounded, request_of, is_refused}
use hbc.Loader.Threads.{
  Gecko, gecko_idle, gecko_poll, GeckoRound, read_gecko, ld_gecko_func, tcp_idle, uninitialized,
  TcpThread, loader_signal_threads, signal_gecko, signal_tcp, from_gecko, from_tcp, take_upload,
}
use hbc.Blob.Tests.{registers, start, start-IsStacked}
use hbc.Loader.Load.{Job, Loaded, lds_success, loader_load}
use hbc.Loader.Result.{Owns}
use hbc.Loader.Whole.{IsRoomy, loader_load-Owns}
use hbc.Loader.Receive.{got, load_file, ldc_file, Schedule, ld_load_func}
use hbc.Loader.Received.{IsLawfulSchedule, ld_load_func_success, load_file_stalls}
use hbc.Loader.Lost.{loader_load_lost_args}
use hbc.Blob.{Blobs, returned, blob_alloc, blob_addr}
use hbc.Blob.Tests.{Registers}
use hbc.Loader.Load.{LoaderResult, lt_executable, manage_is_zip}
use hbc.Loader.Filled.{IsLawful}
use hbc.Loader.Called.{System}
use hbc.Loader.Reachable.{
  gecko_serves, signals, Reachable, started, next, gecko-injective, take_upload-IsBounded,
}

abbrev first_piece : List ℕ
first_piece = b'H' ∷ b'A' ∷ b'X' ∷ b'X' ∷ 0 ∷ 5 ∷ []

abbrev second_piece : List ℕ
second_piece = 0 ∷ 4 ∷ 0 ∷ 0 ∷ 1 ∷ 0 ∷ 0 ∷ 0 ∷ 2 ∷ 0 ∷ []

abbrev pieces : List GeckoRound
pieces =
    record { received = λ n. if ltb n 6 then [] else first_piece; now = 0 }
    ∷ record { received = λ n. []; now = 1 }
    ∷ record { received = λ n. if ltb n 10 then [] else second_piece; now = 2 }
    ∷ []

abbrev elapsed : ℕ → ℕ → ℕ
elapsed from till = till - from

abbrev no_request : Request
no_request = record { args_len = 0; data_len = 0; data_len_un = 0 }

abbrev idle_gecko : Gecko
idle_gecko = record { running = true; handshaked = false; cmd = gecko_idle; request = no_request }

abbrev idle_tcp : TcpThread
idle_tcp = record {
  running = true;
  cmd = tcp_idle;
  state = uninitialized;
  handshaked = false;
  request = no_request;
  client = 0;
  listener = none;
  mask = 0;
  clients = [];
}

abbrev polling : Gecko
polling = record idle_gecko { cmd = gecko_poll }

abbrev shaken : Gecko
shaken = record idle_gecko {
  handshaked = true;
  request = record { args_len = 4; data_len = 256; data_len_un = 512 };
}

ld_gecko_func-pieces : ld_gecko_func elapsed 0 pieces polling ≡ some shaken
unfolding ld_gecko_func is_refused request_of
ld_gecko_func-pieces = refl

abbrev system : Gecko → System
system g = record { gecko = g; tcp = idle_tcp }

shaken-Reachable : Reachable elapsed (system shaken)
unfolding loader_signal_threads signal_gecko signal_tcp
shaken-Reachable =
    next (system polling) (system shaken)
      (next (system idle_gecko) (system polling)
        (started (system idle_gecko) (record {
          gecko_quiet = refl;
          tcp_quiet = refl;
          no_clients = refl;
          not_waiting = λ e. cc;
        }))
        (signals true true))
      (gecko_serves 0 pieces shaken ld_gecko_func-pieces)

take_upload-IsBounded_example :
    ((r : Request) → (take_upload false true true shaken idle_tcp).0 ≡ from_gecko r → IsBounded r)
    × ((r : Request) (n : ℕ)
        → (take_upload false true true shaken idle_tcp).0 ≡ from_tcp r n
        → IsBounded r
          × (idle_tcp.clients ≡ n ∷ [])
          × ((take_upload false true true shaken idle_tcp).2.clients ≡ []))
take_upload-IsBounded_example =
    take_upload-IsBounded elapsed (system shaken) false true true shaken-Reachable

pieces-IsLawful : IsLawful pieces
pieces-IsLawful = (λ n. ground arith, (λ n. omega arith, (λ n. ground arith, tt)))

read_gecko-pieces : read_gecko elapsed 0 pieces 16 [] ≡ some (some (first_piece ++ second_piece))
unfolding read_gecko
read_gecko-pieces = refl

-- The same upload is loaded: 256 packed bytes with 4 bytes of arguments, and 512 unpacked ones.
abbrev request : Request
request = record { args_len = 4; data_len = 256; data_len_un = 512 }

request-IsBounded : IsBounded request
request-IsBounded = record {
  args = omega arith;
  some_data = omega arith;
  received = omega arith;
  unpacked = omega arith;
}

start-IsRoomy : IsRoomy registers start
start-IsRoomy = record {
  stacked = start-IsStacked;
  cells = omega arith;
  high = omega arith;
  ordered = omega arith;
}

abbrev unpacked_zip : Job → Loaded
unpacked_zip job = record {
  state = lds_success;
  received = replicate 256 7 ++ (1 ∷ 2 ∷ 3 ∷ 4 ∷ []);
  unpacked = b'P' ∷ b'K' ∷ 3 ∷ 4 ∷ replicate 508 0;
}

loader_load-Owns_example : Owns registers start (
    loader_load registers none
      (λ e. none)
      (λ name. false)
      (from_gecko request)
      true
      true
      false
      unpacked_zip
      start)
loader_load-Owns_example =
    loader_load-Owns registers none (λ e. none) (λ name. false) (from_gecko request) true false
      unpacked_zip start start-IsRoomy (λ e f. cc)
      (λ r e. subst IsBounded (gecko-injective e) request-IsBounded) (λ r n e. cc)

-- Two bytes and one byte of arguments, from a file in two reads.
abbrev small_job : Job
small_job = record { file = none; data_len = 2; data_len_un = 0; args_len = 1 }

abbrev two_reads : Schedule
two_reads = record {
  file_rounds =
      (λ n. if ltb n 2 then got [] else got (5 ∷ 6 ∷ []))
      ∷ (λ n. if ltb n 1 then got [] else got (7 ∷ []))
      ∷ [];
  gecko_rounds = [];
  tcp_rounds = [];
  now = 0;
}

two_reads-IsLawfulSchedule : IsLawfulSchedule two_reads
two_reads-IsLawfulSchedule = record {
  file_law = (λ n b e. ground arith, (λ n b e. ground arith, tt));
  gecko_law = tt;
  tcp_law = tt;
}

abbrev small_loaded : Loaded
small_loaded = record { state = lds_success; received = 5 ∷ 6 ∷ 7 ∷ []; unpacked = [] }

ld_load_func-two_reads :
    ld_load_func elapsed (λ n bytes. none) ldc_file two_reads small_job ≡ some small_loaded
unfolding ld_load_func
ld_load_func-two_reads = refl

ld_load_func_success_example :
    (length small_loaded.received ≡ 2 + 1)
    × (small_job.data_len_un ≢ 0 → length small_loaded.unpacked ≡ 0)
ld_load_func_success_example =
    ld_load_func_success elapsed (λ n bytes. none) ldc_file two_reads small_job small_loaded
      two_reads-IsLawfulSchedule (omega arith) ld_load_func-two_reads refl

load_file_stalls_example : load_file (replicate 100 (λ n. got [])) 3 (1 ∷ []) ≡ none
load_file_stalls_example = load_file_stalls 100 3 (1 ∷ []) (omega arith) (omega arith)

-- Four bytes of arguments behind 256 bytes that are not packed.
abbrev flat_request : Request
flat_request = record { args_len = 4; data_len = 256; data_len_un = 0 }

abbrev flat_loaded : Job → Loaded
flat_loaded job = record {
  state = lds_success;
  received = replicate 256 7 ++ (1 ∷ 2 ∷ 3 ∷ 4 ∷ []);
  unpacked = [];
}

abbrev flat_result : LoaderResult
flat_result = record { type = lt_executable; address = 0x933d_fee0; data_len = 256; args = [] }

abbrev flat_blobs : Blobs Registers
flat_blobs = record {
  live =
      record { the_blob = 0x933d_fee0; blob_size = 260; old_arena2hi = 0x933e_0000 } ∷ start.live;
  sys = record { lo = 0x9000_2000; hi = 0x933d_fee0 };
}

loader_load-flat_request :
    loader_load registers none
      (λ e. none)
      (λ name. false)
      (from_tcp flat_request 5)
      true
      false
      false
      flat_loaded
      start
    ≡ returned (flat_result, flat_blobs)
unfolding loader_load blob_alloc blob_addr manage_is_zip
loader_load-flat_request = refl

loader_load_lost_args_example : flat_result.args ≡ []
loader_load_lost_args_example =
    loader_load_lost_args registers (λ e. none) (λ name. false) flat_request 5 true false false
      flat_loaded start flat_blobs flat_result refl loader_load-flat_request
