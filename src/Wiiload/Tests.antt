-- ===== src/Wiiload/Tests.antt =====
-- One upload of 64 bytes, from the file to the header that the channel reads.
use hbc.Base.{
  ℕ, zero, suc, ◌+◌, ◌≤◌, ◌≡◌, ◌↔◌, refl, arith, true, false, Option, some, List, [], ◌∷◌, ◌++◌,
  length, take, replicate, length-replicate,
}
use hbc.Apps.Text.{Text}
use hbc.Apps.Entry.{codes}
use hbc.Loader.Request.{request_of, is_refused, IsBounded}
use hbc.Reloc.Area.{ld_max_size}
use hbc.Wiiload.Send.{Wire, returned, write_all, tcp_write, send_blocks, send_tcp}
use hbc.Wiiload.Send.Sent.{Sent, IsLawful, upload_bytes, send_tcp-Sent}
use hbc.Wiiload.Send.Ends.{IsWilling, send_tcp_ends}
use hbc.Wiiload.Send.Header.{is_refused_upload}
use hbc.Wiiload.Args.{max_args_len, store_at, snprintf, put_args, terminate, with_args, args_block}
use hbc.Wiiload.Args.Joined.{joined, BlockRun, args_block-BlockRun}
use hbc.Wiiload.Main.{pack_file, main, sends}
use hbc.Wiiload.Main.Accepted.{main-is_refused}

abbrev takes_all : ℕ → Option ℕ
takes_all b = some b

abbrev wire : Wire
wire = record { sends = replicate 100 takes_all; sent = [] }

wire-IsWilling : (n : ℕ) → IsWilling (replicate n takes_all)
wire-IsWilling zero = tt
wire-IsWilling (suc n) = (λ b. (b, refl, (λ e. e), omega arith), wire-IsWilling n)

wire-IsLawful : (n : ℕ) → IsLawful (replicate n takes_all)
wire-IsLawful zero = tt
wire-IsLawful (suc n) = (λ b m e. ground arith, wire-IsLawful n)

abbrev file : List ℕ
file = replicate 64 7

abbrev arguments : List ℕ
arguments = codes "a" ++ (0 ∷ 0 ∷ [])

send_tcp-Sent_example :
    Sent (upload_bytes file 64 0 arguments 3) wire.sent (send_tcp true file 64 0 arguments 3 wire)
send_tcp-Sent_example = send_tcp-Sent true file 64 0 arguments 3 wire (wire-IsLawful 100)

send_tcp_ends_example :
    (u : Wire) × (send_tcp true file 64 0 arguments 3 wire ≡ returned true u)
    × (u.sent ≡ wire.sent ++ upload_bytes file 64 0 arguments 3)
send_tcp_ends_example = send_tcp_ends file 64 0 arguments 3 wire (wire-IsWilling 100) (omega arith)

is_refused_upload_example :
    (request_of (take 16 (upload_bytes file 64 0 arguments 3))
      ≡ record { args_len = 3; data_len = 64; data_len_un = 0 })
    × ((is_refused (take 16 (upload_bytes file 64 0 arguments 3)) ≡ false)
        ↔ IsBounded (record { args_len = 3; data_len = 64; data_len_un = 0 }))
is_refused_upload_example =
    is_refused_upload file 64 0 arguments 3 (omega arith) (omega arith) (omega arith)

abbrev cells : List ℕ
cells = replicate 1024 0xff

cells_size : length cells ≡ max_args_len
cells_size = length-replicate {A = ℕ} 1024 0xff

abbrev name : Text
name = codes "a.dol"

abbrev rest : List Text
rest = codes "-v" ∷ []

args_block-BlockRun_example : BlockRun (name ∷ rest) (args_block cells name rest)
args_block-BlockRun_example = args_block-BlockRun cells name rest cells_size (omega arith)

abbrev store_only : List ℕ → Option (List ℕ)
store_only buf = some (0 ∷ buf)

abbrev sent_wire : Wire
sent_wire = record {
  sends = replicate 94 takes_all;
  sent = upload_bytes file 64 0 (joined (name ∷ rest) ++ (0 ∷ [])) 10;
}

main_run : main store_only true cells file name rest wire ≡ sends (returned true sent_wire)
unfolding main pack_file args_block with_args put_args terminate snprintf store_at send_tcp
    tcp_write send_blocks write_all
main_run = refl

main-is_refused_example :
    ((is_refused (take 16 sent_wire.sent) ≡ false) ↔ (length file ≤ ld_max_size))
    × ((request_of (take 16 sent_wire.sent)).args_len ≡ length (joined (name ∷ rest)) + 1)
main-is_refused_example =
    main-is_refused store_only true cells file name rest wire sent_wire (λ z e. cc) cells_size
      (omega arith) (wire-IsLawful 100) refl main_run
