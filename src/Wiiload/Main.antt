-- ===== src/Wiiload/Main.antt =====
-- `main`, from the size of the file on, with a destination over TCP.
--
-- zlib's `compress2` into a buffer of 1.02 times the size is a parameter: the packed bytes, or none
-- when it fails. Reading the command line, the environment and the file is left out.
pub mod Accepted
use hbc.Base.{
  ℕ, ◌*◌, Bool, true, false, ◌||◌, ◌&&◌, Option, none, some, List, if◌then◌else◌, ltb, ◌==◌, length,
  get_or,
}
use hbc.Apps.Text.{Text}
use hbc.Wiiload.Send.{Wire, Sending, send_tcp}
use hbc.Wiiload.Args.{ArgsBlock, block, refused, stray_write, args_block}

-- `buf`, `len` and `len_un`.
pub record Packed : Type 0 where
  pub buf : List ℕ
  pub len : ℕ
  pub len_un : ℕ

-- `memcmp(buf, "PK\x03\x04", 4)` finds no difference.
abbrev pub is_zip : List ℕ → Bool
is_zip buf =
    get_or buf 0 0 == b'P' && get_or buf 1 0 == b'K' && get_or buf 2 0 == 3 && get_or buf 3 0 == 4

abbrev pub as_it_is : List ℕ → Packed
as_it_is file = record { buf = file; len = length file; len_un = 0 }

-- `none` is an exit.
unfoldable pub pack_file : (List ℕ → Option (List ℕ)) → List ℕ → Option Packed
pack_file compress2 file =
    if ltb (length file) 64 || ltb (20 * 1024 * 1024) (length file)
    then none
    else if is_zip file
    then some (as_it_is file)
    else elim (compress2 file) [
      | none ↦ none
      | some packed ↦
          if ltb (length packed) (length file)
          then some (record { buf = packed; len = length packed; len_un = length file })
          else some (as_it_is file)
    ]

pub data MainRun : Type 0 where
  exits writes_outside : MainRun
  sends : Sending → MainRun

unfoldable pub main :
    (List ℕ → Option (List ℕ)) → Bool → List ℕ → List ℕ → Text → List Text → Wire → MainRun
unfolding pack_file args_block send_tcp
main compress2 connects cells file name rest w = elim (pack_file compress2 file) [
  | none ↦ exits
  | some p ↦ elim (args_block cells name rest) [
    | refused ↦ exits
    | stray_write ↦ writes_outside
    | block args args_len ↦ sends (send_tcp connects p.buf p.len p.len_un args args_len w)
  ]
]
