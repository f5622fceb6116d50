-- ===== src/Loader/Request.antt =====
-- The 16 bytes that open an upload.
use hbc.Base.{
  ℕ, ◌+◌, ◌*◌, ◌^◌, ◌≤◌, ◌≡◌, arith, Bool, false, not, ◌&&◌, ◌||◌, List, ltb, ◌==◌, get_or,
}
use hbc.Reloc.Area.{ld_max_size, args_max_len}

abbrev pub wiiload_min_version : ℕ
wiiload_min_version = 5

-- `buf_u16` and `buf_u32`: big-endian numbers in a buffer.
unfoldable pub buf_u16 : List ℕ → ℕ → ℕ
buf_u16 buf pos = get_or buf pos 0 * 2 ^ 8 + get_or buf (pos + 1) 0

unfoldable pub buf_u32 : List ℕ → ℕ → ℕ
buf_u32 buf pos =
    get_or buf pos 0 * 2 ^ 24
    + get_or buf (pos + 1) 0 * 2 ^ 16
    + get_or buf (pos + 2) 0 * 2 ^ 8
    + get_or buf (pos + 3) 0

-- What both threads store of it.
pub record Request : Type 0 where
  pub args_len : ℕ
  pub data_len : ℕ
  pub data_len_un : ℕ

unfoldable pub request_of : List ℕ → Request
unfolding buf_u16 buf_u32
request_of buf = record {
  args_len = buf_u16 buf 6;
  data_len = buf_u32 buf 8;
  data_len_un = buf_u32 buf 12;
}

-- `strncmp(buf, "HAXX", 4)` finds no difference.
abbrev pub has_magic : List ℕ → Bool
has_magic buf =
    get_or buf 0 0 == b'H'
    && get_or buf 1 0 == b'A'
    && get_or buf 2 0 == b'X'
    && get_or buf 3 0 == b'X'

-- The test of both threads, which turns a request down.
unfoldable pub is_refused : List ℕ → Bool
unfolding buf_u16
is_refused buf =
    not (has_magic buf)
    || ltb (buf_u16 buf 4) wiiload_min_version
    || ltb args_max_len (request_of buf).args_len
    || ((request_of buf).data_len == 0 || ltb ld_max_size (request_of buf).data_len)
    || ltb ld_max_size (request_of buf).data_len_un

-- What the loader can take.
pub record IsBounded (r : Request) : Type 0 where
  pub args : r.args_len ≤ args_max_len
  pub some_data : 1 ≤ r.data_len
  pub received : r.data_len ≤ ld_max_size
  pub unpacked : r.data_len_un ≤ ld_max_size

pub is_refused-IsBounded : (buf : List ℕ) → is_refused buf ≡ false → IsBounded (request_of buf)
unfolding is_refused
is_refused-IsBounded buf h = record {
  args = ground arith;
  some_data = ground arith;
  received = ground arith;
  unpacked = ground arith;
}
