-- ===== src/Wiiload/Send/Header.antt =====
-- The header of an upload, as wiiload sends it and the channel reads it.
use hbc.Base.{
  ℕ, ◌+◌, ◌*◌, ◌^◌, ◌<◌, ◌≡◌, ◌↔◌, refl, sym, ap, ◌∙◌, arith, Bool, false, ◌||◌, List, ◌==◌, ltb,
  take,
}
use hbc.Base.Word.{u32_mod}
use hbc.Reloc.Area.{args_max_len, ld_max_size}
use hbc.Loader.Request.{Request, request_of, is_refused, IsBounded, buf_u16, buf_u32}
use hbc.Wiiload.Send.{byte_of}
use hbc.Wiiload.Send.Sent.{upload_bytes}

u16_bytes : (n : ℕ) → n < 2 ^ 16 → byte_of 8 n * 2 ^ 8 + byte_of 0 n ≡ n
u16_bytes n less = omega arith

u32_bytes :
    (n : ℕ)
    → n < u32_mod
    → byte_of 24 n * 2 ^ 24 + byte_of 16 n * 2 ^ 16 + byte_of 8 n * 2 ^ 8 + byte_of 0 n ≡ n
u32_bytes n less = omega arith

abbrev sent_request : ℕ → ℕ → ℕ → Request
sent_request len len_un args_len = record {
  args_len = args_len;
  data_len = len;
  data_len_un = len_un;
}

request_of-upload_bytes :
    (buf : List ℕ) (len len_un : ℕ) (args : List ℕ) (args_len : ℕ)
    → len < u32_mod
    → len_un < u32_mod
    → args_len < 2 ^ 16
    → request_of (take 16 (upload_bytes buf len len_un args args_len))
      ≡ sent_request len len_un args_len
unfolding request_of buf_u16 buf_u32
request_of-upload_bytes buf len len_un args args_len a b c =
    rw (u16_bytes args_len c, u32_bytes len a, u32_bytes len_un b) refl

abbrev is_too_much : Request → Bool
is_too_much r =
    ltb args_max_len r.args_len
    || (r.data_len == 0 || ltb ld_max_size r.data_len)
    || ltb ld_max_size r.data_len_un

is_refused-upload_bytes :
    (buf : List ℕ) (len len_un : ℕ) (args : List ℕ) (args_len : ℕ)
    → is_refused (take 16 (upload_bytes buf len len_un args args_len))
      ≡ is_too_much (request_of (take 16 (upload_bytes buf len len_un args args_len)))
unfolding is_refused buf_u16
is_refused-upload_bytes buf len len_un args args_len = refl

is_too_much-IsBounded : (r : Request) → (is_too_much r ≡ false) ↔ IsBounded r
is_too_much-IsBounded r = (
  λ e. record {
    args = ground arith;
    some_data = ground arith;
    received = ground arith;
    unpacked = ground arith;
  },
  λ h.
      let a = h.args in
      let b = h.some_data in let c = h.received in let d = h.unpacked in ground arith,
)

-- The channel reads from the first 16 bytes of an upload the very sizes that wiiload wrote, both
-- below 2 ^ 32 and the length of the arguments below 2 ^ 16; and it does not refuse them if and
-- only if they are in its bounds.
pub is_refused_upload :
    (buf : List ℕ) (len len_un : ℕ) (args : List ℕ) (args_len : ℕ)
    → len < u32_mod
    → len_un < u32_mod
    → args_len < 2 ^ 16
    → (request_of (take 16 (upload_bytes buf len len_un args args_len))
        ≡ record { args_len = args_len; data_len = len; data_len_un = len_un })
      × ((is_refused (take 16 (upload_bytes buf len len_un args args_len)) ≡ false)
          ↔ IsBounded (record { args_len = args_len; data_len = len; data_len_un = len_un }))
is_refused_upload buf len len_un args args_len a b c =
    let same = request_of-upload_bytes buf len len_un args args_len a b c in
    let test = is_refused-upload_bytes buf len len_un args args_len ∙ ap is_too_much same in
    let r : Request = sent_request len len_un args_len in
    (
      same,
      (λ e. (is_too_much-IsBounded r).0 (sym test ∙ e), λ h. test ∙ (is_too_much-IsBounded r).1 h),
    )
