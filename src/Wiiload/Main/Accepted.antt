-- ===== src/Wiiload/Main/Accepted.antt =====
-- Which uploads of wiiload the channel takes.
use hbc.Base.{
  ℕ, ◌+◌, ◌*◌, ◌≤◌, ◌<◌, ◌≡◌, ◌≢◌, ◌↔◌, refl, sym, ap, ◌∙◌, subst, arith, Bool, true, false, ◌||◌,
  Option, none, some, List, [], ◌∷◌, ◌++◌, ltb, length, take, Bool-cases, Option-cases, inl, inr,
  some-injective,
}
use hbc.Base.Word.{u32_mod}
use hbc.Reloc.Area.{ld_max_size}
use hbc.Apps.Text.{Text}
use hbc.Loader.Request.{request_of, is_refused, IsBounded}
use hbc.Wiiload.Send.{Wire, Sending, returned, send_tcp}
use hbc.Wiiload.Send.Sent.{IsLawful, upload_bytes, send_tcp-Sent, Sent-returned}
use hbc.Wiiload.Send.Header.{is_refused_upload}
use hbc.Wiiload.Args.{max_args_len, ArgsBlock, block, refused, stray_write, args_block}
use hbc.Wiiload.Args.Joined.{joined, BlockRun, fits, does_not_fit, args_block-BlockRun}
use hbc.Wiiload.Main.{
  Packed, as_it_is, is_zip, pack_file, MainRun, exits, writes_outside, sends, main,
}

-- What `pack_file` announces: the file itself, or a shorter packed form of it.
pub data PackRun (compress2 : List ℕ → Option (List ℕ)) (file : List ℕ)
    : Option Packed → Type 0 where
  no_upload : PackRun compress2 file none
  plain :
      64 ≤ length file
      → length file ≤ 20 * 1024 * 1024
      → PackRun compress2 file (some (as_it_is file))
  packed :
      (z : List ℕ)
      → compress2 file ≡ some z
      → length z < length file
      → length file ≤ 20 * 1024 * 1024
      → PackRun compress2 file (some (record { buf = z; len = length z; len_un = length file }))

pack_file-PackRun :
    (compress2 : List ℕ → Option (List ℕ)) (file : List ℕ)
    → PackRun compress2 file (pack_file compress2 file)
unfolding pack_file
pack_file-PackRun compress2 file =
    elim (Bool-cases (ltb (length file) 64 || ltb (20 * 1024 * 1024) (length file))) [
      | inl e ↦ rw e no_upload
      | inr e ↦ rw e (elim (Bool-cases (is_zip file)) [
        | inl z ↦ rw z (plain (ground arith) (ground arith))
        | inr z ↦ rw z (elim (Option-cases (compress2 file)) [
          | inl c ↦ rw c no_upload
          | inr (p, c) ↦ rw c (elim (Bool-cases (ltb (length p) (length file))) [
            | inl l ↦ rw l (packed p c (ground arith) (ground arith))
            | inr l ↦ rw l (plain (ground arith) (ground arith))
          ])
        ])
      ])
    ]

-- The channel takes it if and only if the file fits.
abbrev IsTaken : List ℕ → Packed → ℕ → Type 0
IsTaken file p args_len =
    (p.len < u32_mod)
    × (p.len_un < u32_mod)
    × (IsBounded (record { args_len = args_len; data_len = p.len; data_len_un = p.len_un })
        ↔ (length file ≤ ld_max_size))

pack_file-IsTaken :
    (compress2 : List ℕ → Option (List ℕ)) (file : List ℕ) (p : Packed) (args_len : ℕ)
    → ((z : List ℕ) → compress2 file ≡ some z → z ≢ [])
    → args_len ≤ max_args_len
    → pack_file compress2 file ≡ some p
    → IsTaken file p args_len
pack_file-IsTaken compress2 file p args_len some_bytes few =
    by_run (pack_file-PackRun compress2 file)
  where
    by_run : {o : Option Packed} → PackRun compress2 file o → o ≡ some p → IsTaken file p args_len
    by_run no_upload e = cc
    by_run (plain more less) e =
        subst (λ q. IsTaken file q args_len) (some-injective e)
          (
            omega arith,
            omega arith,
            (
              λ b. b.received,
              λ s. record {
                args = few;
                some_data = omega arith;
                received = s;
                unpacked = omega arith;
              },
            ),
          )
    by_run (packed z c shorter less) e =
        let one : 1 ≤ length z = nonempty z (some_bytes z c) in
        subst (λ q. IsTaken file q args_len) (some-injective e)
          (
            omega arith,
            omega arith,
            (
              λ b. b.unpacked,
              λ s. record { args = few; some_data = one; received = omega arith; unpacked = s },
            ),
          )
      where
        nonempty : (l : List ℕ) → l ≢ [] → 1 ≤ length l
        nonempty [] ne = absurd (ne refl)
        nonempty (x ∷ l) ne = omega arith

-- When main returns from a complete transfer over TCP, the channel's test of the 16 bytes that
-- open it lets the upload pass if and only if the file has at most LD_MAX_SIZE bytes, and the
-- announced length of the arguments is that of the file's name and the arguments, a 0 behind each,
-- and one more 0. The name is at most 1022 bytes, the packed form of the file is not empty, and
-- send never takes more than it is given.
pub main-is_refused :
    (compress2 : List ℕ → Option (List ℕ)) (connects : Bool) (cells file : List ℕ) (name : Text)
    (rest : List Text) (w u : Wire)
    → ((z : List ℕ) → compress2 file ≡ some z → z ≢ [])
    → length cells ≡ max_args_len
    → length name + 2 ≤ max_args_len
    → IsLawful w.sends
    → w.sent ≡ []
    → main compress2 connects cells file name rest w ≡ sends (returned true u)
    → ((is_refused (take 16 u.sent) ≡ false) ↔ (length file ≤ ld_max_size))
      × ((request_of (take 16 u.sent)).args_len ≡ length (joined (name ∷ rest)) + 1)
unfolding main
main-is_refused compress2 connects cells file name rest w u some_bytes size short law fresh =
    by_pack (pack_file compress2 file) refl
  where
    Goal : Type 0
    Goal =
        ((is_refused (take 16 u.sent) ≡ false) ↔ (length file ≤ ld_max_size))
        × ((request_of (take 16 u.sent)).args_len ≡ length (joined (name ∷ rest)) + 1)

    sent_of : Packed → ArgsBlock → MainRun
    sent_of p o = elim o [
      | refused ↦ exits
      | stray_write ↦ writes_outside
      | block args args_len ↦ sends (send_tcp connects p.buf p.len p.len_un args args_len w)
    ]

    packed_run : Option Packed → MainRun
    packed_run o = elim o [ none ↦ exits | some p ↦ sent_of p (args_block cells name rest) ]

    sends-injective : {a b : Sending} → sends a ≡ sends b → a ≡ b
    sends-injective e = cc

    taken :
        (p : Packed) (args : List ℕ) (args_len : ℕ)
        → IsTaken file p args_len
        → args_len ≡ length (joined (name ∷ rest)) + 1
        → args_len ≤ max_args_len
        → u.sent ≡ upload_bytes p.buf p.len p.len_un args args_len
        → Goal
    taken p args args_len (a, b, good) len few e =
        let (same, test) = is_refused_upload p.buf p.len p.len_un args args_len a b (omega arith) in
        subst
          (λ l.
            ((is_refused (take 16 l) ≡ false) ↔ (length file ≤ ld_max_size))
            × ((request_of (take 16 l)).args_len ≡ length (joined (name ∷ rest)) + 1))
          (sym e)
          ((λ f. good.0 (test.0 f), λ f. test.1 (good.1 f)), ap (λ r. r.args_len) same ∙ len)

    by_args :
        (p : Packed) {o : ArgsBlock}
        → pack_file compress2 file ≡ some p
        → BlockRun (name ∷ rest) o
        → sent_of p o ≡ sends (returned true u)
        → Goal
    by_args p q (does_not_fit more) e = cc
    by_args p q (fits args args_len len few held) e =
        let all =
          Sent-returned _ w.sent u _
            (send_tcp-Sent connects p.buf p.len p.len_un args args_len w law) (sends-injective e) in
        taken p args args_len (pack_file-IsTaken compress2 file p args_len some_bytes few q) len few
          (subst (λ l. u.sent ≡ l ++ upload_bytes p.buf p.len p.len_un args args_len) fresh all)

    by_pack :
        (o : Option Packed)
        → pack_file compress2 file ≡ o
        → packed_run o ≡ sends (returned true u)
        → Goal
    by_pack none q e = cc
    by_pack (some p) q e = by_args p q (args_block-BlockRun cells name rest size short) e
