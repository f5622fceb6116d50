-- ===== src/Http/Fetch/Headers.antt =====
-- The loop over the header lines of an answer.
use hbc.Base.{
  ℕ, ◌+◌, ◌≡◌, ◌≢◌, ◌≤◌, ◌<◌, refl, sym, ◌∙◌, subst, arith, Bool, true, false, Option, none, some,
  List, [], ◌∷◌, ◌++◌, ◌==◌, length, Bool-cases, inl, inr, All,
}
use hbc.Apps.Text.{Text}
use hbc.Tcp.Transfer.{Transfer, ended, tcp_write}
use hbc.Tcp.Line.{LineRound, LineOutcome, line, waiting, tcp_readln}
use hbc.Http.Fetch.{
  Http, https_requesting, Sscanf, Net, Header, http_timeout, scan_line, bad_header, request_text,
  read_header, after_header, fetch,
}

module _ (millisecs : ℕ → ℕ → ℕ) (scan : Sscanf) (t : ℕ) where
  abbrev line_of : List LineRound → LineOutcome
  line_of r = tcp_readln millisecs 0xff t http_timeout r []

  -- One round of the loop.
  pub data HeaderRound (r : List LineRound) (rs : List (List LineRound)) (n : ℕ) (h : Header)
      : Option Header → Type 0 where
    busy : line_of r ≡ waiting → HeaderRound r rs n h none
    broken : line_of r ≡ line none → HeaderRound r rs n h (some (bad_header h))
    end_of_header : line_of r ≡ line (some []) → HeaderRound r rs n h (some h)
    too_many :
        (l : Text)
        → line_of r ≡ line (some l)
        → l ≢ []
        → n + 1 ≡ 32
        → HeaderRound r rs n h (some (bad_header (scan_line scan l h)))
    one_line :
        (l : Text)
        → line_of r ≡ line (some l)
        → l ≢ []
        → n + 1 ≢ 32
        → HeaderRound r rs n h (read_header millisecs scan t rs (n + 1) (scan_line scan l h))

  pub read_header-HeaderRound :
      (r : List LineRound) (rs : List (List LineRound)) (n : ℕ) (h : Header)
      → HeaderRound r rs n h (read_header millisecs scan t (r ∷ rs) n h)
  unfolding read_header
  read_header-HeaderRound r rs n h = by_line (line_of r) refl
    where
      chosen : Text → Bool → Bool → Option Header
      chosen l empty last = elim empty [
        | true ↦ some h
        | false ↦ elim last [
          | true ↦ some (bad_header (scan_line scan l h))
          | false ↦ read_header millisecs scan t rs (n + 1) (scan_line scan l h)
        ]
      ]

      rest : Text → Option Header
      rest l = chosen l (length l == 0) (n + 1 == 32)

      answer : LineOutcome → Option Header
      answer o = elim o [
        | waiting ↦ none
        | line none ↦ some (bad_header h)
        | line (some l) ↦ rest l
      ]

      some_text : (c : ℕ) (l : Text) → (length (c ∷ l) == 0) ≡ false
      some_text c l = ground arith

      by_text : (l : Text) → line_of r ≡ line (some l) → HeaderRound r rs n h (rest l)
      by_text [] e = end_of_header e
      by_text (c ∷ l) e =
          subst (λ b. HeaderRound r rs n h (chosen (c ∷ l) b (n + 1 == 32))) (sym (some_text c l))
            (elim (Bool-cases (n + 1 == 32)) [
              | inl f ↦
                  subst (λ b. HeaderRound r rs n h (chosen (c ∷ l) false b)) (sym f)
                    (too_many (c ∷ l) e (λ g. cc) (ground arith))
              | inr f ↦
                  subst (λ b. HeaderRound r rs n h (chosen (c ∷ l) false b)) (sym f)
                    (one_line (c ∷ l) e (λ g. cc) (ground arith))
            ])

      by_line : (o : LineOutcome) → line_of r ≡ o → HeaderRound r rs n h (answer o)
      by_line waiting e = busy e
      by_line (line none) e = broken e
      by_line (line (some l)) e = by_text l e

  -- The loop over the header lines ends after at most 32 lines: from a count below 32, if the
  -- lines at hand reach 32 and reading each one ends, it gives a result.
  pub read_header_ends :
      (lines : List (List LineRound)) (n : ℕ) (h : Header)
      → All (λ r. line_of r ≢ waiting) lines
      → n < 32
      → 32 ≤ n + length lines
      → (h' : Header) × (read_header millisecs scan t lines n h ≡ some h')
  read_header_ends [] n h all less more = absurd (omega arith)
  read_header_ends (r ∷ rs) n h all less more =
      elim (read_header-HeaderRound r rs n h) as (λ o _. (h' : Header) × (o ≡ some h')) [
        | busy e ↦ absurd (all.0 e)
        | broken e ↦ (_, refl)
        | end_of_header e ↦ (_, refl)
        | too_many l e f g ↦ (_, refl)
        | one_line l e f g ↦ read_header_ends rs (n + 1) _ all.1 (omega arith) (omega arith)
      ]

  -- A line that names neither a status nor a length.
  abbrev pub IsPlain : List LineRound → Type 0
  IsPlain r =
      (l : Text) × (line_of r ≡ line (some l))
      × (l ≢ [])
      × (scan.status_of l ≡ none)
      × (scan.length_of l ≡ none)

  scan_line_plain :
      (l : Text) (h : Header)
      → scan.status_of l ≡ none
      → scan.length_of l ≡ none
      → scan_line scan l h ≡ h
  unfolding scan_line
  scan_line_plain l h e f = rw (e, f) refl

  line-injective : {l m : Text} → line (some l) ≡ line (some m) → l ≡ m
  line-injective e = cc

  pub read_header_plain :
      (front : List (List LineRound)) (last : List LineRound) (back : List (List LineRound)) (n : ℕ)
      (h : Header)
      → All IsPlain front
      → line_of last ≡ line (some [])
      → n + length front < 32
      → read_header millisecs scan t (front ++ (last ∷ back)) n h ≡ some h
  read_header_plain [] last back n h all e less =
      elim (read_header-HeaderRound last back n h) as (λ o _. o ≡ some h) [
        | busy f ↦ cc
        | broken f ↦ cc
        | end_of_header f ↦ refl
        | too_many l f g k ↦ absurd (g (line-injective (sym f ∙ e)))
        | one_line l f g k ↦ absurd (g (line-injective (sym f ∙ e)))
      ]
  read_header_plain (r ∷ front) last back n h (p, all) e less =
      let (m, q, ne, st, le) = p in
      let rest = read_header_plain front last back (n + 1) h all e (omega arith) in
      elim (read_header-HeaderRound r (front ++ (last ∷ back)) n h) as (λ o _. o ≡ some h) [
        | busy f ↦ cc
        | broken f ↦ cc
        | end_of_header f ↦ absurd (ne (line-injective (sym q ∙ f)))
        | too_many l f g k ↦ absurd (omega arith)
        | one_line l f g k ↦
            let same : l ≡ m = line-injective (sym f ∙ q) in
            subst (λ x. read_header millisecs scan t (front ++ (last ∷ back)) (n + 1) x ≡ some h)
              (sym (subst (λ x. scan_line scan x h ≡ h) (sym same) (scan_line_plain m h st le)))
              rest
      ]

-- A server that is connected, takes the request, and sends fewer than 32 header lines that name
-- neither a status nor a length before the empty one is judged by the status and the length of the
-- fetch before.
pub fetch_stale :
    (millisecs : ℕ → ℕ → ℕ) (scan : Sscanf) (agent : Text) (net : Net) (s : Http) (u : Transfer)
    (front : List (List LineRound)) (last : List LineRound) (back : List (List LineRound))
    → net.connects ≡ true
    → tcp_write millisecs (request_text agent s) false 0 net.write_rounds net.write_now
      ≡ ended true u
    → net.lines ≡ front ++ (last ∷ back)
    → All (IsPlain millisecs scan net.header_now) front
    → tcp_readln millisecs 0xff net.header_now http_timeout last [] ≡ line (some [])
    → length front < 32
    → fetch millisecs scan agent net s
      ≡ after_header millisecs net
          (record { status = s.http_status; size = s.content_length; result = s.res })
          (record s { state = https_requesting })
unfolding fetch
fetch_stale millisecs scan agent net s u front last back c w l all e less =
    let old : Header = record { status = s.http_status; size = s.content_length; result = s.res } in
    let h =
      read_header_plain millisecs scan net.header_now front last back 0 old all e (omega arith) in
    rw (c, fetch) (rw (w, fetch) (rw (l, fetch) (rw (h, fetch) refl)))
