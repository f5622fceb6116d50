-- ===== src/Tcp/Line/Found.antt =====
-- Which line `tcp_readln` returns.
use mathlib.Core.List.{append-nil, append_assoc}
use hbc.Base.{
  ℕ, zero, suc, ◌+◌, ◌-◌, ◌≤◌, ◌<◌, ◌≡◌, ◌≢◌, refl, ap, ◌∙◌, arith, List, [], ◌∷◌, ◌++◌, length,
  take, get_or, some, none, length-append,
}
use hbc.Tcp.Line.{
  ByteAnswer, byte, no_byte, broken, LineRound, LineOutcome, line, waiting, until_nul, take_byte,
  tcp_readln,
}

abbrev bring : ByteAnswer → List ℕ → List ℕ
bring (byte b) bs = b ∷ bs
bring no_byte bs = bs
bring broken bs = bs

-- The bytes that the answers bring, in order.
abbrev pub bytes_of : List LineRound → List ℕ
bytes_of [] = []
bytes_of (r ∷ rs) = bring r.answer (bytes_of rs)

abbrev NotBroken : ByteAnswer → Type 0
NotBroken broken = ⊥
NotBroken _ = Unit

-- Every round is in time, and the connection does not break.
abbrev pub InTime : (ℕ → ℕ → ℕ) → ℕ → ℕ → List LineRound → Type 0
InTime millisecs start_time timeout [] = Unit
InTime millisecs start_time timeout (r ∷ rs) =
    (millisecs start_time r.now ≤ timeout)
    × NotBroken r.answer
    × InTime millisecs start_time timeout rs

-- The loop with no pauses.
feed : ℕ → List ℕ → List ℕ → LineOutcome
feed max_length buf [] = waiting
feed max_length buf (b ∷ bs) = elim (take_byte max_length buf b) [
  | some result ↦ line result
  | none ↦ feed max_length (buf ++ b ∷ []) bs
]

module _ (millisecs : ℕ → ℕ → ℕ) (max_length start_time timeout : ℕ) where
  -- Pauses change nothing.
  round-feed :
      (x : ByteAnswer) (now : ℕ) (rs : List LineRound) (buf : List ℕ)
      → NotBroken x
      → millisecs start_time now ≤ timeout
      → ((buf : List ℕ)
          → tcp_readln millisecs max_length start_time timeout rs buf
            ≡ feed max_length buf (bytes_of rs))
      → tcp_readln millisecs max_length start_time timeout
          (record { now = now; answer = x } ∷ rs)
          buf
        ≡ feed max_length buf (bring x (bytes_of rs))
  unfolding tcp_readln feed
  round-feed (byte b) now rs buf n h later = ground (arith, later (buf ++ b ∷ []))
  round-feed no_byte now rs buf n h later = ground (arith, later buf)
  round-feed broken now rs buf n h later = absurd n

  tcp_readln-feed :
      (rounds : List LineRound) (buf : List ℕ)
      → InTime millisecs start_time timeout rounds
      → tcp_readln millisecs max_length start_time timeout rounds buf
        ≡ feed max_length buf (bytes_of rounds)
  tcp_readln-feed [] buf h = unfold tcp_readln feed in refl
  tcp_readln-feed (r ∷ rs) buf h =
      round-feed r.answer r.now rs buf h.1 h.0 (λ b. tcp_readln-feed rs b h.2)

-- No CR LF in the bytes, where `p` is the byte before them.
abbrev pub HasNoCrlf : ℕ → List ℕ → Type 0
HasNoCrlf p [] = Unit
HasNoCrlf p (x ∷ xs) = (p ≡ b'\r' → x ≢ b'\n') × HasNoCrlf x xs

last_or_zero : List ℕ → ℕ
last_or_zero buf = get_or buf (length buf - 1) 0

get_or-append : (xs : List ℕ) (y : ℕ) (n : ℕ) → n ≡ length xs → get_or (xs ++ y ∷ []) n 0 ≡ y
get_or-append [] y zero e = refl
get_or-append [] y (suc n) e = absurd (omega arith)
get_or-append (x ∷ xs) y zero e = absurd (omega arith)
get_or-append (x ∷ xs) y (suc n) e = get_or-append xs y n (omega arith)

last_or_zero-append : (xs : List ℕ) (y : ℕ) → last_or_zero (xs ++ y ∷ []) ≡ y
unfolding last_or_zero
last_or_zero-append xs y = get_or-append xs y _ (omega (arith, length-append xs (y ∷ [])))

feed_one :
    (max_length : ℕ) (buf : List ℕ) (b : ℕ) (bs : List ℕ)
    → (last_or_zero buf ≡ b'\r' → b ≢ b'\n')
    → length buf + 1 < max_length
    → feed max_length buf (b ∷ bs) ≡ feed max_length (buf ++ b ∷ []) bs
unfolding feed take_byte last_or_zero
feed_one max_length buf b bs h room = ground arith

feed-append :
    (max_length : ℕ) (front buf bs : List ℕ)
    → HasNoCrlf (last_or_zero buf) front
    → length buf + length front < max_length
    → feed max_length buf (front ++ bs) ≡ feed max_length (buf ++ front) bs
feed-append max_length [] buf bs h room = rw append-nil
feed-append max_length (x ∷ front) buf bs h room =
    feed_one max_length buf x (front ++ bs) h.0 (omega arith)
    ∙ feed-append max_length front (buf ++ x ∷ []) bs (rw last_or_zero-append h.1)
        (omega (arith, length-append buf (x ∷ [])))
    ∙ rw append_assoc

take-append : (xs ys : List ℕ) (n : ℕ) → n ≡ length xs → take n (xs ++ ys) ≡ xs
take-append [] ys zero e = refl
take-append [] ys (suc n) e = absurd (omega arith)
take-append (x ∷ xs) ys zero e = absurd (omega arith)
take-append (x ∷ xs) ys (suc n) e = ap (λ l. x ∷ l) (take-append xs ys n (omega arith))

last_from : ℕ → List ℕ → ℕ
last_from p [] = p
last_from p (x ∷ xs) = last_from x xs

last_or_zero-last_from :
    (x : ℕ) (xs : List ℕ) (n : ℕ) → n ≡ length xs → get_or (x ∷ xs) n 0 ≡ last_from x xs
unfolding last_from
last_or_zero-last_from x [] zero e = refl
last_or_zero-last_from x [] (suc n) e = absurd (omega arith)
last_or_zero-last_from x (y ∷ ys) zero e = absurd (omega arith)
last_or_zero-last_from x (y ∷ ys) (suc n) e = last_or_zero-last_from y ys n (omega arith)

last_or_zero_lem : (xs : List ℕ) → last_or_zero xs ≡ last_from 0 xs
unfolding last_or_zero last_from
last_or_zero_lem [] = refl
last_or_zero_lem (x ∷ xs) = last_or_zero-last_from x xs _ (omega arith)

HasNoCrlf-append :
    (p : ℕ) (front : List ℕ) (b : ℕ)
    → HasNoCrlf p (front ++ b ∷ [])
    → HasNoCrlf p front × (last_from p front ≡ b'\r' → b ≢ b'\n')
unfolding last_from
HasNoCrlf-append p [] b h = (tt, h.0)
HasNoCrlf-append p (x ∷ front) b h =
    let rest = HasNoCrlf-append x front b h.1 in ((h.0, rest.0), rest.1)

feed_last :
    (max_length : ℕ) (buf : List ℕ) (b : ℕ) (bs : List ℕ)
    → (last_or_zero buf ≡ b'\r' → b ≢ b'\n')
    → length buf + 1 ≡ max_length
    → feed max_length buf (b ∷ bs) ≡ line none
unfolding feed take_byte last_or_zero
feed_last max_length buf b bs h full = ground arith

feed_crlf :
    (max_length : ℕ) (front bs : List ℕ)
    → feed max_length (front ++ b'\r' ∷ []) (b'\n' ∷ bs) ≡ line (some (until_nul front))
unfolding feed take_byte
feed_crlf max_length [] bs = refl
feed_crlf max_length (x ∷ xs) bs = ground (
  arith,
  length-append xs (b'\r' ∷ []),
  get_or-append (x ∷ xs) b'\r' (length (xs ++ b'\r' ∷ [])),
  take-append (x ∷ xs) (b'\r' ∷ []) (length (xs ++ b'\r' ∷ [])),
)

-- A line that arrives in time and on an unbroken connection, in whatever pieces, is returned up to
-- its first CR LF (and, as a C string, up to its first 0), if with its CR LF it fits the buffer.
pub tcp_readln-line :
    (millisecs : ℕ → ℕ → ℕ) (max_length start_time timeout : ℕ) (rounds : List LineRound)
    (front rest : List ℕ)
    → InTime millisecs start_time timeout rounds
    → bytes_of rounds ≡ front ++ (b'\r' ∷ b'\n' ∷ rest)
    → HasNoCrlf 0 front
    → length front + 2 ≤ max_length
    → tcp_readln millisecs max_length start_time timeout rounds [] ≡ line (some (until_nul front))
tcp_readln-line millisecs max_length start_time timeout rounds front rest h e free room =
    tcp_readln-feed millisecs max_length start_time timeout rounds [] h
    ∙ rw e (
        feed-append max_length front [] (b'\r' ∷ b'\n' ∷ rest) (unfold last_or_zero in free)
          (omega arith)
        ∙ feed_one max_length front b'\r' (b'\n' ∷ rest) (λ cr. omega arith) (omega arith)
        ∙ feed_crlf max_length front rest)

-- When as many bytes as the buffer holds came in time, on an unbroken connection, with no CR LF
-- among them, tcp_readln returns NULL.
tcp_readln_too_long :
    (millisecs : ℕ → ℕ → ℕ) (max_length start_time timeout : ℕ) (rounds : List LineRound)
    (front : List ℕ) (b : ℕ) (rest : List ℕ)
    → InTime millisecs start_time timeout rounds
    → bytes_of rounds ≡ front ++ (b ∷ rest)
    → HasNoCrlf 0 (front ++ b ∷ [])
    → length front + 1 ≡ max_length
    → tcp_readln millisecs max_length start_time timeout rounds [] ≡ line none
tcp_readln_too_long millisecs max_length start_time timeout rounds front b rest h e free full =
    tcp_readln-feed millisecs max_length start_time timeout rounds [] h
    ∙ rw e (
        feed-append max_length front [] (b ∷ rest)
          (unfold last_or_zero in (HasNoCrlf-append 0 front b free).0) (omega arith)
        ∙ feed_last max_length front b rest
            (rw last_or_zero_lem (HasNoCrlf-append 0 front b free).1) full)
