-- ===== src/Update/Hex.antt =====
-- A hash and its digits.
use hbc.Base.{
  ℕ, zero, suc, ◌+◌, ◌/◌, ◌%◌, ◌<◌, ◌≡◌, refl, sym, ap, ◌∙◌, arith, true, List, [], ◌∷◌, length,
  take, All,
}
use hbc.Update.{nibble2hex, hash2ascii, same_hash}

abbrev pub IsBytes : List ℕ → Type 0
IsBytes = All (λ b. b < 256)

nibble2hex-injective : (a b : ℕ) → nibble2hex a ≡ nibble2hex b → a % 16 ≡ b % 16
unfolding nibble2hex
nibble2hex-injective a b e = ground arith

nibble2hex_even :
    (a b : ℕ)
    → a < 256
    → b < 256
    → nibble2hex (a / 16) ≡ nibble2hex (b / 16)
    → nibble2hex a ≡ nibble2hex b
    → a ≡ b
nibble2hex_even a b wa wb high low =
    let h = nibble2hex-injective (a / 16) (b / 16) high in
    let l = nibble2hex-injective a b low in omega arith

same_hash-take : (n : ℕ) (a b : List ℕ) → same_hash n a b ≡ true → take n a ≡ take n b
unfolding same_hash
same_hash-take zero a b e = refl
same_hash-take (suc n) [] b e = cc
same_hash-take (suc n) (x ∷ a) [] e = cc
same_hash-take (suc n) (x ∷ a) (y ∷ b) e =
    let rest = same_hash-take n a b (ground arith) in
    let first : x ≡ y = ground arith in ap (λ l. x ∷ l) rest ∙ ap (λ c. c ∷ take n b) first

cons-injective : {x y : ℕ} {a b : List ℕ} → x ∷ a ≡ y ∷ b → (x ≡ y) × (a ≡ b)
cons-injective e = (cc, cc)

hash2ascii-take :
    (a b : List ℕ) (k : ℕ)
    → IsBytes a
    → IsBytes b
    → k ≡ length a + length a
    → k ≡ length b + length b
    → take k (hash2ascii a) ≡ take k (hash2ascii b)
    → a ≡ b
unfolding hash2ascii
hash2ascii-take [] [] k wa wb na nb e = refl
hash2ascii-take [] (y ∷ b) k wa wb na nb e = absurd (omega arith)
hash2ascii-take (x ∷ a) [] k wa wb na nb e = absurd (omega arith)
hash2ascii-take (x ∷ a) (y ∷ b) zero wa wb na nb e = absurd (omega arith)
hash2ascii-take (x ∷ a) (y ∷ b) (suc zero) wa wb na nb e = absurd (omega arith)
hash2ascii-take (x ∷ a) (y ∷ b) (suc (suc k)) wa wb na nb e =
    let (high, rest) = cons-injective e in
    let (low, rest') = cons-injective rest in
    let same = hash2ascii-take a b k wa.1 wb.1 (omega arith) (omega arith) rest' in
    let first = nibble2hex_even x y wa.0 wb.0 high low in
    ap (λ l. x ∷ l) same ∙ ap (λ c. c ∷ b) first

-- Two hashes of 20 bytes that pass the comparison with the same text are the same.
pub same_hash-hash2ascii :
    (a b expected : List ℕ)
    → IsBytes a
    → IsBytes b
    → length a ≡ 20
    → length b ≡ 20
    → same_hash 40 (hash2ascii a) expected ≡ true
    → same_hash 40 (hash2ascii b) expected ≡ true
    → a ≡ b
same_hash-hash2ascii a b expected wa wb na nb e f =
    hash2ascii-take a b 40 wa wb (omega arith) (omega arith) (
      same_hash-take 40 (hash2ascii a) expected e
      ∙ sym (same_hash-take 40 (hash2ascii b) expected f))
