-- ===== src/Apps/Text.antt =====
-- C strings as lists of bytes without 0, and `strcasecmp` in the C locale.
use hbc.Base.{
  ℕ, ◌+◌, ◌≡◌, ◌↔◌, refl, arith, Bool, true, false, ◌&&◌, List, [], ◌∷◌, map, if◌then◌else◌, leb,
  ltb,
}

abbrev pub Text : Type 0
Text = List ℕ

-- The sign of a C comparison's result.
pub data Sign : Type 0 where
  negative zero_sign positive : Sign

abbrev pub flip : Sign → Sign
flip negative = positive
flip zero_sign = zero_sign
flip positive = negative

abbrev pub is_zero : Sign → Bool
is_zero zero_sign = true
is_zero _ = false

-- `tolower`.
unfoldable pub lower : ℕ → ℕ
lower c = if leb b'A' c && leb c b'Z' then c + 32 else c

unfoldable pub strcasecmp : Text → Text → Sign
strcasecmp [] [] = zero_sign
strcasecmp [] (y ∷ ys) = negative
strcasecmp (x ∷ xs) [] = positive
strcasecmp (x ∷ xs) (y ∷ ys) =
    let rest = strcasecmp xs ys in
    if ltb (lower x) (lower y) then negative else if ltb (lower y) (lower x) then positive else rest

-- What two strings that compare equal share.
abbrev pub folded : Text → Text
folded = map lower

pub strcasecmp_zero : (a b : Text) → (strcasecmp a b ≡ zero_sign) ↔ (folded a ≡ folded b)
unfolding strcasecmp
strcasecmp_zero [] [] = (λ e. refl, λ e. refl)
strcasecmp_zero [] (y ∷ b) = (λ e. cc, λ e. cc)
strcasecmp_zero (x ∷ a) [] = (λ e. cc, λ e. cc)
strcasecmp_zero (x ∷ a) (y ∷ b) =
    (λ e. ground (arith, strcasecmp_zero a b), λ e. ground (arith, strcasecmp_zero a b))

pub strcasecmp-flip : (a b : Text) → strcasecmp b a ≡ flip (strcasecmp a b)
unfolding strcasecmp
strcasecmp-flip [] [] = refl
strcasecmp-flip [] (y ∷ b) = refl
strcasecmp-flip (x ∷ a) [] = refl
strcasecmp-flip (x ∷ a) (y ∷ b) = ground (arith, strcasecmp-flip a b)
