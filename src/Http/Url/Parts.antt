-- ===== src/Http/Url/Parts.antt =====
-- What `http_split_url` finds in an address.
use hbc.Base.{
  ℕ, zero, suc, ◌≡◌, ◌≢◌, refl, sym, ap, ◌∙◌, arith, true, Option, none, some, [], ◌∷◌, ◌++◌, ◌==◌,
  drop, take, All, Bool-cases, inl, inr, ==_iff, ◌↔◌,
}
use hbc.Apps.Text.{Text, lower, folded}
use hbc.Http.Url.{same_start, find_slash, Split, not_http, null_read, parts, scheme, http_split_url}

abbrev pub NoSlash : Text → Type 0
NoSlash = All (λ c. c ≢ b'/')

-- A text with a slash, cut before its first one.
pub data Cut (s : Text) : Option (Text × Text) → Type 0 where
  uncut : NoSlash s → Cut s none
  cut_at :
      (host path rest : Text)
      → path ≡ b'/' ∷ rest
      → s ≡ host ++ path
      → NoSlash host
      → Cut s (some (host, path))

abbrev later_cut : ℕ → Option (Text × Text) → Option (Text × Text)
later_cut c o = elim o [ none ↦ none | some (before, from) ↦ some (c ∷ before, from) ]

Cut-cons :
    {s : Text} {o : Option (Text × Text)} (c : ℕ) → c ≢ b'/' → Cut s o → Cut (c ∷ s) (later_cut c o)
Cut-cons c ne (uncut h) = uncut (ne, h)
Cut-cons c ne (cut_at host path rest p e h) =
    cut_at (c ∷ host) path rest p (ap (λ t. c ∷ t) e) (ne, h)

find_slash-Cut : (s : Text) → Cut s (find_slash s)
unfolding find_slash
find_slash-Cut [] = uncut tt
find_slash-Cut (c ∷ cs) =
    let rest = find_slash-Cut cs in
    elim (Bool-cases (c == b'/')) [
      | inl e ↦ rw e (cut_at [] (c ∷ cs) cs (ap (λ x. x ∷ cs) ((==_iff c b'/').0 e)) refl tt)
      | inr e ↦ rw e (Cut-cons c (ground arith) rest)
    ]

same_start-take :
    (n : ℕ) (a b : Text) → (same_start n a b ≡ true) ↔ (folded (take n a) ≡ folded (take n b))
unfolding same_start
same_start-take zero a b = (λ e. refl, λ e. refl)
same_start-take (suc n) [] [] = (λ e. refl, λ e. refl)
same_start-take (suc n) [] (y ∷ b) = (λ e. cc, λ e. cc)
same_start-take (suc n) (x ∷ a) [] = (λ e. cc, λ e. cc)
same_start-take (suc n) (x ∷ a) (y ∷ b) =
    (λ e. ground (arith, same_start-take n a b), λ e. ground (arith, same_start-take n a b))

-- An address is not one of HTTP, has no slash behind the scheme, or is a host without a slash and a
-- path that starts with one.
pub data UrlRun (url : Text) : Split → Type 0 where
  other_scheme : folded (take 7 url) ≢ scheme → UrlRun url not_http
  no_path : folded (take 7 url) ≡ scheme → NoSlash (drop 7 url) → UrlRun url null_read
  host_and_path :
      (host path rest : Text)
      → folded (take 7 url) ≡ scheme
      → drop 7 url ≡ host ++ path
      → path ≡ b'/' ∷ rest
      → NoSlash host
      → UrlRun url (parts host path)

Cut-UrlRun :
    (url : Text) {o : Option (Text × Text)}
    → folded (take 7 url) ≡ scheme
    → Cut (drop 7 url) o
    → UrlRun url (elim o [ none ↦ null_read | some (host, path) ↦ parts host path ])
Cut-UrlRun url e (uncut h) = no_path e h
Cut-UrlRun url e (cut_at host path rest p d h) = host_and_path host path rest e d p h

-- http_split_url tells three kinds of address apart: one that does not start with the scheme, in
-- any letter case; one with no slash behind the scheme, on which the code reads through the NULL
-- of strchr; and one whose text behind the scheme is a host without a slash followed by a path
-- that starts with one, which are stored.
pub http_split_url-UrlRun : (url : Text) → UrlRun url (http_split_url url)
unfolding http_split_url lower
http_split_url-UrlRun url =
    let same : folded (take 7 scheme) ≡ scheme = refl in
    elim (Bool-cases (same_start 7 url scheme)) [
      | inl e ↦
          rw (e, http_split_url)
            (Cut-UrlRun url ((same_start-take 7 url scheme).0 e ∙ same)
              (find_slash-Cut (drop 7 url)))
      | inr e ↦
          rw (e, http_split_url)
            (other_scheme (λ f. let g = (same_start-take 7 url scheme).1 (f ∙ sym same) in cc))
    ]
