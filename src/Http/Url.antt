-- ===== src/Http/Url.antt =====
-- `http_split_url`.
pub mod Parts
use hbc.Base.{
  ℕ, zero, suc, Bool, true, false, ◌&&◌, Option, none, some, List, [], ◌∷◌, if◌then◌else◌, ◌==◌,
  drop,
}
use hbc.Apps.Text.{Text, lower}
use hbc.Apps.Entry.{codes}

-- `strncasecmp(a, b, n)` finds no difference.
unfoldable pub same_start : ℕ → Text → Text → Bool
same_start zero a b = true
same_start (suc n) [] [] = true
same_start (suc n) [] (y ∷ b) = false
same_start (suc n) (x ∷ a) [] = false
same_start (suc n) (x ∷ a) (y ∷ b) = lower x == lower y && same_start n a b

-- `strchr(p, '/')`: the text before the slash and the text from it on.
unfoldable pub find_slash : Text → Option (Text × Text)
find_slash [] = none
find_slash (c ∷ cs) =
    if c == b'/'
    then some ([], c ∷ cs)
    else elim (find_slash cs) [ none ↦ none | some (before, from) ↦ some (c ∷ before, from) ]

-- It returns false, stores the host and the path, or reads through the NULL of `strchr`.
pub data Split : Type 0 where
  not_http null_read : Split
  parts : Text → Text → Split

abbrev pub scheme : Text
scheme = codes "http://"

unfoldable pub http_split_url : Text → Split
unfolding same_start find_slash
http_split_url url =
    if same_start 7 url scheme
    then elim (find_slash (drop 7 url)) [ none ↦ null_read | some (host, path) ↦ parts host path ]
    else not_http
