-- ===== src/Http/Fetch/Fair.antt =====
-- The states that the thread and its client reach, and what holds in all of them.
use hbc.Base.{
  ℕ, ◌≡◌, ◌≢◌, ◌<◌, refl, sym, ap, subst, arith, Bool, true, false, ◌&&◌, Option, none, some,
  some-injective, Bool-cases, inl, inr, length, ◌⊎◌,
}
use hbc.Base.Word.{u32_mod}
use hbc.Apps.Text.{Text}
use hbc.Tcp.Transfer.Bounds.{IsLawful}
use hbc.Http.Url.{Split, not_http, null_read, parts, http_split_url}
use hbc.Http.Fetch.{
  Http, HttpCmd, httpcmd_idle, httpcmd_exit, httpcmd_fetch, https_idle, Sscanf, Net, fetch,
  http_func, http_request, http_get_result, http_deinit,
}
use hbc.Http.Fetch.Fetched.{http_func-Fetched}

-- The thread has started.
pub record IsStart (s : Http) : Type 0 where
  pub idle : s.cmd ≡ httpcmd_idle
  pub at_rest : s.state ≡ https_idle
  pub max_size : s.max_size < u32_mod

pub data Step (millisecs : ℕ → ℕ → ℕ) (scan : Sscanf) (agent : Text) (s : Http)
    : Http → Type 0 where
  serves :
      (net : Net) (t : Http)
      → IsLawful length net.read_rounds
      → s.running ≡ true
      → http_func millisecs scan agent net s ≡ some t
      → Step millisecs scan agent s t
  requests :
      (url : Text) (max_size : ℕ) (b : Bool) (t : Http)
      → max_size < u32_mod
      → http_request url max_size s ≡ some (b, t)
      → Step millisecs scan agent s t
  takes_result : Step millisecs scan agent s (http_get_result s).1
  stops : (free : Bool) → Step millisecs scan agent s (http_deinit free s)

pub data Reachable (millisecs : ℕ → ℕ → ℕ) (scan : Sscanf) (agent : Text) : Http → Type 0 where
  started : (s : Http) → IsStart s → Reachable millisecs scan agent s
  next :
      (s t : Http)
      → Reachable millisecs scan agent s
      → Step millisecs scan agent s t
      → Reachable millisecs scan agent t

-- A pending fetch is not done, and a thread without one is at rest.
pub record IsFair (s : Http) : Type 0 where
  pub pending : s.cmd ≡ httpcmd_fetch → s.done ≡ false
  pub at_rest : s.state ≡ https_idle
  pub max_size : s.max_size < u32_mod

HttpCmd-cases : (c : HttpCmd) → (c ≡ httpcmd_fetch) ⊎ (c ≢ httpcmd_fetch)
HttpCmd-cases httpcmd_idle = inr (λ e. cc)
HttpCmd-cases httpcmd_exit = inr (λ e. cc)
HttpCmd-cases httpcmd_fetch = inl refl

-- Any other command leaves all fields but `running`.
other-IsFair :
    (millisecs : ℕ → ℕ → ℕ) (scan : Sscanf) (agent : Text) (net : Net) (s t : Http)
    → s.cmd ≢ httpcmd_fetch
    → IsFair s
    → http_func millisecs scan agent net s ≡ some t
    → IsFair t
unfolding http_func
other-IsFair millisecs scan agent net s t ne v = by_cmd s.cmd refl
  where
    served : HttpCmd → Option Http
    served k = elim k [
      | httpcmd_idle ↦ some s
      | httpcmd_exit ↦ some (record s { running = false })
      | httpcmd_fetch ↦ fetch millisecs scan agent net (record s { cmd = httpcmd_idle })
    ]

    by_cmd : (k : HttpCmd) → s.cmd ≡ k → served k ≡ some t → IsFair t
    by_cmd httpcmd_idle q e = subst IsFair (some-injective e) v
    by_cmd httpcmd_exit q e =
        subst IsFair (some-injective e)
          (record { pending = v.pending; at_rest = v.at_rest; max_size = v.max_size })
    by_cmd httpcmd_fetch q e = absurd (ne q)

served-IsFair :
    (millisecs : ℕ → ℕ → ℕ) (scan : Sscanf) (agent : Text) (net : Net) (s t : Http)
    → IsLawful length net.read_rounds
    → IsFair s
    → http_func millisecs scan agent net s ≡ some t
    → IsFair t
served-IsFair millisecs scan agent net s t law v e = elim (HttpCmd-cases s.cmd) [
  | inr ne ↦ other-IsFair millisecs scan agent net s t ne v e
  | inl c ↦
      let f = http_func-Fetched millisecs scan agent net s t c v.max_size law e in
      record {
        pending = λ g. let no_cmd = f.no_cmd in cc;
        at_rest = f.idle;
        max_size = subst (λ m. m < u32_mod) (sym f.max_size) v.max_size;
      }
]

-- The answers of `http_request`.
pub data Requested (url : Text) (max_size : ℕ) (s : Http) : Option (Bool × Http) → Type 0 where
  refused : Requested url max_size s (some (false, s))
  crashed : Requested url max_size s none
  accepted :
      (host path : Text)
      → s.running ≡ true
      → s.done ≡ true
      → Requested url max_size s (
          some (
            true,
            record s {
              host = some host;
              path = some path;
              done = false;
              cmd = httpcmd_fetch;
              port = 80;
              max_size = max_size;
            },
          ))

pub http_request-Requested :
    (url : Text) (max_size : ℕ) (s : Http) → Requested url max_size s (http_request url max_size s)
unfolding http_request
http_request-Requested url max_size s = elim (Bool-cases (s.running && s.done)) [
  | inr busy ↦ rw busy refused
  | inl free ↦ rw free (by_url (http_split_url url) (ground arith) (ground arith))
]
  where
    asked : Split → Option (Bool × Http)
    asked u = elim u [
      | not_http ↦ some (false, s)
      | null_read ↦ none
      | parts host path ↦ some (
        true,
        record s {
          host = some host;
          path = some path;
          done = false;
          cmd = httpcmd_fetch;
          port = 80;
          max_size = max_size;
        },
      )
    ]

    by_url : (u : Split) → s.running ≡ true → s.done ≡ true → Requested url max_size s (asked u)
    by_url not_http r d = refused
    by_url null_read r d = crashed
    by_url (parts host path) r d = accepted host path r d

Requested-IsFair :
    {url : Text} {max_size : ℕ} {s : Http} {o : Option (Bool × Http)} (b : Bool) (t : Http)
    → Requested url max_size s o
    → max_size < u32_mod
    → IsFair s
    → o ≡ some (b, t)
    → IsFair t
Requested-IsFair b t refused w v e = subst IsFair (ap (λ p. p.1) (some-injective e)) v
Requested-IsFair b t crashed w v e = cc
Requested-IsFair b t (accepted host path _ _) w v e =
    subst IsFair (ap (λ p. p.1) (some-injective e))
      (record { pending = λ f. refl; at_rest = v.at_rest; max_size = w })

Step-IsFair :
    (millisecs : ℕ → ℕ → ℕ) (scan : Sscanf) (agent : Text) (s t : Http)
    → Step millisecs scan agent s t
    → IsFair s
    → IsFair t
unfolding http_get_result http_deinit
Step-IsFair millisecs scan agent s t (serves net u law on e) v =
    served-IsFair millisecs scan agent net s u law v e
Step-IsFair millisecs scan agent s t (requests url max_size b u w e) v =
    Requested-IsFair b u (http_request-Requested url max_size s) w v e
Step-IsFair millisecs scan agent s t takes_result v = elim (Bool-cases (s.running && s.done)) [
  | inl e ↦ rw e (record { pending = v.pending; at_rest = v.at_rest; max_size = v.max_size })
  | inr e ↦ rw e v
]
Step-IsFair millisecs scan agent s t (stops free) v = elim (Bool-cases (s.running && free)) [
  | inl e ↦ rw e (record { pending = λ f. cc; at_rest = v.at_rest; max_size = v.max_size })
  | inr e ↦ rw e v
]

pub Reachable-IsFair :
    (millisecs : ℕ → ℕ → ℕ) (scan : Sscanf) (agent : Text) (s : Http)
    → Reachable millisecs scan agent s
    → IsFair s
Reachable-IsFair millisecs scan agent s (started _ h) = record {
  pending = λ e. let idle = h.idle in cc;
  at_rest = h.at_rest;
  max_size = h.max_size;
}
Reachable-IsFair millisecs scan agent s (next r _ h step) =
    Step-IsFair millisecs scan agent r s step (Reachable-IsFair millisecs scan agent r h)
