-- ===== src/Http/Fetch/Reachable.antt =====
-- The thread and its client, however their calls interleave.
use hbc.Base.{
  ℕ, ◌≡◌, ◌≢◌, ◌<◌, refl, sym, ap, ◌∙◌, subst, arith, Bool, true, false, ◌&&◌, Option, some,
  some-injective, length,
}
use hbc.Base.Word.{u32_mod}
use hbc.Apps.Text.{Text}
use hbc.Tcp.Transfer.Bounds.{IsLawful}
use hbc.Http.Fetch.{
  Http, httpcmd_fetch, https_idle, Sscanf, Net, http_func, http_ready, http_request,
  http_get_result, result_of,
}
use hbc.Http.Fetch.Fetched.{Fetched, http_func-Fetched}
use hbc.Http.Fetch.Fair.{
  Reachable, IsFair, Reachable-IsFair, Requested, refused, crashed, accepted,
  http_request-Requested,
}

-- A thread that is not done refuses.
http_request_busy :
    (url : Text) (max_size : ℕ) (s : Http)
    → s.done ≡ false
    → http_request url max_size s ≡ some (false, s)
unfolding http_request http_ready
http_request_busy url max_size s e =
    let busy : (s.running && s.done) ≡ false = ground arith in rw (busy, http_request) refl

Fetched-http_ready : (s t : Http) → s.running ≡ true → Fetched s t → http_ready t ≡ true
unfolding http_ready
Fetched-http_ready s t e f = let d = f.is_done in let r = f.running ∙ e in ground arith

http_get_result_ready :
    (s : Http) → http_ready s ≡ true → (http_get_result s).0 ≡ some (result_of s)
unfolding http_get_result
http_get_result_ready s e = rw (e, http_get_result) refl

-- In any state that the thread and its client reach from the start, an accepted request finds no
-- fetch pending and the thread idle; every further request is refused until the fetch is served;
-- and once the thread serves it, http_ready holds and http_get_result stores the result of that
-- fetch. The size limits are below 2 ^ 32 and the network is lawful.
pub Reachable-http_request :
    (millisecs : ℕ → ℕ → ℕ) (scan : Sscanf) (agent : Text) (s t : Http) (url : Text) (max_size : ℕ)
    → Reachable millisecs scan agent s
    → max_size < u32_mod
    → http_request url max_size s ≡ some (true, t)
    → (s.cmd ≢ httpcmd_fetch)
      × (s.state ≡ https_idle)
      × ((url' : Text) (max_size' : ℕ) → http_request url' max_size' t ≡ some (false, t))
      × ((net : Net) (u : Http)
          → IsLawful length net.read_rounds
          → http_func millisecs scan agent net t ≡ some u
          → Fetched t u × (http_ready u ≡ true) × ((http_get_result u).0 ≡ some (result_of u)))
Reachable-http_request millisecs scan agent s t url max_size reach w =
    by_request (http_request-Requested url max_size s)
  where
    fair : IsFair s
    fair = Reachable-IsFair millisecs scan agent s reach

    by_request :
        {o : Option (Bool × Http)}
        → Requested url max_size s o
        → o ≡ some (true, t)
        → (s.cmd ≢ httpcmd_fetch)
          × (s.state ≡ https_idle)
          × ((url' : Text) (max_size' : ℕ) → http_request url' max_size' t ≡ some (false, t))
          × ((net : Net) (u : Http)
              → IsLawful length net.read_rounds
              → http_func millisecs scan agent net t ≡ some u
              → Fetched t u × (http_ready u ≡ true) × ((http_get_result u).0 ≡ some (result_of u)))
    by_request refused e = cc
    by_request crashed e = cc
    by_request (accepted host path on is_done) e =
        let same = ap (λ p. p.1) (some-injective e) in
        let c : t.cmd ≡ httpcmd_fetch = sym (ap (λ u. u.cmd) same) in
        let busy : t.done ≡ false = sym (ap (λ u. u.done) same) in
        let limit : t.max_size ≡ max_size = sym (ap (λ u. u.max_size) same) in
        let alive : t.running ≡ true = sym (ap (λ u. u.running) same) ∙ on in
        (
          λ f. let pending = fair.pending f in cc,
          fair.at_rest,
          λ url' m'. http_request_busy url' m' t busy,
          λ net u law f.
              let g =
                http_func-Fetched millisecs scan agent net t u c
                  (subst (λ m. m < u32_mod) (sym limit) w) law f in
              let ready = Fetched-http_ready t u alive g in
              (g, ready, http_get_result_ready u ready),
        )
