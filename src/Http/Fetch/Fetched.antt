-- ===== src/Http/Fetch/Fetched.antt =====
-- What a fetch leaves.
use hbc.Base.{
  some-injective, ℕ, ◌≡◌, ◌≢◌, ◌≤◌, ◌<◌, refl, sym, ◌∙◌, subst, arith, Bool, true, false, not,
  Option, none, some, List, [], ◌∷◌, ◌++◌, ltb, ◌==◌, ==_iff, length, Bool-cases, inl, inr,
  if◌then◌else◌,
}
use hbc.Base.Word.{u32_mod}
use hbc.Apps.Text.{Text}
use hbc.Tcp.Transfer.{Transfer, Outcome, ended, waiting, tcp_read, tcp_write}
use hbc.Tcp.Transfer.Bounds.{IsLawful}
use hbc.Tcp.Transfer.Exact.{tcp_read-IsStored}
use hbc.Http.Fetch.{
  Http, HttpCmd, httpcmd_idle, httpcmd_exit, httpcmd_fetch, https_idle, https_requesting,
  https_receiving, httpr_ok, httpr_err_connect, httpr_err_request, httpr_err_receive, Sscanf, Net,
  Header, request_text, read_header, finish, is_outside, read_body, after_header, fetch, http_func,
}

-- The thread is idle and done, with nothing more to do. A success has the whole body, of the announced
-- size, within the limit, and a 0 behind it.
pub record Fetched (s t : Http) : Type 0 where
  pub idle : t.state ≡ https_idle
  pub is_done : t.done ≡ true
  pub no_cmd : t.cmd ≡ httpcmd_idle
  pub status : t.res ≡ httpr_ok → t.http_status ≡ 200
  pub body :
      t.res ≡ httpr_ok
      → (bytes : List ℕ) × (t.content ≡ some (bytes ++ (0 ∷ [])))
        × (length bytes ≡ t.content_length)
        × (1 ≤ t.content_length)
        × (t.content_length ≤ s.max_size)
  pub max_size : t.max_size ≡ s.max_size
  pub running : t.running ≡ s.running

failed-Fetched :
    (s u t : Http)
    → some u ≡ some t
    → u.state ≡ https_idle
    → u.done ≡ true
    → u.cmd ≡ httpcmd_idle
    → u.max_size ≡ s.max_size
    → u.running ≡ s.running
    → u.res ≢ httpr_ok
    → Fetched s t
failed-Fetched s u t e idle is_done c limit on bad = subst (Fetched s) (some-injective e) (record {
  idle = idle;
  is_done = is_done;
  no_cmd = c;
  status = λ f. absurd (bad f);
  body = λ f. absurd (bad f);
  max_size = limit;
  running = on;
})

read_body-Fetched :
    (millisecs : ℕ → ℕ → ℕ) (net : Net) (s t : Http)
    → IsLawful length net.read_rounds
    → s.cmd ≡ httpcmd_idle
    → s.http_status ≡ 200
    → 1 ≤ s.content_length
    → s.content_length ≤ s.max_size
    → s.max_size < u32_mod
    → read_body millisecs net s ≡ some t
    → Fetched s t
unfolding read_body
read_body-Fetched millisecs net s t law c ok some_size fits w =
    by_outcome (tcp_read millisecs s.content_length true s.progress net.read_rounds net.read_now)
      refl
  where
    failure : Transfer → Http
    failure u = finish httpr_err_receive (record s { content = none; progress = u.progress })

    success : Transfer → Http
    success u =
        finish httpr_ok
          (record s { content = some (u.moved_bytes ++ (0 ∷ [])); progress = u.progress })

    unless : Bool → Http → Option Http
    unless outside v = if outside then none else some v

    answer : Outcome → Option Http
    answer o = elim o [
      | waiting _ ↦ none
      | ended false u ↦ unless (is_outside s.content_length u.moved_bytes) (failure u)
      | ended true u ↦ unless (is_outside s.content_length u.moved_bytes) (success u)
    ]

    inside : (b : Bool) (v : Http) → unless b v ≡ some t → some v ≡ some t
    inside true v e = cc
    inside false v e = e

    by_outcome :
        (o : Outcome)
        → tcp_read millisecs s.content_length true s.progress net.read_rounds net.read_now ≡ o
        → answer o ≡ some t
        → Fetched s t
    by_outcome (waiting _) q e = cc
    by_outcome (ended false u) q e =
        failed-Fetched s (failure u) t (inside _ (failure u) e) refl refl c refl refl (λ f. cc)
    by_outcome (ended true u) q e =
        let all =
          tcp_read-IsStored millisecs s.content_length true s.progress net.read_rounds net.read_now
            true u (omega arith) law q in
        subst (Fetched s) (some-injective (inside _ (success u) e)) (record {
          idle = refl;
          is_done = refl;
          no_cmd = c;
          status = λ f. ok;
          body = λ f. (u.moved_bytes, refl, (==_iff _ _).0 (sym all.0), some_size, fits);
          max_size = refl;
          running = refl;
        })

-- Only these two fields of the state before count.
Fetched-old :
    (r s t : Http) → r.max_size ≡ s.max_size → r.running ≡ s.running → Fetched r t → Fetched s t
Fetched-old r s t limit on f = record {
  idle = f.idle;
  is_done = f.is_done;
  no_cmd = f.no_cmd;
  status = f.status;
  body = λ e.
      subst
        (λ m.
          (bytes : List ℕ) × (t.content ≡ some (bytes ++ (0 ∷ [])))
          × (length bytes ≡ t.content_length)
          × (1 ≤ t.content_length)
          × (t.content_length ≤ m))
        limit (f.body e);
  max_size = f.max_size ∙ limit;
  running = f.running ∙ on;
}

abbrev body_of : Header → Http → Http
body_of h s = record s {
  http_status = h.status;
  content_length = h.size;
  res = h.result;
  state = https_receiving;
}

after_header-Fetched :
    (millisecs : ℕ → ℕ → ℕ) (net : Net) (h : Header) (s t : Http)
    → IsLawful length net.read_rounds
    → s.cmd ≡ httpcmd_idle
    → s.max_size < u32_mod
    → after_header millisecs net h s ≡ some t
    → Fetched s t
unfolding after_header
after_header-Fetched millisecs net h s t law c w = elim (Bool-cases (ltb h.size 1)) [
  | inl small ↦ rw small (λ e. failed-Fetched s _ t e refl refl c refl refl (λ f. cc))
  | inr large ↦ rw large (elim (Bool-cases (h.status == 200)) [
    | inr bad ↦ rw bad (λ e. failed-Fetched s _ t e refl refl c refl refl (λ f. cc))
    | inl ok ↦ rw ok (elim (Bool-cases (ltb s.max_size h.size)) [
      | inl big ↦ rw big (λ e. failed-Fetched s _ t e refl refl c refl refl (λ f. cc))
      | inr fits ↦ rw fits (λ e. Fetched-old (body_of h s) s t refl refl (
          read_body-Fetched millisecs net (body_of h s) t law c ((==_iff h.status 200).0 ok)
            (ground arith) (ground arith) w e))
    ])
  ])
]

-- When the thread has served a fetch, with a size limit below 2 ^ 32 and a network that never
-- stores more than it was asked for, it is idle and done, with no command left and its size limit
-- and running flag as they were; a success has the status 200 and a body of exactly the announced
-- size, at least 1 and within the limit, with a 0 behind it.
pub http_func-Fetched :
    (millisecs : ℕ → ℕ → ℕ) (scan : Sscanf) (agent : Text) (net : Net) (s t : Http)
    → s.cmd ≡ httpcmd_fetch
    → s.max_size < u32_mod
    → IsLawful length net.read_rounds
    → http_func millisecs scan agent net s ≡ some t
    → Fetched s t
unfolding http_func fetch
http_func-Fetched millisecs scan agent net s t c w law e =
    by_connect net.connects (subst (λ k. served k ≡ some t) c e)
  where
    s0 : Http
    s0 = record s { cmd = httpcmd_idle }

    start_header : Header
    start_header = record { status = s.http_status; size = s.content_length; result = s.res }

    headed : Option Header → Option Http
    headed o = elim o [
      | none ↦ none
      | some h ↦ after_header millisecs net h (record s0 { state = https_requesting })
    ]

    written : Outcome → Option Http
    written o = elim o [
      | waiting _ ↦ none
      | ended false _ ↦ some (finish httpr_err_request s0)
      | ended true _ ↦ headed (read_header millisecs scan net.header_now net.lines 0 start_header)
    ]

    connected : Bool → Option Http
    connected b =
        if not b
        then some (finish httpr_err_connect s0)
        else written
            (tcp_write millisecs (request_text agent s0) false 0 net.write_rounds net.write_now)

    served : HttpCmd → Option Http
    served k = elim k [
      | httpcmd_idle ↦ some s
      | httpcmd_exit ↦ some (record s { running = false })
      | httpcmd_fetch ↦ connected net.connects
    ]

    by_header : (o : Option Header) → headed o ≡ some t → Fetched s t
    by_header none f = cc
    by_header (some h) f =
        let r : Http = record s0 { state = https_requesting } in
        Fetched-old r s t refl refl (after_header-Fetched millisecs net h r t law refl w f)

    by_outcome : (o : Outcome) → written o ≡ some t → Fetched s t
    by_outcome (waiting _) f = cc
    by_outcome (ended false _) f = failed-Fetched s _ t f refl refl refl refl refl (λ g. cc)
    by_outcome (ended true _) f =
        by_header (read_header millisecs scan net.header_now net.lines 0 start_header) f

    by_connect : (b : Bool) → connected b ≡ some t → Fetched s t
    by_connect false f = failed-Fetched s _ t f refl refl refl refl refl (λ g. cc)
    by_connect true f =
        by_outcome
          (tcp_write millisecs (request_text agent s0) false 0 net.write_rounds net.write_now) f
