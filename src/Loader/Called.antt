-- ===== src/Loader/Called.antt =====
-- What the calls of the main thread keep.
use hbc.Base.{
  ℕ, ◌≡◌, refl, arith, Bool, true, false, not, ◌&&◌, Bool-cases, inl, inr, ap, sym, ◌∙◌, subst,
  drop, ◌≢◌, if◌then◌else◌,
}
use hbc.Loader.Request.{Request, IsBounded}
use hbc.Loader.Threads.{
  Gecko, TcpState, uninitialized, initializing, initialized, is_initialized, tcp_init, TcpThread,
  loader_tcp_init, signal_gecko, signal_tcp, stop_tcp, stop_gecko, Upload, from_gecko, from_tcp,
  take_upload,
}
use hbc.Loader.Kept.{IsGecko, IsTcp}

-- Both threads.
pub record System : Type 0 where
  pub gecko : Gecko
  pub tcp : TcpThread

abbrev pub IsSafe : System → Type 0
IsSafe s = IsGecko s.gecko × IsTcp s.tcp

pub signal_gecko-IsGecko : (free : Bool) (g : Gecko) → IsGecko g → IsGecko (signal_gecko free g)
unfolding signal_gecko
signal_gecko-IsGecko free g v = elim (Bool-cases (free && g.running && not g.handshaked)) [
  | inl e ↦ rw e v
  | inr e ↦ rw e v
]

pub signal_tcp-IsTcp : (free : Bool) (s : TcpThread) → IsTcp s → IsTcp (signal_tcp free s)
unfolding signal_tcp
signal_tcp-IsTcp free s v =
    elim (Bool-cases (free && (s.running && is_initialized s.state) && not s.handshaked)) [
      | inr e ↦ rw e v
      | inl e ↦ rw e (record {
        shaken = λ h. absurd (ground arith);
        closed = v.closed;
        ready = λ f. is_up s.state (ground arith);
      })
    ]
  where
    is_up : (u : TcpState) → is_initialized u ≡ true → u ≡ initialized
    is_up initialized e = refl
    is_up initializing e = cc
    is_up uninitialized e = cc

pub loader_tcp_init-IsTcp : (free : Bool) (s : TcpThread) → IsTcp s → IsTcp (loader_tcp_init free s)
unfolding loader_tcp_init
loader_tcp_init-IsTcp free s v = asked-IsTcp s.state refl
  where
    woken : TcpThread
    woken = if free && s.running then record s { cmd = tcp_init } else s

    asked : TcpState → TcpThread
    asked u = elim u [ uninitialized ↦ woken | initializing ↦ s | initialized ↦ s ]

    asked-IsTcp : (u : TcpState) → s.state ≡ u → IsTcp (asked u)
    asked-IsTcp initializing e = v
    asked-IsTcp initialized e = v
    asked-IsTcp uninitialized e = elim (Bool-cases (free && s.running)) [
      | inr f ↦ rw f v
      | inl f ↦ rw f (record {
        shaken = λ h. let not_up : uninitialized ≡ initialized = sym e ∙ (v.shaken h).up in cc;
        closed = v.closed;
        ready = λ g. cc;
      })
    ]

pub stop_tcp-IsTcp : (free : Bool) (s : TcpThread) → IsTcp s → IsTcp (stop_tcp free s)
unfolding stop_tcp
stop_tcp-IsTcp free s v = elim (Bool-cases (s.running && free)) [
  | inr e ↦ rw e v
  | inl e ↦ rw e (record {
    shaken = λ h.
        let k = v.shaken h in
        record {
          bounded = k.bounded;
          only = k.only;
          up = k.up;
          no_accept = λ f. cc;
          no_init = λ f. cc;
        };
    closed = v.closed;
    ready = λ f. cc;
  })
]

pub stop_gecko-IsGecko : (free : Bool) (g : Gecko) → IsGecko g → IsGecko (stop_gecko free g)
unfolding stop_gecko
stop_gecko-IsGecko free g v = elim (Bool-cases (g.running && free)) [
  | inl e ↦ rw e v
  | inr e ↦ rw e v
]

-- What `take_upload` gives, and what it leaves.
pub data Taken (s : System) : Upload → System → Type 0 where
  kept :
      (u : Upload) (g : Gecko)
      → g.handshaked ≡ s.gecko.handshaked
      → g.request ≡ s.gecko.request
      → ((r : Request) → u ≢ from_gecko r)
      → ((r : Request) (n : ℕ) → u ≢ from_tcp r n)
      → Taken s u (record s { gecko = g })
  gecko_taken :
      (g : Gecko)
      → s.gecko.handshaked ≡ true
      → g.handshaked ≡ false
      → Taken s (from_gecko s.gecko.request) (record s { gecko = g })
  tcp_taken :
      (g : Gecko)
      → s.tcp.handshaked ≡ true
      → g.handshaked ≡ s.gecko.handshaked
      → g.request ≡ s.gecko.request
      → Taken s (from_tcp s.tcp.request s.tcp.client) (record {
        gecko = g;
        tcp = record s.tcp { handshaked = false; clients = drop 1 s.tcp.clients };
      })

abbrev pub after_take : Bool → Bool → Bool → System → System
after_take file free_gecko free_tcp s = record {
  gecko = (take_upload file free_gecko free_tcp s.gecko s.tcp).1;
  tcp = (take_upload file free_gecko free_tcp s.gecko s.tcp).2;
}

pub take_upload-Taken :
    (file free_gecko free_tcp : Bool) (s : System)
    → Taken s
        (take_upload file free_gecko free_tcp s.gecko s.tcp).0
        (after_take file free_gecko free_tcp s)
unfolding take_upload
take_upload-Taken true free_gecko free_tcp s =
    kept _ _ (ground arith) (ground arith) (λ r e. cc) (λ r n e. cc)
take_upload-Taken false free_gecko free_tcp s =
    elim (Bool-cases (free_gecko && s.gecko.handshaked)) [
      | inl e ↦ rw e (gecko_taken _ (ground arith) refl)
      | inr e ↦ rw e (elim (Bool-cases (free_tcp && s.tcp.handshaked)) [
        | inl f ↦ rw f (tcp_taken _ (ground arith) (ground arith) (ground arith))
        | inr f ↦ rw f (kept _ _ (ground arith) (ground arith) (λ r h. cc) (λ r n h. cc))
      ])
    ]

pub Taken-IsSafe : {s : System} {u : Upload} {t : System} → Taken s u t → IsSafe s → IsSafe t
Taken-IsSafe (kept u g h r _ _) v = (λ e. subst IsBounded (sym r) (v.0 (sym h ∙ e)), v.1)
Taken-IsSafe (gecko_taken g h q) v = (λ e. absurd (ground (arith, q, e)), v.1)
Taken-IsSafe {s} (tcp_taken g h q r) v = (
  λ e. subst IsBounded (sym r) (v.0 (sym q ∙ e)),
  record { shaken = λ e. cc; closed = λ on e. ap (drop 1) (v.1.shaken h).only; ready = v.1.ready },
)
