-- ===== src/Loader/Reachable.antt =====
-- What the main thread finds when it takes an upload, however the threads and its calls interleave.
use hbc.Base.{ℕ, ◌≡◌, arith, Bool, true, false, some, List, [], ◌∷◌, ap, ◌∙◌, subst, drop, ◌≢◌}
use hbc.Loader.Request.{Request, IsBounded}
use hbc.Loader.Threads.{
  Gecko, GeckoRound, ld_gecko_func, tcp_accept, TcpThread, Net, ld_tcp_func, loader_tcp_init,
  loader_signal_threads, stop_tcp, stop_gecko, Upload, from_gecko, from_tcp, take_upload,
}
use hbc.Loader.Kept.{quiet-IsTcp, ld_tcp_func-IsTcp, ld_gecko_func-IsGecko}
use hbc.Loader.Called.{
  System, IsSafe, signal_gecko-IsGecko, signal_tcp-IsTcp, loader_tcp_init-IsTcp, stop_tcp-IsTcp,
  stop_gecko-IsGecko, Taken, kept, gecko_taken, tcp_taken, take_upload-Taken, Taken-IsSafe,
}

-- `loader_init` has cleared both.
pub record IsStart (s : System) : Type 0 where
  pub gecko_quiet : s.gecko.handshaked ≡ false
  pub tcp_quiet : s.tcp.handshaked ≡ false
  pub no_clients : s.tcp.clients ≡ []
  pub not_waiting : s.tcp.cmd ≢ tcp_accept

pub data Step (millisecs : ℕ → ℕ → ℕ) (s : System) : System → Type 0 where
  gecko_serves :
      (now : ℕ) (rounds : List GeckoRound) (g : Gecko)
      → ld_gecko_func millisecs now rounds s.gecko ≡ some g
      → Step millisecs s (record s { gecko = g })
  tcp_serves :
      (net : Net) (t : TcpThread)
      → s.tcp.running ≡ true
      → ld_tcp_func millisecs net s.tcp ≡ some t
      → Step millisecs s (record s { tcp = t })
  signals :
      (free_gecko free_tcp : Bool)
      → Step millisecs s (record {
        gecko = (loader_signal_threads free_gecko free_tcp s.gecko s.tcp).0;
        tcp = (loader_signal_threads free_gecko free_tcp s.gecko s.tcp).1;
      })
  inits : (free : Bool) → Step millisecs s (record s { tcp = loader_tcp_init free s.tcp })
  stops :
      (free_gecko free_tcp : Bool)
      → Step millisecs s
          (record { gecko = stop_gecko free_gecko s.gecko; tcp = stop_tcp free_tcp s.tcp })
  takes :
      (file free_gecko free_tcp : Bool)
      → Step millisecs s (record {
        gecko = (take_upload file free_gecko free_tcp s.gecko s.tcp).1;
        tcp = (take_upload file free_gecko free_tcp s.gecko s.tcp).2;
      })

pub data Reachable (millisecs : ℕ → ℕ → ℕ) : System → Type 0 where
  started : (s : System) → IsStart s → Reachable millisecs s
  next : (s t : System) → Reachable millisecs s → Step millisecs s t → Reachable millisecs t

Step-IsSafe : (millisecs : ℕ → ℕ → ℕ) (s t : System) → Step millisecs s t → IsSafe s → IsSafe t
unfolding loader_signal_threads
Step-IsSafe millisecs s t (gecko_serves now rounds g e) v =
    (ld_gecko_func-IsGecko millisecs now rounds s.gecko g v.0 e, v.1)
Step-IsSafe millisecs s t (tcp_serves net u on e) v =
    (v.0, ld_tcp_func-IsTcp millisecs net s.tcp u on v.1 e)
Step-IsSafe millisecs s t (signals free_gecko free_tcp) v =
    (signal_gecko-IsGecko free_gecko s.gecko v.0, signal_tcp-IsTcp free_tcp s.tcp v.1)
Step-IsSafe millisecs s t (inits free) v = (v.0, loader_tcp_init-IsTcp free s.tcp v.1)
Step-IsSafe millisecs s t (stops free_gecko free_tcp) v =
    (stop_gecko-IsGecko free_gecko s.gecko v.0, stop_tcp-IsTcp free_tcp s.tcp v.1)
Step-IsSafe millisecs s t (takes file free_gecko free_tcp) v =
    Taken-IsSafe (take_upload-Taken file free_gecko free_tcp s) v

Reachable-IsSafe : (millisecs : ℕ → ℕ → ℕ) (s : System) → Reachable millisecs s → IsSafe s
Reachable-IsSafe millisecs s (started _ h) = (
  λ e. absurd (ground (arith, h.gecko_quiet, e)),
  quiet-IsTcp s.tcp h.tcp_quiet h.no_clients h.not_waiting,
)
Reachable-IsSafe millisecs s (next r _ h step) =
    Step-IsSafe millisecs r s step (Reachable-IsSafe millisecs r h)

pub gecko-injective : {a b : Request} → from_gecko a ≡ from_gecko b → a ≡ b
gecko-injective e = cc

tcp-injective : {a b : Request} {m n : ℕ} → from_tcp a m ≡ from_tcp b n → (a ≡ b) × (m ≡ n)
tcp-injective e = (cc, cc)

-- However the two threads, the network and the calls of the main thread interleave, an upload that
-- loader_load takes has lengths that the loader can take (at most 1024 bytes of arguments, at
-- least one byte of data, at most LD_MAX_SIZE bytes packed and unpacked); and the client of a TCP
-- upload was the only one open, so that none is left at the thread.
pub take_upload-IsBounded :
    (millisecs : ℕ → ℕ → ℕ) (s : System) (file free_gecko free_tcp : Bool)
    → Reachable millisecs s
    → ((r : Request)
        → (take_upload file free_gecko free_tcp s.gecko s.tcp).0 ≡ from_gecko r
        → IsBounded r)
      × ((r : Request) (n : ℕ)
          → (take_upload file free_gecko free_tcp s.gecko s.tcp).0 ≡ from_tcp r n
          → IsBounded r
            × (s.tcp.clients ≡ n ∷ [])
            × ((take_upload file free_gecko free_tcp s.gecko s.tcp).2.clients ≡ []))
take_upload-IsBounded millisecs s file free_gecko free_tcp h =
    taken (take_upload-Taken file free_gecko free_tcp s)
  where
    taken :
        {u : Upload} {t : System}
        → Taken s u t
        → ((r : Request) → u ≡ from_gecko r → IsBounded r)
          × ((r : Request) (n : ℕ)
              → u ≡ from_tcp r n
              → IsBounded r × (s.tcp.clients ≡ n ∷ []) × (t.tcp.clients ≡ []))
    taken (kept u g _ _ a b) = (λ r e. absurd (a r e), λ r n e. absurd (b r n e))
    taken (gecko_taken g a b) = (
      λ r e. subst IsBounded (gecko-injective e) ((Reachable-IsSafe millisecs s h).0 a),
      λ r n e. cc,
    )
    taken (tcp_taken g a b c) =
        let k = (Reachable-IsSafe millisecs s h).1.shaken a in
        (
          λ r e. cc,
          λ r n e. (
            subst IsBounded (tcp-injective e).0 k.bounded,
            k.only ∙ ap (λ m. m ∷ []) (tcp-injective e).1,
            ap (drop 1) k.only,
          ),
        )
