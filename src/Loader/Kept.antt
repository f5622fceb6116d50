-- ===== src/Loader/Kept.antt =====
-- What serving a command keeps, in either thread.
use hbc.Base.{
  some-injective, ℕ, ◌≡◌, refl, arith, Bool, true, false, not, Option, none, some, List, [], ◌∷◌,
  Bool-cases, inl, inr, ◌⊎◌, ◌≢◌, ap, ◌%◌, ◌^◌, ◌-◌, ◌==◌, subst,
}
use hbc.Tcp.Transfer.{Outcome, ended, waiting, tcp_read}
use hbc.Loader.Request.{is_refused, IsBounded, is_refused-IsBounded}
use hbc.Loader.Threads.{
  Gecko, GeckoCmd, gecko_idle, gecko_exit, gecko_poll, GeckoRound, read_gecko, shake_gecko,
  ld_gecko_func, TcpCmd, tcp_idle, tcp_exit, tcp_init, tcp_accept, uninitialized, initializing,
  initialized, TcpThread, net_init, Socket, socket, net_reset, sock_failed, after_init, Accepted,
  no_client, client_of, accept_reset, accept_failed, shake_tcp, accept_client, Net, ld_tcp_func,
}

-- A Gecko handshake is one that the loader can take.
abbrev pub IsGecko : Gecko → Type 0
IsGecko g = g.handshaked ≡ true → IsBounded g.request

-- So is a TCP handshake; its client is the only one open, and no command is pending that would
-- forget it. Without a handshake no client is open. (A thread that has ended may leave one.)
pub record IsShaken (s : TcpThread) : Type 0 where
  pub bounded : IsBounded s.request
  pub only : s.clients ≡ s.client ∷ []
  pub up : s.state ≡ initialized
  pub no_accept : s.cmd ≢ tcp_accept
  pub no_init : s.cmd ≢ tcp_init

pub record IsTcp (s : TcpThread) : Type 0 where
  pub shaken : s.handshaked ≡ true → IsShaken s
  pub closed : s.running ≡ true → s.handshaked ≡ false → s.clients ≡ []
  pub ready : s.cmd ≡ tcp_accept → s.state ≡ initialized

-- A state without a handshake and without clients, which waits for no client.
pub quiet-IsTcp :
    (s : TcpThread) → s.handshaked ≡ false → s.clients ≡ [] → s.cmd ≢ tcp_accept → IsTcp s
quiet-IsTcp s h c q = record {
  shaken = λ e. absurd (ground (arith, h, e));
  closed = λ r e. c;
  ready = λ e. absurd (q e);
}

shake_tcp-IsTcp :
    (buf : List ℕ) (n : ℕ) (s : TcpThread)
    → s.handshaked ≡ false
    → s.clients ≡ []
    → s.state ≡ initialized
    → s.cmd ≡ tcp_idle
    → IsTcp (shake_tcp buf n s)
unfolding shake_tcp
shake_tcp-IsTcp buf n s h c u i = elim (Bool-cases (is_refused buf)) [
  | inl bad ↦ rw bad (quiet-IsTcp _ h c (λ f. cc))
  | inr good ↦ rw good (record {
    shaken = λ e. record {
      bounded = is_refused-IsBounded buf good;
      only = ap (λ l. n ∷ l) c;
      up = u;
      no_accept = λ f. cc;
      no_init = λ f. cc;
    };
    closed = λ r e. cc;
    ready = λ f. cc;
  })
]

-- The answers of an accept that was asked for while no client was open.
accept_client-IsTcp :
    (a : Accepted) (read : Outcome) (s t : TcpThread)
    → s.handshaked ≡ false
    → s.clients ≡ []
    → s.state ≡ initialized
    → s.cmd ≡ tcp_idle
    → accept_client a read s ≡ some t
    → IsTcp t
unfolding accept_client
accept_client-IsTcp no_client read s t h c u i e =
    subst IsTcp (some-injective e) (quiet-IsTcp s h c (λ f. cc))
accept_client-IsTcp accept_reset read s t h c u i e =
    subst IsTcp (some-injective e) (quiet-IsTcp _ h c (λ f. cc))
accept_client-IsTcp accept_failed read s t h c u i e =
    subst IsTcp (some-injective e) (quiet-IsTcp _ h c (λ f. cc))
accept_client-IsTcp (client_of n address) read s t h c u i e =
    let run : accept_client (client_of n address) read s ≡ some t → IsTcp t =
      elim (Bool-cases (not (address - address % 2 ^ 16 == s.mask))) [
        | inl far ↦ rw far (λ e. subst IsTcp (some-injective e) (quiet-IsTcp s h c (λ f. cc)))
        | inr near ↦
            rw near
              (elim read
                as (λ o.
                  elim o [
                    | waiting _ ↦ none
                    | ended false _ ↦ some s
                    | ended true x ↦ some (shake_tcp x.moved_bytes n s)
                  ]
                    ≡ some t
                  → IsTcp t) [
                    | waiting _ ↦ λ e. cc
                    | ended false _ ↦
                        λ e. subst IsTcp (some-injective e) (quiet-IsTcp s h c (λ f. cc))
                    | ended true x ↦ λ e.
                        subst IsTcp (some-injective e) (shake_tcp-IsTcp x.moved_bytes n s h c u i)
                  ])
      ] in
    run e

after_init-IsTcp :
    (up : Bool × ℕ) (host : ℕ) (a : Socket) (s : TcpThread)
    → s.handshaked ≡ false
    → s.clients ≡ []
    → s.cmd ≡ tcp_idle
    → IsTcp (after_init up host a s)
unfolding after_init
after_init-IsTcp (false, retries) host a s h c i = quiet-IsTcp _ h c (λ f. cc)
after_init-IsTcp (true, retries) host (socket n) s h c i = quiet-IsTcp _ h c (λ f. cc)
after_init-IsTcp (true, retries) host sock_failed s h c i = quiet-IsTcp _ h c (λ f. cc)
after_init-IsTcp (true, retries) host net_reset s h c i = elim (Bool-cases (not (retries == 0))) [
  | inl e ↦ rw e (quiet-IsTcp _ h c (λ f. cc))
  | inr e ↦ rw e (quiet-IsTcp _ h c (λ f. cc))
]

-- No client is open when a command is served that forgets the handshake.
no_clients :
    (s : TcpThread)
    → IsTcp s
    → s.running ≡ true
    → (s.cmd ≡ tcp_accept) ⊎ (s.cmd ≡ tcp_init)
    → s.clients ≡ []
no_clients s v r c = elim (Bool-cases s.handshaked) [
  | inr e ↦ v.closed r e
  | inl e ↦ elim c [
    | inl a ↦ absurd ((v.shaken e).no_accept a)
    | inr a ↦ absurd ((v.shaken e).no_init a)
  ]
]

-- Serving a command keeps the invariant, whatever the network does meanwhile.
pub ld_tcp_func-IsTcp :
    (millisecs : ℕ → ℕ → ℕ) (net : Net) (s t : TcpThread)
    → s.running ≡ true
    → IsTcp s
    → ld_tcp_func millisecs net s ≡ some t
    → IsTcp t
unfolding ld_tcp_func
ld_tcp_func-IsTcp millisecs net s t r v = served-IsTcp s.cmd refl
  where
    fresh : TcpThread
    fresh = record s { handshaked = false; cmd = tcp_idle }

    inited : Option (Bool × ℕ) → Option TcpThread
    inited o = elim o [
      | none ↦ none
      | some up ↦
          some (after_init up net.host net.listening (record fresh { state = initializing }))
    ]

    inited-IsTcp : (o : Option (Bool × ℕ)) → s.clients ≡ [] → inited o ≡ some t → IsTcp t
    inited-IsTcp none c e = cc
    inited-IsTcp (some up) c e = subst IsTcp (some-injective e) (
        after_init-IsTcp up net.host net.listening (record fresh { state = initializing }) refl c
          refl)

    served : TcpCmd → Option TcpThread
    served c = elim c [
      | tcp_idle ↦ some s
      | tcp_exit ↦ some (record s { handshaked = false; state = uninitialized; running = false })
      | tcp_init ↦ inited (net_init net.tries 32)
      | tcp_accept ↦
          accept_client net.accepted (tcp_read millisecs 16 false 0 net.rounds net.now) fresh
    ]

    served-IsTcp : (c : TcpCmd) → s.cmd ≡ c → served c ≡ some t → IsTcp t
    served-IsTcp tcp_idle i e = subst IsTcp (some-injective e) v
    served-IsTcp tcp_exit i e =
        subst IsTcp (some-injective e)
          (record { shaken = λ h. cc; closed = λ f h. cc; ready = λ f. cc })
    served-IsTcp tcp_init i e = inited-IsTcp (net_init net.tries 32) (no_clients s v r (inr i)) e
    served-IsTcp tcp_accept i e =
        accept_client-IsTcp net.accepted _ fresh t refl (no_clients s v r (inl i)) (v.ready i) refl
          e

-- The Gecko thread.
pub ld_gecko_func-IsGecko :
    (millisecs : ℕ → ℕ → ℕ) (now : ℕ) (rounds : List GeckoRound) (s t : Gecko)
    → IsGecko s
    → ld_gecko_func millisecs now rounds s ≡ some t
    → IsGecko t
unfolding ld_gecko_func shake_gecko
ld_gecko_func-IsGecko millisecs now rounds s t v = served-IsGecko s.cmd
  where
    polled : Option (Option (List ℕ)) → Option Gecko
    polled o = elim o [
      | none ↦ none
      | some none ↦ some (record s { cmd = gecko_idle; handshaked = false })
      | some (some buf) ↦ some (shake_gecko buf (record s { cmd = gecko_idle; handshaked = false }))
    ]

    polled-IsGecko : (o : Option (Option (List ℕ))) → polled o ≡ some t → IsGecko t
    polled-IsGecko none e = cc
    polled-IsGecko (some none) e = subst IsGecko (some-injective e) (λ h. cc)
    polled-IsGecko (some (some buf)) e =
        subst IsGecko (some-injective e) (λ h. is_refused-IsBounded buf (ground arith))

    served : GeckoCmd → Option Gecko
    served c = elim c [
      | gecko_idle ↦ some s
      | gecko_exit ↦ some (record s { running = false })
      | gecko_poll ↦ polled (read_gecko millisecs now rounds 16 [])
    ]

    served-IsGecko : (c : GeckoCmd) → served c ≡ some t → IsGecko t
    served-IsGecko gecko_idle e = subst IsGecko (some-injective e) v
    served-IsGecko gecko_exit e = subst IsGecko (some-injective e) v
    served-IsGecko gecko_poll e = polled-IsGecko (read_gecko millisecs now rounds 16 []) e
