-- ===== src/Loader/Threads.antt =====
-- The two threads that wait for an upload, and what the main thread asks of them.
--
-- A thread holds its lock while it serves a command. What the network, the USB Gecko and the clock do
-- meanwhile is a schedule; `none` says that it was too short, and the thread is still busy. The
-- messages and the client's name are left out.
use hbc.Base.{
  ℕ, zero, suc, ◌+◌, ◌-◌, ◌%◌, ◌^◌, Bool, true, false, not, ◌&&◌, ◌||◌, Option, none, some, List,
  [], ◌∷◌, ◌++◌, if◌then◌else◌, ltb, ◌==◌, length, drop,
}
use hbc.Tcp.Transfer.{Round, Outcome, ended, waiting, tcp_read}
use hbc.Loader.Request.{Request, request_of, is_refused}

abbrev pub ld_timeout : ℕ
ld_timeout = 3000

-- `ld_gecko_cmd` and `ld_gecko_arg`.
pub data GeckoCmd : Type 0 where
  gecko_idle gecko_exit gecko_poll : GeckoCmd

pub record Gecko : Type 0 where
  pub running : Bool
  pub handshaked : Bool
  pub cmd : GeckoCmd
  pub request : Request

-- A call of `usb_recvbuffer_safe_ex`, by the count asked for, and the clock after it.
pub record GeckoRound : Type 0 where
  pub received : ℕ → List ℕ
  pub now : ℕ

-- The loop that reads `left` more bytes: the buffer, or nothing when the time is up.
unfoldable pub read_gecko :
    (ℕ → ℕ → ℕ) → ℕ → List GeckoRound → ℕ → List ℕ → Option (Option (List ℕ))
read_gecko millisecs t rounds zero buf = some (some buf)
read_gecko millisecs t [] (suc n) buf = none
read_gecko millisecs t (r ∷ rs) (suc n) buf =
    let bytes = r.received (suc n) in
    let more = read_gecko millisecs t rs ((suc n + 256 - length bytes) % 256) (buf ++ bytes) in
    let again = read_gecko millisecs t rs (suc n) buf in
    if not (length bytes == 0)
    then more
    else if ltb ld_timeout (millisecs t r.now)
    then some none
    else again

-- The buffer, once it is full.
unfoldable pub shake_gecko : List ℕ → Gecko → Gecko
shake_gecko buf s = record s { request = request_of buf; handshaked = not (is_refused buf) }

-- `ld_gecko_func`, from one wait to the next.
unfoldable pub ld_gecko_func : (ℕ → ℕ → ℕ) → ℕ → List GeckoRound → Gecko → Option Gecko
unfolding read_gecko shake_gecko
ld_gecko_func millisecs t rounds s = elim s.cmd [
  | gecko_idle ↦ some s
  | gecko_exit ↦ some (record s { running = false })
  | gecko_poll ↦ elim (read_gecko millisecs t rounds 16 []) [
    | none ↦ none
    | some none ↦ some (record s { cmd = gecko_idle; handshaked = false })
    | some (some buf) ↦ some (shake_gecko buf (record s { cmd = gecko_idle; handshaked = false }))
  ]
]

-- `ld_tcp_cmd`, `ld_tcp_state` and `ld_tcp_arg`, with the listening socket and the address mask, which
-- are locals of the thread. `clients` are the accepted sockets that are open.
pub data TcpCmd : Type 0 where
  tcp_idle tcp_exit tcp_init tcp_accept : TcpCmd

pub data TcpState : Type 0 where
  uninitialized initializing initialized : TcpState

pub record TcpThread : Type 0 where
  pub running : Bool
  pub cmd : TcpCmd
  pub state : TcpState
  pub handshaked : Bool
  pub request : Request
  pub client : ℕ
  pub listener : Option ℕ
  pub mask : ℕ
  pub clients : List ℕ

-- One try at `net_init_async`: -EAGAIN or -ETIMEDOUT, another negative number, or success.
pub data NetTry : Type 0 where
  try_again net_failed net_ready : NetTry

-- The loop over the tries: whether the network is up, and the retries left.
unfoldable pub net_init : List NetTry → ℕ → Option (Bool × ℕ)
net_init tries zero = some (false, 0)
net_init [] (suc retries) = none
net_init (try_again ∷ tries) (suc retries) = net_init tries retries
net_init (net_failed ∷ tries) (suc retries) = some (false, suc retries)
net_init (net_ready ∷ tries) (suc retries) = some (true, suc retries)

-- A socket, -ENETRESET, or another negative number.
pub data Socket : Type 0 where
  socket : ℕ → Socket
  net_reset sock_failed : Socket

-- LDTCPCMD_INIT, once the tries are over. `host` is this machine's address.
unfoldable pub after_init : Bool × ℕ → ℕ → Socket → TcpThread → TcpThread
after_init (false, retries) host listening s = record s { state = uninitialized }
after_init (true, retries) host (socket n) s = record s {
  state = initialized;
  listener = some n;
  mask = host - host % 2 ^ 16;
}
after_init (true, retries) host net_reset s =
    if not (retries == 0)
    then record s { cmd = tcp_init; listener = none; mask = host - host % 2 ^ 16 }
    else record s { state = uninitialized; listener = none; mask = host - host % 2 ^ 16 }
after_init (true, retries) host sock_failed s = record s {
  state = uninitialized;
  listener = none;
  mask = host - host % 2 ^ 16;
}

-- What `net_accept` answers: -EAGAIN, a client with its address, or as for a socket.
pub data Accepted : Type 0 where
  no_client : Accepted
  client_of : ℕ → ℕ → Accepted
  accept_reset accept_failed : Accepted

-- The 16 bytes have come from the client `n`.
unfoldable pub shake_tcp : List ℕ → ℕ → TcpThread → TcpThread
shake_tcp buf n s = if is_refused buf then record s { request = request_of buf } else record s {
  request = request_of buf;
  handshaked = true;
  client = n;
  clients = n ∷ s.clients;
}

-- LDTCPCMD_ACCEPT. A client whose socket is closed again leaves `clients` as it was.
unfoldable pub accept_client : Accepted → Outcome → TcpThread → Option TcpThread
unfolding shake_tcp
accept_client no_client read s = some s
accept_client accept_reset read s = some (record s { cmd = tcp_init })
accept_client accept_failed read s = some (record s { state = uninitialized })
accept_client (client_of n address) read s =
    if not (address - address % 2 ^ 16 == s.mask) then some s else elim read [
      | waiting _ ↦ none
      | ended false _ ↦ some s
      | ended true t ↦ some (shake_tcp t.moved_bytes n s)
    ]

-- What the network does while a command is served.
pub record Net : Type 0 where
  pub tries : List NetTry
  pub host : ℕ
  pub listening : Socket
  pub accepted : Accepted
  pub rounds : List (Round (List ℕ))
  pub now : ℕ

-- `ld_tcp_func`, from one test of `cmd` to the next.
unfoldable pub ld_tcp_func : (ℕ → ℕ → ℕ) → Net → TcpThread → Option TcpThread
unfolding net_init after_init accept_client
ld_tcp_func millisecs net s = elim s.cmd [
  | tcp_idle ↦ some s
  | tcp_exit ↦ some (record s { handshaked = false; state = uninitialized; running = false })
  | tcp_init ↦ elim (net_init net.tries 32) [
    | none ↦ none
    | some up ↦ some (
        after_init up net.host net.listening
          (record s { handshaked = false; cmd = tcp_idle; state = initializing }))
  ]
  | tcp_accept ↦
      accept_client net.accepted (tcp_read millisecs 16 false 0 net.rounds net.now)
        (record s { handshaked = false; cmd = tcp_idle })
]

-- The main thread. `free` says whether `LWP_MutexTryLock` got the lock.
unfoldable pub loader_tcp_init : Bool → TcpThread → TcpThread
loader_tcp_init free s = elim s.state [
  | uninitialized ↦ if free && s.running then record s { cmd = tcp_init } else s
  | initializing ↦ s
  | initialized ↦ s
]

abbrev pub is_initialized : TcpState → Bool
is_initialized initialized = true
is_initialized _ = false

unfoldable pub signal_gecko : Bool → Gecko → Gecko
signal_gecko free s =
    if free && s.running && not s.handshaked then record s { cmd = gecko_poll } else s

unfoldable pub signal_tcp : Bool → TcpThread → TcpThread
signal_tcp free s =
    if free && (s.running && is_initialized s.state) && not s.handshaked
    then record s { cmd = tcp_accept }
    else s

-- `loader_signal_threads`.
unfoldable pub loader_signal_threads : Bool → Bool → Gecko → TcpThread → Gecko × TcpThread
loader_signal_threads free_gecko free_tcp g s = (signal_gecko free_gecko g, signal_tcp free_tcp s)

-- `loader_handshaked`.
unfoldable pub loader_handshaked : Bool → Bool → Gecko → TcpThread → Bool
loader_handshaked free_gecko free_tcp g s =
    (free_gecko && (g.running && g.handshaked)) || (free_tcp && (s.running && s.handshaked))

-- `loader_deinit` up to the broadcast: the thread is told to end.
unfoldable pub stop_tcp : Bool → TcpThread → TcpThread
stop_tcp free s = if s.running && free then record s { cmd = tcp_exit } else s

unfoldable pub stop_gecko : Bool → Gecko → Gecko
stop_gecko free s = if s.running && free then record s { cmd = gecko_exit } else s

-- What `loader_load` is to load: a file of the device, an upload, or nothing.
pub data Upload : Type 0 where
  from_file no_upload : Upload
  from_gecko : Request → Upload
  from_tcp : Request → ℕ → Upload

-- The start of `loader_load`: each handshake is read under its lock, and the command of the Gecko
-- thread is reset, also under the lock of the TCP thread. `file` says whether there is an entry. The
-- socket of an upload passes from the thread to the loader.
unfoldable pub take_upload : Bool → Bool → Bool → Gecko → TcpThread → Upload × Gecko × TcpThread
take_upload file free_gecko free_tcp g s =
    let g' : Gecko = if free_gecko || free_tcp then record g { cmd = gecko_idle } else g in
    if file
    then (from_file, g', s)
    else if free_gecko && g.handshaked
    then (from_gecko g.request, record g' { handshaked = false }, s)
    else if free_tcp && s.handshaked
    then (
      from_tcp s.request s.client,
      g',
      record s { handshaked = false; clients = drop 1 s.clients },
    )
    else (no_upload, g', s)
