-- ===== src/Http/Fetch.antt =====
-- `http_func` and the calls of the main thread.
--
-- The thread serves one command at a time. What the network and the clock do meanwhile is a
-- schedule; `none` says that it was too short, or that the code
-- stores a body outside of its buffer. `sscanf` is the C library's: what it reads from a
-- header line by the two formats of the code, if anything. The text that names this console, which
-- `sprintf` makes from numbers of the system library, is `agent`. `pmalloc` and `free` are left out.
pub mod Fetched
pub mod Headers
pub mod Fair
pub mod Reachable
use hbc.Base.{
  ℕ, zero, suc, ◌+◌, Bool, true, false, not, ◌&&◌, Option, none, some, List, [], ◌∷◌, ◌++◌,
  if◌then◌else◌, ltb, ◌==◌, length,
}
use hbc.Base.Word.{add32}
use hbc.Apps.Text.{Text}
use hbc.Apps.Entry.{codes}
use hbc.Tcp.Transfer.{Round, ended, waiting, tcp_read, tcp_write}
use hbc.Tcp.Line.{LineRound, line, waiting, tcp_readln}
use hbc.Http.Url.{not_http, null_read, parts, http_split_url}

abbrev pub http_timeout : ℕ
http_timeout = 30000

-- `http_cmd`, `http_state`, `http_res`.
pub data HttpCmd : Type 0 where
  httpcmd_idle httpcmd_exit httpcmd_fetch : HttpCmd

pub data HttpState : Type 0 where
  https_idle https_connecting https_requesting https_receiving : HttpState

pub data HttpRes : Type 0 where
  httpr_ok httpr_err_connect httpr_err_request httpr_err_status httpr_err_toobig httpr_err_receive :
      HttpRes

-- `http_arg`. `content` is what `data` points to.
pub record Http : Type 0 where
  pub running : Bool
  pub done : Bool
  pub cmd : HttpCmd
  pub host : Option Text
  pub port : ℕ
  pub path : Option Text
  pub max_size : ℕ
  pub state : HttpState
  pub res : HttpRes
  pub http_status : ℕ
  pub content_length : ℕ
  pub progress : ℕ
  pub content : Option (List ℕ)

-- `"HTTP/1.%*u %u"` and `"Content-Length: %u"`.
pub record Sscanf : Type 0 where
  pub status_of : Text → Option ℕ
  pub length_of : Text → Option ℕ

-- What the network does during one fetch. There is a schedule for each line of the header.
pub record Net : Type 0 where
  pub connects : Bool
  pub write_rounds : List (Round ℕ)
  pub write_now : ℕ
  pub lines : List (List LineRound)
  pub header_now : ℕ
  pub read_rounds : List (Round (List ℕ))
  pub read_now : ℕ

abbrev pub text_or_empty : Option Text → Text
text_or_empty none = []
text_or_empty (some t) = t

abbrev pub crlf : Text
crlf = b'\r' ∷ b'\n' ∷ []

unfoldable pub request_text : Text → Http → Text
request_text agent s =
    codes "GET "
    ++ (text_or_empty s.path
        ++ (codes " HTTP/1.1"
            ++ (crlf
                ++ (codes "Host: "
                    ++ (text_or_empty s.host
                        ++ (crlf
                            ++ (codes "Cache-Control: no-cache"
                                ++ (crlf
                                    ++ (codes "User-Agent: TheHomebrewChannel/"
                                        ++ (agent ++ (crlf ++ crlf)))))))))))

-- What the header lines so far have set.
pub record Header : Type 0 where
  pub status : ℕ
  pub size : ℕ
  pub result : HttpRes

abbrev pub or_else : Option ℕ → ℕ → ℕ
or_else none d = d
or_else (some n) d = n

-- One line that is not empty.
unfoldable pub scan_line : Sscanf → Text → Header → Header
scan_line scan l h = record h {
  status = or_else (scan.status_of l) h.status;
  size = or_else (scan.length_of l) h.size;
}

abbrev pub bad_header : Header → Header
bad_header h = record h { status = 404; result = httpr_err_request }

-- The loop over the lines of the header.
unfoldable pub read_header :
    (ℕ → ℕ → ℕ) → Sscanf → ℕ → List (List LineRound) → ℕ → Header → Option Header
unfolding scan_line
read_header millisecs scan t [] linecount h = none
read_header millisecs scan t (r ∷ rs) linecount h =
    elim (tcp_readln millisecs 0xff t http_timeout r []) [
      | waiting ↦ none
      | line none ↦ some (bad_header h)
      | line (some l) ↦ elim (length l == 0) [
        | true ↦ some h
        | false ↦ elim (linecount + 1 == 32) [
          | true ↦ some (bad_header (scan_line scan l h))
          | false ↦ read_header millisecs scan t rs (linecount + 1) (scan_line scan l h)
        ]
      ]
    ]

-- `res`, `state` and `done`, at the end of a fetch.
abbrev pub finish : HttpRes → Http → Http
finish r s = record s { res = r; state = https_idle; done = true }

-- The buffer has one byte more than the body; for the size 2 ^ 32 - 1 it has none, so that whatever
-- is stored lies outside of it.
abbrev pub is_outside : ℕ → List ℕ → Bool
is_outside size bytes = add32 size 1 == 0 && not (length bytes == 0)

-- The body of the answer; `none` also when bytes are stored outside of the buffer.
unfoldable pub read_body : (ℕ → ℕ → ℕ) → Net → Http → Option Http
read_body millisecs net s =
    elim (tcp_read millisecs s.content_length true s.progress net.read_rounds net.read_now) [
      | waiting _ ↦ none
      | ended false t ↦
          if is_outside s.content_length t.moved_bytes
          then none
          else some (finish httpr_err_receive (record s { content = none; progress = t.progress }))
      | ended true t ↦
          if is_outside s.content_length t.moved_bytes
          then none
          else some (
              finish httpr_ok
                (record s { content = some (t.moved_bytes ++ (0 ∷ [])); progress = t.progress }))
    ]

-- From the end of the header on.
unfoldable pub after_header : (ℕ → ℕ → ℕ) → Net → Header → Http → Option Http
unfolding read_body
after_header millisecs net h s =
    let s' : Http = record s {
      http_status = if ltb h.size 1 then 404 else h.status;
      content_length = h.size;
      res = h.result;
    } in
    if not (s'.http_status == 200)
    then some (finish httpr_err_status s')
    else if ltb s.max_size h.size
    then some (finish httpr_err_toobig s')
    else read_body millisecs net (record s' { state = https_receiving })

unfoldable pub fetch : (ℕ → ℕ → ℕ) → Sscanf → Text → Net → Http → Option Http
unfolding request_text read_header after_header
fetch millisecs scan agent net s =
    if not net.connects
    then some (finish httpr_err_connect s)
    else elim (tcp_write millisecs (request_text agent s) false 0 net.write_rounds net.write_now) [
      | waiting _ ↦ none
      | ended false _ ↦ some (finish httpr_err_request s)
      | ended true _ ↦
          elim (read_header millisecs scan net.header_now net.lines 0
            (record { status = s.http_status; size = s.content_length; result = s.res })) [
              | none ↦ none
              | some h ↦ after_header millisecs net h (record s { state = https_requesting })
            ]
    ]

-- `http_func`, from one wait to the next.
unfoldable pub http_func : (ℕ → ℕ → ℕ) → Sscanf → Text → Net → Http → Option Http
unfolding fetch
http_func millisecs scan agent net s = elim s.cmd [
  | httpcmd_idle ↦ some s
  | httpcmd_exit ↦ some (record s { running = false })
  | httpcmd_fetch ↦ fetch millisecs scan agent net (record s { cmd = httpcmd_idle })
]

unfoldable pub http_ready : Http → Bool
http_ready s = s.running && s.done

-- `none` when `http_split_url` reads through NULL.
unfoldable pub http_request : Text → ℕ → Http → Option (Bool × Http)
unfolding http_ready
http_request url max_size s =
    if not (http_ready s) then some (false, s) else elim (http_split_url url) [
      | not_http ↦ some (false, s)
      | null_read ↦ none
      | parts host path ↦ some (
        true,
        record s {
          host = some host;
          path = some path;
          done = false;
          cmd = httpcmd_fetch;
          port = 80;
          max_size = max_size;
        },
      )
    ]

-- `http_get_state`, if it returns true.
unfoldable pub http_get_state : Http → Option (HttpState × ℕ × ℕ)
http_get_state s = if s.running then some (s.state, s.content_length, s.progress) else none

-- What `http_get_result` stores.
pub record Result : Type 0 where
  pub res : HttpRes
  pub status : ℕ
  pub content : Option (List ℕ)
  pub size : ℕ

abbrev pub result_of : Http → Result
result_of s = elim s.res [
  | httpr_ok ↦ record {
    res = s.res;
    status = s.http_status;
    content = s.content;
    size = s.content_length;
  }
  | _ ↦ record { res = s.res; status = s.http_status; content = none; size = 0 }
]

unfoldable pub http_get_result : Http → Option Result × Http
unfolding http_ready
http_get_result s =
    if not (http_ready s)
    then (none, s)
    else (some (result_of s), record s { host = none; path = none })

-- `http_deinit` up to the broadcast. `free` says whether `LWP_MutexTryLock` got the lock.
unfoldable pub http_deinit : Bool → Http → Http
http_deinit free s = if s.running && free then record s { cmd = httpcmd_exit } else s
