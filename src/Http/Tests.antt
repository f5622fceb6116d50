-- ===== src/Http/Tests.antt =====
-- One fetch of three bytes, from the request to the result.
use hbc.Base.{
  ℕ, zero, suc, ◌-◌, ◌≡◌, ◌≢◌, ◌≤◌, refl, arith, true, false, Option, none, some, List, [], ◌∷◌,
  if◌then◌else◌, leb, length, All,
}
use hbc.Apps.Text.{Text, lower}
use hbc.Apps.Entry.{codes}
use hbc.Tcp.Transfer.{Answer, moved, again, Transfer, ended, tcp_read, tcp_write, transfer_loop}
use hbc.Tcp.Transfer.Bounds.{IsLawful}
use hbc.Tcp.Line.{LineRound, byte, line, waiting, tcp_readln, take_byte, until_nul}
use hbc.Http.Url.{http_split_url, same_start, find_slash, parts}
use hbc.Http.Url.Parts.{UrlRun, http_split_url-UrlRun}
use hbc.Http.Fetch.{
  Http, httpcmd_idle, httpcmd_fetch, https_idle, https_requesting, httpr_ok, Sscanf, Net, Header,
  request_text, read_header, scan_line, after_header, read_body, fetch, http_func, http_ready,
  http_request, http_get_result, result_of, http_timeout,
}
use hbc.Http.Fetch.Fetched.{Fetched, http_func-Fetched}
use hbc.Http.Fetch.Headers.{read_header_ends, fetch_stale}
use hbc.Http.Fetch.Fair.{Reachable, started}
use hbc.Http.Fetch.Reachable.{Reachable-http_request}

abbrev url : Text
url = codes "HTTP://a.b/c"

http_split_url_run : http_split_url url ≡ parts (codes "a.b") (codes "/c")
unfolding http_split_url same_start find_slash lower
http_split_url_run = refl

http_split_url-UrlRun_example : UrlRun url (http_split_url url)
http_split_url-UrlRun_example = http_split_url-UrlRun url

abbrev pub elapsed : ℕ → ℕ → ℕ
elapsed a b = b - a

-- A status line starts with H, a length line with C.
abbrev pub by_letter : Sscanf
by_letter = record { status_of = status_of; length_of = length_of }
  where
    status_of : Text → Option ℕ
    status_of [] = none
    status_of (c ∷ t) = if leb b'H' c then some 200 else none

    length_of : Text → Option ℕ
    length_of [] = none
    length_of (c ∷ t) = if leb b'H' c then none else some 3

abbrev sent_line : Text → List LineRound
sent_line [] =
    record { now = 0; answer = byte b'\r' } ∷ record { now = 0; answer = byte b'\n' } ∷ []
sent_line (c ∷ t) = record { now = 0; answer = byte c } ∷ sent_line t

abbrev header_lines : List (List LineRound)
header_lines = sent_line (b'H' ∷ []) ∷ sent_line (b'C' ∷ []) ∷ sent_line [] ∷ []

abbrev all_at_once : ℕ → Answer ℕ
all_at_once b = if leb 1 b then moved b else again

abbrev three_bytes : ℕ → Answer (List ℕ)
three_bytes b = if leb 3 b then moved (7 ∷ 8 ∷ 9 ∷ []) else again

abbrev pub net : Net
net = record {
  connects = true;
  write_rounds = record { now = 0; answer = all_at_once; restart = 0 } ∷ [];
  write_now = 0;
  lines = header_lines;
  header_now = 0;
  read_rounds = record { now = 0; answer = three_bytes; restart = 0 } ∷ [];
  read_now = 0;
}

net-IsLawful : IsLawful length net.read_rounds
net-IsLawful = (lawful, tt)
  where
    lawful : (b : ℕ) (a : List ℕ) → three_bytes b ≡ moved a → (1 ≤ length a) × (length a ≤ b)
    lawful b a e = ground arith

abbrev pub fresh : Http
fresh = record {
  running = true;
  done = true;
  cmd = httpcmd_idle;
  host = none;
  port = 0;
  path = none;
  max_size = 0;
  state = https_idle;
  res = httpr_ok;
  http_status = 0;
  content_length = 0;
  progress = 0;
  content = none;
}

abbrev asked : Http
asked = record fresh {
  done = false;
  cmd = httpcmd_fetch;
  host = some (codes "a.b");
  path = some (codes "/c");
  port = 80;
  max_size = 100;
}

http_request_run : http_request url 100 fresh ≡ some (true, asked)
unfolding http_request http_ready http_split_url same_start find_slash lower
http_request_run = refl

abbrev answered : Http
answered = record asked {
  done = true;
  cmd = httpcmd_idle;
  http_status = 200;
  content_length = 3;
  progress = 3;
  content = some (7 ∷ 8 ∷ 9 ∷ 0 ∷ []);
}

http_func_run : http_func elapsed by_letter [] net asked ≡ some answered
unfolding http_func fetch request_text read_header scan_line after_header read_body tcp_readln
    take_byte until_nul transfer_loop tcp_write tcp_read
http_func_run = refl

http_func-Fetched_example : Fetched asked answered
http_func-Fetched_example =
    http_func-Fetched elapsed by_letter [] net asked answered refl (omega arith) net-IsLawful
      http_func_run

fresh-Reachable : Reachable elapsed by_letter [] fresh
fresh-Reachable = started fresh (record { idle = refl; at_rest = refl; max_size = omega arith })

Reachable-http_request_example :
    (fresh.cmd ≢ httpcmd_fetch)
    × (fresh.state ≡ https_idle)
    × ((url' : Text) (max_size' : ℕ) → http_request url' max_size' asked ≡ some (false, asked))
    × ((net' : Net) (u : Http)
        → IsLawful length net'.read_rounds
        → http_func elapsed by_letter [] net' asked ≡ some u
        → Fetched asked u × (http_ready u ≡ true) × ((http_get_result u).0 ≡ some (result_of u)))
Reachable-http_request_example =
    Reachable-http_request elapsed by_letter [] fresh asked url 100 fresh-Reachable (omega arith)
      http_request_run

-- A server that names neither a status nor a length.
abbrev mute : Sscanf
mute = record { status_of = λ l. none; length_of = λ l. none }

abbrev quiet_line : List LineRound
quiet_line = sent_line (b'X' ∷ [])

abbrev last_line : List LineRound
last_line = sent_line []

abbrev quiet : Net
quiet = record net { lines = quiet_line ∷ last_line ∷ [] }

quiet_line_read : tcp_readln elapsed 0xff 0 http_timeout quiet_line [] ≡ line (some (b'X' ∷ []))
unfolding tcp_readln take_byte until_nul
quiet_line_read = refl

last_line_read : tcp_readln elapsed 0xff 0 http_timeout last_line [] ≡ line (some [])
unfolding tcp_readln take_byte until_nul
last_line_read = refl

abbrev request_sent : Transfer
request_sent = record {
  left = 0;
  count = length (request_text [] answered);
  step = 0;
  t = 0;
  moved_bytes = request_text [] answered;
  progress = 0;
}

request_sent_run :
    tcp_write elapsed (request_text [] answered) false 0 quiet.write_rounds quiet.write_now
    ≡ ended true request_sent
unfolding tcp_write transfer_loop request_text
request_sent_run = refl

fetch_stale_example :
    fetch elapsed mute [] quiet answered
    ≡ after_header elapsed quiet
        (record { status = 200; size = 3; result = httpr_ok })
        (record answered { state = https_requesting })
fetch_stale_example =
    fetch_stale elapsed mute [] quiet answered request_sent (quiet_line ∷ []) last_line [] refl
      request_sent_run refl (((b'X' ∷ [], quiet_line_read, λ e. cc, refl, refl)), tt) last_line_read
      (omega arith)

-- 32 lines, and none is the last of the header.
abbrev many : ℕ → List (List LineRound)
many zero = []
many (suc n) = quiet_line ∷ many n

many_lines : (n : ℕ) → All (λ r. tcp_readln elapsed 0xff 0 http_timeout r [] ≢ waiting) (many n)
many_lines zero = tt
many_lines (suc n) = (λ e. let read = quiet_line_read in cc, many_lines n)

length-many : (n : ℕ) → length (many n) ≡ n
length-many zero = refl
length-many (suc n) = let rest = length-many n in omega arith

abbrev no_header : Header
no_header = record { status = 0; size = 0; result = httpr_ok }

read_header_ends_example :
    (h : Header) × (read_header elapsed mute 0 (many 32) 0 no_header ≡ some h)
read_header_ends_example =
    read_header_ends elapsed mute 0 (many 32) 0 no_header (many_lines 32) (omega arith)
      (let long = length-many 32 in omega arith)
