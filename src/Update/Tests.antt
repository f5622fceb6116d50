-- ===== src/Update/Tests.antt =====
-- An update of three bytes, with a hash of 20 zeros.
use hbc.Base.{ℕ, ◌≡◌, refl, arith, true, false, none, some, List, [], ◌∷◌, length, replicate}
use hbc.Apps.Text.{lower}
use hbc.Apps.Entry.{codes}
use hbc.Tcp.Transfer.{tcp_read, tcp_write, transfer_loop}
use hbc.Tcp.Line.{tcp_readln, take_byte, until_nul}
use hbc.Http.Url.{http_split_url, same_start, find_slash}
use hbc.Http.Fetch.{
  http_func, fetch, request_text, read_header, scan_line, after_header, read_body, http_request,
  http_ready, http_get_result,
}
use hbc.Http.Tests.{elapsed, by_letter, net, fresh}
use hbc.Update.{
  UpdateInfo, Update, update_idle, update_can_update, nibble2hex, hash2ascii, same_hash, runs,
  check_download, download, update_execute,
}
use hbc.Update.Hex.{IsBytes}
use hbc.Update.Checked.{Ran, update_execute-Ran}

-- A stand-in for SHA-1.
abbrev zeros : List ℕ → List ℕ
zeros bytes = replicate 20 0

zeros-IsBytes : (x : List ℕ) → IsBytes (zeros x) × (length (zeros x) ≡ 20)
zeros-IsBytes x = (omega arith, refl)

abbrev info : UpdateInfo
info = record {
  date = 202601010000;
  uri = some (codes "http://a.b/c");
  hash = some (replicate 40 b'0');
}

abbrev available : Update
available = record { us = update_can_update; info = some info; update_data = []; running = false }

abbrev done : Update
done = record available { us = update_idle; info = none }

update_execute_run :
    update_execute elapsed by_letter [] zeros true net available fresh
    ≡ (runs (7 ∷ 8 ∷ 9 ∷ []), done)
unfolding update_execute download check_download hash2ascii nibble2hex same_hash http_request
    http_ready http_split_url same_start find_slash lower http_func fetch request_text read_header
    scan_line after_header read_body tcp_readln take_byte until_nul transfer_loop tcp_write tcp_read
    http_get_result
update_execute_run = refl

update_execute-Ran_example : Ran elapsed by_letter [] zeros net true available done (7 ∷ 8 ∷ 9 ∷ [])
update_execute-Ran_example =
    update_execute-Ran elapsed by_letter [] zeros net true available done fresh (7 ∷ 8 ∷ 9 ∷ [])
      zeros-IsBytes update_execute_run
