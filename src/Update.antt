-- ===== src/Update.antt =====
-- The update check: channel/channelapp/source/update.c, over the HTTP client.
--
-- SHA-1 and the parser of update.xml, with the library that it calls, are parameters. `running` of
-- `update_arg` is a field; what the user answers, whether a thread can be created and what the network does during
-- the download come in as arguments. The text of the dialogs is left out.
pub mod Hex
pub mod Checked
mod Tests
use hbc.Base.{
  ℕ, zero, suc, ◌+◌, ◌-◌, ◌*◌, ◌/◌, ◌%◌, Bool, true, false, not, ◌&&◌, ◌||◌, Option, none, some,
  List, [], ◌∷◌, if◌then◌else◌, ltb, leb, ◌==◌, length, take,
}
use hbc.Apps.Text.{Text}
use hbc.Apps.Entry.{codes}
use hbc.Http.Fetch.{
  Http, HttpRes, httpr_ok, Sscanf, Net, Result, http_func, http_request, http_get_result,
}

unfoldable pub nibble2hex : ℕ → ℕ
nibble2hex byte = let n = byte % 16 in if leb n 9 then b'0' + n else b'a' + n - 0xa

-- On the bytes of a hash.
unfoldable pub hash2ascii : List ℕ → List ℕ
unfolding nibble2hex
hash2ascii [] = 0 ∷ []
hash2ascii (h ∷ hs) = nibble2hex (h / 16) ∷ nibble2hex h ∷ hash2ascii hs

pub data UpdateState : Type 0 where
  update_idle update_fetch_meta update_validate update_no_update update_can_update : UpdateState

-- The fields of `update_info` that are read.
pub record UpdateInfo : Type 0 where
  pub date : ℕ
  pub uri : Option Text
  pub hash : Option Text

pub record Update : Type 0 where
  pub us : UpdateState
  pub info : Option UpdateInfo
  pub update_data : List ℕ
  pub running : Bool

abbrev pub update_url : Text
update_url = codes "http://localhost/update.xml"

abbrev pub channel_version_date : ℕ
channel_version_date = 202501220000

-- `none` when the HTTP client reads through NULL.
unfoldable pub update_signal : Update → Http → Option (Bool × Update × Http)
update_signal s h =
    let asked : Option (Bool × Update × Http) = elim (http_request update_url (8 * 1024) h) [
      | none ↦ none
      | some (true, h') ↦ some (true, record s { us = update_fetch_meta }, h')
      | some (false, h') ↦ some (false, s, h')
    ] in
    elim s.us [
      | update_fetch_meta ↦ some (false, s, h)
      | update_can_update ↦ some (false, s, h)
      | _ ↦ asked
    ]

-- What `update_busy` returns, and what it stores to `*update_available`, if anything.
pub record Busy : Type 0 where
  pub busy : Bool
  pub available : Option Bool
  pub update : Update
  pub http : Http

-- The file at hand is an update or not.
unfoldable pub take_info : Option UpdateInfo → Update → Option Bool × Update
take_info none s = (none, s)
take_info (some i) s = elim i.hash [
  | none ↦ (none, s)
  | some hash ↦
      if ltb (length hash) 40
      then (none, s)
      else if ltb channel_version_date i.date
      then (some true, record s { us = update_can_update; info = some i })
      else (none, s)
]

unfoldable pub update_busy : (List ℕ → Option UpdateInfo) → Bool → Update → Http → Busy
unfolding take_info
update_busy update_parse created s h =
    let idle : Busy = record { busy = false; available = none; update = s; http = h } in
    let waits : Busy = record idle { busy = true } in
    let ended : Update = record s { us = update_no_update; info = none } in
    elim s.us [
      | update_fetch_meta ↦ elim (http_get_result h).0 [
        | none ↦ waits
        | some r ↦
            let got : Update = record s {
              us = update_no_update;
              update_data = elim r.content [ none ↦ [] | some bytes ↦ bytes ];
            } in
            let failed : Busy = record {
              busy = false;
              available = some false;
              update = got;
              http = (http_get_result h).1;
            } in
            elim r.res [
              | httpr_ok ↦
                  if created
                  then record failed { busy = true; update = record got { us = update_validate } }
                  else failed
              | _ ↦ failed
            ]
      ]
      | update_validate ↦
          if s.running
          then waits
          else let taken = take_info (update_parse s.update_data) ended in
            record idle { available = taken.0; update = taken.1 }
      | _ ↦ idle
    ]

-- How `update_execute` ends: false, a read through NULL, a download that has not ended, or the call of
-- `loader_reloc` with the bytes at `data`.
pub data Execution : Type 0 where
  returns_false crashes downloads : Execution
  runs : List ℕ → Execution

-- `memcmp(a, b, 40)` finds no difference.
unfoldable pub same_hash : ℕ → List ℕ → List ℕ → Bool
same_hash zero a b = true
same_hash (suc n) (x ∷ a) (y ∷ b) = x == y && same_hash n a b
same_hash (suc n) _ _ = false

-- The download has ended.
unfoldable pub check_download : (List ℕ → List ℕ) → Option Text → Option Result → Execution
unfolding hash2ascii same_hash
check_download sha1 hash none = downloads
check_download sha1 hash (some r) = elim r.res [
  | httpr_ok ↦
      let bytes = take r.size (elim r.content [ none ↦ [] | some c ↦ c ]) in
      elim hash [
        | none ↦ crashes
        | some expected ↦
            if same_hash 40 (hash2ascii (sha1 bytes)) expected then runs bytes else returns_false
      ]
  | _ ↦ returns_false
]

-- From the request on; `http_get_state` says whether the client's thread still runs.
unfoldable pub download :
    (ℕ → ℕ → ℕ) → Sscanf → Text → (List ℕ → List ℕ) → Net → UpdateInfo → Http → Execution
unfolding check_download
download millisecs scan agent sha1 net i h = elim i.uri [
  | none ↦ crashes
  | some uri ↦ elim (http_request uri (4 * 1024 * 1024) h) [
    | none ↦ crashes
    | some (false, _) ↦ returns_false
    | some (true, t) ↦ elim (http_func millisecs scan agent net t) [
      | none ↦ downloads
      | some u ↦
          if not u.running then returns_false else check_download sha1 i.hash (http_get_result u).0
    ]
  ]
]

-- The client's state behind the call is left out.
unfoldable pub update_execute :
    (ℕ → ℕ → ℕ)
    → Sscanf
    → Text
    → (List ℕ → List ℕ)
    → Bool
    → Net
    → Update
    → Http
    → Execution × Update
unfolding download
update_execute millisecs scan agent sha1 confirmed net s h =
    let idle : Update = record s { us = update_idle; info = none } in
    elim s.us [
      | update_can_update ↦ elim s.info [
        | none ↦ (crashes, idle)
        | some i ↦
            if not confirmed
            then (returns_false, idle)
            else (download millisecs scan agent sha1 net i h, idle)
      ]
      | _ ↦ (returns_false, s)
    ]
