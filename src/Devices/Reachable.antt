-- ===== src/Devices/Reachable.antt =====
-- Every state that the two threads reach, whatever the drivers answer and however the calls fall.
use hbc.Base.{
  ℕ, ◌≡◌, ◌<◌, refl, arith, Bool, true, false, not, ◌&&◌, Bool-cases, Option-cases, inl, inr,
  Option, none, some, List, ltb,
}
use hbc.Apps.Text.{Sign}
use hbc.Apps.Entry.{AppEntry}
use hbc.Apps.Table.{app_entry_remove, app_entry_add}
use hbc.Apps.Entry.{Files}
use hbc.Apps.Text.{Text}
use hbc.Apps.Table.Counted.{
  IsCounted, app_entry_load_all-IsCounted, app_entry_add-IsCounted, app_entry_remove-IsCounted,
}
use hbc.Devices.{
  Ae, cmd_idle, cmd_exit, cmd_scan, cmd_pollstatus, World, device_count, poll_from, load_active,
  scan, serve, app_entry_scan, app_entry_poll_status, app_entry_action, app_entry_set_prefered,
  app_entry_set_device,
}
use hbc.Devices.Poll.{IsOk, detected, poll_from-detected}
use hbc.Devices.Kept.{choose-IsOk, lose-IsOk, poll-IsOk, SameCore, same-IsOk}

-- The state when the thread has started, before any application is known.
pub record IsStart (s : Ae) : Type 0 where
  pub no_active : s.device_active ≡ none
  pub no_prefered : s.device_prefered ≡ none
  pub no_mount : s.mount ≡ none
  pub unseen : (i : ℕ) → s.last_status i ≡ false
  pub empty : IsCounted s.apps

module _ (qsort : (AppEntry → AppEntry → Sign) → List AppEntry → List AppEntry) where
  -- The thread serves a command, or the main thread calls a function.
  pub data Step (s : Ae) : Ae → Type 0 where
    serves : (w : World) → s.running ≡ true → Step s (serve qsort w s)
    scans : (free : Bool) → Step s (app_entry_scan free s)
    polls : (free : Bool) → Step s (app_entry_poll_status free s)
    acts : (free : Bool) → Step s (app_entry_action free s).1
    prefers : (device : Option ℕ) → Step s (app_entry_set_prefered device s)
    sets : (device : Option ℕ) → Step s (app_entry_set_device device s)
    adds :
        (fs : Files) (ptr : ℕ) (dirname : Text)
        → Step s (record s { apps = (app_entry_add qsort fs ptr dirname s.apps).1 })
    removes : (app : ℕ) → Step s (record s { apps = (app_entry_remove qsort app s.apps).1 })

  pub data Reachable : Ae → Type 0 where
    started : (s : Ae) → IsStart s → Reachable s
    next : (s t : Ae) → Reachable s → Step s t → Reachable t

  load_active-IsOk : (w : World) (s : Ae) → IsOk s → IsOk (load_active qsort w s)
  unfolding load_active
  load_active-IsOk w s v = elim (Option-cases s.device_active) [
    | inl e ↦ rw (e, load_active) v
    | inr (i, e) ↦
        rw (e, load_active)
          (record {
            active_in = v.active_in;
            prefered_in = v.prefered_in;
            mount_in = v.mount_in;
            shown = v.shown;
            counted = app_entry_load_all-IsCounted qsort w.files w.dir s.apps;
          })
  ]

  scan-IsOk : (w : World) (s : Ae) → IsOk s → IsOk (scan qsort w s)
  unfolding scan
  scan-IsOk w s v = elim (Option-cases s.device_active) [
    | inl free ↦ rw (free, scan) (load_active-IsOk w _ (choose-IsOk w s free v))
    | inr (i, e) ↦
        rw (e, scan)
          (elim (Bool-cases (not s.umount && w.is_inserted i)) [
            | inl stays ↦ rw stays v
            | inr gone ↦ rw gone (lose-IsOk i s e v)
          ])
  ]

  serve-IsOk : (w : World) (s : Ae) → IsOk s → IsOk (serve qsort w s)
  unfolding serve
  serve-IsOk w s v =
      elim s.cmd
        as (λ c. IsOk (elim c [
          | cmd_idle ↦ s
          | cmd_exit ↦ record s { running = false }
          | cmd_scan ↦ record (scan qsort w s) { cmd = cmd_idle }
          | cmd_pollstatus ↦ record (poll_from w device_count 0 s) { cmd = cmd_idle }
        ])) [
          | cmd_idle ↦ v
          | cmd_exit ↦ same-IsOk s _ (refl, refl, refl, refl, refl, refl) v
          | cmd_scan ↦
              same-IsOk (scan qsort w s) _ (refl, refl, refl, refl, refl, refl) (scan-IsOk w s v)
          | cmd_pollstatus ↦
              same-IsOk (poll_from w device_count 0 s) _ (refl, refl, refl, refl, refl, refl)
                (poll-IsOk w s v)
        ]

  set_prefered-IsOk : (device : Option ℕ) (s : Ae) → IsOk s → IsOk (app_entry_set_prefered device s)
  unfolding app_entry_set_prefered
  set_prefered-IsOk none s v = record {
    active_in = v.active_in;
    prefered_in = λ j e. cc;
    mount_in = v.mount_in;
    shown = v.shown;
    counted = v.counted;
  }
  set_prefered-IsOk (some i) s v = elim (Bool-cases (ltb 3 i)) [
    | inl out ↦ rw out (record {
      active_in = v.active_in;
      prefered_in = λ j e. cc;
      mount_in = v.mount_in;
      shown = v.shown;
      counted = v.counted;
    })
    | inr fits ↦ rw fits (record {
      active_in = v.active_in;
      prefered_in = λ j e. ground arith;
      mount_in = v.mount_in;
      shown = v.shown;
      counted = v.counted;
    })
  ]

  set_device-IsOk : (device : Option ℕ) (s : Ae) → IsOk s → IsOk (app_entry_set_device device s)
  unfolding app_entry_set_device
  set_device-IsOk none s v = v
  set_device-IsOk (some i) s v = elim (Bool-cases (ltb 3 i)) [
    | inl out ↦ rw out v
    | inr fits ↦ rw fits (record {
      active_in = v.active_in;
      prefered_in = v.prefered_in;
      mount_in = λ j e. ground arith;
      shown = v.shown;
      counted = v.counted;
    })
  ]

  apps-IsOk : (s t : Ae) → IsOk s → IsCounted t.apps → IsOk (record s { apps = t.apps })
  apps-IsOk s t v c = record {
    active_in = v.active_in;
    prefered_in = v.prefered_in;
    mount_in = v.mount_in;
    shown = v.shown;
    counted = c;
  }

  Step-SameCore-scan : (free : Bool) (s : Ae) → SameCore s (app_entry_scan free s)
  unfolding app_entry_scan
  Step-SameCore-scan free s = elim (Bool-cases (s.running && free)) [
    | inl e ↦ rw e (refl, refl, refl, refl, refl, refl)
    | inr e ↦ rw e (refl, refl, refl, refl, refl, refl)
  ]

  Step-IsOk : (s t : Ae) → Step s t → IsOk s → IsOk t
  unfolding app_entry_poll_status app_entry_action
  Step-IsOk s t (serves w on) v = serve-IsOk w s v
  Step-IsOk s t (scans free) v = same-IsOk s _ (Step-SameCore-scan free s) v
  Step-IsOk s t (polls free) v = elim (Bool-cases (s.running && free)) [
    | inl e ↦ rw e (same-IsOk s _ (refl, refl, refl, refl, refl, refl) v)
    | inr e ↦ rw e v
  ]
  Step-IsOk s t (acts free) v = elim (Bool-cases (s.running && free)) [
    | inl e ↦ rw e (same-IsOk s _ (refl, refl, refl, refl, refl, refl) v)
    | inr e ↦ rw e v
  ]
  Step-IsOk s t (prefers device) v = set_prefered-IsOk device s v
  Step-IsOk s t (sets device) v = set_device-IsOk device s v
  Step-IsOk s t (adds fs ptr dirname) v =
      apps-IsOk s t v (app_entry_add-IsCounted qsort fs ptr dirname s.apps v.counted).0
  Step-IsOk s t (removes app) v =
      apps-IsOk s t v (app_entry_remove-IsCounted qsort app s.apps v.counted)

  -- In every state that the two threads reach, the numbers of the active, the preferred and the
  -- requested device are in range or none, a device that is known to be there and is not active is
  -- shown as there, and the table of applications is counted.
  pub Reachable-IsOk : (s : Ae) → Reachable s → IsOk s
  Reachable-IsOk s (started _ h) = record {
    active_in = λ i e. absurd (ground (arith, h.no_active));
    prefered_in = λ i e. absurd (ground (arith, h.no_prefered));
    mount_in = λ i e. absurd (ground (arith, h.no_mount));
    shown = λ i. ground (arith, h.unseen i);
    counted = h.empty;
  }
  Reachable-IsOk s (next r _ h step) = Step-IsOk r s step (Reachable-IsOk r h)

  -- In every state that the two threads reach, a poll leaves, for each of the four devices, the
  -- status shown and the last status at what the drivers answered: a device that is active or was
  -- known to be there counts as there exactly when it says so, any other exactly when it can be
  -- started and says so.
  pub Reachable-poll :
      (w : World) (s : Ae) (i : ℕ)
      → Reachable s
      → s.cmd ≡ cmd_pollstatus
      → i < device_count
      → ((serve qsort w s).status i ≡ detected w i s)
        × ((serve qsort w s).last_status i ≡ detected w i s)
  unfolding serve
  Reachable-poll w s i r e h = rw (e, serve) (poll_from-detected w s i (Reachable-IsOk s r) h)
