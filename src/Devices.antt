-- ===== src/Devices.antt =====
-- channel/channelapp/source/appentry.c: the thread that mounts the storage devices and polls them.
--
-- The thread holds the lock while it works, so handling a command is one step. The drivers, the FAT
-- library and the directory are what a `World` says during that step. An `int` that names a device
-- is `none` when it is negative. `chdir`, `fatUnmount`, `shutdown` and the messages are left
-- out, and so is `loading`, which is set only while a command is served.
pub mod Poll
pub mod Kept
pub mod Reachable
pub mod Chosen
pub mod Scanned
pub mod Named
mod Tests
use hbc.Base.{
  ℕ, zero, suc, ◌+◌, Bool, true, false, not, ◌&&◌, Option, none, some, List, if◌then◌else◌, ltb,
  ◌==◌, ◌∷◌, ◌++◌,
}
use hbc.Apps.Text.{Text, Sign}
use hbc.Apps.Entry.{
  AppEntry, EntryType, boot_elf, boot_dol, theme, Files, codes, app_path, app_fn_boot_elf,
  app_fn_boot_dol, app_fn_theme,
}
use hbc.Apps.Table.{Apps, DirEntry, app_entry_load_all}

abbrev pub device_count : ℕ
device_count = 4

-- The names in `devices`.
abbrev pub device_name : ℕ → Text
device_name i =
    if i == 0
    then codes "sd"
    else if i == 1
    then codes "usb"
    else if i == 2
    then codes "carda"
    else codes "cardb"

-- `ae_cmd`.
pub data AeCmd : Type 0 where
  cmd_idle cmd_exit cmd_scan cmd_pollstatus : AeCmd

-- `ae_action`.
pub data AeAction : Type 0 where
  act_none act_remove act_add : AeAction

-- `ae_args` and the static variables beside it. The arrays are read below `device_count` only.
pub record Ae : Type 0 where
  pub running : Bool
  pub cmd : AeCmd
  pub action : AeAction
  pub status : ℕ → Bool
  pub umount : Bool
  pub mount : Option ℕ
  pub last_status : ℕ → Bool
  pub device_active : Option ℕ
  pub device_prefered : Option ℕ
  pub settings_device : Option ℕ
  pub apps : Apps

-- What the drivers answer during one command. `fat_mount` also depends on which of the three
-- attempts of a scan it is.
pub record World : Type 0 where
  pub is_inserted : ℕ → Bool
  pub startup : ℕ → Bool
  pub fat_mount : ℕ → ℕ → Bool
  pub files : Files
  pub dir : Option (List (ℕ × DirEntry))

abbrev pub set_at : ℕ → Bool → (ℕ → Bool) → ℕ → Bool
set_at i b f j = if j == i then b else f j

-- `_mount`.
unfoldable pub mount_device : (ℕ → Bool) → ℕ → Ae → Bool × Ae
mount_device mounts i s = (mounts i, record s { last_status = set_at i (mounts i) s.last_status })

-- The loop over all devices from index i on, until one is mounted.
unfoldable pub mount_first : (ℕ → Bool) → ℕ → ℕ → Ae → Ae
unfolding mount_device
mount_first mounts zero i s = s
mount_first mounts (suc n) i s =
    let (ok, s') = mount_device mounts i s in
    let rest = mount_first mounts n (i + 1) s' in
    if ok then record s' { device_active = some i } else rest

-- `if (_mount(i)) device_active = i`.
unfoldable pub try_mount : (ℕ → Bool) → ℕ → Ae → Ae
unfolding mount_device
try_mount mounts i s =
    let (ok, s') = mount_device mounts i s in
    if ok then record s' { device_active = some i } else s'

-- The three attempts, when no device is active.
unfoldable pub mount_asked : World → Ae → Ae
unfolding try_mount
mount_asked w s = elim s.mount [
  | none ↦ s
  | some i ↦ record (try_mount (w.fat_mount 0) i s) { mount = none }
]

unfoldable pub mount_prefered : World → Ae → Ae
unfolding try_mount
mount_prefered w s = elim s.device_active [
  | some _ ↦ s
  | none ↦ elim s.device_prefered [ none ↦ s | some i ↦ try_mount (w.fat_mount 1) i s ]
]

unfoldable pub mount_any : World → Ae → Ae
unfolding mount_first
mount_any w s = elim s.device_active [
  | some _ ↦ s
  | none ↦ mount_first (w.fat_mount 2) device_count 0 s
]

unfoldable pub choose : World → Ae → Ae
unfolding mount_asked mount_prefered mount_any
choose w s = mount_any w (mount_prefered w (mount_asked w s))

-- The active device i was removed, or is to be unmounted.
unfoldable pub lose : ℕ → Ae → Ae
lose i s = record s {
  umount = false;
  last_status = set_at i false s.last_status;
  device_active = none;
  action = act_remove;
}

-- The body of the loop for AE_CMD_POLLSTATUS on device i: it is the active one, it was seen before,
-- or neither.
unfoldable pub poll_active : World → ℕ → Ae → Ae
poll_active w i s = record s {
  status = set_at i (w.is_inserted i) s.status;
  last_status = set_at i (w.is_inserted i) s.last_status;
  umount = if not s.umount && not (w.is_inserted i) then true else s.umount;
}

unfoldable pub poll_seen : World → ℕ → Ae → Ae
poll_seen w i s =
    if not (w.is_inserted i)
    then record s { status = set_at i false s.status; last_status = set_at i false s.last_status }
    else s

unfoldable pub poll_new : World → ℕ → Ae → Ae
poll_new w i s =
    if not (w.startup i)
    then record s { status = set_at i false s.status; last_status = set_at i false s.last_status }
    else record s {
      status = set_at i (w.is_inserted i) s.status;
      last_status = set_at i (w.is_inserted i) s.last_status;
    }

abbrev pub is_active : ℕ → Ae → Bool
is_active i s = elim s.device_active [ none ↦ false | some a ↦ i == a ]

unfoldable pub poll_device : World → ℕ → Ae → Ae
unfolding poll_active poll_seen poll_new
poll_device w i s =
    if is_active i s
    then poll_active w i s
    else if s.last_status i
    then poll_seen w i s
    else poll_new w i s

unfoldable pub poll_from : World → ℕ → ℕ → Ae → Ae
unfolding poll_device
poll_from w zero i s = s
poll_from w (suc n) i s = poll_from w n (i + 1) (poll_device w i s)

module _ (qsort : (AppEntry → AppEntry → Sign) → List AppEntry → List AppEntry) where
  -- What follows a mount: the applications are loaded.
  unfoldable pub load_active : World → Ae → Ae
  load_active w s = elim s.device_active [
    | none ↦ s
    | some _ ↦ record s { apps = app_entry_load_all qsort w.files w.dir s.apps; action = act_add }
  ]

  -- AE_CMD_SCAN.
  unfoldable pub scan : World → Ae → Ae
  unfolding lose choose load_active
  scan w s = elim s.device_active [
    | some i ↦ if not s.umount && w.is_inserted i then s else lose i s
    | none ↦ load_active w (choose w s)
  ]

  -- The loop of `ae_func` from one wait to the next.
  unfoldable pub serve : World → Ae → Ae
  unfolding scan poll_from
  serve w s = elim s.cmd [
    | cmd_idle ↦ s
    | cmd_exit ↦ record s { running = false }
    | cmd_scan ↦ record (scan w s) { cmd = cmd_idle }
    | cmd_pollstatus ↦ record (poll_from w device_count 0 s) { cmd = cmd_idle }
  ]

-- The functions that the main thread calls. `free` says whether `LWP_MutexTryLock` got the lock.
unfoldable pub app_entry_scan : Bool → Ae → Ae
app_entry_scan free s = if s.running && free then record s { cmd = cmd_scan } else s

unfoldable pub app_entry_poll_status : Bool → Ae → Ae
app_entry_poll_status free s = if s.running && free then record s { cmd = cmd_pollstatus } else s

unfoldable pub app_entry_action : Bool → Ae → AeAction × Ae
app_entry_action free s =
    if s.running && free then (s.action, record s { action = act_none }) else (act_none, s)

-- `app_entry_get_status`: the states of the devices, and the active one.
unfoldable pub app_entry_get_status : Ae → (ℕ → Bool) × Option ℕ
app_entry_get_status s = (s.status, s.device_active)

unfoldable pub app_entry_set_prefered : Option ℕ → Ae → Ae
app_entry_set_prefered none s = record s { device_prefered = none }
app_entry_set_prefered (some i) s =
    if ltb 3 i
    then record s { device_prefered = none }
    else record s { device_prefered = some i; settings_device = some i }

unfoldable pub app_entry_set_device : Option ℕ → Ae → Ae
app_entry_set_device none s = s
app_entry_set_device (some i) s = if ltb 3 i then s else record s { umount = true; mount = some i }

unfoldable pub app_entry_get_path : Ae → Option Text
app_entry_get_path s = elim s.device_active [ none ↦ none | some i ↦ some (device_name i) ]

abbrev pub boot_name : EntryType → Text
boot_name boot_elf = app_fn_boot_elf
boot_name boot_dol = app_fn_boot_dol
boot_name theme = app_fn_theme

-- "%s:%s/%s/" and the name of the boot file.
unfoldable pub app_entry_get_filename : AppEntry → Ae → Option Text
app_entry_get_filename app s = elim s.device_active [
  | none ↦ none
  | some i ↦
      some
        (device_name i ++ (b':' ∷ app_path ++ (b'/' ∷ app.dirname ++ (b'/' ∷ boot_name app.type))))
]
