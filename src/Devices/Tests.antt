-- ===== src/Devices/Tests.antt =====
-- Runs with a card and a USB disk.
use hbc.Base.{◌≡◌, refl, arith, true, false, ◌||◌, List, [], ◌∷◌, ◌++◌, none, some, ◌==◌}
use hbc.Apps.Text.{Text, Sign}
use hbc.Apps.Order.{sort_name}
use hbc.Apps.Entry.{AppEntry, boot_elf, Files, codes, app_entry_load_single}
use hbc.Apps.Table.{Apps, filter_all, no_slots}
use hbc.Devices.{
  Ae, cmd_idle, cmd_pollstatus, act_none, World, app_entry_poll_status, app_entry_get_filename,
  device_name, serve, scan,
}
use hbc.Devices.Poll.{IsOk, detected}
use hbc.Devices.Reachable.{
  IsStart, Reachable, started, next, serves, polls, Reachable-IsOk, Reachable-poll,
}
use hbc.Devices.Scanned.{ScanRun, scan-ScanRun}
use hbc.Devices.Named.{app_entry_get_filename-app_entry_load_single}

-- The order of the directory will do here.
unsorted : (AppEntry → AppEntry → Sign) → List AppEntry → List AppEntry
unsorted cmp es = es

abbrev no_apps : Apps
no_apps = record {
  entries_all = no_slots;
  entry_count_all = 0;
  entries = [];
  current_filter = filter_all;
  current_sort = sort_name;
  cmp_descending = false;
}

abbrev fresh : Ae
fresh = record {
  running = true;
  cmd = cmd_idle;
  action = act_none;
  status = λ i. false;
  umount = false;
  mount = none;
  last_status = λ i. false;
  device_active = none;
  device_prefered = none;
  settings_device = none;
  apps = no_apps;
}

-- Every file has 100 bytes; there are no icons.
abbrev small_files : Files
small_files = record {
  stat = λ path. some 100;
  meta_parse = λ path. none;
  tex_from_png_file = λ path. false;
}

-- Devices 1 and 2 are there, and only 1 mounts.
abbrev usb_world : World
usb_world = record {
  is_inserted = λ i. i == 1 || i == 2;
  startup = λ i. true;
  fat_mount = λ n i. i == 1;
  files = small_files;
  dir = none;
}

abbrev asked_poll : Ae
asked_poll = record fresh { cmd = cmd_pollstatus }

fresh-IsStart : IsStart fresh
fresh-IsStart = record {
  no_active = refl;
  no_prefered = refl;
  no_mount = refl;
  unseen = λ i. refl;
  empty = record { slots = refl; counted = refl };
}

asked_poll-Reachable : Reachable unsorted asked_poll
unfolding app_entry_poll_status
asked_poll-Reachable = next fresh asked_poll (started fresh fresh-IsStart) (polls true)

after_poll-Reachable : Reachable unsorted (serve unsorted usb_world asked_poll)
after_poll-Reachable =
    next asked_poll (serve unsorted usb_world asked_poll) asked_poll-Reachable
      (serves usb_world refl)

Reachable-IsOk_example : IsOk (serve unsorted usb_world asked_poll)
Reachable-IsOk_example =
    Reachable-IsOk unsorted (serve unsorted usb_world asked_poll) after_poll-Reachable

Reachable-poll_example :
    ((serve unsorted usb_world asked_poll).status 2 ≡ detected usb_world 2 asked_poll)
    × ((serve unsorted usb_world asked_poll).last_status 2 ≡ detected usb_world 2 asked_poll)
Reachable-poll_example =
    Reachable-poll unsorted usb_world asked_poll 2 asked_poll-Reachable refl (omega arith)

-- Asked to use the card that does not mount, a scan takes the USB disk.
abbrev asked_card : Ae
asked_card = record fresh { mount = some 2 }

scan-asked_card : (scan unsorted usb_world asked_card).device_active ≡ some 1
unfolding scan
scan-asked_card = refl

scan-ScanRun_example : ScanRun unsorted usb_world asked_card (scan unsorted usb_world asked_card)
scan-ScanRun_example = scan-ScanRun unsorted usb_world asked_card

abbrev loaded_app : AppEntry
loaded_app = record {
  ptr = 4096;
  type = boot_elf;
  size = 100;
  dirname = codes "alpha";
  icon = false;
  meta = none;
}

loaded_app_lem : app_entry_load_single small_files 4096 (codes "alpha") ≡ some loaded_app
unfolding app_entry_load_single
loaded_app_lem = refl

app_entry_get_filename-app_entry_load_single_example :
    (path : Text) × (app_entry_get_filename loaded_app (record fresh { device_active = some 1 })
      ≡ some (device_name 1 ++ (b':' ∷ path)))
    × (small_files.stat path ≡ some 100)
app_entry_get_filename-app_entry_load_single_example =
    app_entry_get_filename-app_entry_load_single small_files 4096 (codes "alpha") loaded_app 1
      (record fresh { device_active = some 1 }) loaded_app_lem refl
