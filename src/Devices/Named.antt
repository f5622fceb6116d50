-- ===== src/Devices/Named.antt =====
-- The file that is opened for an application.
use hbc.Base.{ℕ, ◌≡◌, arith, none, some, ◌++◌, ◌∷◌, subst, sym, ap}
use hbc.Apps.Text.{Text}
use hbc.Apps.Entry.{
  AppEntry, EntryType, boot_elf, boot_dol, theme, Files, path_of, boot_file, app_entry_load_single,
}
use hbc.Devices.{Ae, device_name, boot_name, app_entry_get_filename}

-- The boot file has the name that goes with its type.
boot_file-stat :
    (fs : Files) (dirname : Text) (type : EntryType) (size : ℕ)
    → boot_file fs dirname ≡ some (type, size)
    → fs.stat (path_of dirname (boot_name type)) ≡ some size
unfolding boot_file
boot_file-stat fs dirname boot_elf size h = ground arith
boot_file-stat fs dirname boot_dol size h = ground arith
boot_file-stat fs dirname theme size h = ground arith

app_entry_load_single-boot :
    (fs : Files) (ptr : ℕ) (dirname : Text) (e : AppEntry)
    → app_entry_load_single fs ptr dirname ≡ some e
    → (boot_file fs dirname ≡ some (e.type, e.size)) × (e.dirname ≡ dirname)
unfolding app_entry_load_single
app_entry_load_single-boot fs ptr dirname e h = (ground arith, ground arith)

-- For an application that was loaded from its directory, while a device is active, the name given
-- is the device's, a colon, and the very path whose size the entry records.
pub app_entry_get_filename-app_entry_load_single :
    (fs : Files) (ptr : ℕ) (dirname : Text) (e : AppEntry) (i : ℕ) (s : Ae)
    → app_entry_load_single fs ptr dirname ≡ some e
    → s.device_active ≡ some i
    → (path : Text) × (app_entry_get_filename e s ≡ some (device_name i ++ (b':' ∷ path)))
      × (fs.stat path ≡ some e.size)
unfolding app_entry_get_filename path_of
app_entry_get_filename-app_entry_load_single fs ptr dirname e i s h active =
    let boot = app_entry_load_single-boot fs ptr dirname e h in
    (
      path_of dirname (boot_name e.type),
      subst
          (λ o.
            elim o [ none ↦ none | some j ↦ some (name_of j) ]
            ≡ some (device_name i ++ (b':' ∷ path_of dirname (boot_name e.type))))
          (sym active)
          (ap (λ d. some (device_name i ++ (b':' ∷ path_of d (boot_name e.type)))) boot.1),
      boot_file-stat fs dirname e.type e.size boot.0,
    )
  where
    name_of : ℕ → Text
    name_of j = device_name j ++ (b':' ∷ path_of e.dirname (boot_name e.type))
