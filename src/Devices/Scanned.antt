-- ===== src/Devices/Scanned.antt =====
-- What a scan does to the active device and to the table of applications.
use hbc.Base.{
  ℕ, ◌≡◌, refl, arith, true, false, not, ◌&&◌, ap, sym, Bool-cases, Option-cases, inl, inr, Option,
  none, some, List, ◌⊎◌, subst, if◌then◌else◌,
}
use hbc.Apps.Text.{Sign}
use hbc.Apps.Entry.{AppEntry}
use hbc.Apps.Table.{app_entry_load_all}
use hbc.Devices.{Ae, act_remove, act_add, World, choose, lose, load_active, scan}
use hbc.Devices.Chosen.{Choice, Chosen, choose-Chosen}

-- The ways of a scan. An active device that is there, and is not to be unmounted, stays, and
-- nothing changes. Another active device is lost: the applications stay until they are removed. With
-- no active device, one is chosen; its applications are loaded, and their arrival is announced.
pub data ScanRun (qsort : (AppEntry → AppEntry → Sign) → List AppEntry → List AppEntry) (w : World)
    (s : Ae) : Ae → Type 0 where
  stays :
      (i : ℕ)
      → s.device_active ≡ some i
      → s.umount ≡ false
      → w.is_inserted i ≡ true
      → ScanRun qsort w s s
  lost :
      (i : ℕ) (t : Ae)
      → s.device_active ≡ some i
      → (s.umount ≡ true) ⊎ (w.is_inserted i ≡ false)
      → t.device_active ≡ none
      → t.umount ≡ false
      → t.action ≡ act_remove
      → t.apps ≡ s.apps
      → ScanRun qsort w s t
  mounted :
      (i : ℕ) (t : Ae)
      → s.device_active ≡ none
      → Choice w s (some i)
      → t.device_active ≡ some i
      → t.action ≡ act_add
      → t.apps ≡ app_entry_load_all qsort w.files w.dir s.apps
      → ScanRun qsort w s t
  none_mounts :
      (t : Ae)
      → s.device_active ≡ none
      → Choice w s none
      → t.device_active ≡ none
      → t.action ≡ s.action
      → t.apps ≡ s.apps
      → ScanRun qsort w s t

module _ (qsort : (AppEntry → AppEntry → Sign) → List AppEntry → List AppEntry) where
  abbrev loaded_of : World → Ae → Option ℕ → Ae
  loaded_of w t o = elim o [
    | none ↦ t
    | some _ ↦ record t { apps = app_entry_load_all qsort w.files w.dir t.apps; action = act_add }
  ]

  load_active-ScanRun :
      (w : World) (s t : Ae)
      → s.device_active ≡ none
      → Chosen w s t
      → ScanRun qsort w s (load_active qsort w t)
  unfolding load_active
  load_active-ScanRun w s t free (c, same) = elim (Option-cases t.device_active) [
    | inl e ↦
        subst (λ o. ScanRun qsort w s (loaded_of w t o)) (sym e)
          (none_mounts t free (subst (Choice w s) e c) e same.2 same.1)
    | inr (i, e) ↦
        subst (λ o. ScanRun qsort w s (loaded_of w t o)) (sym e)
          (mounted i _ free (subst (Choice w s) e c) e refl
            (ap (app_entry_load_all qsort w.files w.dir) same.1))
  ]

  -- Every scan runs in one of four ways: the active device stays and nothing changes; it is lost,
  -- because it is gone or is to be unmounted, its removal is announced and the applications stay;
  -- with none active, the device asked for, else the preferred one, else the first that mounts
  -- becomes active, its applications are loaded and announced; or none mounts and the applications
  -- and the announcement stay.
  pub scan-ScanRun : (w : World) (s : Ae) → ScanRun qsort w s (scan qsort w s)
  unfolding scan lose
  scan-ScanRun w s = elim (Option-cases s.device_active) [
    | inl free ↦
        subst (λ o. ScanRun qsort w s (scanned o)) (sym free)
          (load_active-ScanRun w s (choose w s) free (choose-Chosen w s free))
    | inr (i, e) ↦
        subst (λ o. ScanRun qsort w s (scanned o)) (sym e)
          (elim (Bool-cases (not s.umount && w.is_inserted i)) [
            | inl same ↦ rw same (stays i e (ground arith) (ground arith))
            | inr gone ↦ rw gone (lost i _ e (lost_by i gone) refl refl refl refl)
          ])
  ]
    where
      scanned : Option ℕ → Ae
      scanned o = elim o [
        | some i ↦ if not s.umount && w.is_inserted i then s else lose i s
        | none ↦ load_active qsort w (choose w s)
      ]

      lost_by :
          (i : ℕ)
          → (not s.umount && w.is_inserted i) ≡ false
          → (s.umount ≡ true) ⊎ (w.is_inserted i ≡ false)
      lost_by i gone = elim (Bool-cases s.umount) [ inl e ↦ inl e | inr e ↦ inr (ground arith) ]
