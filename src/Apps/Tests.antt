-- ===== src/Apps/Tests.antt =====
-- Runs over a device with one ELF and one theme.
use mathlib.Core.List.{Mem, Perm}
use mathlib.Core.List.Perm
use hbc.Base.{
  ◌&&◌, List, ◌==◌, ◌≡◌, ◌↔◌, refl, Bool, true, false, [], ◌∷◌, none, some, ℕ, arith, get_elem?,
  if◌then◌else◌, replicate,
}
use hbc.Apps.Text.{Text, Sign, negative, zero_sign, positive, flip, lower}
use hbc.Apps.Entry.{AppEntry, EntryType, boot_elf, theme, Files, codes, app_entry_load_single}
use hbc.Apps.Order.{sort_name, sort_size, cmp_app_entry}
use hbc.Apps.Order.Flip.{cmp_app_entry-flip}
use hbc.Apps.Table.{
  Apps, filter_all, DirEntry, passes, collect, app_entry_filter, app_entry_add, app_entry_remove,
}
use hbc.Apps.Table.Counted.{IsCounted, app_entry_add-IsCounted}
use hbc.Apps.Table.Unique.{IsUnique, app_entry_add-IsUnique}
use hbc.Apps.Table.Visible.{IsHeld, app_entry_filter-Mem}

-- An insertion sort in place of `qsort`.
insert_by : (AppEntry → AppEntry → Sign) → AppEntry → List AppEntry → List AppEntry
insert_by cmp x [] = x ∷ []
insert_by cmp x (y ∷ ys) = elim (cmp x y) [ positive ↦ y ∷ insert_by cmp x ys | _ ↦ x ∷ y ∷ ys ]

sort_by : (AppEntry → AppEntry → Sign) → List AppEntry → List AppEntry
unfolding insert_by
sort_by cmp [] = []
sort_by cmp (x ∷ xs) = insert_by cmp x (sort_by cmp xs)

insert_by-perm :
    (cmp : AppEntry → AppEntry → Sign) (x : AppEntry) (ys : List AppEntry)
    → Perm (insert_by cmp x ys) (x ∷ ys)
unfolding insert_by
insert_by-perm cmp x [] = Perm.refl (x ∷ [])
insert_by-perm cmp x (y ∷ ys) =
    elim (cmp x y)
      as (λ s. Perm (elim s [ positive ↦ y ∷ insert_by cmp x ys | _ ↦ x ∷ y ∷ ys ]) (x ∷ y ∷ ys)) [
        | positive ↦ Perm.trans (Perm.cons y (insert_by-perm cmp x ys)) (Perm.swap x y ys)
        | negative ↦ Perm.refl (x ∷ y ∷ ys)
        | zero_sign ↦ Perm.refl (x ∷ y ∷ ys)
      ]

sort_by-perm : (cmp : AppEntry → AppEntry → Sign) (xs : List AppEntry) → Perm (sort_by cmp xs) xs
unfolding sort_by
sort_by-perm cmp [] = Perm.refl []
sort_by-perm cmp (x ∷ xs) =
    Perm.trans (insert_by-perm cmp x (sort_by cmp xs)) (Perm.cons x (sort_by-perm cmp xs))

same_text : Text → Text → Bool
same_text [] [] = true
same_text (x ∷ xs) (y ∷ ys) = x == y && same_text xs ys
same_text _ _ = false

abbrev alpha_elf : Text
alpha_elf = codes "/apps/alpha/boot.elf"

abbrev beta_theme : Text
beta_theme = codes "/apps/Beta/theme.zip"

-- Two directories that hold something to run, and no icons or descriptions.
abbrev device : Files
unfolding same_text
device = record {
  stat = λ p.
      if same_text p alpha_elf
      then some 1000
      else if same_text p beta_theme
      then some 2000
      else none;
  meta_parse = λ p. none;
  tex_from_png_file = λ p. false;
}

abbrev plain_entry : ℕ → EntryType → ℕ → Text → AppEntry
plain_entry ptr type size dirname = record {
  ptr = ptr;
  type = type;
  size = size;
  dirname = dirname;
  icon = false;
  meta = none;
}

load_alpha :
    app_entry_load_single device 7 (codes "alpha")
    ≡ some (plain_entry 7 boot_elf 1000 (codes "alpha"))
unfolding app_entry_load_single same_text
load_alpha = refl

load_beta :
    app_entry_load_single device 8 (codes "Beta") ≡ some (plain_entry 8 theme 2000 (codes "Beta"))
unfolding app_entry_load_single same_text
load_beta = refl

abbrev two_apps : Apps
two_apps = record {
  entries_all =
      some (plain_entry 1 boot_elf 1000 (codes "alpha"))
      ∷ none
      ∷ some (plain_entry 2 theme 2000 (codes "BETA"))
      ∷ replicate 1021 none;
  entry_count_all = 2;
  entries = [];
  current_filter = filter_all;
  current_sort = sort_name;
  cmp_descending = false;
}

two_apps-IsCounted : IsCounted two_apps
two_apps-IsCounted = record { slots = refl; counted = refl }

two_apps-IsUnique : IsUnique two_apps.entries_all
unfolding lower
two_apps-IsUnique = ((λ e. ground arith, tt), (tt, tt))

app_entry_add-IsCounted_example :
    IsCounted (app_entry_add sort_by device 8 (codes "Beta") two_apps).1
    × ((e : AppEntry)
        → (app_entry_add sort_by device 8 (codes "Beta") two_apps).0 ≡ some e
        → (i : ℕ) × (get_elem?
              (app_entry_add sort_by device 8 (codes "Beta") two_apps).1.entries_all
              i
            ≡ some (some e)))
app_entry_add-IsCounted_example =
    app_entry_add-IsCounted sort_by device 8 (codes "Beta") two_apps two_apps-IsCounted

abbrev directory : List (ℕ × DirEntry)
directory =
    (1, record { d_name = codes "."; is_dir = true })
    ∷ (2, record { d_name = codes "readme"; is_dir = false })
    ∷ (3, record { d_name = codes "alpha"; is_dir = true })
    ∷ (4, record { d_name = codes "Beta"; is_dir = true })
    ∷ []

app_entry_add-IsUnique_example :
    IsUnique (app_entry_add sort_by device 8 (codes "Beta") two_apps).1.entries_all
    × IsUnique (app_entry_remove sort_by 1 two_apps).1.entries_all
app_entry_add-IsUnique_example =
    app_entry_add-IsUnique sort_by device 8 1 (codes "Beta") two_apps two_apps-IsUnique

abbrev alpha : AppEntry
alpha = plain_entry 1 boot_elf 1000 (codes "alpha")

app_entry_filter-Mem_example :
    (Mem alpha (app_entry_filter sort_by filter_all two_apps).entries
      ↔ ∥ (IsHeld alpha two_apps.entries_all × (passes filter_all alpha ≡ true)) ∥₁)
    × Perm
        (app_entry_filter sort_by filter_all two_apps).entries
        (collect filter_all two_apps.entries_all)
app_entry_filter-Mem_example = app_entry_filter-Mem sort_by sort_by-perm filter_all two_apps alpha

abbrev dated : ℕ → AppEntry
dated ptr = record {
  ptr = ptr;
  type = boot_elf;
  size = 10;
  dirname = codes "alpha";
  icon = false;
  meta = some (record { name = none; release_date = 20100101; args = none });
}

cmp_app_entry-flip_example :
    cmp_app_entry sort_size true (dated 2) alpha
    ≡ flip (cmp_app_entry sort_size true alpha (dated 2))
cmp_app_entry-flip_example =
    cmp_app_entry-flip sort_size true alpha (dated 2) (omega arith) (omega arith) tt
