-- ===== src/Apps/Entry.antt =====
-- Applications, and how one is read from the device.
use hbc.Base.{
  ℕ, ◌*◌, Bool, false, ◌||◌, Option, none, some, [], ◌∷◌, ◌++◌, if◌then◌else◌, ltb, ◌==◌,
}
use hbc.Reloc.Area.{ld_max_size}
use hbc.Apps.Text.{Text}
use Prim.Native.Char.{code}
use Prim.Native.String.{String}

-- The code points of a text: its bytes, since every literal here is ASCII.
abbrev pub codes : String → Text
codes String.[] = []
codes (String.◌∷◌ c s) = code c ∷ codes s

-- `app_entry_type`.
pub data EntryType : Type 0 where
  boot_elf boot_dol theme : EntryType

-- The fields of `meta_info` that appentry.c and loader.c read; a `release_date` of 0 is none.
pub record Meta : Type 0 where
  pub name : Option Text
  pub release_date : ℕ
  pub args : Option Text

-- `app_entry`. `ptr` is its address, which `pmalloc` chose; `icon` says whether it is not NULL.
pub record AppEntry : Type 0 where
  pub ptr : ℕ
  pub type : EntryType
  pub size : ℕ
  pub dirname : Text
  pub icon : Bool
  pub meta : Option Meta

abbrev pub max_theme_zip_size : ℕ
max_theme_zip_size = 20 * 1024 * 1024

abbrev pub app_path : Text
app_path = codes "/apps"

abbrev pub app_fn_boot_elf : Text
app_fn_boot_elf = codes "boot.elf"

abbrev pub app_fn_boot_dol : Text
app_fn_boot_dol = codes "boot.dol"

abbrev pub app_fn_theme : Text
app_fn_theme = codes "theme.zip"

abbrev pub app_fn_meta : Text
app_fn_meta = codes "meta.xml"

abbrev pub app_fn_icon : Text
app_fn_icon = codes "icon.png"

-- The file system, with the parsers of the two optional files: what `stat` gives as `st_size`,
-- `meta_parse`, and whether `tex_from_png_file` gives a texture.
pub record Files : Type 0 where
  pub stat : Text → Option ℕ
  pub meta_parse : Text → Option Meta
  pub tex_from_png_file : Text → Bool

-- `sprintf(tmp, "%s/%s/%s", app_path, dirname, file)`.
unfoldable pub path_of : Text → Text → Text
path_of dirname file = app_path ++ (b'/' ∷ (dirname ++ (b'/' ∷ file)))

-- The boot file: its type and size.
unfoldable pub boot_file : Files → Text → Option (EntryType × ℕ)
unfolding path_of
boot_file fs dirname = elim (fs.stat (path_of dirname app_fn_boot_elf)) [
  | some size ↦ some (boot_elf, size)
  | none ↦ elim (fs.stat (path_of dirname app_fn_boot_dol)) [
    | some size ↦ some (boot_dol, size)
    | none ↦ elim (fs.stat (path_of dirname app_fn_theme)) [
      | none ↦ none
      | some size ↦ if ltb max_theme_zip_size size then none else some (theme, size)
    ]
  ]
]

-- `app_entry_load_single`; `ptr` is what `pmalloc` returns.
unfoldable pub app_entry_load_single : Files → ℕ → Text → Option AppEntry
unfolding boot_file path_of
app_entry_load_single fs ptr dirname = elim (boot_file fs dirname) [
  | none ↦ none
  | some (type, size) ↦
      if size == 0 || ltb ld_max_size size
      then none
      else some (record {
        ptr = ptr;
        type = type;
        size = size;
        dirname = dirname;
        icon = elim (fs.stat (path_of dirname app_fn_icon)) [
          | none ↦ false
          | some _ ↦ fs.tex_from_png_file (path_of dirname app_fn_icon)
        ];
        meta = elim (fs.stat (path_of dirname app_fn_meta)) [
          | none ↦ none
          | some _ ↦ fs.meta_parse (path_of dirname app_fn_meta)
        ];
      })
]
