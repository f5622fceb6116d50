-- ===== src/Apps/Table.antt =====
-- The tables of applications: `entries_all`, with holes, and `entries`, what the browser shows.
--
-- `qsort` is the C library's: a parameter, by its comparison. The calls of `free` on what a slot
-- held are not modelled.
pub mod Slots
pub mod Runs
pub mod Counted
pub mod Unique
pub mod Visible
use hbc.Base.{
  ℕ, zero, suc, ◌+◌, ◌-◌, Bool, true, false, not, ◌||◌, ◌&&◌, Option, none, some, List, [], ◌∷◌,
  ◌++◌, if◌then◌else◌, ltb, leb, ◌==◌, length, replicate,
}
use hbc.Base.Word.{add32, sub32}
use hbc.Apps.Text.{Text, Sign, is_zero, strcasecmp}
use hbc.Apps.Entry.{AppEntry, Files, app_entry_load_single}
use hbc.Apps.Order.{AppSort, sort_name, sort_date, sort_size, cmp_app_entry}

abbrev pub max_entries : ℕ
max_entries = 1024

-- `app_filter`.
pub data AppFilter : Type 0 where
  filter_all filter_iconsonly filter_dateonly : AppFilter

-- `entries` holds the cells below `entry_count`: the others are NULL.
pub record Apps : Type 0 where
  pub entries_all : List (Option AppEntry)
  pub entry_count_all : ℕ
  pub entries : List AppEntry
  pub current_filter : AppFilter
  pub current_sort : AppSort
  pub cmp_descending : Bool

-- The switch of `app_entry_filter`: an entry that is not skipped.
unfoldable pub passes : AppFilter → AppEntry → Bool
passes filter_all e = true
passes filter_iconsonly e = e.icon
passes filter_dateonly e = elim e.meta [ none ↦ false | some _ ↦ true ]

-- The loop of `app_entry_filter` over `entries_all`.
unfoldable pub collect : AppFilter → List (Option AppEntry) → List AppEntry
unfolding passes
collect f [] = []
collect f (none ∷ slots) = collect f slots
collect f (some e ∷ slots) = if passes f e then e ∷ collect f slots else collect f slots

-- The first slot whose entry passes the test becomes NULL; none if there is no such slot.
unfoldable pub clear_first :
    (AppEntry → Bool) → List (Option AppEntry) → Option (List (Option AppEntry))
clear_first test [] = none
clear_first test (slot ∷ slots) = elim slot [
  | none ↦ elim (clear_first test slots) [ none ↦ none | some rest ↦ some (none ∷ rest) ]
  | some e ↦ elim (test e) [
    | true ↦ some (none ∷ slots)
    | false ↦ elim (clear_first test slots) [ none ↦ none | some rest ↦ some (some e ∷ rest) ]
  ]
]

-- The last loop of `app_entry_add`: the first NULL slot takes the entry.
unfoldable pub fill_first : AppEntry → List (Option AppEntry) → Option (List (Option AppEntry))
fill_first new [] = none
fill_first new (none ∷ slots) = some (some new ∷ slots)
fill_first new (some e ∷ slots) = elim (fill_first new slots) [
  | none ↦ none
  | some rest ↦ some (some e ∷ rest)
]

abbrev pub no_slots : List (Option AppEntry)
no_slots = replicate max_entries none

-- `app_entry_set_sort`; the copy to `settings` is left out.
unfoldable pub app_entry_set_sort : AppSort → Apps → Apps
app_entry_set_sort sort_date s = record s {
  cmp_descending = true;
  current_filter = filter_dateonly;
  current_sort = sort_date;
}
app_entry_set_sort sort_size s = record s { current_sort = sort_size }
app_entry_set_sort sort_name s = record s {
  cmp_descending = false;
  current_filter = filter_all;
  current_sort = sort_name;
}

-- `app_entries_free`.
unfoldable pub app_entries_free : Apps → Apps
app_entries_free s = record s { entries_all = no_slots; entry_count_all = 0; entries = [] }

-- A directory entry: `d_name`, and whether `d_type` is DT_DIR.
pub record DirEntry : Type 0 where
  pub d_name : Text
  pub is_dir : Bool

-- A name that is empty or starts with a dot.
abbrev pub is_hidden : Text → Bool
is_hidden [] = true
is_hidden (c ∷ cs) = c == b'.'

-- The loop of `app_entry_load_all` over the directory, which pairs each entry with the address that
-- `pmalloc` would give; `n` is `entry_count_all`. It returns the entries in order of their slots.
unfoldable pub read_entries : Files → List (ℕ × DirEntry) → ℕ → List AppEntry
read_entries fs [] n = []
read_entries fs ((ptr, d) ∷ ds) n = elim (is_hidden d.d_name || not d.is_dir) [
  | true ↦ read_entries fs ds n
  | false ↦ elim (app_entry_load_single fs ptr d.d_name) [
    | none ↦ read_entries fs ds n
    | some e ↦ elim (leb max_entries (n + 1)) [
      | true ↦ e ∷ []
      | false ↦ e ∷ read_entries fs ds (n + 1)
    ]
  ]
]

-- Entries in the slots from the first on, and NULL behind them.
unfoldable pub put_entries : List AppEntry → List (Option AppEntry) → List (Option AppEntry)
put_entries [] slots = slots
put_entries (e ∷ es) [] = []
put_entries (e ∷ es) (slot ∷ slots) = some e ∷ put_entries es slots

-- `app_entry_find`.
unfoldable pub find_entry : Text → List AppEntry → Option AppEntry
find_entry dirname [] = none
find_entry dirname (e ∷ es) =
    if is_zero (strcasecmp e.dirname dirname) then some e else find_entry dirname es

-- The first loop of `app_entry_add`: whether an entry of that directory was dropped.
unfoldable pub drop_old : Text → Apps → Bool × Apps
unfolding clear_first
drop_old dirname s =
    elim (clear_first (λ e. is_zero (strcasecmp e.dirname dirname)) s.entries_all) [
      | none ↦ (false, s)
      | some slots ↦
          (true, record s { entries_all = slots; entry_count_all = sub32 s.entry_count_all 1 })
    ]

-- From the load on: the entry, whether a slot took it, and the tables.
unfoldable pub insert_new : Files → ℕ → Text → Apps → Option AppEntry × Bool × Apps
unfolding fill_first
insert_new fs ptr dirname s =
    if leb max_entries s.entry_count_all
    then (none, false, s)
    else elim (app_entry_load_single fs ptr dirname) [
      | none ↦ (none, false, s)
      | some e ↦ elim (fill_first e s.entries_all) [
        | none ↦ (some e, false, s)
        | some slots ↦ (
          some e,
          true,
          record s { entries_all = slots; entry_count_all = add32 s.entry_count_all 1 },
        )
      ]
    ]

module _ (qsort : (AppEntry → AppEntry → Sign) → List AppEntry → List AppEntry) where
  -- `app_entry_filter`.
  unfoldable pub app_entry_filter : AppFilter → Apps → Apps
  app_entry_filter f s =
      let shown = collect f s.entries_all in
      record s {
        entries =
            if length shown == 0
            then shown
            else qsort (cmp_app_entry s.current_sort s.cmp_descending) shown;
        current_filter = f;
      }

  -- `app_entry_remove`: `app` is an address that is not NULL.
  unfoldable pub app_entry_remove : ℕ → Apps → Bool × Apps
  unfolding app_entry_filter clear_first
  app_entry_remove app s = elim (clear_first (λ e. e.ptr == app) s.entries_all) [
    | none ↦ (false, s)
    | some slots ↦ (
      true,
      app_entry_filter s.current_filter
          (record s { entries_all = slots; entry_count_all = sub32 s.entry_count_all 1 }),
    )
  ]

  -- `app_entry_add`; `ptr` is what `pmalloc` would give.
  unfoldable pub app_entry_add : Files → ℕ → Text → Apps → Option AppEntry × Apps
  unfolding app_entry_filter drop_old insert_new
  app_entry_add fs ptr dirname s =
      let (dropped, s') = drop_old dirname s in
      let (entry, added, s'') = insert_new fs ptr dirname s' in
      (entry, if dropped || added then app_entry_filter s''.current_filter s'' else s'')

  -- `app_entry_load_all`: `none` when the directory cannot be opened.
  unfoldable pub app_entry_load_all : Files → Option (List (ℕ × DirEntry)) → Apps → Apps
  unfolding app_entry_filter app_entries_free read_entries put_entries
  app_entry_load_all fs none s = app_entries_free s
  app_entry_load_all fs (some ds) s =
      let es = read_entries fs ds 0 in
      app_entry_filter s.current_filter (record (app_entries_free s) {
        entries_all = put_entries es no_slots;
        entry_count_all = length es;
      })
