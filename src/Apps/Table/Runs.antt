-- ===== src/Apps/Table/Runs.antt =====
-- What each operation does to the slots and their count.
use hbc.Base.{
  List, ◌==◌, ℕ, ◌≡◌, refl, Bool, true, false, Bool-cases, inl, inr, Option, none, some, leb,
}
use hbc.Base.Word.{add32, sub32}
use hbc.Apps.Text.{Text, Sign, is_zero, strcasecmp}
use hbc.Apps.Entry.{AppEntry, Files, app_entry_load_single}
use hbc.Apps.Table.{
  Apps, AppFilter, max_entries, clear_first, fill_first, app_entry_filter, app_entry_remove,
  drop_old, insert_new,
}
use hbc.Apps.Table.Slots.{
  SlotList, Cleared, Filled, IsFull, AllFail, ClearAnswer, FillAnswer, clear_first-ClearAnswer,
  fill_first-FillAnswer,
}

-- One slot was cleared, and the count went down.
pub record AfterClear (test : AppEntry → Bool) (s u : Apps) : Type 0 where
  pub cleared : Cleared test s.entries_all u.entries_all
  pub count : u.entry_count_all ≡ sub32 s.entry_count_all 1

-- One slot was filled, and the count went up.
pub record AfterFill (new : AppEntry) (s u : Apps) : Type 0 where
  pub filled : Filled new s.entries_all u.entries_all
  pub count : u.entry_count_all ≡ add32 s.entry_count_all 1

-- Slots and count are as they were.
pub record SameSlots (s u : Apps) : Type 0 where
  pub slots : u.entries_all ≡ s.entries_all
  pub count : u.entry_count_all ≡ s.entry_count_all

pub data ClearRun (test : AppEntry → Bool) (s : Apps) : Bool × Apps → Type 0 where
  absent : AllFail test s.entries_all → ClearRun test s (false, s)
  cleared : (u : Apps) → AfterClear test s u → ClearRun test s (true, u)

pub data InsertRun (fs : Files) (ptr : ℕ) (dirname : Text) (s : Apps)
    : Option AppEntry × Bool × Apps → Type 0 where
  refused : InsertRun fs ptr dirname s (none, false, s)
  lost :
      (e : AppEntry)
      → IsFull s.entries_all
      → leb max_entries s.entry_count_all ≡ false
      → InsertRun fs ptr dirname s (some e, false, s)
  filled :
      (e : AppEntry) (u : Apps)
      → app_entry_load_single fs ptr dirname ≡ some e
      → AfterFill e s u
      → InsertRun fs ptr dirname s (some e, true, u)

pub drop_old-ClearRun :
    (dirname : Text) (s : Apps)
    → ClearRun (λ e. is_zero (strcasecmp e.dirname dirname)) s (drop_old dirname s)
unfolding drop_old
drop_old-ClearRun dirname s =
    run (clear_first (λ e. is_zero (strcasecmp e.dirname dirname)) s.entries_all)
      (clear_first-ClearAnswer (λ e. is_zero (strcasecmp e.dirname dirname)) s.entries_all)
  where
    run :
        (o : Option SlotList)
        → ClearAnswer (λ e. is_zero (strcasecmp e.dirname dirname)) s.entries_all o
        → ClearRun
            (λ e. is_zero (strcasecmp e.dirname dirname))
            s
            (elim o [
              | none ↦ (false, s)
              | some slots ↦ (
                true,
                record s { entries_all = slots; entry_count_all = sub32 s.entry_count_all 1 },
              )
            ])
    run none a = absent a
    run (some slots) a = cleared _ (record { cleared = a; count = refl })

pub insert_new-InsertRun :
    (fs : Files) (ptr : ℕ) (dirname : Text) (s : Apps)
    → InsertRun fs ptr dirname s (insert_new fs ptr dirname s)
unfolding insert_new
insert_new-InsertRun fs ptr dirname s = elim (Bool-cases (leb max_entries s.entry_count_all)) [
  | inl full ↦ rw full refused
  | inr room ↦ rw room (run room (app_entry_load_single fs ptr dirname) refl)
]
  where
    place :
        (e : AppEntry) (o : Option SlotList)
        → leb max_entries s.entry_count_all ≡ false
        → app_entry_load_single fs ptr dirname ≡ some e
        → FillAnswer e s.entries_all o
        → InsertRun fs ptr dirname s (elim o [
          | none ↦ (some e, false, s)
          | some slots ↦ (
            some e,
            true,
            record s { entries_all = slots; entry_count_all = add32 s.entry_count_all 1 },
          )
        ])
    place e none room l a = lost e a room
    place e (some slots) room l a = filled e _ l (record { filled = a; count = refl })

    run :
        leb max_entries s.entry_count_all ≡ false
        → (o : Option AppEntry) → app_entry_load_single fs ptr dirname ≡ o
        → InsertRun fs ptr dirname s (elim o [
          | none ↦ (none, false, s)
          | some e ↦ elim (fill_first e s.entries_all) [
            | none ↦ (some e, false, s)
            | some slots ↦ (
              some e,
              true,
              record s { entries_all = slots; entry_count_all = add32 s.entry_count_all 1 },
            )
          ]
        ])
    run room none l = refused
    run room (some e) l =
        place e (fill_first e s.entries_all) room l (fill_first-FillAnswer e s.entries_all)

module _ (qsort : (AppEntry → AppEntry → Sign) → List AppEntry → List AppEntry) where
  pub app_entry_filter-SameSlots :
      (f : AppFilter) (s : Apps) → SameSlots s (app_entry_filter qsort f s)
  unfolding app_entry_filter
  app_entry_filter-SameSlots f s = record { slots = refl; count = refl }

  pub app_entry_remove-ClearRun :
      (app : ℕ) (s : Apps) → ClearRun (λ e. e.ptr == app) s (app_entry_remove qsort app s)
  unfolding app_entry_remove
  app_entry_remove-ClearRun app s =
      run (clear_first (λ e. e.ptr == app) s.entries_all)
        (clear_first-ClearAnswer (λ e. e.ptr == app) s.entries_all)
    where
      run :
          (o : Option SlotList)
          → ClearAnswer (λ e. e.ptr == app) s.entries_all o
          → ClearRun
              (λ e. e.ptr == app)
              s
              (elim o [
                | none ↦ (false, s)
                | some slots ↦ (
                  true,
                  app_entry_filter qsort s.current_filter (record s {
                    entries_all = slots;
                    entry_count_all = sub32 s.entry_count_all 1;
                  }),
                )
              ])
      run none a = absent a
      run (some slots) a = cleared _ (record { cleared = a; count = refl })
