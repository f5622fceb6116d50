-- ===== src/Apps/Table/Counted.antt =====
-- `entry_count_all` is the number of slots that are not NULL.
use hbc.Base.{
  length-replicate, ap, sym, ◌∙◌, ℕ, zero, suc, ◌+◌, ◌≤◌, ◌<◌, ◌≡◌, refl, arith, Bool, ◌||◌,
  Bool-cases, inl, inr, Option, none, some, List, [], ◌∷◌, length, replicate, get_elem?,
}
use hbc.Apps.Text.{Text, Sign}
use hbc.Apps.Entry.{AppEntry, Files}
use hbc.Apps.Table.Slots.{SlotList, Cleared, Filled, IsFull, Filled-get_elem?}
use hbc.Apps.Table.Runs.{
  AfterClear, AfterFill, SameSlots, ClearRun, absent, cleared, InsertRun, refused, lost, filled,
  app_entry_remove-ClearRun, drop_old-ClearRun, insert_new-InsertRun, app_entry_filter-SameSlots,
}
use hbc.Apps.Table.{
  Apps, DirEntry, max_entries, no_slots, app_entries_free, read_entries, put_entries,
  app_entry_filter, app_entry_remove, drop_old, insert_new, app_entry_add, app_entry_load_all,
}

-- The slots that are not NULL.
abbrev pub count_some : SlotList → ℕ
count_some [] = 0
count_some (none ∷ slots) = count_some slots
count_some (some e ∷ slots) = suc (count_some slots)

pub record IsCounted (s : Apps) : Type 0 where
  pub slots : length s.entries_all ≡ max_entries
  pub counted : s.entry_count_all ≡ count_some s.entries_all

count_some-le-length : (slots : SlotList) → count_some slots ≤ length slots
count_some-le-length [] = omega arith
count_some-le-length (none ∷ slots) = omega (arith, count_some-le-length slots)
count_some-le-length (some e ∷ slots) = omega (arith, count_some-le-length slots)

-- One slot more, or less.
abbrev Grows : SlotList → SlotList → Type 0
Grows small big = (length big ≡ length small) × (count_some big ≡ suc (count_some small))

Grows-cons : (slot : Option AppEntry) (a b : SlotList) → Grows a b → Grows (slot ∷ a) (slot ∷ b)
Grows-cons none a b g = omega arith
Grows-cons (some e) a b g = omega arith

Cleared-Grows :
    {test : AppEntry → Bool} {slots rest : SlotList} → Cleared test slots rest → Grows rest slots
Cleared-Grows (Cleared.here e slots h) = (refl, refl)
Cleared-Grows (Cleared.later slot {slots} {rest} f c) = Grows-cons slot rest slots (Cleared-Grows c)

Filled-Grows : {new : AppEntry} {slots rest : SlotList} → Filled new slots rest → Grows slots rest
Filled-Grows (Filled.here slots) = (refl, refl)
Filled-Grows (Filled.later e {slots} {rest} f) = Grows-cons (some e) slots rest (Filled-Grows f)

IsFull-count : (slots : SlotList) → IsFull slots → count_some slots ≡ length slots
IsFull-count [] f = refl
IsFull-count (none ∷ slots) f = absurd f
IsFull-count (some e ∷ slots) f = omega (arith, IsFull-count slots f)

clear-IsCounted :
    {test : AppEntry → Bool} (s u : Apps) → AfterClear test s u → IsCounted s → IsCounted u
clear-IsCounted s u a v =
    let g = Cleared-Grows a.cleared in
    let most = count_some-le-length s.entries_all in
    record {
      slots = omega (arith, g, v.slots);
      counted = omega (arith, a.count, g, v.slots, v.counted);
    }

fill-IsCounted : {new : AppEntry} (s u : Apps) → AfterFill new s u → IsCounted s → IsCounted u
fill-IsCounted s u a v =
    let g = Filled-Grows a.filled in
    let most = count_some-le-length u.entries_all in
    record {
      slots = omega (arith, g, v.slots);
      counted = omega (arith, a.count, g, v.slots, v.counted);
    }

same-IsCounted : (s u : Apps) → SameSlots s u → IsCounted s → IsCounted u
same-IsCounted s u a v = record {
  slots = ap length a.slots ∙ v.slots;
  counted = a.count ∙ v.counted ∙ ap count_some (sym a.slots);
}

ClearRun-IsCounted :
    {test : AppEntry → Bool} {s : Apps} {r : Bool × Apps}
    → ClearRun test s r
    → IsCounted s
    → IsCounted r.1
ClearRun-IsCounted (absent _) v = v
ClearRun-IsCounted {s = s} (cleared u a) v = clear-IsCounted s u a v

InsertRun-IsCounted :
    {fs : Files} {ptr : ℕ} {dirname : Text} {s : Apps} {r : Option AppEntry × Bool × Apps}
    → InsertRun fs ptr dirname s r
    → IsCounted s
    → IsCounted r.2
InsertRun-IsCounted refused v = v
InsertRun-IsCounted (lost _ _ _) v = v
InsertRun-IsCounted {s = s} (filled e u _ a) v = fill-IsCounted s u a v

-- An entry that was loaded under a right count is never lost: a slot takes it.
InsertRun-held :
    {fs : Files} {ptr : ℕ} {dirname : Text} {s : Apps} {r : Option AppEntry × Bool × Apps}
    → InsertRun fs ptr dirname s r
    → IsCounted s
    → (e : AppEntry) → r.0 ≡ some e
    → (i : ℕ) × (get_elem? r.2.entries_all i ≡ some (some e))
InsertRun-held refused v e h = cc
InsertRun-held {s = s} (lost _ full room) v e h =
    absurd (ground (arith, IsFull-count s.entries_all full, v.slots, v.counted))
InsertRun-held (filled d u _ a) v e h =
    let (i, at) = Filled-get_elem? a.filled in
    let same : d ≡ e = cc in (i, at ∙ ap (λ x. some (some x)) same)

module _ (qsort : (AppEntry → AppEntry → Sign) → List AppEntry → List AppEntry) where
  -- If the table has 1024 slots and entry_count_all is the number of those filled, so it is after
  -- app_entry_remove.
  pub app_entry_remove-IsCounted :
      (app : ℕ) (s : Apps) → IsCounted s → IsCounted (app_entry_remove qsort app s).1
  app_entry_remove-IsCounted app s v = ClearRun-IsCounted (app_entry_remove-ClearRun qsort app s) v

  -- If the table has 1024 slots and entry_count_all is the number of those filled, so it is after
  -- app_entry_add, whether or not that dropped an old entry or found a new one; and an entry that
  -- it returns stands in a slot.
  pub app_entry_add-IsCounted :
      (fs : Files) (ptr : ℕ) (dirname : Text) (s : Apps)
      → IsCounted s
      → IsCounted (app_entry_add qsort fs ptr dirname s).1
        × ((e : AppEntry)
            → (app_entry_add qsort fs ptr dirname s).0 ≡ some e
            → (i : ℕ) × (get_elem? (app_entry_add qsort fs ptr dirname s).1.entries_all i
                ≡ some (some e)))
  unfolding app_entry_add
  app_entry_add-IsCounted fs ptr dirname s v =
      let d = drop_old dirname s in
      let after_drop : IsCounted d.1 = ClearRun-IsCounted (drop_old-ClearRun dirname s) v in
      let n = insert_new fs ptr dirname d.1 in
      let run = insert_new-InsertRun fs ptr dirname d.1 in
      let after_insert : IsCounted n.2 = InsertRun-IsCounted run after_drop in
      elim (Bool-cases (d.0 || n.1)) [
        | inl changed ↦ rw changed (
          same-IsCounted n.2 _ (app_entry_filter-SameSlots qsort n.2.current_filter n.2)
              after_insert,
          λ e h. unfold app_entry_filter in InsertRun-held run after_drop e h,
        )
        | inr same ↦ rw same (after_insert, λ e h. InsertRun-held run after_drop e h)
      ]

length-put_entries :
    (es : List AppEntry) (slots : SlotList) → length (put_entries es slots) ≡ length slots
unfolding put_entries
length-put_entries [] slots = refl
length-put_entries (e ∷ es) [] = refl
length-put_entries (e ∷ es) (slot ∷ slots) = ap suc (length-put_entries es slots)

count_some-no_slots : (n : ℕ) → count_some (replicate n none) ≡ 0
count_some-no_slots zero = refl
count_some-no_slots (suc n) = count_some-no_slots n

count_some-put_entries :
    (es : List AppEntry) (n : ℕ)
    → length es ≤ n
    → count_some (put_entries es (replicate n none)) ≡ length es
unfolding put_entries
count_some-put_entries [] n h = count_some-no_slots n
count_some-put_entries (e ∷ es) zero h = absurd (omega arith)
count_some-put_entries (e ∷ es) (suc n) h = ap suc (count_some-put_entries es n (omega arith))

-- The loop stops when the table is full.
length-read_entries :
    (fs : Files) (ds : List (ℕ × DirEntry)) (n : ℕ)
    → n < max_entries
    → length (read_entries fs ds n) + n ≤ max_entries
unfolding read_entries
length-read_entries fs [] n h = omega arith
length-read_entries fs ((ptr, d) ∷ ds) n h =
    ground (arith, length-read_entries fs ds n, length-read_entries fs ds (n + 1))

module _ (qsort : (AppEntry → AppEntry → Sign) → List AppEntry → List AppEntry) where
  -- A scan of the device leaves 1024 slots, and entry_count_all is the number of those filled:
  -- also when the directory cannot be opened or holds more applications than slots.
  pub app_entry_load_all-IsCounted :
      (fs : Files) (dir : Option (List (ℕ × DirEntry))) (s : Apps)
      → IsCounted (app_entry_load_all qsort fs dir s)
  unfolding app_entry_load_all
  app_entry_load_all-IsCounted fs none s = record {
    slots = length-replicate {A = Option AppEntry} max_entries none;
    counted = sym (count_some-no_slots max_entries);
  }
  app_entry_load_all-IsCounted fs (some ds) s =
      let es = read_entries fs ds 0 in
      let loaded : Apps = record (app_entries_free s) {
        entries_all = put_entries es no_slots;
        entry_count_all = length es;
      } in
      same-IsCounted loaded _ (app_entry_filter-SameSlots qsort s.current_filter loaded) (record {
        slots =
            length-put_entries es no_slots
            ∙ length-replicate {A = Option AppEntry} max_entries none;
        counted = sym (
            count_some-put_entries es max_entries
              (omega (arith, length-read_entries fs ds 0 (omega arith))));
      })
