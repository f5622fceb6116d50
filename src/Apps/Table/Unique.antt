-- ===== src/Apps/Table/Unique.antt =====
-- No two applications have the same directory.
use hbc.Base.{
  List, ◌≡◌, ◌≢◌, Bool, true, false, ◌||◌, Bool-cases, inl, inr, [], ◌∷◌, Option, none, some, ℕ,
  arith, sym, subst,
}
use hbc.Apps.Text.{Text, Sign, is_zero, zero_sign, folded, strcasecmp, strcasecmp_zero}
use hbc.Apps.Entry.{AppEntry, Files, app_entry_load_single}
use hbc.Apps.Table.{Apps, app_entry_remove, drop_old, insert_new, app_entry_add}
use hbc.Apps.Table.Slots.{SlotList, Cleared, Filled, AllFail}
use hbc.Apps.Table.Runs.{
  ClearRun, absent, cleared, InsertRun, refused, lost, filled, app_entry_remove-ClearRun,
  drop_old-ClearRun, insert_new-InsertRun, app_entry_filter-SameSlots,
}

-- The directory of no entry in the slots reads as `k`, up to letter case.
abbrev pub HasNo : Text → SlotList → Type 0
HasNo k [] = Unit
HasNo k (none ∷ slots) = HasNo k slots
HasNo k (some e ∷ slots) = (k ≢ folded e.dirname) × HasNo k slots

-- All directories differ, up to letter case.
abbrev pub IsUnique : SlotList → Type 0
IsUnique [] = Unit
IsUnique (none ∷ slots) = IsUnique slots
IsUnique (some e ∷ slots) = HasNo (folded e.dirname) slots × IsUnique slots

Cleared-HasNo :
    {test : AppEntry → Bool} {slots rest : SlotList} (k : Text)
    → Cleared test slots rest
    → HasNo k slots
    → HasNo k rest
Cleared-HasNo k (Cleared.here e slots h) n = n.1
Cleared-HasNo k (Cleared.later none f c) n = Cleared-HasNo k c n
Cleared-HasNo k (Cleared.later (some e) f c) n = (n.0, Cleared-HasNo k c n.1)

Cleared-IsUnique :
    {test : AppEntry → Bool} {slots rest : SlotList}
    → Cleared test slots rest
    → IsUnique slots
    → IsUnique rest
Cleared-IsUnique (Cleared.here e slots h) u = u.1
Cleared-IsUnique (Cleared.later none f c) u = Cleared-IsUnique c u
Cleared-IsUnique (Cleared.later (some e) f c) u =
    (Cleared-HasNo (folded e.dirname) c u.0, Cleared-IsUnique c u.1)

abbrev named : Text → AppEntry → Bool
named dirname e = is_zero (strcasecmp e.dirname dirname)

named_iff_true :
    (dirname : Text) (e : AppEntry) → named dirname e ≡ true → folded e.dirname ≡ folded dirname
named_iff_true dirname e h = (strcasecmp_zero e.dirname dirname).0 (is_zero_sign _ h)
  where
    is_zero_sign : (s : Sign) → is_zero s ≡ true → s ≡ zero_sign
    is_zero_sign s h = ground arith

named-false :
    (dirname : Text) (e : AppEntry) → named dirname e ≡ false → folded dirname ≢ folded e.dirname
named-false dirname e h = λ same. let z = (strcasecmp_zero e.dirname dirname).1 (sym same) in cc

-- With one entry of the name at most, clearing the first leaves none.
Cleared-none_left :
    (dirname : Text) {slots rest : SlotList}
    → Cleared (named dirname) slots rest
    → IsUnique slots
    → HasNo (folded dirname) rest
Cleared-none_left dirname (Cleared.here e slots h) u =
    subst (λ k. HasNo k slots) (named_iff_true dirname e h) u.0
Cleared-none_left dirname (Cleared.later none f c) u = Cleared-none_left dirname c u
Cleared-none_left dirname (Cleared.later (some e) f c) u =
    (named-false dirname e f, Cleared-none_left dirname c u.1)

AllFail-HasNo :
    (dirname : Text) (slots : SlotList)
    → AllFail (named dirname) slots
    → HasNo (folded dirname) slots
AllFail-HasNo dirname [] a = tt
AllFail-HasNo dirname (none ∷ slots) a = AllFail-HasNo dirname slots a.1
AllFail-HasNo dirname (some e ∷ slots) a =
    (named-false dirname e a.0, AllFail-HasNo dirname slots a.1)

Filled-HasNo :
    {new : AppEntry} {slots rest : SlotList} (k : Text)
    → Filled new slots rest
    → k ≢ folded new.dirname
    → HasNo k slots
    → HasNo k rest
Filled-HasNo k (Filled.here slots) ne n = (ne, n)
Filled-HasNo k (Filled.later e f) ne n = (n.0, Filled-HasNo k f ne n.1)

Filled-IsUnique :
    {new : AppEntry} {slots rest : SlotList}
    → Filled new slots rest
    → HasNo (folded new.dirname) slots
    → IsUnique slots
    → IsUnique rest
Filled-IsUnique (Filled.here slots) n u = (n, u)
Filled-IsUnique (Filled.later e f) n u =
    (Filled-HasNo (folded e.dirname) f (λ same. n.0 (sym same)) u.0, Filled-IsUnique f n.1 u.1)

load_single-dirname :
    (fs : Files) (ptr : ℕ) (dirname : Text) {e : AppEntry}
    → app_entry_load_single fs ptr dirname ≡ some e
    → e.dirname ≡ dirname
unfolding app_entry_load_single
load_single-dirname fs ptr dirname h = ground arith

ClearRun-IsUnique :
    {test : AppEntry → Bool} {s : Apps} {r : Bool × Apps}
    → ClearRun test s r
    → IsUnique s.entries_all
    → IsUnique r.1.entries_all
ClearRun-IsUnique (absent _) u = u
ClearRun-IsUnique (cleared t a) u = Cleared-IsUnique a.cleared u

ClearRun-HasNo :
    (dirname : Text) {s : Apps} {r : Bool × Apps}
    → ClearRun (named dirname) s r
    → IsUnique s.entries_all
    → HasNo (folded dirname) r.1.entries_all
ClearRun-HasNo dirname (absent all) u = AllFail-HasNo dirname _ all
ClearRun-HasNo dirname (cleared t a) u = Cleared-none_left dirname a.cleared u

InsertRun-IsUnique :
    {fs : Files} {ptr : ℕ} {dirname : Text} {s : Apps} {r : Option AppEntry × Bool × Apps}
    → InsertRun fs ptr dirname s r
    → HasNo (folded dirname) s.entries_all
    → IsUnique s.entries_all
    → IsUnique r.2.entries_all
InsertRun-IsUnique refused n u = u
InsertRun-IsUnique (lost _ _ _) n u = u
InsertRun-IsUnique {fs} {ptr} {dirname} {s = s} (filled e t load a) n u =
    let same = load_single-dirname fs ptr dirname load in
    Filled-IsUnique a.filled (subst (λ d. HasNo (folded d) s.entries_all) (sym same) n) u

module _ (qsort : (AppEntry → AppEntry → Sign) → List AppEntry → List AppEntry) where
  -- If the directories of the applications in the slots are distinct, up to letter case, they are
  -- so after app_entry_add and after app_entry_remove.
  pub app_entry_add-IsUnique :
      (fs : Files) (ptr app : ℕ) (dirname : Text) (s : Apps)
      → IsUnique s.entries_all
      → IsUnique (app_entry_add qsort fs ptr dirname s).1.entries_all
        × IsUnique (app_entry_remove qsort app s).1.entries_all
  unfolding app_entry_add
  app_entry_add-IsUnique fs ptr app dirname s u =
      let d = drop_old dirname s in
      let n = insert_new fs ptr dirname d.1 in
      let inserted : IsUnique n.2.entries_all =
        InsertRun-IsUnique (insert_new-InsertRun fs ptr dirname d.1)
          (ClearRun-HasNo dirname (drop_old-ClearRun dirname s) u)
          (ClearRun-IsUnique (drop_old-ClearRun dirname s) u) in
      let shown = app_entry_filter-SameSlots qsort n.2.current_filter n.2 in
      (
        elim (Bool-cases (d.0 || n.1)) [
          | inl changed ↦ rw changed (subst IsUnique (sym shown.slots) inserted)
          | inr same ↦ rw same inserted
        ],
        ClearRun-IsUnique (app_entry_remove-ClearRun qsort app s) u,
      )
