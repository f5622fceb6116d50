-- ===== src/Apps/Table/Slots.antt =====
-- The two loops over the slots of `entries_all`, as relations.
use hbc.Base.{
  ℕ, suc, ◌≡◌, refl, Bool, true, false, Bool-cases, inl, inr, Option, none, some, List, [], ◌∷◌,
  get_elem?,
}
use hbc.Apps.Entry.{AppEntry}
use hbc.Apps.Table.{clear_first, fill_first}

abbrev pub SlotList : Type 0
SlotList = List (Option AppEntry)

-- No entry of the slot passes.
abbrev pub Fails : (AppEntry → Bool) → Option AppEntry → Type 0
Fails test none = Unit
Fails test (some e) = test e ≡ false

-- `rest` is `slots` with the first entry that passes set to NULL.
pub data Cleared (test : AppEntry → Bool) : SlotList → SlotList → Type 0 where
  here :
      (e : AppEntry) (slots : SlotList)
      → test e ≡ true
      → Cleared test (some e ∷ slots) (none ∷ slots)
  later :
      (slot : Option AppEntry) {slots rest : SlotList}
      → Fails test slot
      → Cleared test slots rest
      → Cleared test (slot ∷ slots) (slot ∷ rest)

-- No entry passes.
abbrev pub AllFail : (AppEntry → Bool) → SlotList → Type 0
AllFail test [] = Unit
AllFail test (slot ∷ slots) = Fails test slot × AllFail test slots

-- What `clear_first` answers.
abbrev pub ClearAnswer : (AppEntry → Bool) → SlotList → Option SlotList → Type 0
ClearAnswer test slots none = AllFail test slots
ClearAnswer test slots (some rest) = Cleared test slots rest

keep_slot :
    (test : AppEntry → Bool) (slot : Option AppEntry) (slots : SlotList) (o : Option SlotList)
    → Fails test slot
    → ClearAnswer test slots o
    → ClearAnswer test (slot ∷ slots) (elim o [ none ↦ none | some rest ↦ some (slot ∷ rest) ])
keep_slot test slot slots none f a = (f, a)
keep_slot test slot slots (some rest) f a = later slot f a

pub clear_first-ClearAnswer :
    (test : AppEntry → Bool) (slots : SlotList) → ClearAnswer test slots (clear_first test slots)
unfolding clear_first
clear_first-ClearAnswer test [] = tt
clear_first-ClearAnswer test (none ∷ slots) =
    keep_slot test none slots (clear_first test slots) tt (clear_first-ClearAnswer test slots)
clear_first-ClearAnswer test (some e ∷ slots) = elim (Bool-cases (test e)) [
  | inl yes_it ↦ rw (yes_it, clear_first) (here e slots yes_it)
  | inr not_it ↦
      rw (not_it, clear_first)
        (keep_slot test (some e) slots (clear_first test slots) not_it
          (clear_first-ClearAnswer test slots))
]

-- `rest` is `slots` with `new` in the first NULL slot.
pub data Filled (new : AppEntry) : SlotList → SlotList → Type 0 where
  here : (slots : SlotList) → Filled new (none ∷ slots) (some new ∷ slots)
  later :
      (e : AppEntry) {slots rest : SlotList}
      → Filled new slots rest
      → Filled new (some e ∷ slots) (some e ∷ rest)

-- No slot is NULL.
abbrev pub IsFull : SlotList → Type 0
IsFull [] = Unit
IsFull (none ∷ slots) = ⊥
IsFull (some e ∷ slots) = IsFull slots

abbrev pub FillAnswer : AppEntry → SlotList → Option SlotList → Type 0
FillAnswer new slots none = IsFull slots
FillAnswer new slots (some rest) = Filled new slots rest

keep_full :
    (new e : AppEntry) (slots : SlotList) (o : Option SlotList)
    → FillAnswer new slots o
    → FillAnswer new (some e ∷ slots) (elim o [ none ↦ none | some rest ↦ some (some e ∷ rest) ])
keep_full new e slots none a = a
keep_full new e slots (some rest) a = Filled.later e a

pub fill_first-FillAnswer :
    (new : AppEntry) (slots : SlotList) → FillAnswer new slots (fill_first new slots)
unfolding fill_first
fill_first-FillAnswer new [] = tt
fill_first-FillAnswer new (none ∷ slots) = Filled.here slots
fill_first-FillAnswer new (some e ∷ slots) =
    keep_full new e slots (fill_first new slots) (fill_first-FillAnswer new slots)

-- The new entry stands in some slot.
pub Filled-get_elem? :
    {new : AppEntry} {slots rest : SlotList}
    → Filled new slots rest
    → (i : ℕ) × (get_elem? rest i ≡ some (some new))
Filled-get_elem? (Filled.here slots) = (0, refl)
Filled-get_elem? (Filled.later e f) = let (i, h) = Filled-get_elem? f in (suc i, h)
