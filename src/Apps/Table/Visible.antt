-- ===== src/Apps/Table/Visible.antt =====
-- What the browser shows.
use mathlib.Core.List.{Mem, Mem-prop, mem-cons, not-mem-nil, Perm}
use mathlib.Core.List.Perm
use mathlib.Core.Logic.{∥∥₁_map, ∥∥₁_elim}
use mathlib.Core.Logic.Or
use hbc.Base.{
  List, ◌==◌, ◌≡◌, ◌↔◌, true, Bool-cases, inl, inr, [], ◌∷◌, Option, none, some, ℕ, zero, suc, ap,
  sym, ◌∙◌, subst, length, get_elem?, if◌then◌else◌,
}
use hbc.Apps.Text.{Sign}
use hbc.Apps.Entry.{AppEntry}
use hbc.Apps.Order.{cmp_app_entry}
use hbc.Apps.Table.{Apps, AppFilter, passes, collect, app_entry_filter}
use hbc.Apps.Table.Slots.{SlotList}

-- The entry stands in a slot.
abbrev pub IsHeld : AppEntry → SlotList → Type 0
IsHeld e slots = (i : ℕ) × (get_elem? slots i ≡ some (some e))

IsHeld-later :
    {e : AppEntry} (slot : Option AppEntry) (slots : SlotList)
    → IsHeld e slots
    → IsHeld e (slot ∷ slots)
IsHeld-later slot slots (i, h) = (suc i, h)

collect-IsHeld :
    (f : AppFilter) (e : AppEntry) (slots : SlotList)
    → Mem e (collect f slots)
    → ∥ (IsHeld e slots × (passes f e ≡ true)) ∥₁
unfolding collect
collect-IsHeld f e [] m = absurd (not-mem-nil m)
collect-IsHeld f e (none ∷ slots) m =
    ∥∥₁_map (collect-IsHeld f e slots m) (λ h. (IsHeld-later none slots h.0, h.1))
collect-IsHeld f e (some x ∷ slots) m = elim (Bool-cases (passes f x)) [
  | inl shown ↦
      Or.elim squash₁
        (mem-cons.0
          (subst (λ b. Mem e (if b then x ∷ collect f slots else collect f slots)) shown m))
        (λ same. ∣ ((0, ap (λ y. some (some y)) (sym same)), ap (passes f) same ∙ shown) ∣₁)
        (λ rest.
          ∥∥₁_map (collect-IsHeld f e slots rest) (λ h. (IsHeld-later (some x) slots h.0, h.1)))
  | inr hidden ↦
      ∥∥₁_map
        (collect-IsHeld f e slots
          (subst (λ b. Mem e (if b then x ∷ collect f slots else collect f slots)) hidden m))
        (λ h. (IsHeld-later (some x) slots h.0, h.1))
]

IsHeld-collect :
    (f : AppFilter) (e : AppEntry) (slots : SlotList) (i : ℕ)
    → get_elem? slots i ≡ some (some e)
    → passes f e ≡ true
    → Mem e (collect f slots)
unfolding collect
IsHeld-collect f e [] i at p = cc
IsHeld-collect f e (none ∷ slots) zero at p = cc
IsHeld-collect f e (some x ∷ slots) zero at p =
    let same : e ≡ x = cc in rw (ap (passes f) (sym same) ∙ p) (mem-cons.1 (Or.inl same))
IsHeld-collect f e (none ∷ slots) (suc i) at p = IsHeld-collect f e slots i at p
IsHeld-collect f e (some x ∷ slots) (suc i) at p =
    let rest = IsHeld-collect f e slots i at p in
    elim (Bool-cases (passes f x)) [
      | inl shown ↦ rw shown (mem-cons.1 (Or.inr rest))
      | inr hidden ↦ rw hidden rest
    ]

module _ (qsort : (AppEntry → AppEntry → Sign) → List AppEntry → List AppEntry)
    (qsort-perm : (cmp : AppEntry → AppEntry → Sign) (es : List AppEntry)
      → Perm (qsort cmp es) es) where
  -- The browser shows an application exactly when it stands in a slot and passes the filter, and
  -- shows a permutation of those applications, if qsort permutes its input.
  pub app_entry_filter-Mem :
      (f : AppFilter) (s : Apps) (e : AppEntry)
      → (Mem e (app_entry_filter qsort f s).entries
          ↔ ∥ (IsHeld e s.entries_all × (passes f e ≡ true)) ∥₁)
        × Perm (app_entry_filter qsort f s).entries (collect f s.entries_all)
  unfolding app_entry_filter
  app_entry_filter-Mem f s e =
      let shown = collect f s.entries_all in
      let same : Perm
          (if length shown == 0
            then shown
            else qsort (cmp_app_entry s.current_sort s.cmp_descending) shown)
          shown =
        elim (Bool-cases (length shown == 0)) [
          | inl empty ↦ rw empty (Perm.refl shown)
          | inr full ↦ rw full (qsort-perm _ shown)
        ] in
      (
        (
          λ m. collect-IsHeld f e s.entries_all ((Perm.mem_iff same).0 m),
          λ h.
              ∥∥₁_elim h Mem-prop
                (λ k. (Perm.mem_iff same).1 (IsHeld-collect f e s.entries_all k.0.0 k.0.1 k.1)),
        ),
        same,
      )
