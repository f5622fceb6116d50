-- ===== src/View/Near.antt =====
-- Where the focus goes next.
use hbc.Base.{
  ℕ, zero, suc, ◌+◌, ◌-◌, ◌≤◌, ◌<◌, ◌≡◌, refl, sym, ap, ◌∙◌, subst, arith, true, false, Option,
  none, some, List, [], ◌∷◌, if◌then◌else◌, ltb, ◌==◌, length, drop, get_elem?, Bool-cases, inl,
  inr, some-injective, length-drop,
}
use hbc.View.{
  Widget, View, to_s8, can_focus, can_focus_at, find_prev, find_next, go_to, after_focus,
  view_set_focus_prev, view_set_focus_next,
}
use hbc.View.Focus.{IsFocused, SameBut, SameBut-refl, view_set_focus-FocusSet}

-- The first widget from `from` on that the focus can go to.
pub data FoundNext (from : ℕ) (ws : List Widget) : Option ℕ → Type 0 where
  none_above : ((i : ℕ) → from ≤ i → can_focus_at i ws ≡ false) → FoundNext from ws none
  next_at :
      (j : ℕ)
      → from ≤ j
      → j < length ws
      → can_focus_at j ws ≡ true
      → ((i : ℕ) → from ≤ i → i < j → can_focus_at i ws ≡ false)
      → FoundNext from ws (some j)

-- The last widget below `from` that the focus can go to.
pub data FoundPrev (from : ℕ) (ws : List Widget) : Option ℕ → Type 0 where
  none_below : ((i : ℕ) → i < from → can_focus_at i ws ≡ false) → FoundPrev from ws none
  prev_at :
      (j : ℕ)
      → j < from
      → can_focus_at j ws ≡ true
      → ((i : ℕ) → j < i → i < from → can_focus_at i ws ≡ false)
      → FoundPrev from ws (some j)

find_prev-suc :
    (n : ℕ) (ws : List Widget)
    → find_prev (suc n) ws ≡ (if can_focus_at n ws then some n else find_prev n ws)
unfolding find_prev
find_prev-suc n ws =
    elim (get_elem? ws n)
      as (λ o.
        (elim o [ none ↦ find_prev n ws | some w ↦ if can_focus w then some n else find_prev n ws ])
        ≡ (if (elim o [ none ↦ false | some w ↦ can_focus w ]) then some n else find_prev n ws)) [
          | none ↦ refl
          | some w ↦ refl
        ]

FoundPrev-suc :
    (n : ℕ) (ws : List Widget) {o : Option ℕ}
    → can_focus_at n ws ≡ false
    → FoundPrev n ws o
    → FoundPrev (suc n) ws o
FoundPrev-suc n ws e (none_below h) = none_below (λ i less. elim (Bool-cases (i == n)) [
  | inl q ↦ let same : n ≡ i = ground arith in subst (λ j. can_focus_at j ws ≡ false) same e
  | inr q ↦ h i (ground arith)
])
FoundPrev-suc n ws e (prev_at j less good h) = prev_at j (omega arith) good (λ i above below.
    elim (Bool-cases (i == n)) [
      | inl q ↦ let same : n ≡ i = ground arith in subst (λ k. can_focus_at k ws ≡ false) same e
      | inr q ↦ h i above (ground arith)
    ])

find_prev-FoundPrev : (from : ℕ) (ws : List Widget) → FoundPrev from ws (find_prev from ws)
unfolding find_prev
find_prev-FoundPrev zero ws = none_below (λ i less. absurd (omega arith))
find_prev-FoundPrev (suc n) ws =
    let rest = find_prev-FoundPrev n ws in
    subst (FoundPrev (suc n) ws) (sym (find_prev-suc n ws)) (elim (Bool-cases (can_focus_at n ws)) [
      | inl e ↦ rw e (prev_at n (omega arith) e (λ i above below. absurd (omega arith)))
      | inr e ↦ rw e (FoundPrev-suc n ws e rest)
    ])

FoundNext-suc :
    (n : ℕ) (ws : List Widget) {o : Option ℕ}
    → can_focus_at n ws ≡ false
    → FoundNext (n + 1) ws o
    → FoundNext n ws o
FoundNext-suc n ws e (none_above h) = none_above (λ i more. elim (Bool-cases (i == n)) [
  | inl q ↦ let same : n ≡ i = ground arith in subst (λ j. can_focus_at j ws ≡ false) same e
  | inr q ↦ h i (ground arith)
])
FoundNext-suc n ws e (next_at j more less good h) =
    next_at j (omega arith) less good (λ i above below. elim (Bool-cases (i == n)) [
      | inl q ↦ let same : n ≡ i = ground arith in subst (λ k. can_focus_at k ws ≡ false) same e
      | inr q ↦ h i (ground arith) below
    ])

-- `rest` is what `ws` has from `n` on.
find_next-FoundNext :
    (n : ℕ) (rest ws : List Widget)
    → ((k : ℕ) → can_focus_at (n + k) ws ≡ can_focus_at k rest)
    → length ws ≡ n + length rest
    → FoundNext n ws (find_next n rest)
unfolding find_next
find_next-FoundNext n [] ws same size = none_above (λ i more.
    let back : n + (i - n) ≡ i = omega arith in
    subst (λ j. can_focus_at j ws ≡ false) back (same (i - n)))
find_next-FoundNext n (w ∷ rest) ws same size =
    let shift : (k : ℕ) → can_focus_at (n + 1 + k) ws ≡ can_focus_at k rest = λ k.
      let next : n + suc k ≡ n + 1 + k = omega arith in
      subst (λ j. can_focus_at j ws ≡ can_focus_at k rest) next (same (suc k)) in
    let later = find_next-FoundNext (n + 1) rest ws shift (omega arith) in
    let first : can_focus_at n ws ≡ can_focus w =
      let z : n + 0 ≡ n = omega arith in subst (λ j. can_focus_at j ws ≡ can_focus w) z (same 0) in
    elim (Bool-cases (can_focus w)) [
      | inl e ↦
          rw e (
            next_at n (omega arith) (omega arith) (first ∙ e) (λ i more less. absurd (omega arith)))
      | inr e ↦ rw e (FoundNext-suc n ws (first ∙ e) later)
    ]

can_focus_at-drop :
    (n k : ℕ) (ws : List Widget) → can_focus_at (n + k) ws ≡ can_focus_at k (drop n ws)
can_focus_at-drop zero k ws = let z : 0 + k ≡ k = omega arith in ap (λ j. can_focus_at j ws) z
can_focus_at-drop (suc n) k [] = refl
can_focus_at-drop (suc n) k (w ∷ ws) =
    let s : suc n + k ≡ suc (n + k) = omega arith in
    ap (λ j. can_focus_at j (w ∷ ws)) s ∙ can_focus_at-drop n k ws

-- The focus stays, or goes to a widget; its mark goes with it.
pub record Goes (o : Option ℕ) (v t : View) : Type 0 where
  pub focused : IsFocused t
  pub same : SameBut v.widgets t.widgets
  pub size : length t.widgets ≡ length v.widgets
  pub focus : t.focus ≡ (elim o [ none ↦ v.focus | some j ↦ some j ])

go_to-Goes :
    (o : Option ℕ) (v : View)
    → IsFocused v
    → length v.widgets ≤ 128
    → ((j : ℕ) → o ≡ some j → j < length v.widgets)
    → (t : View) × (go_to o v ≡ some t) × Goes o v t
unfolding to_s8
go_to-Goes none v h few fits =
    (v, refl, record { focused = h; same = SameBut-refl v.widgets; size = refl; focus = refl })
go_to-Goes (some j) v h few fits =
    let less = fits j refl in
    let small : ltb j 128 ≡ true = ground arith in
    let (t, e, s) =
      view_set_focus-FocusSet (some j) v h (λ i f. let same = some-injective f in omega arith) in
    (t, rw small e, record { focused = s.focused; same = s.same; size = s.size; focus = s.focus })

can_focus_at_end : (i : ℕ) (ws : List Widget) → length ws ≤ i → can_focus_at i ws ≡ false
can_focus_at_end i [] more = refl
can_focus_at_end zero (w ∷ ws) more = absurd (omega arith)
can_focus_at_end (suc i) (w ∷ ws) more = can_focus_at_end i ws (omega arith)

can_focus_at_range : (i : ℕ) (ws : List Widget) → can_focus_at i ws ≡ true → i < length ws
can_focus_at_range i ws e = elim (Bool-cases (ltb i (length ws))) [
  | inl q ↦ ground arith
  | inr q ↦ let f = can_focus_at_end i ws (ground arith) in cc
]

FoundNext-range :
    {from : ℕ} {ws : List Widget} {o : Option ℕ} (j : ℕ)
    → FoundNext from ws o
    → o ≡ some j
    → j < length ws
FoundNext-range j (none_above h) e = cc
FoundNext-range j (next_at i more less good h) e = let same = some-injective e in omega arith

FoundPrev-range :
    {from : ℕ} {ws : List Widget} {o : Option ℕ} (j : ℕ)
    → FoundPrev from ws o
    → o ≡ some j
    → j < length ws
FoundPrev-range j (none_below h) e = cc
FoundPrev-range {ws = ws} j (prev_at i less good h) e =
    let same = some-injective e in let range = can_focus_at_range i ws good in omega arith

-- view_set_focus_next, on at most 128 widgets of which exactly the one at the focus is marked,
-- goes to the first widget behind the focus that is visible, enabled and focusable, or stays where
-- there is none; the mark is again at the focus and nowhere else, and nothing else of the widgets
-- changes.
pub view_set_focus_next-FoundNext :
    (v : View)
    → IsFocused v
    → length v.widgets ≤ 128
    → (o : Option ℕ) × FoundNext (after_focus v) v.widgets o
      × ((t : View) × (view_set_focus_next v ≡ some t) × Goes o v t)
unfolding view_set_focus_next
view_set_focus_next-FoundNext v h few = elim (Bool-cases (after_focus v == length v.widgets)) [
  | inl e ↦ (
    none,
    none_above (λ i more. can_focus_at_end i v.widgets (ground arith)),
    rw e (go_to-Goes none v h few (λ j f. cc)),
  )
  | inr e ↦
      let size = length-drop (after_focus v) v.widgets in
      let found =
        find_next-FoundNext (after_focus v) (drop (after_focus v) v.widgets) v.widgets
          (λ k. can_focus_at-drop (after_focus v) k v.widgets) (after_room v.focus refl size) in
      (_, found, rw e (go_to-Goes _ v h few (λ j f. FoundNext-range j found f)))
]
  where
    after_room :
        (f : Option ℕ)
        → v.focus ≡ f
        → length (drop (after_focus v) v.widgets) ≡ length v.widgets - after_focus v
        → length v.widgets ≡ after_focus v + length (drop (after_focus v) v.widgets)
    after_room none e size = let z : after_focus v ≡ 0 = rw e refl in omega arith
    after_room (some f) e size =
        let z : after_focus v ≡ f + 1 = rw e refl in let less = h.in_range f e in omega arith

-- The focus, or 0 without one.
abbrev pub focus_or_0 : View → ℕ
focus_or_0 v = elim v.focus [ none ↦ 0 | some f ↦ f ]

-- On at most 128 widgets, exactly the focused one marked, the focus goes to the last widget before it
-- that can have it, or stays.
pub view_set_focus_prev-FoundPrev :
    (v : View)
    → IsFocused v
    → length v.widgets ≤ 128
    → (o : Option ℕ) × FoundPrev (focus_or_0 v) v.widgets o
      × ((t : View) × (view_set_focus_prev v ≡ some t) × Goes o v t)
unfolding view_set_focus_prev
view_set_focus_prev-FoundPrev v h few = by_focus v.focus refl
  where
    Answer : Option ℕ → Option View → Type 0
    Answer f r =
        (o : Option ℕ) × FoundPrev (elim f [ none ↦ 0 | some i ↦ i ]) v.widgets o
        × ((t : View) × (r ≡ some t) × Goes o v t)

    by_focus :
        (f : Option ℕ)
        → v.focus ≡ f
        → Answer f (elim f [
          | none ↦ some v
          | some i ↦ if ltb i 1 then some v else go_to (find_prev i v.widgets) v
        ])
    by_focus none e =
        (none, none_below (λ i less. absurd (omega arith)), go_to-Goes none v h few (λ j f. cc))
    by_focus (some f) e = elim (Bool-cases (ltb f 1)) [
      | inl q ↦ (
        none,
        none_below (λ i less. absurd (ground arith)),
        rw q (go_to-Goes none v h few (λ j f. cc)),
      )
      | inr q ↦
          let found = find_prev-FoundPrev f v.widgets in
          (_, found, rw q (go_to-Goes _ v h few (λ j g. FoundPrev-range j found g)))
    ]
