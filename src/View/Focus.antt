-- ===== src/View/Focus.antt =====
-- Which widget is marked as focused.
use hbc.Base.{
  ℕ, zero, suc, ◌<◌, ◌≡◌, ◌≢◌, ◌↔◌, refl, sym, ap, ◌∙◌, subst, arith, Bool, true, false, Option,
  none, some, List, [], ◌∷◌, ◌==◌, length, get_elem?, Bool-cases, inl, inr, some-injective,
}
use hbc.View.{
  Widget, View, S8, minus_one, index, mark, unmark_old, mark_new, can_focus, can_focus_at,
  view_set_focus,
}

-- The mark of the widget at an index; none outside of the array.
abbrev pub marked_at : List Widget → ℕ → Option Bool
marked_at ws i = elim (get_elem? ws i) [ none ↦ none | some w ↦ some w.focused ]

-- The widget at the focus, and no other, is marked.
pub record IsFocused (v : View) : Type 0 where
  pub in_range : (i : ℕ) → v.focus ≡ some i → i < length v.widgets
  pub marks : (i : ℕ) (b : Bool) → marked_at v.widgets i ≡ some b → (b ≡ true) ↔ (v.focus ≡ some i)

-- But for the marks, the widgets are the same.
pub data SameBut : List Widget → List Widget → Type 0 where
  no_widgets : SameBut [] []
  next_widget :
      (w w' : Widget) (ws ws' : List Widget)
      → w' ≡ record w { focused = w'.focused }
      → SameBut ws ws'
      → SameBut (w ∷ ws) (w' ∷ ws')

pub SameBut-refl : (ws : List Widget) → SameBut ws ws
SameBut-refl [] = no_widgets
SameBut-refl (w ∷ ws) = next_widget w w ws ws refl (SameBut-refl ws)

-- What `mark` gives inside of the array.
pub record Marked (i : ℕ) (b : Bool) (ws ws' : List Widget) : Type 0 where
  pub same : SameBut ws ws'
  pub size : length ws' ≡ length ws
  pub here : marked_at ws' i ≡ some b
  pub elsewhere : (j : ℕ) → j ≢ i → marked_at ws' j ≡ marked_at ws j

pub mark-Marked :
    (i : ℕ) (b : Bool) (ws : List Widget)
    → i < length ws
    → (ws' : List Widget) × (mark i b ws ≡ some ws') × Marked i b ws ws'
unfolding mark
mark-Marked i b [] less = absurd (omega arith)
mark-Marked zero b (w ∷ ws) less = (
  record w { focused = b } ∷ ws,
  refl,
  record {
    same = next_widget w _ ws ws refl (SameBut-refl ws);
    size = refl;
    here = refl;
    elsewhere = others;
  },
)
  where
    others : (j : ℕ) → j ≢ 0 → marked_at (record w { focused = b } ∷ ws) j ≡ marked_at (w ∷ ws) j
    others zero ne = absurd (ne refl)
    others (suc j) ne = refl
mark-Marked (suc i) b (w ∷ ws) less =
    let (ws', e, m) = mark-Marked i b ws (omega arith) in
    (
      w ∷ ws',
      (rw e refl),
      record {
        same = next_widget w w ws ws' refl m.same;
        size = ap suc m.size;
        here = m.here;
        elsewhere = others ws' m;
      },
    )
  where
    others :
        (ws' : List Widget)
        → Marked i b ws ws'
        → (j : ℕ) → j ≢ suc i
        → marked_at (w ∷ ws') j ≡ marked_at (w ∷ ws) j
    others ws' m zero ne = refl
    others ws' m (suc j) ne = m.elsewhere j (λ e. ne (ap suc e))

SameBut-trans : {a b c : List Widget} → SameBut a b → SameBut b c → SameBut a c
SameBut-trans no_widgets no_widgets = no_widgets
SameBut-trans (next_widget u v us vs e r) (next_widget _ w _ ws f s) =
    let with_mark : Widget → Widget = λ x. record x { focused = w.focused } in
    next_widget u w us ws (f ∙ ap with_mark e) (SameBut-trans r s)

-- Marks do not count for where the focus can go.
pub SameBut-can_focus_at :
    {a b : List Widget} (i : ℕ) → SameBut a b → can_focus_at i b ≡ can_focus_at i a
SameBut-can_focus_at i no_widgets = refl
SameBut-can_focus_at zero (next_widget w w' ws ws' e r) = ap can_focus e
SameBut-can_focus_at (suc i) (next_widget w w' ws ws' e r) = SameBut-can_focus_at i r

-- The widgets once the old focus has lost its mark.
record Unmarked (v : View) (ws : List Widget) : Type 0 where
  pub same : SameBut v.widgets ws
  pub size : length ws ≡ length v.widgets
  pub unmarked : (i : ℕ) → marked_at ws i ≢ some true

unmark_old-Unmarked :
    (v : View) → IsFocused v → (ws : List Widget) × (unmark_old v ≡ some ws) × Unmarked v ws
unfolding unmark_old
unmark_old-Unmarked v h = by_focus v.focus refl
  where
    Answer : Option (List Widget) → Type 0
    Answer o = (ws : List Widget) × (o ≡ some ws) × Unmarked v ws

    by_focus :
        (o : Option ℕ)
        → v.focus ≡ o
        → Answer (elim o [ none ↦ some v.widgets | some i ↦ mark i false v.widgets ])
    by_focus none e = (
      v.widgets,
      refl,
      record {
        same = SameBut-refl v.widgets;
        size = refl;
        unmarked = λ i f. let g = (h.marks i true f).0 refl in cc;
      },
    )
    by_focus (some f) e =
        let (ws, g, m) = mark-Marked f false v.widgets (h.in_range f e) in
        (
          ws,
          g,
          record {
            same = m.same;
            size = m.size;
            unmarked = λ i k. elim (Bool-cases (i == f)) [
              | inl q ↦
                  let here = m.here in
                  let same : i ≡ f = ground arith in
                  let there = subst (λ x. marked_at ws x ≡ some true) same k in cc
              | inr q ↦
                  let other = m.elsewhere i (ground arith) in
                  let old = (h.marks i true (sym other ∙ k)).0 refl in
                  let same : i ≡ f = some-injective (sym old ∙ e) in absurd (ground arith)
            ];
          },
        )

abbrev pub to_argument : Option ℕ → S8
to_argument none = minus_one
to_argument (some i) = index i

-- What `view_set_focus` leaves.
pub record FocusSet (new_focus : Option ℕ) (v t : View) : Type 0 where
  pub focus : t.focus ≡ new_focus
  pub focused : IsFocused t
  pub same : SameBut v.widgets t.widgets
  pub size : length t.widgets ≡ length v.widgets

-- If exactly the focused widget is marked, setting the focus to -1 or to one of the widgets succeeds and
-- moves the mark with it.
pub view_set_focus-FocusSet :
    (new_focus : Option ℕ) (v : View)
    → IsFocused v
    → ((i : ℕ) → new_focus ≡ some i → i < length v.widgets)
    → (t : View) × (view_set_focus (to_argument new_focus) v ≡ some t) × FocusSet new_focus v t
unfolding view_set_focus mark_new
view_set_focus-FocusSet none v h less =
    let (ws, e, u) = unmark_old-Unmarked v h in
    (
      record { widgets = ws; focus = none },
      rw (e, view_set_focus) refl,
      record {
        focus = refl;
        focused = record {
          in_range = λ i f. cc;
          marks = λ i b f. (λ g. let k = u.unmarked i (f ∙ ap some g) in absurd k, λ g. cc);
        };
        same = u.same;
        size = u.size;
      },
    )
view_set_focus-FocusSet (some n) v h less =
    let (ws, e, u) = unmark_old-Unmarked v h in
    let size = u.size in
    let fits = less n refl in
    let (ws', f, m) = mark-Marked n true ws (omega arith) in
    (
      record { widgets = ws'; focus = some n },
      rw (e, view_set_focus) (rw (f, mark_new) refl),
      record {
        focus = refl;
        focused = record {
          in_range = λ i g. let same = some-injective g in let size' = m.size in omega arith;
          marks = λ i b g. elim (Bool-cases (i == n)) [
            | inl q ↦
                let same : i ≡ n = ground arith in
                let here = m.here in
                let there = subst (λ x. marked_at ws' x ≡ some b) same g in
                (λ k. ap some (sym same), λ k. some-injective (sym there ∙ here))
            | inr q ↦
                let ne : i ≢ n = ground arith in
                let other = m.elsewhere i ne in
                (
                  λ k. absurd (u.unmarked i (sym other ∙ (g ∙ ap some k))),
                  λ k. absurd (ne (some-injective (sym k))),
                )
          ];
        };
        same = SameBut-trans u.same m.same;
        size = m.size ∙ size;
      },
    )
