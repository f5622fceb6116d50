-- ===== src/View/Tests.antt =====
-- Three widgets, the second of which cannot have the focus.
use hbc.Base.{ℕ, zero, suc, ◌≡◌, ◌↔◌, refl, arith, Bool, true, false, Option, some, [], ◌∷◌}
use hbc.View.{
  Widget, View, to_s8, mark, unmark_old, mark_new, view_set_focus, find_next, view_set_focus_next,
  view_set_focus_prev, after_focus, forward, moved_to, view_move_focus,
}
use hbc.View.Focus.{IsFocused, marked_at}
use hbc.View.Near.{Goes, FoundNext, view_set_focus_next-FoundNext}
use hbc.View.Back.{view_set_focus_prev-view_set_focus_next}

abbrev plain : Widget
plain = record { visible = true; enabled = true; focusable = true; rumble = false; focused = false }

abbrev hidden : Widget
hidden = record plain { visible = false }

abbrev chosen : Widget
chosen = record plain { focused = true }

abbrev first : View
first = record { widgets = chosen ∷ hidden ∷ plain ∷ []; focus = some 0 }

abbrev last : View
last = record { widgets = plain ∷ hidden ∷ chosen ∷ []; focus = some 2 }

first-IsFocused : IsFocused first
first-IsFocused = record { in_range = λ i e. ground arith; marks = marks }
  where
    marks :
        (i : ℕ) (b : Bool)
        → marked_at first.widgets i ≡ some b
        → (b ≡ true) ↔ (first.focus ≡ some i)
    marks zero b e = (λ f. refl, λ f. cc)
    marks (suc zero) b e = (λ f. cc, λ f. absurd (ground arith))
    marks (suc (suc zero)) b e = (λ f. cc, λ f. absurd (ground arith))
    marks (suc (suc (suc i))) b e = cc

next_run : view_set_focus_next first ≡ some last
unfolding view_set_focus_next find_next view_set_focus unmark_old mark_new mark to_s8
next_run = refl

move_run : view_move_focus (forward 2) first ≡ some last
unfolding view_move_focus moved_to view_set_focus unmark_old mark_new mark to_s8
move_run = refl

view_set_focus_next-FoundNext_example :
    (o : Option ℕ) × FoundNext (after_focus first) first.widgets o
    × ((t : View) × (view_set_focus_next first ≡ some t) × Goes o first t)
view_set_focus_next-FoundNext_example =
    view_set_focus_next-FoundNext first first-IsFocused (omega arith)

view_set_focus_prev-view_set_focus_next_example :
    (u : View) × (view_set_focus_prev last ≡ some u) × (u.focus ≡ first.focus) × IsFocused u
view_set_focus_prev-view_set_focus_next_example =
    view_set_focus_prev-view_set_focus_next first last 0 first-IsFocused (omega arith) refl refl
      next_run (λ e. ground arith)
