-- ===== src/View.antt =====
-- The focus of a view: channel/channelapp/source/view.c, with the flags of widgets.h.
--
-- A widget is its flags here, one Boolean for each bit. Drawing is left out, and of the
-- pointer all but its effect on the focus.
pub mod Focus
pub mod Near
pub mod Back
mod Tests
use hbc.Base.{
  ℕ, zero, suc, ◌+◌, ◌-◌, Bool, true, false, not, ◌&&◌, ◌||◌, Option, none, some, List, [], ◌∷◌,
  if◌then◌else◌, ltb, leb, ◌==◌, length, drop, get_elem?,
}

-- WF_VISIBLE, WF_ENABLED, WF_FOCUSABLE, WF_RUMBLE and WF_FOCUSED.
pub record Widget : Type 0 where
  pub visible : Bool
  pub enabled : Bool
  pub focusable : Bool
  pub rumble : Bool
  pub focused : Bool

-- `widgets`, of which there are `widget_count`, and `focus`; none is -1.
pub record View : Type 0 where
  pub widgets : List Widget
  pub focus : Option ℕ

-- A value of type s8.
pub data S8 : Type 0 where
  minus_one other_negative : S8
  index : ℕ → S8

-- The conversion of an index below 256.
unfoldable pub to_s8 : ℕ → S8
to_s8 i = if ltb i 128 then index i else if i == 255 then minus_one else other_negative

-- `widgets[i]` with its WF_FOCUSED set; `none` outside of the array.
unfoldable pub mark : ℕ → Bool → List Widget → Option (List Widget)
mark i b [] = none
mark zero b (w ∷ ws) = some (record w { focused = b } ∷ ws)
mark (suc i) b (w ∷ ws) = elim (mark i b ws) [ none ↦ none | some ws' ↦ some (w ∷ ws') ]

-- The first half of `view_set_focus`: the old focus.
unfoldable pub unmark_old : View → Option (List Widget)
unfolding mark
unmark_old v = elim v.focus [ none ↦ some v.widgets | some i ↦ mark i false v.widgets ]

unfoldable pub mark_new : S8 → List Widget → Option View
unfolding mark
mark_new minus_one ws = some (record { widgets = ws; focus = none })
mark_new other_negative ws = none
mark_new (index i) ws = elim (mark i true ws) [
  | none ↦ none
  | some ws' ↦ some (record { widgets = ws'; focus = some i })
]

-- `none` is an access outside of `widgets`.
unfoldable pub view_set_focus : S8 → View → Option View
unfolding unmark_old mark_new
view_set_focus new_focus v = elim (unmark_old v) [ none ↦ none | some ws ↦ mark_new new_focus ws ]

-- All of FOCUS_FLAGS are set.
abbrev pub can_focus : Widget → Bool
can_focus w = w.visible && w.enabled && w.focusable

-- The loop from `i - 1` down.
unfoldable pub find_prev : ℕ → List Widget → Option ℕ
find_prev zero ws = none
find_prev (suc i) ws =
    let rest = find_prev i ws in
    elim (get_elem? ws i) [ none ↦ rest | some w ↦ if can_focus w then some i else rest ]

-- The loop from `i` up, over the widgets from there on.
unfoldable pub find_next : ℕ → List Widget → Option ℕ
find_next i [] = none
find_next i (w ∷ ws) = let rest = find_next (i + 1) ws in if can_focus w then some i else rest

abbrev pub go_to : Option ℕ → View → Option View
go_to o v = elim o [ none ↦ some v | some i ↦ view_set_focus (to_s8 i) v ]

unfoldable pub view_set_focus_prev : View → Option View
unfolding find_prev view_set_focus to_s8
view_set_focus_prev v = elim v.focus [
  | none ↦ some v
  | some f ↦ if ltb f 1 then some v else go_to (find_prev f v.widgets) v
]

-- `focus + 1`.
abbrev pub after_focus : View → ℕ
after_focus v = elim v.focus [ none ↦ 0 | some f ↦ f + 1 ]

unfoldable pub view_set_focus_next : View → Option View
unfolding find_next view_set_focus to_s8
view_set_focus_next v =
    if after_focus v == length v.widgets
    then some v
    else go_to (find_next (after_focus v) (drop (after_focus v) v.widgets)) v

-- The argument `mod` of `view_move_focus`.
pub data Move : Type 0 where
  forward backward : ℕ → Move

-- `focus + mod`, if it is neither below 1 nor above `widget_count - 1`.
unfoldable pub moved_to : Move → View → Option ℕ
moved_to (forward n) v =
    if ltb (after_focus v + n) 2 || ltb (length v.widgets) (after_focus v + n)
    then none
    else some (after_focus v + n - 1)
moved_to (backward n) v =
    if ltb (after_focus v) (n + 2) || ltb (length v.widgets + n) (after_focus v)
    then none
    else some (after_focus v - n - 1)

abbrev pub can_focus_at : ℕ → List Widget → Bool
can_focus_at i ws = elim (get_elem? ws i) [ none ↦ false | some w ↦ can_focus w ]

unfoldable pub view_move_focus : Move → View → Option View
unfolding moved_to view_set_focus to_s8
view_move_focus change v = elim (moved_to change v) [
  | none ↦ some v
  | some i ↦ if can_focus_at i v.widgets then view_set_focus (to_s8 i) v else some v
]

-- The pointer when a frame is drawn. It is `away` if it is not in use (`!wm`, or `!viewing`); else it
-- hits what `view_widget_at_xy` finds, none being -1.
pub data Pointer : Type 0 where
  away : Pointer
  hits : Option ℕ → Pointer

-- The focus on the widget that is hit; `none` is an access outside of `widgets`.
unfoldable pub point_at : Option ℕ → View → Option View
unfolding view_set_focus to_s8
point_at none v = some v
point_at (some i) v = elim (get_elem? v.widgets i) [
  | none ↦ none
  | some w ↦ if can_focus w then view_set_focus (to_s8 i) v else some v
]

-- What `view_plot` does to the focus.
unfoldable pub point : Pointer → View → Option View
unfolding view_set_focus point_at
point away v = some v
point (hits w) v = elim (view_set_focus minus_one v) [ none ↦ none | some v' ↦ point_at w v' ]
