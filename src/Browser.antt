-- ===== src/Browser.antt =====
-- The grid of applications: channel/channelapp/source/browser.c.
--
-- `entries` holds the addresses of the applications shown, `entry_count` of them; the cells above are
-- NULL, which is 0. The two pages of widgets take turns. Positions are left out; so the
-- pointer, which takes the focus while a page is drawn, is given for each of the twenty frames.
pub mod Page
pub mod Drawn
pub mod Selected
pub mod Kept
pub mod Paging
pub mod Back
mod Tests
use hbc.Base.{
  ℕ, zero, suc, ◌+◌, ◌-◌, ◌*◌, ◌/◌, ◌%◌, Bool, true, false, not, ◌&&◌, ◌||◌, Option, none, some,
  List, [], ◌∷◌, if◌then◌else◌, ltb, leb, ◌==◌, length, drop, get_or, set,
}
use hbc.Base.Word.{add16, sub16, sub32}
use hbc.Apps.Table.{max_entries}
use hbc.View.{
  Widget, View, Pointer, Move, forward, backward, to_s8, view_set_focus, point, view_set_focus_prev,
  view_set_focus_next, view_move_focus,
}

abbrev pub ae_offset : ℕ
ae_offset = 5

abbrev pub trans_steps : ℕ
trans_steps = 20

abbrev pub max_columns : ℕ
max_columns = 4

abbrev pub rows : ℕ
rows = 5

pub data BrowserAction : Type 0 where
  ba_add ba_remove ba_refresh ba_next ba_prev : BrowserAction

pub record Browser : Type 0 where
  pub first_set : Bool
  pub top_offset : ℕ
  pub v_browser : View
  pub columns_current : ℕ
  pub columns_new : ℕ

-- The first `i` with `entries[i] == app`.
unfoldable pub entry_index : ℕ → ℕ → List ℕ → Option ℕ
entry_index app i [] = none
entry_index app i (e ∷ es) =
    let rest = entry_index app (i + 1) es in if e == app then some i else rest

unfoldable pub browser_set_top_offset : List ℕ → ℕ → Browser → Browser
unfolding entry_index
browser_set_top_offset entries app b =
    if app == 0 || ltb (length entries) 1
    then record b { top_offset = 0 }
    else let found : ℕ = elim (entry_index app 0 entries) [ none ↦ b.top_offset | some i ↦ i ] in
      let page = b.columns_new * rows in
      let top = found / page * page in
      record b { top_offset = if ltb (length entries - 1) top then sub16 top page else top }

-- The switch of `browser_gen_view`; `none` is a return.
unfoldable pub turn_page : BrowserAction → ℕ → List ℕ → Browser → Option Browser
unfolding browser_set_top_offset
turn_page ba_remove app entries b = some b
turn_page ba_add app entries b = some (browser_set_top_offset entries app b)
turn_page ba_refresh app entries b = some (browser_set_top_offset entries app b)
turn_page ba_next app entries b =
    if leb (length entries) (b.top_offset + b.columns_new * rows)
    then none
    else some (record b { top_offset = add16 b.top_offset (b.columns_current * rows) })
turn_page ba_prev app entries b =
    if ltb b.top_offset 1
    then none
    else if ltb b.top_offset (b.columns_current * rows)
    then none
    else some (record b { top_offset = b.top_offset - b.columns_current * rows })

-- What `widget_free` leaves, and what both `widget_app_entry` and `widget_grid_app_entry` make of it.
abbrev pub no_widget : Widget
no_widget = record {
  visible = false;
  enabled = false;
  focusable = false;
  rumble = false;
  focused = false;
}

abbrev pub app_widget : Widget
app_widget = record {
  visible = true;
  enabled = true;
  focusable = true;
  rumble = true;
  focused = false;
}

-- `n` widgets from `start` on are freed.
unfoldable pub free_widgets : ℕ → ℕ → List Widget → List Widget
free_widgets zero start ws = ws
free_widgets (suc n) start ws = free_widgets n (start + 1) (set ws start no_widget)

-- The loop over a page from `i` on, with the entries from `top_offset + i` on, and `focus`.
unfoldable pub fill_page : ℕ → ℕ → List ℕ → ℕ → ℕ → List Widget → ℕ → List Widget × ℕ
fill_page zero i es app o2 ws focus = (ws, focus)
fill_page (suc n) i [] app o2 ws focus = (ws, focus)
fill_page (suc n) i (e ∷ es) app o2 ws focus =
    fill_page n (i + 1) es app o2 (set ws (o2 + i) app_widget)
      (if not (e == 0) && e == app then focus + i else focus)

unfoldable pub set_visible : ℕ → Bool → List Widget → List Widget
set_visible i b [] = []
set_visible zero b (w ∷ ws) = record w { visible = b } ∷ ws
set_visible (suc i) b (w ∷ ws) = w ∷ set_visible i b ws

-- Where the page lies that is on the screen, and the other one.
abbrev pub old_page : Bool → ℕ
old_page first_set = if first_set then ae_offset else ae_offset + max_columns * rows

abbrev pub new_page : Bool → ℕ
new_page first_set = if first_set then ae_offset + max_columns * rows else ae_offset

abbrev pub is_remove : BrowserAction → Bool
is_remove action = elim action [ ba_remove ↦ true | _ ↦ false ]

-- The new page and its `focus`.
unfoldable pub make_page : BrowserAction → ℕ → List ℕ → Browser → List Widget × ℕ
unfolding free_widgets fill_page
make_page action app entries b =
    let o2 = new_page b.first_set in
    let freed = free_widgets (max_columns * rows) o2 b.v_browser.widgets in
    if is_remove action
    then (freed, o2)
    else fill_page (b.columns_new * rows) 0 (drop b.top_offset entries) app o2 freed o2

-- Behind the frame of step `i`. In the middle the two arrows and the focus are set.
unfoldable pub after_frame : Bool → Bool → ℕ → ℕ → View → Option View
unfolding set_visible
after_frame less more focus i v =
    if i == trans_steps / 2
    then view_set_focus (to_s8 (focus % 256))
        (record v { widgets = set_visible 1 more (set_visible 0 less v.widgets) })
    else some v

-- The transition, `n` more steps from step `i` on.
unfoldable pub draw_frames : (ℕ → Pointer) → Bool → Bool → ℕ → ℕ → ℕ → View → Option View
unfolding after_frame
draw_frames pointer less more focus zero i v = some v
draw_frames pointer less more focus (suc n) i v = elim (point (pointer i) v) [
  | none ↦ none
  | some v' ↦ elim (after_frame less more focus i v') [
    | none ↦ none
    | some v'' ↦ draw_frames pointer less more focus n (i + 1) v''
  ]
]

-- From the switch on; `none` is an access outside of the widgets.
unfoldable pub show_page : BrowserAction → ℕ → List ℕ → (ℕ → Pointer) → Browser → Option Browser
unfolding make_page draw_frames
show_page action app entries pointer b =
    let less = not (is_remove action) && ltb 0 b.top_offset in
    let more =
      not (is_remove action) && ltb (b.top_offset + b.columns_new * rows) (length entries) in
    let page = make_page action app entries b in
    elim (draw_frames pointer less more page.1 trans_steps 0
      (record b.v_browser { widgets = page.0 })) [
        | none ↦ none
        | some v ↦ some (record {
          first_set = not b.first_set;
          top_offset = if is_remove action then 0 else b.top_offset;
          v_browser = record v {
            widgets = free_widgets (max_columns * rows) (old_page b.first_set) v.widgets;
          };
          columns_current = b.columns_new;
          columns_new = b.columns_new;
        })
      ]

unfoldable pub browser_gen_view :
    BrowserAction → ℕ → List ℕ → (ℕ → Pointer) → Browser → Option Browser
unfolding turn_page show_page
browser_gen_view action app entries pointer b = elim (turn_page action app entries b) [
  | none ↦ some b
  | some b' ↦ show_page action app entries pointer b'
]

-- PADS_UP, PADS_DOWN, PADS_LEFT and PADS_RIGHT of `bd`.
pub record Pads : Type 0 where
  pub up : Bool
  pub down : Bool
  pub left : Bool
  pub right : Bool

abbrev pub with_view : Browser → Option View → Option Browser
with_view b o = elim o [ none ↦ none | some v ↦ some (record b { v_browser = v }) ]

unfoldable pub browser_set_focus : Pads → Browser → Option Browser
browser_set_focus bd b =
    if b.columns_current == 1
    then if bd.up
      then with_view b (view_set_focus_prev b.v_browser)
      else if bd.down
      then with_view b (view_set_focus_next b.v_browser)
      else some b
    else if bd.left
    then with_view b (view_set_focus_prev b.v_browser)
    else if bd.right
    then with_view b (view_set_focus_next b.v_browser)
    else if bd.up
    then with_view b (view_move_focus (backward b.columns_current) b.v_browser)
    else if bd.down
    then with_view b (view_move_focus (forward b.columns_current) b.v_browser)
    else some b

-- `entries[i]`; `none` outside of the array.
abbrev pub entry_at : List ℕ → ℕ → Option ℕ
entry_at entries i = if ltb i max_entries then some (get_or entries i 0) else none

-- NULL is 0.
unfoldable pub browser_sel : List ℕ → Browser → Option ℕ
browser_sel entries b = elim b.v_browser.focus [
  | none ↦ some 0
  | some f ↦
      if ltb (length entries) 1 || ltb f ae_offset
      then some 0
      else if b.first_set
      then entry_at entries (sub32 (b.top_offset + f) ae_offset)
      else entry_at entries (sub32 (b.top_offset + f) (max_columns * rows + ae_offset))
]

-- With the view there. The second part is `settings.browse_mode`.
unfoldable pub browser_switch_mode : Bool → List ℕ → (ℕ → Pointer) → Browser → Option (Browser × ℕ)
unfolding browser_sel browser_gen_view
browser_switch_mode widescreen entries pointer b = elim (browser_sel entries b) [
  | none ↦ none
  | some app ↦
      let single = b.columns_current == 1 in
      let columns_new = if single then if widescreen then 4 else 3 else 1 in
      elim (browser_gen_view ba_refresh app entries pointer
        (record b { columns_new = columns_new })) [
          | none ↦ none
          | some b' ↦ some (b', if single then 1 else 0)
        ]
]
