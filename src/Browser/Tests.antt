-- ===== src/Browser/Tests.antt =====
-- Seven applications at the addresses 101 to 107, in one column and in three.
use hbc.Base.{
  ℕ, zero, suc, ◌≡◌, ◌≢◌, ◌↔◌, inl, inr, refl, arith, true, false, Option, none, some, List, [],
  ◌∷◌, get_elem?, replicate, length-replicate, leb, if◌then◌else◌,
}
use hbc.View.{
  Pointer, away, hits, point, point_at, to_s8, mark, unmark_old, mark_new, view_set_focus,
}
use hbc.Browser.{
  draw_frames, after_frame, Browser, ba_add, ba_next, ba_prev, no_widget, turn_page, free_widgets,
  fill_page, set_visible, make_page, show_page, browser_gen_view, browser_sel, browser_switch_mode,
}
use hbc.Browser.Drawn.{IsQuiet}
use hbc.Browser.Selected.{IsReady}
use hbc.Browser.Kept.{Selected, browser_sel-browser_gen_view, browser_sel-browser_switch_mode}
use hbc.Browser.Paging.{IsPaged, browser_gen_view-IsPaged}

abbrev entries : List ℕ
entries = 101 ∷ 102 ∷ 103 ∷ 104 ∷ 105 ∷ 106 ∷ 107 ∷ []

abbrev start : Browser
start = record {
  first_set = true;
  top_offset = 0;
  v_browser = record { widgets = replicate 45 no_widget; focus = none };
  columns_current = 1;
  columns_new = 1;
}

-- The pointer stands on the first cell of the old page up to the middle, and is then put away.
abbrev early : ℕ → Pointer
early i = if leb i 10 then hits (some 5) else away

early-IsQuiet : IsQuiet early
early-IsQuiet = record {
  hits_widgets = λ i w e. ground arith;
  late_away = λ i low high. ground arith;
}

start-IsReady : IsReady start
start-IsReady = record {
  whole = record { size = length-replicate 45 no_widget; focus = λ i e. cc };
  columns = omega arith;
  few_columns = omega arith;
}

once : (j : ℕ) → j ≢ 6 → get_elem? entries j ≢ some 107
once zero ne = λ e. ground arith
once (suc zero) ne = λ e. ground arith
once (suc (suc zero)) ne = λ e. ground arith
once (suc (suc (suc zero))) ne = λ e. ground arith
once (suc (suc (suc (suc zero)))) ne = λ e. ground arith
once (suc (suc (suc (suc (suc zero))))) ne = λ e. ground arith
once (suc (suc (suc (suc (suc (suc zero)))))) ne = absurd (ne refl)
once (suc (suc (suc (suc (suc (suc (suc j))))))) ne = λ e. cc

browser_sel-browser_gen_view_example :
    (t : Browser) × (browser_gen_view ba_add 107 entries early start ≡ some t)
    × Selected 107 entries 6 start t
browser_sel-browser_gen_view_example =
    browser_sel-browser_gen_view 107 entries 6 ba_add early start (inl refl) start-IsReady
      early-IsQuiet (omega arith) (omega arith) refl once

-- The last entry is selected.
abbrev second : Browser
second = record start {
  top_offset = 5;
  v_browser = record { widgets = replicate 45 no_widget; focus = some 6 };
}

second-IsReady : IsReady second
second-IsReady = record {
  whole = record { size = length-replicate 45 no_widget; focus = λ i e. ground arith };
  columns = omega arith;
  few_columns = omega arith;
}

second_sel : browser_sel entries second ≡ some 107
unfolding browser_sel
second_sel = refl

browser_sel-browser_switch_mode_example :
    (t : Browser) × (mode : ℕ) × (browser_switch_mode false entries early second ≡ some (t, mode))
    × (browser_sel entries t ≡ some 107)
    × (t.columns_current ≡ 3)
    × ((mode ≡ 0) ↔ (t.columns_current ≡ 1))
    × IsReady t
browser_sel-browser_switch_mode_example =
    browser_sel-browser_switch_mode 107 entries 6 false early second second-IsReady early-IsQuiet
      second_sel (omega arith) (omega arith) refl once

abbrev or_start : Option Browser → Browser
or_start none = start
or_start (some b) = b

abbrev next_page : Browser
next_page = or_start (browser_gen_view ba_next 0 entries early start)

next_page_run : browser_gen_view ba_next 0 entries early start ≡ some next_page
unfolding browser_gen_view turn_page show_page make_page free_widgets fill_page set_visible
    draw_frames after_frame point point_at view_set_focus unmark_old mark_new mark to_s8
next_page_run = refl

next_page_top : (next_page.top_offset ≡ 5) × (next_page.v_browser.focus ≡ some 25)
unfolding browser_gen_view turn_page show_page make_page free_widgets fill_page set_visible
    draw_frames after_frame point point_at view_set_focus unmark_old mark_new mark to_s8
next_page_top = (refl, refl)

start-IsPaged : IsPaged entries start
start-IsPaged = record {
  columns = omega arith;
  pages = (0, refl);
  settled = refl;
  there = inr refl;
}

browser_gen_view-IsPaged_example : IsPaged entries next_page
browser_gen_view-IsPaged_example =
    browser_gen_view-IsPaged ba_next 0 entries early start next_page start-IsPaged (omega arith)
      (inl refl) next_page_run

abbrev back_again : Browser
back_again = or_start (browser_gen_view ba_prev 0 entries early next_page)

back_again_run : browser_gen_view ba_prev 0 entries early next_page ≡ some back_again
unfolding browser_gen_view turn_page show_page make_page free_widgets fill_page set_visible
    draw_frames after_frame point point_at view_set_focus unmark_old mark_new mark to_s8
back_again_run = refl
