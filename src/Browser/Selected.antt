-- ===== src/Browser/Selected.antt =====
-- The application that a page was made for is the one that is selected on it.
use hbc.Base.{
  ℕ, ◌+◌, ◌-◌, ◌*◌, ◌≤◌, ◌<◌, ◌≡◌, ◌≢◌, refl, sym, ap, ◌∙◌, subst, arith, Bool, true, false, not,
  ◌&&◌, ◌||◌, Option, some, List, if◌then◌else◌, ltb, length, drop, get_elem?, Bool-cases, inl, inr,
}
use hbc.Base.Word.{sub32}
use hbc.Apps.Table.{max_entries}
use hbc.View.{View, Pointer}
use hbc.Browser.{
  ae_offset, max_columns, rows, BrowserAction, Browser, free_widgets, trans_steps, old_page,
  new_page, is_remove, make_page, show_page, entry_at, browser_sel,
}
use hbc.Browser.Page.{
  length-free_widgets, length-fill_page, fill_page_at, get_elem?-drop, get_elem?-range,
  get_or-get_elem?,
}
use hbc.Browser.Drawn.{all_widgets, IsWhole, IsQuiet, draw_frames-Set}

-- What holds of the browser whenever it is called.
pub record IsReady (b : Browser) : Type 0 where
  pub whole : IsWhole b.v_browser
  pub columns : 1 ≤ b.columns_new
  pub few_columns : b.columns_new ≤ max_columns

length-make_page :
    (action : BrowserAction) (app : ℕ) (entries : List ℕ) (b : Browser)
    → length (make_page action app entries b).0 ≡ length b.v_browser.widgets
unfolding make_page
length-make_page action app entries b =
    let o2 = new_page b.first_set in
    let freed = length-free_widgets (max_columns * rows) o2 b.v_browser.widgets in
    let page =
      length-fill_page (b.columns_new * rows) 0 (drop b.top_offset entries) app o2
        (free_widgets (max_columns * rows) o2 b.v_browser.widgets) o2 in
    elim (Bool-cases (is_remove action)) [
      | inl e ↦ rw (e, make_page) freed
      | inr e ↦ rw (e, make_page) (page ∙ freed)
    ]

module _ (app : ℕ) (entries : List ℕ) (k : ℕ) (some_app : app ≢ 0)
    (few : length entries ≤ max_entries) (at : get_elem? entries k ≡ some app) where
  make_page-focus :
      (action : BrowserAction) (b : Browser)
      → is_remove action ≡ false
      → ((j : ℕ) → j ≢ k → get_elem? entries j ≢ some app)
      → b.top_offset ≤ k
      → k < b.top_offset + b.columns_new * rows
      → (make_page action app entries b).1 ≡ new_page b.first_set + (k - b.top_offset)
  unfolding make_page
  make_page-focus action b keeps once above below =
      let o2 = new_page b.first_set in
      let back : b.top_offset + (k - b.top_offset) ≡ k = omega arith in
      let here : get_elem? (drop b.top_offset entries) (k - b.top_offset) ≡ some app =
        get_elem?-drop b.top_offset (k - b.top_offset) entries ∙ ap (get_elem? entries) back ∙ at in
      let others : (j : ℕ)
          → j ≢ k - b.top_offset
          → get_elem? (drop b.top_offset entries) j ≢ some app =
        λ j ne f.
          once (b.top_offset + j) (omega arith) (sym (get_elem?-drop b.top_offset j entries) ∙ f) in
      let found =
        fill_page_at (b.columns_new * rows) 0 (drop b.top_offset entries) app o2
          (free_widgets (max_columns * rows) o2 b.v_browser.widgets) o2 (k - b.top_offset) some_app
          (omega arith) here others in
      rw (keeps, make_page) (found ∙ omega arith)

  browser_sel_at :
      (t : Browser) (i : ℕ)
      → t.v_browser.focus ≡ some i
      → i ≡ old_page t.first_set + (k - t.top_offset)
      → t.top_offset ≤ k
      → browser_sel entries t ≡ some app
  unfolding browser_sel
  browser_sel_at t i focus place above =
      let less = get_elem?-range entries k at in
      let value = get_or-get_elem? entries k 0 at in
      let inside : ltb k max_entries ≡ true = ground arith in
      let entry : entry_at entries k ≡ some app = rw inside (ap some value) in
      elim (Bool-cases t.first_set) [
        | inl e ↦
            let place' : i ≡ ae_offset + (k - t.top_offset) =
              subst (λ f. i ≡ old_page f + (k - t.top_offset)) e place in
            let test : (ltb (length entries) 1 || ltb i ae_offset) ≡ false = ground arith in
            let cell : sub32 (t.top_offset + i) ae_offset ≡ k = omega arith in
            rw (focus, browser_sel)
              (rw test (rw e (subst (λ j. entry_at entries j ≡ some app) (sym cell) entry)))
        | inr e ↦
            let place' : i ≡ ae_offset + max_columns * rows + (k - t.top_offset) =
              subst (λ f. i ≡ old_page f + (k - t.top_offset)) e place in
            let test : (ltb (length entries) 1 || ltb i ae_offset) ≡ false = ground arith in
            let cell : sub32 (t.top_offset + i) (max_columns * rows + ae_offset) ≡ k =
              omega arith in
            rw (focus, browser_sel)
              (rw test (rw e (subst (λ j. entry_at entries j ≡ some app) (sym cell) entry)))
      ]

other_page : (f : Bool) → new_page f ≡ old_page (not f)
other_page true = refl
other_page false = refl

old_page_less : (f : Bool) → old_page f ≤ ae_offset + max_columns * rows
old_page_less true = omega arith
old_page_less false = omega arith

-- The page with the entry is shown, and the entry is selected.
abbrev pub Shown : ℕ → List ℕ → Browser → Option Browser → Type 0
Shown app entries b o =
    (t : Browser) × (o ≡ some t)
    × (browser_sel entries t ≡ some app)
    × IsReady t
    × (t.columns_current ≡ b.columns_new)
    × (t.columns_new ≡ b.columns_new)
    × (t.top_offset ≡ b.top_offset)

pub show_page-Shown :
    (action : BrowserAction) (app : ℕ) (entries : List ℕ) (pointer : ℕ → Pointer) (b : Browser)
    (k : ℕ)
    → is_remove action ≡ false
    → IsReady b
    → IsQuiet pointer
    → app ≢ 0
    → length entries ≤ max_entries
    → get_elem? entries k ≡ some app
    → ((j : ℕ) → j ≢ k → get_elem? entries j ≢ some app)
    → b.top_offset ≤ k
    → k < b.top_offset + b.columns_new * rows
    → Shown app entries b (show_page action app entries pointer b)
unfolding show_page
show_page-Shown action app entries pointer b k keeps ready quiet some_app few at once above below =
    let i : ℕ = (make_page action app entries b).1 in
    let place : i ≡ new_page b.first_set + (k - b.top_offset) =
      make_page-focus app entries k some_app few at action b keeps once above below in
    let there = other_page b.first_set in
    let near = old_page_less (not b.first_set) in
    let c = ready.columns in
    let d = ready.few_columns in
    let fits : i < all_widgets = omega arith in
    let first : View = record b.v_browser { widgets = (make_page action app entries b).0 } in
    let whole : IsWhole first = record {
      size = length-make_page action app entries b ∙ ready.whole.size;
      focus = ready.whole.focus;
    } in
    let (v, e, focus, whole') =
      draw_frames-Set pointer less more i trans_steps 0 first (omega arith) (omega arith) fits
        quiet.hits_widgets quiet.late_away whole in
    let t : Browser = record {
      first_set = not b.first_set;
      top_offset = if is_remove action then 0 else b.top_offset;
      v_browser = record v {
        widgets = free_widgets (max_columns * rows) (old_page b.first_set) v.widgets;
      };
      columns_current = b.columns_new;
      columns_new = b.columns_new;
    } in
    let top : t.top_offset ≡ b.top_offset = ap (λ r. if r then 0 else b.top_offset) keeps in
    let place' : i ≡ old_page (not b.first_set) + (k - t.top_offset) =
      subst (λ x. i ≡ old_page (not b.first_set) + (k - x)) (sym top)
        (place ∙ ap (λ x. x + (k - b.top_offset)) there) in
    (
      t,
      rw (e, show_page) refl,
      browser_sel_at app entries k some_app few at t i focus place'
          (subst (λ x. x ≤ k) (sym top) above),
      record {
        whole = record {
          size =
              length-free_widgets (max_columns * rows) (old_page b.first_set) v.widgets
              ∙ whole'.size;
          focus = whole'.focus;
        };
        columns = c;
        few_columns = d;
      },
      refl,
      refl,
      top,
    )
  where
    less : Bool
    less = not (is_remove action) && ltb 0 b.top_offset

    more : Bool
    more = not (is_remove action) && ltb (b.top_offset + b.columns_new * rows) (length entries)
