-- ===== src/Browser/Kept.antt =====
-- The selection when the page is made anew or the number of columns changes.
use hbc.Base.{
  ℕ, ◌+◌, ◌-◌, ◌*◌, ◌/◌, ◌≤◌, ◌<◌, ◌≡◌, ◌≢◌, ◌⊎◌, ◌↔◌, refl, sym, ap, ◌∙◌, subst, arith, Bool,
  false, ◌||◌, Option, some, List, if◌then◌else◌, ltb, ◌==◌, length, get_elem?, inl, inr,
}
use hbc.Apps.Table.{max_entries}
use hbc.View.{Pointer}
use hbc.Browser.{
  max_columns, rows, BrowserAction, ba_add, ba_remove, ba_refresh, ba_next, ba_prev, is_remove,
  Browser, entry_index, browser_set_top_offset, turn_page, show_page, browser_gen_view, browser_sel,
  browser_switch_mode,
}
use hbc.Browser.Page.{entry_index_at, get_elem?-range, page_of}
use hbc.Browser.Drawn.{IsQuiet}
use hbc.Browser.Selected.{IsReady, show_page-Shown}

-- Where the page of entry `k` starts.
abbrev top_of : ℕ → Browser → ℕ
top_of k b = k / (b.columns_new * rows) * (b.columns_new * rows)

module _ (app : ℕ) (entries : List ℕ) (k : ℕ) where
  browser_set_top_offset_found :
      (b : Browser)
      → IsReady b
      → app ≢ 0
      → get_elem? entries k ≡ some app
      → ((j : ℕ) → j ≢ k → get_elem? entries j ≢ some app)
      → browser_set_top_offset entries app b ≡ record b { top_offset = top_of k b }
  unfolding browser_set_top_offset
  browser_set_top_offset_found b ready some_app at once =
      let less = get_elem?-range entries k at in
      let first : entry_index app 0 entries ≡ some k =
        entry_index_at app 0 entries k at (λ j before. once j (omega arith))
        ∙ ap some (omega arith) in
      let (low, high) = page_of k b.columns_new ready.columns ready.few_columns in
      let test : (app == 0 || ltb (length entries) 1) ≡ false = ground arith in
      let inside : ltb (length entries - 1) (top_of k b) ≡ false = ground arith in
      rw test (rw first (rw inside refl))

  -- The entry is selected, with as many columns as were asked for.
  pub record Selected (b t : Browser) : Type 0 where
    pub selected : browser_sel entries t ≡ some app
    pub ready : IsReady t
    pub columns : t.columns_current ≡ b.columns_new
    pub settled : t.columns_new ≡ b.columns_new
    pub top : t.top_offset ≤ k
    pub page : k < t.top_offset + t.columns_current * rows

  abbrev Shows : Browser → Option Browser → Type 0
  Shows b o = (t : Browser) × (o ≡ some t) × Selected b t

  found_page :
      (action : BrowserAction) (pointer : ℕ → Pointer) (b : Browser)
      → (action ≡ ba_add) ⊎ (action ≡ ba_refresh)
      → IsReady b
      → IsQuiet pointer
      → app ≢ 0
      → length entries ≤ max_entries
      → get_elem? entries k ≡ some app
      → ((j : ℕ) → j ≢ k → get_elem? entries j ≢ some app)
      → Shows b (show_page action app entries pointer (record b { top_offset = top_of k b }))
  found_page action pointer b which ready quiet some_app few at once =
      let (low, high) = page_of k b.columns_new ready.columns ready.few_columns in
      let keeps : is_remove action ≡ false = elim which [
        | inl e ↦ ap is_remove e
        | inr e ↦ ap is_remove e
      ] in
      let u : Browser = record b { top_offset = top_of k b } in
      let (t, e, sel, ready', columns, settled, top) =
        show_page-Shown action app entries pointer u k keeps
          (record { whole = ready.whole; columns = ready.columns; few_columns = ready.few_columns })
          quiet some_app few at once low high in
      (
        t,
        e,
        record {
          selected = sel;
          ready = ready';
          columns = columns;
          settled = settled;
          top = subst (λ x. x ≤ k) (sym top) low;
          page =
              subst (λ x. k < x + t.columns_current * rows) (sym top)
                (subst (λ c. k < top_of k b + c * rows) (sym columns) high);
        },
      )

  -- When a page is made for an application that stands once in the table, of at most 1024 entries
  -- and without NULL, by BA_ADD or BA_REFRESH, the browser returns with that application selected
  -- and on the page that starts at top_offset, with as many columns as were asked for, one to
  -- four; and the widgets are as many as before, with the focus among them. The browser has its 45
  -- widgets before, and its focus is among them; while the page is drawn, the pointer hits only
  -- widgets of the view, and behind the middle frame it is not in use.
  pub browser_sel-browser_gen_view :
      (action : BrowserAction) (pointer : ℕ → Pointer) (b : Browser)
      → (action ≡ ba_add) ⊎ (action ≡ ba_refresh)
      → IsReady b
      → IsQuiet pointer
      → app ≢ 0
      → length entries ≤ max_entries
      → get_elem? entries k ≡ some app
      → ((j : ℕ) → j ≢ k → get_elem? entries j ≢ some app)
      → Shows b (browser_gen_view action app entries pointer b)
  unfolding browser_gen_view turn_page
  browser_sel-browser_gen_view action pointer b which ready quiet some_app few at once =
      let page = found_page action pointer b which ready quiet some_app few at once in
      let set = browser_set_top_offset_found b ready some_app at once in
      subst (Shows b) (sym (by_action action which set)) page
    where
      by_action :
          (a : BrowserAction)
          → (a ≡ ba_add) ⊎ (a ≡ ba_refresh)
          → browser_set_top_offset entries app b ≡ record b { top_offset = top_of k b }
          → browser_gen_view a app entries pointer b
            ≡ show_page a app entries pointer (record b { top_offset = top_of k b })
      by_action ba_add h e = ap (show_page ba_add app entries pointer) e
      by_action ba_refresh h e = ap (show_page ba_refresh app entries pointer) e
      by_action ba_remove (inl h) e = cc
      by_action ba_remove (inr h) e = cc
      by_action ba_next (inl h) e = cc
      by_action ba_next (inr h) e = cc
      by_action ba_prev (inl h) e = cc
      by_action ba_prev (inr h) e = cc

  abbrev new_columns : Bool → Browser → ℕ
  new_columns widescreen b = if b.columns_current == 1 then if widescreen then 4 else 3 else 1

  -- browser_switch_mode keeps the selection: the application that was selected, if it stands once
  -- in the table of at most 1024 entries, is selected afterwards, in four columns, three or one,
  -- by the mode before and the width of the screen, and the stored mode is 0 exactly for one
  -- column. The browser has its 45 widgets before, and its focus is among them; while the page is
  -- drawn, the pointer hits only widgets of the view, and behind the middle frame it is not in
  -- use.
  pub browser_sel-browser_switch_mode :
      (widescreen : Bool) (pointer : ℕ → Pointer) (b : Browser)
      → IsReady b
      → IsQuiet pointer
      → browser_sel entries b ≡ some app
      → app ≢ 0
      → length entries ≤ max_entries
      → get_elem? entries k ≡ some app
      → ((j : ℕ) → j ≢ k → get_elem? entries j ≢ some app)
      → (t : Browser) × (mode : ℕ) × (browser_switch_mode widescreen entries pointer b
          ≡ some (t, mode))
        × (browser_sel entries t ≡ some app)
        × (t.columns_current ≡ new_columns widescreen b)
        × ((mode ≡ 0) ↔ (t.columns_current ≡ 1))
        × IsReady t
  unfolding browser_switch_mode
  browser_sel-browser_switch_mode widescreen pointer b ready quiet sel some_app few at once =
      let c : ℕ = new_columns widescreen b in
      let (more, less) = columns_ok in
      let (t, e, s) =
        browser_sel-browser_gen_view ba_refresh pointer (record b { columns_new = c }) (inr refl)
          (record { whole = ready.whole; columns = more; few_columns = less }) quiet some_app few at
          once in
      (
        t,
        mode_of,
        rw (sel, browser_switch_mode) (rw e refl),
        s.selected,
        s.columns,
        subst (λ n. (mode_of ≡ 0) ↔ (n ≡ 1)) (sym s.columns) mode_ok,
        s.ready,
      )
    where
      columns_ok : (1 ≤ new_columns widescreen b) × (new_columns widescreen b ≤ max_columns)
      columns_ok = (ground arith, ground arith)

      mode_of : ℕ
      mode_of = if b.columns_current == 1 then 1 else 0

      mode_ok : (mode_of ≡ 0) ↔ (new_columns widescreen b ≡ 1)
      mode_ok = (λ e. ground arith, λ e. ground arith)
