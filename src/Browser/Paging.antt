-- ===== src/Browser/Paging.antt =====
-- Which pages the browser turns to.
use hbc.Base.{
  ℕ, zero, suc, ◌+◌, ◌-◌, ◌*◌, ◌/◌, ◌≤◌, ◌<◌, ◌≡◌, ◌⊎◌, refl, sym, ap, ◌∙◌, subst, arith, Bool,
  true, false, not, ◌&&◌, ◌||◌, Option, none, some, List, if◌then◌else◌, ltb, leb, ◌==◌, length,
  Bool-cases, inl, inr, some-injective,
}
use native.Mathlib.Nat.{zero-mul, suc-mul}
use hbc.Base.Word.{add16}
use hbc.Apps.Table.{max_entries}
use hbc.View.{View, Pointer}
use hbc.Browser.{
  max_columns, rows, BrowserAction, ba_add, ba_remove, ba_refresh, ba_next, ba_prev, is_remove,
  Browser, entry_index, browser_set_top_offset, turn_page, make_page, trans_steps, draw_frames,
  show_page, browser_gen_view, free_widgets, old_page,
}
use hbc.Browser.Page.{page_of}

-- The fields of a page that is shown.
pub record Turned (action : BrowserAction) (b t : Browser) : Type 0 where
  pub top : t.top_offset ≡ (if is_remove action then 0 else b.top_offset)
  pub columns : t.columns_current ≡ b.columns_new
  pub settled : t.columns_new ≡ b.columns_new

show_page-Turned :
    (action : BrowserAction) (app : ℕ) (entries : List ℕ) (pointer : ℕ → Pointer) (b t : Browser)
    → show_page action app entries pointer b ≡ some t
    → Turned action b t
unfolding show_page
show_page-Turned action app entries pointer b t e =
    let less = not (is_remove action) && ltb 0 b.top_offset in
    let more =
      not (is_remove action) && ltb (b.top_offset + b.columns_new * rows) (length entries) in
    let page = make_page action app entries b in
    by_focus
      (draw_frames pointer less more page.1 trans_steps 0 (record b.v_browser { widgets = page.0 }))
      e
  where
    answer : Option View → Option Browser
    answer o = elim o [
      | none ↦ none
      | some v ↦ some (record {
        first_set = not b.first_set;
        top_offset = if is_remove action then 0 else b.top_offset;
        v_browser = record v {
          widgets = free_widgets (max_columns * rows) (old_page b.first_set) v.widgets;
        };
        columns_current = b.columns_new;
        columns_new = b.columns_new;
      })
    ]

    by_focus : (o : Option View) → answer o ≡ some t → Turned action b t
    by_focus none f = cc
    by_focus (some v) f =
        let same = some-injective f in
        record {
          top = sym (ap (λ x. x.top_offset) same);
          columns = sym (ap (λ x. x.columns_current) same);
          settled = sym (ap (λ x. x.columns_new) same);
        }

pub browser_gen_view-Turned :
    (action : BrowserAction) (app : ℕ) (entries : List ℕ) (pointer : ℕ → Pointer) (b c t : Browser)
    → turn_page action app entries b ≡ some c
    → browser_gen_view action app entries pointer b ≡ some t
    → Turned action c t
unfolding browser_gen_view
browser_gen_view-Turned action app entries pointer b c t q e =
    show_page-Turned action app entries pointer c t (subst (λ o. shown o ≡ some t) q e)
  where
    shown : Option Browser → Option Browser
    shown o = elim o [ none ↦ some b | some d ↦ show_page action app entries pointer d ]

-- The first entry on the screen starts a page, and it is there unless nothing is.
pub record IsPaged (entries : List ℕ) (b : Browser) : Type 0 where
  pub columns : (1 ≤ b.columns_new) × (b.columns_new ≤ max_columns)
  pub pages : (n : ℕ) × (b.top_offset ≡ n * (b.columns_new * rows))
  pub settled : b.columns_current ≡ b.columns_new
  pub there : (b.top_offset < length entries) ⊎ (b.top_offset ≡ 0)

-- The application is NULL or in the table.
abbrev pub IsKnown : ℕ → List ℕ → Type 0
IsKnown app entries =
    (app ≡ 0) ⊎ ((k : ℕ) × (entry_index app 0 entries ≡ some k) × (k < length entries))

browser_set_top_offset-IsPaged :
    (app : ℕ) (entries : List ℕ) (b : Browser)
    → (1 ≤ b.columns_new) × (b.columns_new ≤ max_columns)
    → b.columns_current ≡ b.columns_new
    → IsKnown app entries
    → IsPaged entries (browser_set_top_offset entries app b)
unfolding browser_set_top_offset
browser_set_top_offset-IsPaged app entries b c settled known =
    elim (Bool-cases (app == 0 || ltb (length entries) 1)) [
      | inl e ↦ rw e (record {
        columns = c;
        settled = settled;
        pages = (0, sym (zero-mul (b.columns_new * rows)));
        there = inr refl;
      })
      | inr e ↦ elim known [
        | inl z ↦ absurd (ground arith)
        | inr (k, f, less) ↦
            let (low, high) = page_of k b.columns_new c.0 c.1 in
            let inside : ltb (length entries - 1)
                  (k / (b.columns_new * rows) * (b.columns_new * rows))
                ≡ false =
              ground arith in
            rw e (
              rw f (
                rw inside (record {
                  columns = c;
                  settled = settled;
                  pages = (k / (b.columns_new * rows), refl);
                  there = inl (omega arith);
                })))
      ]
    ]

module _ (entries : List ℕ) (b : Browser) where
  next-IsPaged :
      IsPaged entries b
      → b.top_offset + b.columns_new * rows < length entries
      → length entries ≤ max_entries
      → IsPaged entries (record b { top_offset = add16 b.top_offset (b.columns_current * rows) })
  next-IsPaged h more few =
      let (n, e) = h.pages in
      let same : b.columns_current * rows ≡ b.columns_new * rows = ap (λ c. c * rows) h.settled in
      let next : add16 b.top_offset (b.columns_current * rows)
          ≡ n * (b.columns_new * rows) + b.columns_new * rows =
        omega arith in
      record {
        columns = h.columns;
        settled = h.settled;
        pages = (suc n, next ∙ sym (suc-mul n (b.columns_new * rows)));
        there = inl (omega arith);
      }

  prev-IsPaged :
      IsPaged entries b
      → b.columns_current * rows ≤ b.top_offset
      → 1 ≤ b.top_offset
      → IsPaged entries (record b { top_offset = b.top_offset - b.columns_current * rows })
  prev-IsPaged h room some_page =
      let (n, e) = h.pages in
      let same : b.columns_current * rows ≡ b.columns_new * rows = ap (λ c. c * rows) h.settled in
      record {
        columns = h.columns;
        settled = h.settled;
        pages = before n e same;
        there = elim h.there [ inl less ↦ inl (omega arith) | inr z ↦ absurd (omega arith) ];
      }
    where
      before :
          (n : ℕ)
          → b.top_offset ≡ n * (b.columns_new * rows)
          → b.columns_current * rows ≡ b.columns_new * rows
          → (m : ℕ) × (b.top_offset - b.columns_current * rows ≡ m * (b.columns_new * rows))
      before zero e same = let z = zero-mul (b.columns_new * rows) in absurd (omega arith)
      before (suc n) e same = let s = suc-mul n (b.columns_new * rows) in (n, omega arith)

-- One call of `turn_page`.
turn_page-IsPaged :
    (action : BrowserAction) (app : ℕ) (entries : List ℕ) (b c : Browser)
    → IsPaged entries b
    → length entries ≤ max_entries
    → IsKnown app entries
    → turn_page action app entries b ≡ some c
    → IsPaged entries c
unfolding turn_page
turn_page-IsPaged ba_remove app entries b c h few known =
    λ e. subst (IsPaged entries) (some-injective e) h
turn_page-IsPaged ba_add app entries b c h few known = λ e.
    subst (IsPaged entries) (some-injective e)
      (browser_set_top_offset-IsPaged app entries b h.columns h.settled known)
turn_page-IsPaged ba_refresh app entries b c h few known = λ e.
    subst (IsPaged entries) (some-injective e)
      (browser_set_top_offset-IsPaged app entries b h.columns h.settled known)
turn_page-IsPaged ba_next app entries b c h few known =
    elim (Bool-cases (leb (length entries) (b.top_offset + b.columns_new * rows))) [
      | inl q ↦ rw q (λ e. cc)
      | inr q ↦ rw q (λ e.
          subst (IsPaged entries) (some-injective e) (next-IsPaged entries b h (ground arith) few))
    ]
turn_page-IsPaged ba_prev app entries b c h few known = elim (Bool-cases (ltb b.top_offset 1)) [
  | inl q ↦ rw q (λ e. cc)
  | inr q ↦ rw q (elim (Bool-cases (ltb b.top_offset (b.columns_current * rows))) [
    | inl r ↦ rw r (λ e. cc)
    | inr r ↦ rw r (λ e.
        subst (IsPaged entries) (some-injective e)
          (prev-IsPaged entries b h (ground arith) (ground arith)))
  ])
]

Turned-IsPaged :
    (action : BrowserAction) (entries : List ℕ) (b t : Browser)
    → IsPaged entries b
    → Turned action b t
    → IsPaged entries t
Turned-IsPaged action entries b t h turned =
    let (n, e) = h.pages in
    record {
      columns = subst (λ c. (1 ≤ c) × (c ≤ max_columns)) (sym turned.settled) h.columns;
      pages =
          subst (λ c. (m : ℕ) × (t.top_offset ≡ m * (c * rows))) (sym turned.settled)
            (by_top (is_remove action) turned.top n e);
      settled = turned.columns ∙ sym turned.settled;
      there = by_there (is_remove action) turned.top;
    }
  where
    by_top :
        (r : Bool)
        → t.top_offset ≡ (if r then 0 else b.top_offset)
        → (n : ℕ) → b.top_offset ≡ n * (b.columns_new * rows)
        → (m : ℕ) × (t.top_offset ≡ m * (b.columns_new * rows))
    by_top true q n e = (0, q ∙ sym (zero-mul (b.columns_new * rows)))
    by_top false q n e = (n, q ∙ e)

    by_there :
        (r : Bool)
        → t.top_offset ≡ (if r then 0 else b.top_offset)
        → (t.top_offset < length entries) ⊎ (t.top_offset ≡ 0)
    by_there true q = inr q
    by_there false q = subst (λ x. (x < length entries) ⊎ (x ≡ 0)) (sym q) h.there

-- While no change of the columns is pending, top_offset is the start of a page, and below
-- entry_count or 0: every action that returns keeps this, on at most 1024 entries, if the
-- application is NULL or in the table, wherever the pointer is while the page is drawn.
pub browser_gen_view-IsPaged :
    (action : BrowserAction) (app : ℕ) (entries : List ℕ) (pointer : ℕ → Pointer) (b t : Browser)
    → IsPaged entries b
    → length entries ≤ max_entries
    → IsKnown app entries
    → browser_gen_view action app entries pointer b ≡ some t
    → IsPaged entries t
unfolding browser_gen_view
browser_gen_view-IsPaged action app entries pointer b t h few known =
    by_turn (turn_page action app entries b) refl
  where
    shown : Option Browser → Option Browser
    shown o = elim o [ none ↦ some b | some c ↦ show_page action app entries pointer c ]

    by_turn :
        (o : Option Browser)
        → turn_page action app entries b ≡ o
        → shown o ≡ some t
        → IsPaged entries t
    by_turn none q e = subst (IsPaged entries) (some-injective e) h
    by_turn (some c) q e =
        Turned-IsPaged action entries c t (turn_page-IsPaged action app entries b c h few known q)
          (show_page-Turned action app entries pointer c t e)
