-- ===== src/Browser/Back.antt =====
-- Turning a page and back.
use hbc.Base.{
  ℕ, ◌+◌, ◌-◌, ◌*◌, ◌≤◌, ◌<◌, ◌≡◌, refl, ap, ◌∙◌, arith, false, some, List, ltb, leb, length,
}
use hbc.Base.Word.{add16}
use hbc.Apps.Table.{max_entries}
use hbc.View.{Pointer}
use hbc.Browser.{rows, ba_next, ba_prev, Browser, turn_page, browser_gen_view}
use hbc.Browser.Paging.{browser_gen_view-Turned, IsPaged}

turn_page_next :
    (app : ℕ) (entries : List ℕ) (b : Browser)
    → b.top_offset + b.columns_new * rows < length entries
    → turn_page ba_next app entries b
      ≡ some (record b { top_offset = add16 b.top_offset (b.columns_current * rows) })
unfolding turn_page
turn_page_next app entries b more =
    let test : leb (length entries) (b.top_offset + b.columns_new * rows) ≡ false = ground arith in
    rw (test, turn_page) refl

turn_page_prev :
    (app : ℕ) (entries : List ℕ) (b : Browser)
    → 1 ≤ b.top_offset
    → b.columns_current * rows ≤ b.top_offset
    → turn_page ba_prev app entries b
      ≡ some (record b { top_offset = b.top_offset - b.columns_current * rows })
unfolding turn_page
turn_page_prev app entries b some_page room =
    let first : ltb b.top_offset 1 ≡ false = ground arith in
    let second : ltb b.top_offset (b.columns_current * rows) ≡ false = ground arith in
    rw (first, turn_page) (rw second refl)

-- Where a further page is there, and top_offset is at a page's start, BA_NEXT moves top_offset by
-- one page, and BA_PREV on what it leaves moves it back.
browser_gen_view_back :
    (app app' : ℕ) (entries : List ℕ) (pointer pointer' : ℕ → Pointer) (b t u : Browser)
    → IsPaged entries b
    → length entries ≤ max_entries
    → b.top_offset + b.columns_new * rows < length entries
    → browser_gen_view ba_next app entries pointer b ≡ some t
    → browser_gen_view ba_prev app' entries pointer' t ≡ some u
    → (t.top_offset ≡ b.top_offset + b.columns_new * rows) × (u.top_offset ≡ b.top_offset)
browser_gen_view_back app app' entries pointer pointer' b t u h few more e f =
    let same : b.columns_current * rows ≡ b.columns_new * rows = ap (λ c. c * rows) h.settled in
    let c = h.columns in
    let next =
      browser_gen_view-Turned ba_next app entries pointer b _ t (turn_page_next app entries b more)
        e in
    let forth : t.top_offset ≡ b.top_offset + b.columns_new * rows = next.top ∙ omega arith in
    let width : t.columns_current * rows ≡ b.columns_new * rows = ap (λ c. c * rows) next.columns in
    let prev =
      browser_gen_view-Turned ba_prev app' entries pointer' t _ u
        (turn_page_prev app' entries t (omega arith) (omega arith)) f in
    (forth, prev.top ∙ omega arith)
