-- ===== src/Browser/Drawn.antt =====
-- The focus while a page is drawn.
use hbc.Base.{
  ℕ, zero, suc, ◌+◌, ◌*◌, ◌%◌, ◌/◌, ◌≤◌, ◌<◌, ◌≡◌, refl, ap, ◌∙◌, arith, Bool, true, false, Option,
  none, some, List, [], ◌∷◌, ltb, ◌==◌, length, get_elem?, Bool-cases, inl, inr, some-injective,
}
use hbc.View.{
  Widget, View, Pointer, away, hits, minus_one, index, to_s8, mark, unmark_old, mark_new, can_focus,
  view_set_focus, point_at, point,
}
use hbc.View.Focus.{mark-Marked}
use hbc.Browser.{ae_offset, max_columns, rows, trans_steps, set_visible, after_frame, draw_frames}
use hbc.Browser.Page.{length-set_visible}

-- All widgets of the browser's view.
abbrev pub all_widgets : ℕ
all_widgets = ae_offset + max_columns * rows * 2

-- The view has its widgets, and the focus is among them.
pub record IsWhole (v : View) : Type 0 where
  pub size : length v.widgets ≡ all_widgets
  pub focus : (i : ℕ) → v.focus ≡ some i → i < all_widgets

-- The pointer hits only widgets of the view.
abbrev pub HitsWidgets : Pointer → Type 0
HitsWidgets p = (w : ℕ) → p ≡ hits (some w) → w < all_widgets

-- While a page is drawn, the pointer hits only widgets of the view, and it is not in use in the
-- frames behind the middle one.
pub record IsQuiet (pointer : ℕ → Pointer) : Type 0 where
  pub hits_widgets : (i : ℕ) → HitsWidgets (pointer i)
  pub late_away : (i : ℕ) → trans_steps / 2 < i → i < trans_steps → pointer i ≡ away

abbrev Whole : Option View → Type 0
Whole o = (t : View) × (o ≡ some t) × IsWhole t

-- The focus is set, and the view stays whole.
abbrev pub Set : ℕ → Option View → Type 0
Set i o = (t : View) × (o ≡ some t) × (t.focus ≡ some i) × IsWhole t

unmark_old_whole :
    (v : View)
    → IsWhole v
    → (ws : List Widget) × (unmark_old v ≡ some ws) × (length ws ≡ all_widgets)
unfolding unmark_old
unmark_old_whole v whole = by_focus v.focus refl
  where
    by_focus :
        (f : Option ℕ)
        → v.focus ≡ f
        → (ws : List Widget) × (elim f [ none ↦ some v.widgets | some i ↦ mark i false v.widgets ]
            ≡ some ws)
          × (length ws ≡ all_widgets)
    by_focus none e = (v.widgets, refl, whole.size)
    by_focus (some j) e =
        let old = whole.focus j e in
        let size = whole.size in
        let (ws, f, m) = mark-Marked j false v.widgets (omega arith) in (ws, f, m.size ∙ size)

view_set_focus-Set :
    (i : ℕ) (v : View) → i < all_widgets → IsWhole v → Set i (view_set_focus (index i) v)
unfolding view_set_focus mark_new
view_set_focus-Set i v less whole =
    let (ws, e, size) = unmark_old_whole v whole in
    let (ws', f, m) = mark-Marked i true ws (omega arith) in
    (
      record { widgets = ws'; focus = some i },
      rw (e, view_set_focus) (rw (f, mark_new) refl),
      refl,
      record {
        size = m.size ∙ size;
        focus = λ j g. let same : i ≡ j = some-injective g in omega arith;
      },
    )

view_set_focus-Whole : (v : View) → IsWhole v → Whole (view_set_focus minus_one v)
unfolding view_set_focus mark_new
view_set_focus-Whole v whole =
    let (ws, e, size) = unmark_old_whole v whole in
    (
      record { widgets = ws; focus = none },
      rw (e, view_set_focus) refl,
      record { size = size; focus = λ j g. cc },
    )

to_s8_small : (i : ℕ) → i < all_widgets → to_s8 i ≡ index i
unfolding to_s8
to_s8_small i less = let test : ltb i 128 ≡ true = ground arith in rw (test, to_s8) refl

get_elem?-some :
    (ws : List Widget) (i : ℕ) → i < length ws → (w : Widget) × (get_elem? ws i ≡ some w)
get_elem?-some [] i less = absurd (omega arith)
get_elem?-some (w ∷ ws) zero less = (w, refl)
get_elem?-some (w ∷ ws) (suc i) less = get_elem?-some ws i (omega arith)

point_at-Whole :
    (o : Option ℕ) (v : View)
    → ((w : ℕ) → o ≡ some w → w < all_widgets)
    → IsWhole v
    → Whole (point_at o v)
unfolding point_at
point_at-Whole none v fits whole = (v, refl, whole)
point_at-Whole (some i) v fits whole =
    let less = fits i refl in
    let size = whole.size in
    let (w, e) = get_elem?-some v.widgets i (omega arith) in
    let (t, f, focus, whole') = view_set_focus-Set i v less whole in
    elim (Bool-cases (can_focus w)) [
      | inl can ↦ (t, rw (e, point_at) (rw (can, to_s8_small i less) f), whole')
      | inr cannot ↦ (v, rw (e, point_at) (rw cannot refl), whole)
    ]

-- A frame leaves the view whole.
point-Whole : (p : Pointer) (v : View) → HitsWidgets p → IsWhole v → Whole (point p v)
unfolding point
point-Whole away v fits whole = (v, refl, whole)
point-Whole (hits o) v fits whole =
    let (u, e, whole') = view_set_focus-Whole v whole in
    let (t, f, whole'') = point_at-Whole o u (λ w q. fits w (ap hits q)) whole' in
    (t, rw (e, point) f, whole'')

module _ (pointer : ℕ → Pointer) (less more : Bool) (focus : ℕ) where
  -- Frames behind the middle change nothing if the pointer is not in use.
  draw_frames_away :
      (n i : ℕ) (v : View)
      → 11 ≤ i
      → ((j : ℕ) → i ≤ j → j < i + n → pointer j ≡ away)
      → draw_frames pointer less more focus n i v ≡ some v
  unfolding draw_frames after_frame point
  draw_frames_away zero i v late still = refl
  draw_frames_away (suc n) i v late still =
      let here = still i (omega arith) (omega arith) in
      let test : (i == trans_steps / 2) ≡ false = ground arith in
      rw (here, draw_frames)
        (rw (test, after_frame)
          (draw_frames_away n (i + 1) v (omega arith)
            (λ j low high. still j (omega arith) (omega arith))))

  -- Of all frames, the one in the middle decides.
  pub draw_frames-Set :
      (n i : ℕ) (v : View)
      → i ≤ trans_steps / 2
      → trans_steps / 2 < i + n
      → focus < all_widgets
      → ((j : ℕ) → HitsWidgets (pointer j))
      → ((j : ℕ) → trans_steps / 2 < j → j < i + n → pointer j ≡ away)
      → IsWhole v
      → Set focus (draw_frames pointer less more focus n i v)
  unfolding draw_frames after_frame
  draw_frames-Set zero i v low high fits hit still whole = absurd (omega arith)
  draw_frames-Set (suc n) i v low high fits hit still whole =
      let (u, e, whole') = point-Whole (pointer i) v (hit i) whole in
      elim (Bool-cases (i == trans_steps / 2)) [
        | inl middle ↦
            let byte : focus % 256 ≡ focus = omega arith in
            let ws : List Widget = set_visible 1 more (set_visible 0 less u.widgets) in
            let size : length ws ≡ all_widgets =
              length-set_visible 1 more _ ∙ (length-set_visible 0 less u.widgets ∙ whole'.size) in
            let (t, f, at, whole'') =
              view_set_focus-Set focus (record u { widgets = ws }) fits
                (record { size = size; focus = whole'.focus }) in
            let rest =
              draw_frames_away n (i + 1) t (ground arith)
                (λ j lo hi. still j (ground arith) (omega arith)) in
            (
              t,
              rw (e, draw_frames)
                  (rw (middle, after_frame) (rw (byte, to_s8_small focus fits) (rw f rest))),
              at,
              whole'',
            )
        | inr other ↦
            let (t, f, at, whole'') =
              draw_frames-Set n (i + 1) u (ground arith) (omega arith) fits hit
                (λ j lo hi. still j lo (omega arith)) whole' in
            (t, rw (e, draw_frames) (rw (other, after_frame) f), at, whole'')
      ]
