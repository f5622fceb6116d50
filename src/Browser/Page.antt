-- ===== src/Browser/Page.antt =====
-- The widgets and the focus of a page, and the page of an entry.
use hbc.Base.{
  ℕ, zero, suc, ◌+◌, ◌*◌, ◌/◌, ◌≤◌, ◌<◌, ◌≡◌, ◌≢◌, refl, ap, ◌∙◌, arith, Bool, true, false, not,
  ◌&&◌, some, List, [], ◌∷◌, ◌==◌, length, drop, get_elem?, get_or, set, some-injective,
}
use hbc.View.{Widget}
use hbc.Browser.{
  max_columns, rows, entry_index, no_widget, app_widget, free_widgets, fill_page, set_visible,
}

abbrev pub Absent : ℕ → List ℕ → ℕ → Type 0
Absent app es n = (j : ℕ) → j < n → get_elem? es j ≢ some app

pub entry_index_at :
    (app i : ℕ) (es : List ℕ) (k : ℕ)
    → get_elem? es k ≡ some app
    → Absent app es k
    → entry_index app i es ≡ some (i + k)
unfolding entry_index
entry_index_at app i [] k e before = cc
entry_index_at app i (x ∷ es) zero e before =
    let same : x ≡ app = some-injective e in
    let test : (x == app) ≡ true = ground arith in rw test (ap some (omega arith))
entry_index_at app i (x ∷ es) (suc k) e before =
    let other : x ≢ app = λ f. before 0 (omega arith) (ap some f) in
    let test : (x == app) ≡ false = ground arith in
    let rest = entry_index_at app (i + 1) es k e (λ j less. before (suc j) (omega arith)) in
    rw test (rest ∙ ap some (omega arith))

length-set : (ws : List Widget) (i : ℕ) (w : Widget) → length (set ws i w) ≡ length ws
length-set [] i w = refl
length-set (x ∷ ws) zero w = refl
length-set (x ∷ ws) (suc i) w = ap suc (length-set ws i w)

pub length-free_widgets :
    (n start : ℕ) (ws : List Widget) → length (free_widgets n start ws) ≡ length ws
unfolding free_widgets
length-free_widgets zero start ws = refl
length-free_widgets (suc n) start ws =
    length-free_widgets n (start + 1) (set ws start no_widget) ∙ length-set ws start no_widget

pub length-set_visible :
    (i : ℕ) (b : Bool) (ws : List Widget) → length (set_visible i b ws) ≡ length ws
unfolding set_visible
length-set_visible i b [] = refl
length-set_visible zero b (w ∷ ws) = refl
length-set_visible (suc i) b (w ∷ ws) = ap suc (length-set_visible i b ws)

pub length-fill_page :
    (n i : ℕ) (es : List ℕ) (app o2 : ℕ) (ws : List Widget) (focus : ℕ)
    → length (fill_page n i es app o2 ws focus).0 ≡ length ws
unfolding fill_page
length-fill_page zero i es app o2 ws focus = refl
length-fill_page (suc n) i [] app o2 ws focus = refl
length-fill_page (suc n) i (e ∷ es) app o2 ws focus =
    length-fill_page n (i + 1) es app o2 _ _ ∙ length-set ws (o2 + i) app_widget

fill_page_absent :
    (n i : ℕ) (es : List ℕ) (app o2 : ℕ) (ws : List Widget) (focus : ℕ)
    → ((j : ℕ) → get_elem? es j ≢ some app)
    → (fill_page n i es app o2 ws focus).1 ≡ focus
unfolding fill_page
fill_page_absent zero i es app o2 ws focus h = refl
fill_page_absent (suc n) i [] app o2 ws focus h = refl
fill_page_absent (suc n) i (e ∷ es) app o2 ws focus h =
    let other : e ≢ app = λ f. h 0 (ap some f) in
    let test : (not (e == 0) && e == app) ≡ false = ground arith in
    rw (test, fill_page) (fill_page_absent n (i + 1) es app o2 _ focus (λ j. h (suc j)))

pub fill_page_at :
    (n i : ℕ) (es : List ℕ) (app o2 : ℕ) (ws : List Widget) (focus k : ℕ)
    → app ≢ 0
    → k < n
    → get_elem? es k ≡ some app
    → ((j : ℕ) → j ≢ k → get_elem? es j ≢ some app)
    → (fill_page n i es app o2 ws focus).1 ≡ focus + (i + k)
unfolding fill_page
fill_page_at zero i es app o2 ws focus k some_app less e once = absurd (omega arith)
fill_page_at (suc n) i [] app o2 ws focus k some_app less e once = cc
fill_page_at (suc n) i (x ∷ es) app o2 ws focus zero some_app less e once =
    let same : x ≡ app = some-injective e in
    let test : (not (x == 0) && x == app) ≡ true = ground arith in
    let rest =
      fill_page_absent n (i + 1) es app o2 (set ws (o2 + i) app_widget) (focus + i)
        (λ j. once (suc j) (omega arith)) in
    rw (test, fill_page) (rest ∙ omega arith)
fill_page_at (suc n) i (x ∷ es) app o2 ws focus (suc k) some_app less e once =
    let other : x ≢ app = λ f. once 0 (omega arith) (ap some f) in
    let test : (not (x == 0) && x == app) ≡ false = ground arith in
    let rest =
      fill_page_at n (i + 1) es app o2 (set ws (o2 + i) app_widget) focus k some_app (omega arith) e
        (λ j ne. once (suc j) (omega arith)) in
    rw (test, fill_page) (rest ∙ omega arith)

pub get_elem?-drop : (n i : ℕ) (es : List ℕ) → get_elem? (drop n es) i ≡ get_elem? es (n + i)
get_elem?-drop zero i es = let z : i ≡ 0 + i = omega arith in ap (get_elem? es) z
get_elem?-drop (suc n) i [] = refl
get_elem?-drop (suc n) i (e ∷ es) =
    let s : suc (n + i) ≡ suc n + i = omega arith in
    get_elem?-drop n i es ∙ ap (get_elem? (e ∷ es)) s

pub get_elem?-range : (es : List ℕ) (k : ℕ) {e : ℕ} → get_elem? es k ≡ some e → k < length es
get_elem?-range [] k h = cc
get_elem?-range (x ∷ es) zero h = omega arith
get_elem?-range (x ∷ es) (suc k) h = let rest = get_elem?-range es k h in omega arith

pub get_or-get_elem? : (es : List ℕ) (k d : ℕ) {e : ℕ} → get_elem? es k ≡ some e → get_or es k d ≡ e
get_or-get_elem? [] k d h = cc
get_or-get_elem? (x ∷ es) zero d h = some-injective h
get_or-get_elem? (x ∷ es) (suc k) d h = get_or-get_elem? es k d h

-- The page of an index, for one to four columns.
pub page_of :
    (k c : ℕ)
    → 1 ≤ c
    → c ≤ max_columns
    → (k / (c * rows) * (c * rows) ≤ k) × (k < k / (c * rows) * (c * rows) + c * rows)
page_of k zero more less = absurd (omega arith)
page_of k (suc zero) more less = (omega arith, omega arith)
page_of k (suc (suc zero)) more less = (omega arith, omega arith)
page_of k (suc (suc (suc zero))) more less = (omega arith, omega arith)
page_of k (suc (suc (suc (suc zero)))) more less = (omega arith, omega arith)
page_of k (suc (suc (suc (suc (suc c))))) more less = absurd (omega arith)
