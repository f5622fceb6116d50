-- ===== src/View/Back.antt =====
-- There and back.
use hbc.Base.{
  ℕ, ◌+◌, ◌≤◌, ◌<◌, ◌≡◌, ◌≢◌, refl, sym, ap, ◌∙◌, subst, arith, true, false, Option, none, some,
  length, ltb, ◌==◌, Bool-cases, inl, inr, some-injective,
}
use hbc.View.{View, can_focus_at, view_set_focus_prev, view_set_focus_next, after_focus}
use hbc.View.Focus.{IsFocused, SameBut-can_focus_at}
use hbc.View.Near.{
  Goes, focus_or_0, FoundNext, none_above, next_at, FoundPrev, none_below, prev_at,
  view_set_focus_next-FoundNext, view_set_focus_prev-FoundPrev,
}

-- The last one below the next one is where it started.
FoundPrev-FoundNext :
    (v t : View) (f j : ℕ) {o : Option ℕ}
    → can_focus_at f v.widgets ≡ true
    → f < j
    → ((i : ℕ) → f + 1 ≤ i → i < j → can_focus_at i v.widgets ≡ false)
    → ((i : ℕ) → can_focus_at i t.widgets ≡ can_focus_at i v.widgets)
    → FoundPrev j t.widgets o
    → o ≡ some f
FoundPrev-FoundNext v t f j good less gap same (none_below h) =
    let bad = h f less in let eq = same f in cc
FoundPrev-FoundNext v t f j good less gap same (prev_at k below good' h) =
    ap some (elim (Bool-cases (k == f)) [
      | inl q ↦ ground arith
      | inr q ↦ elim (Bool-cases (ltb k f)) [
        | inl r ↦ let bad = h f (ground arith) less in let eq = same f in cc
        | inr r ↦ let bad = gap k (ground arith) below in let eq = same k in cc
      ]
    ])

-- If view_set_focus_next moves the focus away from a widget that can have it, among at most 128
-- widgets of which exactly that one is marked, view_set_focus_prev brings it back, with the mark.
pub view_set_focus_prev-view_set_focus_next :
    (v t : View) (f : ℕ)
    → IsFocused v
    → length v.widgets ≤ 128
    → v.focus ≡ some f
    → can_focus_at f v.widgets ≡ true
    → view_set_focus_next v ≡ some t
    → t.focus ≢ v.focus
    → (u : View) × (view_set_focus_prev t ≡ some u) × (u.focus ≡ v.focus) × IsFocused u
view_set_focus_prev-view_set_focus_next v t f h few at good e moved =
    let (o, found, (u, g, goes)) = view_set_focus_next-FoundNext v h few in
    by_next found (subst (λ x. Goes o v x) (some-injective (sym g ∙ e)) goes)
  where
    Answer : Type 0
    Answer = (u : View) × (view_set_focus_prev t ≡ some u) × (u.focus ≡ v.focus) × IsFocused u

    after : after_focus v ≡ f + 1
    after = rw at refl

    by_prev :
        (j : ℕ) {o : Option ℕ}
        → o ≡ some f
        → (u : View) × (view_set_focus_prev t ≡ some u) × Goes o t u
        → Answer
    by_prev j eq (u, g, goes) = (
      u,
      g,
      goes.focus ∙ ap (λ x. elim x [ none ↦ t.focus | some i ↦ some i ]) eq ∙ sym at,
      goes.focused,
    )

    by_next : {o : Option ℕ} → FoundNext (after_focus v) v.widgets o → Goes o v t → Answer
    by_next (none_above k) goes = absurd (moved goes.focus)
    by_next (next_at j more less to_there gap) goes =
        let size = goes.size in
        let there : focus_or_0 t ≡ j = ap (λ x. elim x [ none ↦ 0 | some i ↦ i ]) goes.focus in
        let (o, found, back) = view_set_focus_prev-FoundPrev t goes.focused (omega arith) in
        let found' = subst (λ x. FoundPrev x t.widgets o) there found in
        by_prev j
          (FoundPrev-FoundNext v t f j good (omega (arith, after))
            (λ i a b. gap i (subst (λ x. x ≤ i) (sym after) a) b)
            (λ i. SameBut-can_focus_at i goes.same) found')
          back
