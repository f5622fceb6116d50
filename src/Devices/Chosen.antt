-- ===== src/Devices/Chosen.antt =====
-- Which device a scan makes the active one.
use hbc.Base.{
  ℕ, zero, suc, ◌+◌, ◌≡◌, ◌≤◌, ◌<◌, refl, arith, Bool, true, false, ◌∙◌, ap, sym, Bool-cases,
  Option-cases, inl, inr, Option, none, some, ◌⊎◌, subst,
}
use hbc.Devices.{
  Ae, World, device_count, mount_device, mount_first, try_mount, mount_asked, mount_prefered,
  mount_any, choose,
}

abbrev pub Refuses : (ℕ → Bool) → Option ℕ → Type 0
Refuses mounts o = (i : ℕ) → o ≡ some i → mounts i ≡ false

-- In this order: the device that the user asked for, the preferred one, the first that mounts.
pub data Choice (w : World) (s : Ae) : Option ℕ → Type 0 where
  asked : (i : ℕ) → s.mount ≡ some i → w.fat_mount 0 i ≡ true → Choice w s (some i)
  prefered :
      (i : ℕ)
      → Refuses (w.fat_mount 0) s.mount
      → s.device_prefered ≡ some i
      → w.fat_mount 1 i ≡ true
      → Choice w s (some i)
  found :
      (i : ℕ)
      → Refuses (w.fat_mount 0) s.mount
      → Refuses (w.fat_mount 1) s.device_prefered
      → i < device_count
      → w.fat_mount 2 i ≡ true
      → ((j : ℕ) → j < i → w.fat_mount 2 j ≡ false)
      → Choice w s (some i)
  nothing :
      Refuses (w.fat_mount 0) s.mount
      → Refuses (w.fat_mount 1) s.device_prefered
      → ((j : ℕ) → j < device_count → w.fat_mount 2 j ≡ false)
      → Choice w s none

-- What an attempt does to the fields that count here.
abbrev pub SameRest : Ae → Ae → Type 0
SameRest s t = (t.device_prefered ≡ s.device_prefered) × (t.apps ≡ s.apps) × (t.action ≡ s.action)

abbrev FoundFrom : (ℕ → Bool) → ℕ → ℕ → Option ℕ → Type 0
FoundFrom mounts n i o =
    ((j : ℕ) × (i ≤ j)
      × (j < i + n)
      × (mounts j ≡ true)
      × ((k : ℕ) → i ≤ k → k < j → mounts k ≡ false)
      × (o ≡ some j))
    ⊎ (((k : ℕ) → i ≤ k → k < i + n → mounts k ≡ false) × (o ≡ none))

FoundFrom-later :
    (mounts : ℕ → Bool) (n i : ℕ) (o : Option ℕ)
    → mounts i ≡ false
    → FoundFrom mounts n (i + 1) o
    → FoundFrom mounts (suc n) i o
FoundFrom-later mounts n i o bad (inl (j, lo, hi, ok, before, e)) =
    inl (j, omega arith, omega arith, ok, λ k l g. ground (arith, before k), e)
FoundFrom-later mounts n i o bad (inr (none_of, e)) = inr (λ k l g. ground (arith, none_of k), e)

mount_first-FoundFrom :
    (mounts : ℕ → Bool) (n i : ℕ) (s : Ae)
    → s.device_active ≡ none
    → FoundFrom mounts n i (mount_first mounts n i s).device_active
      × SameRest s (mount_first mounts n i s)
unfolding mount_first mount_device
mount_first-FoundFrom mounts zero i s free =
    (inr (λ k l g. absurd (omega arith), free), (refl, refl, refl))
mount_first-FoundFrom mounts (suc n) i s free = elim (Bool-cases (mounts i)) [
  | inl ok ↦ rw ok (
    inl (i, omega arith, omega arith, ok, λ k l g. absurd (omega arith), refl),
    (refl, refl, refl),
  )
  | inr bad ↦
      let rest = mount_first-FoundFrom mounts n (i + 1) (mount_device mounts i s).1 free in
      rw bad (FoundFrom-later mounts n i _ bad (rw bad at rest.0), rw bad at rest.1)
]

try_mount-run :
    (mounts : ℕ → Bool) (i : ℕ) (s : Ae)
    → SameRest s (try_mount mounts i s)
      × (mounts i ≡ true → (try_mount mounts i s).device_active ≡ some i)
      × (mounts i ≡ false → (try_mount mounts i s).device_active ≡ s.device_active)
unfolding try_mount mount_device
try_mount-run mounts i s = (ground arith, λ e. ground arith, λ e. ground arith)

mount_any_free :
    (w : World) (t : Ae)
    → t.device_active ≡ none
    → mount_any w t ≡ mount_first (w.fat_mount 2) device_count 0 t
unfolding mount_any
mount_any_free w t e =
    let first = mount_first (w.fat_mount 2) device_count 0 t in
    subst (λ o. elim o [ some _ ↦ t | none ↦ first ] ≡ first) (sym e) refl

mount_any_active : (w : World) (i : ℕ) (t : Ae) → t.device_active ≡ some i → mount_any w t ≡ t
unfolding mount_any
mount_any_active w i t e =
    let first = mount_first (w.fat_mount 2) device_count 0 t in
    subst (λ o. elim o [ some _ ↦ t | none ↦ first ] ≡ t) (sym e) refl

abbrev prefered_of : World → Ae → Option ℕ → Ae
prefered_of w t o = elim o [ none ↦ t | some i ↦ try_mount (w.fat_mount 1) i t ]

mount_prefered_free :
    (w : World) (t : Ae) (o : Option ℕ)
    → t.device_active ≡ none
    → t.device_prefered ≡ o
    → mount_prefered w t ≡ prefered_of w t o
unfolding mount_prefered
mount_prefered_free w t o e f =
    subst
      (λ a. elim a [ some _ ↦ t | none ↦ prefered_of w t t.device_prefered ] ≡ prefered_of w t o)
      (sym e) (ap (prefered_of w t) f)

mount_prefered_active :
    (w : World) (i : ℕ) (t : Ae) → t.device_active ≡ some i → mount_prefered w t ≡ t
unfolding mount_prefered
mount_prefered_active w i t e =
    subst (λ a. elim a [ some _ ↦ t | none ↦ prefered_of w t t.device_prefered ] ≡ t) (sym e) refl

-- The choice, and that the other fields are as they were.
abbrev pub Chosen : World → Ae → Ae → Type 0
Chosen w s t = Choice w s t.device_active × SameRest s t

any-Chosen :
    (w : World) (s t : Ae)
    → Refuses (w.fat_mount 0) s.mount
    → Refuses (w.fat_mount 1) s.device_prefered
    → t.device_active ≡ none
    → SameRest s t
    → Chosen w s (mount_any w t)
any-Chosen w s t no_asked no_prefered free same =
    let run = mount_first-FoundFrom (w.fat_mount 2) device_count 0 t free in
    subst (Chosen w s) (sym (mount_any_free w t free)) (
      elim run.0 [
        | inl (j, lo, hi, ok, before, e) ↦
            subst (Choice w s) (sym e)
              (found j no_asked no_prefered (omega arith) ok (λ k l. before k (omega arith) l))
        | inr (none_of, e) ↦
            subst (Choice w s) (sym e)
              (nothing no_asked no_prefered (λ k l. none_of k (omega arith) (omega arith)))
      ],
      (run.1.0 ∙ same.0, run.1.1 ∙ same.1, run.1.2 ∙ same.2),
    )

prefered-Chosen :
    (w : World) (s t : Ae)
    → Refuses (w.fat_mount 0) s.mount
    → t.device_active ≡ none
    → SameRest s t
    → Chosen w s (mount_any w (mount_prefered w t))
prefered-Chosen w s t no_asked free same = elim (Option-cases s.device_prefered) [
  | inl e ↦
      subst (λ u. Chosen w s (mount_any w u)) (sym (mount_prefered_free w t none free (same.0 ∙ e)))
        (any-Chosen w s t no_asked (λ i f. cc) free same)
  | inr (i, e) ↦
      let run = try_mount-run (w.fat_mount 1) i t in
      let u = try_mount (w.fat_mount 1) i t in
      let rest : SameRest s u = (run.0.0 ∙ same.0, run.0.1 ∙ same.1, run.0.2 ∙ same.2) in
      subst (λ u. Chosen w s (mount_any w u))
        (sym (mount_prefered_free w t (some i) free (same.0 ∙ e)))
        (elim (Bool-cases (w.fat_mount 1 i)) [
          | inl ok ↦
              let at = run.1 ok in
              subst (Chosen w s) (sym (mount_any_active w i u at))
                (subst (Choice w s) (sym at) (prefered i no_asked e ok), rest)
          | inr bad ↦
              any-Chosen w s u no_asked (λ j f. ground (arith, bad, e)) (run.2 bad ∙ free) rest
        ])
]

pub choose-Chosen : (w : World) (s : Ae) → s.device_active ≡ none → Chosen w s (choose w s)
unfolding choose mount_asked
choose-Chosen w s free = elim (Option-cases s.mount) [
  | inl e ↦
      subst (λ u. Chosen w s (mount_any w (mount_prefered w u))) (sym (asked_of none e))
        (prefered-Chosen w s s (λ i f. cc) free (refl, refl, refl))
  | inr (i, e) ↦
      let run = try_mount-run (w.fat_mount 0) i s in
      let u : Ae = record (try_mount (w.fat_mount 0) i s) { mount = none } in
      subst (λ u. Chosen w s (mount_any w (mount_prefered w u))) (sym (asked_of (some i) e))
        (elim (Bool-cases (w.fat_mount 0 i)) [
          | inl ok ↦
              let at : u.device_active ≡ some i = run.1 ok in
              subst (λ v. Chosen w s (mount_any w v)) (sym (mount_prefered_active w i u at))
                (subst (Chosen w s) (sym (mount_any_active w i u at))
                  (subst (Choice w s) (sym at) (asked i e ok), run.0))
          | inr bad ↦ prefered-Chosen w s u (λ j f. ground (arith, bad, e)) (run.2 bad ∙ free) run.0
        ])
]
  where
    tried : Option ℕ → Ae
    tried o = elim o [ none ↦ s | some i ↦ record (try_mount (w.fat_mount 0) i s) { mount = none } ]

    asked_of : (o : Option ℕ) → s.mount ≡ o → mount_asked w s ≡ tried o
    asked_of o e = ap tried e
