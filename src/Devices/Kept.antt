-- ===== src/Devices/Kept.antt =====
-- What scanning and polling keep.
use hbc.Base.{
  ℕ, zero, suc, ◌+◌, ◌≤◌, ◌<◌, ◌≡◌, arith, Bool, Bool-cases, Option-cases, inl, inr, none, some,
  subst, sym, ◌∙◌,
}
use hbc.Apps.Table.Counted.{IsCounted}
use hbc.Devices.{
  Ae, World, device_count, mount_device, mount_first, try_mount, mount_asked, mount_prefered,
  mount_any, choose, lose, poll_from,
}
use hbc.Devices.Poll.{IsOk, poll_from-PolledFrom}

try_mount-IsOk :
    (mounts : ℕ → Bool) (i : ℕ) (s : Ae)
    → i < device_count
    → s.device_active ≡ none
    → IsOk s
    → IsOk (try_mount mounts i s)
unfolding try_mount mount_device
try_mount-IsOk mounts i s h free v = record {
  active_in = λ j e. ground arith;
  prefered_in = λ j e. ground (arith, v.prefered_in j);
  mount_in = λ j e. ground (arith, v.mount_in j);
  shown = λ j. ground (arith, v.shown j);
  counted = subst IsCounted (ground arith) v.counted;
}

mount_first-IsOk :
    (mounts : ℕ → Bool) (n i : ℕ) (s : Ae)
    → i + n ≤ device_count
    → s.device_active ≡ none
    → IsOk s
    → IsOk (mount_first mounts n i s)
unfolding mount_first try_mount mount_device
mount_first-IsOk mounts zero i s h free v = v
mount_first-IsOk mounts (suc n) i s h free v =
    let here = try_mount-IsOk mounts i s (omega arith) free v in
    elim (Bool-cases (mounts i)) [
      | inl ok ↦ rw ok (rw ok at here)
      | inr bad ↦ rw bad (mount_first-IsOk mounts n (i + 1) _ (omega arith) free (rw bad at here))
    ]

-- The request is dropped once it was tried.
mount_asked-IsOk : (w : World) (s : Ae) → s.device_active ≡ none → IsOk s → IsOk (mount_asked w s)
unfolding mount_asked
mount_asked-IsOk w s free v = elim (Option-cases s.mount) [
  | inl e ↦ rw (e, mount_asked) v
  | inr (i, e) ↦
      let t = try_mount-IsOk (w.fat_mount 0) i s (v.mount_in i e) free v in
      rw (e, mount_asked)
        (record {
          active_in = t.active_in;
          prefered_in = t.prefered_in;
          mount_in = λ j f. cc;
          shown = t.shown;
          counted = t.counted;
        })
]

mount_prefered-IsOk : (w : World) (s : Ae) → IsOk s → IsOk (mount_prefered w s)
unfolding mount_prefered
mount_prefered-IsOk w s v = elim (Option-cases s.device_active) [
  | inr (i, e) ↦ rw (e, mount_prefered) v
  | inl free ↦ elim (Option-cases s.device_prefered) [
    | inl e ↦ rw (free, e, mount_prefered) v
    | inr (i, e) ↦
        rw (free, e, mount_prefered) (try_mount-IsOk (w.fat_mount 1) i s (v.prefered_in i e) free v)
  ]
]

mount_any-IsOk : (w : World) (s : Ae) → IsOk s → IsOk (mount_any w s)
unfolding mount_any
mount_any-IsOk w s v = elim (Option-cases s.device_active) [
  | inr (i, e) ↦ rw (e, mount_any) v
  | inl free ↦
      rw (free, mount_any) (mount_first-IsOk (w.fat_mount 2) device_count 0 s (omega arith) free v)
]

pub choose-IsOk : (w : World) (s : Ae) → s.device_active ≡ none → IsOk s → IsOk (choose w s)
unfolding choose
choose-IsOk w s free v = mount_any-IsOk w _ (mount_prefered-IsOk w _ (mount_asked-IsOk w s free v))

pub lose-IsOk : (i : ℕ) (s : Ae) → s.device_active ≡ some i → IsOk s → IsOk (lose i s)
unfolding lose
lose-IsOk i s active v = record {
  active_in = λ j e. cc;
  prefered_in = v.prefered_in;
  mount_in = v.mount_in;
  shown = λ j. ground (arith, v.shown j);
  counted = v.counted;
}

pub poll-IsOk : (w : World) (s : Ae) → IsOk s → IsOk (poll_from w device_count 0 s)
poll-IsOk w s v =
    let p = poll_from-PolledFrom w device_count 0 s v.shown in
    record {
      active_in = λ j e. v.active_in j (sym p.active ∙ e);
      prefered_in = λ j e. v.prefered_in j (sym p.prefered ∙ e);
      mount_in = λ j e. v.mount_in j (sym p.mount ∙ e);
      shown = p.shown;
      counted = subst IsCounted (sym p.apps) v.counted;
    }

-- Changing a field that the invariant does not speak of.
abbrev pub SameCore : Ae → Ae → Type 0
SameCore s t =
    (t.device_active ≡ s.device_active)
    × (t.device_prefered ≡ s.device_prefered)
    × (t.mount ≡ s.mount)
    × (t.status ≡ s.status)
    × (t.last_status ≡ s.last_status)
    × (t.apps ≡ s.apps)

pub same-IsOk : (s t : Ae) → SameCore s t → IsOk s → IsOk t
same-IsOk s t (a, p, m, st, l, ap) v = record {
  active_in = λ j e. v.active_in j (sym a ∙ e);
  prefered_in = λ j e. v.prefered_in j (sym p ∙ e);
  mount_in = λ j e. v.mount_in j (sym m ∙ e);
  shown = rw (st, l, a) v.shown;
  counted = subst IsCounted (sym ap) v.counted;
}
