-- ===== src/Devices/Poll.antt =====
-- What the tables of the devices say, and what a poll makes of them.
use hbc.Base.{
  ℕ, zero, suc, ◌+◌, ◌≤◌, ◌<◌, ◌≡◌, ◌≢◌, refl, sym, arith, Bool, true, false, ◌&&◌, ◌||◌,
  Bool-cases, inl, inr, Option, some, ◌==◌, ◌∙◌, subst, ==_iff,
}
use hbc.Apps.Table.Counted.{IsCounted}
use hbc.Devices.{
  Ae, World, device_count, is_active, poll_active, poll_seen, poll_new, poll_device, poll_from,
}

-- A device number is in range.
abbrev pub IsIn : Option ℕ → Type 0
IsIn o = (i : ℕ) → o ≡ some i → i < device_count

-- A device that is known to be there, and is not the active one, is shown as there.
abbrev pub IsShown : Ae → ℕ → Type 0
IsShown s i = s.last_status i ≡ true → is_active i s ≡ false → s.status i ≡ true

abbrev pub Shown : Ae → Type 0
Shown s = (i : ℕ) → IsShown s i

pub record IsOk (s : Ae) : Type 0 where
  pub active_in : IsIn s.device_active
  pub prefered_in : IsIn s.device_prefered
  pub mount_in : IsIn s.mount
  pub shown : Shown s
  pub counted : IsCounted s.apps

-- What a poll finds out about device i.
abbrev pub detected : World → ℕ → Ae → Bool
detected w i s = w.is_inserted i && (is_active i s || s.last_status i || w.startup i)

-- One round of the poll.
pub record Polled (w : World) (i : ℕ) (s t : Ae) : Type 0 where
  pub active : t.device_active ≡ s.device_active
  pub status_here : t.status i ≡ detected w i s
  pub last_here : t.last_status i ≡ detected w i s
  pub status_there : (j : ℕ) → j ≢ i → t.status j ≡ s.status j
  pub last_there : (j : ℕ) → j ≢ i → t.last_status j ≡ s.last_status j
  pub prefered : t.device_prefered ≡ s.device_prefered
  pub mount : t.mount ≡ s.mount
  pub apps : t.apps ≡ s.apps

poll_device-Polled : (w : World) (i : ℕ) (s : Ae) → IsShown s i → Polled w i s (poll_device w i s)
unfolding poll_device poll_active poll_seen poll_new
poll_device-Polled w i s h = record {
  active = ground arith;
  status_here = ground (arith, h);
  last_here = ground arith;
  status_there = λ j ne. ground arith;
  last_there = λ j ne. ground arith;
  prefered = ground arith;
  mount = ground arith;
  apps = ground arith;
}

Polled-Shown : {w : World} {i : ℕ} {s t : Ae} → Polled w i s t → Shown s → Shown t
Polled-Shown {w} {i} {s} {t} p h j = elim (Bool-cases (j == i)) [
  | inl e ↦ ground (arith, p.status_here, p.last_here)
  | inr ne ↦ ground (arith, h j, p.status_there j, p.last_there j, p.active)
]

-- The rounds from device i on, n of them.
pub record PolledFrom (w : World) (n i : ℕ) (s t : Ae) : Type 0 where
  pub status_in : (j : ℕ) → i ≤ j → j < i + n → t.status j ≡ detected w j s
  pub last_in : (j : ℕ) → i ≤ j → j < i + n → t.last_status j ≡ detected w j s
  pub status_out : (j : ℕ) → j < i → t.status j ≡ s.status j
  pub last_out : (j : ℕ) → j < i → t.last_status j ≡ s.last_status j
  pub shown : Shown t
  pub active : t.device_active ≡ s.device_active
  pub prefered : t.device_prefered ≡ s.device_prefered
  pub mount : t.mount ≡ s.mount
  pub apps : t.apps ≡ s.apps

detected-Polled :
    {w : World} {i : ℕ} {s t : Ae}
    → Polled w i s t
    → (j : ℕ) → j ≢ i
    → detected w j t ≡ detected w j s
detected-Polled p j ne = rw (p.active, p.last_there j ne) refl

pub poll_from-PolledFrom :
    (w : World) (n i : ℕ) (s : Ae) → Shown s → PolledFrom w n i s (poll_from w n i s)
unfolding poll_from
poll_from-PolledFrom w zero i s h = record {
  status_in = λ j l g. absurd (omega arith);
  last_in = λ j l g. absurd (omega arith);
  status_out = λ j l. refl;
  last_out = λ j l. refl;
  shown = h;
  active = refl;
  prefered = refl;
  mount = refl;
  apps = refl;
}
poll_from-PolledFrom w (suc n) i s h =
    let p = poll_device-Polled w i s (h i) in
    let s1 = poll_device w i s in
    let q = poll_from-PolledFrom w n (i + 1) s1 (Polled-Shown p h) in
    let other : (j : ℕ) → i < j → j ≢ i = λ j l. ground arith in
    record {
      status_in = λ j l g. elim (Bool-cases (j == i)) [
        | inl e ↦
            subst (λ k. (poll_from w n (i + 1) s1).status k ≡ detected w k s) (sym (eq e))
              (q.status_out i (omega arith) ∙ p.status_here)
        | inr ne ↦ q.status_in j (ground arith) (omega arith) ∙ detected-Polled p j (ground arith)
      ];
      last_in = λ j l g. elim (Bool-cases (j == i)) [
        | inl e ↦
            subst (λ k. (poll_from w n (i + 1) s1).last_status k ≡ detected w k s) (sym (eq e))
              (q.last_out i (omega arith) ∙ p.last_here)
        | inr ne ↦ q.last_in j (ground arith) (omega arith) ∙ detected-Polled p j (ground arith)
      ];
      status_out = λ j l. q.status_out j (omega arith) ∙ p.status_there j (ground arith);
      last_out = λ j l. q.last_out j (omega arith) ∙ p.last_there j (ground arith);
      shown = q.shown;
      active = q.active ∙ p.active;
      prefered = q.prefered ∙ p.prefered;
      mount = q.mount ∙ p.mount;
      apps = q.apps ∙ p.apps;
    }
  where
    eq : {j : ℕ} → (j == i) ≡ true → j ≡ i
    eq {j} = (==_iff j i).0

-- After a poll, both tables of each device say what the drivers answered in that poll: a device that
-- is active, or was known to be there, is there exactly when it says so, and another one exactly
-- when it can be started and says so.
pub poll_from-detected :
    (w : World) (s : Ae) (i : ℕ)
    → IsOk s
    → i < device_count
    → ((poll_from w device_count 0 s).status i ≡ detected w i s)
      × ((poll_from w device_count 0 s).last_status i ≡ detected w i s)
poll_from-detected w s i v h =
    let p = poll_from-PolledFrom w device_count 0 s v.shown in
    (p.status_in i (omega arith) (omega arith), p.last_in i (omega arith) (omega arith))
