-- ===== src/Latch/Safety.antt =====
-- What the protocol of `crates/hybrid-latch/src/latch.rs` guarantees.
use pagebox.Base.{
  ℕ, suc, ◌+◌, ◌-◌, ◌%◌, ◌≤◌, ◌≡◌, refl, sym, ap, subst, ◌∙◌, some, Bool, true, false, arith,
}
use pagebox.Latch.Word.{
  enter_exclusive_version, enter_exclusive-even, can_advance_readable_version,
  exit_exclusive_version, exit_exclusive-enter,
}
use pagebox.Latch.System.{
  RawRwLock, Latch, Step, Reach, Phase, idle, acquired, leaving, held, swapped, upgrade_cas, lock,
  enter, enter_panics, upgrade, upgrade_fails, write, drop_exclusive, unlock, lock_shared,
  drop_shared, here, next, new_latch,
}

-- What each phase says of the version word and of the inner lock: the word is odd exactly while an
-- exclusive guard lives, and a writer in the latch is alone with the lock.
abbrev pub PhaseOk : (version : ℕ) (write_locked : Bool) (readers : ℕ) → Phase → Type 0
PhaseOk version write_locked n idle = (version % 2 ≡ 0) × (write_locked ≡ false)
PhaseOk version write_locked n acquired = (version % 2 ≡ 0) × (write_locked ≡ true) × (n ≡ 0)
PhaseOk version write_locked n leaving = (version % 2 ≡ 0) × (write_locked ≡ true) × (n ≡ 0)
PhaseOk version write_locked n (held v) =
    (v ≡ version)
    × (version % 2 ≡ 1)
    × (can_advance_readable_version (version - 1) ≡ true)
    × (write_locked ≡ true)
    × (n ≡ 0)

module _ (rw_lock : RawRwLock) where
  open rw_lock use {
    State, is_write_locked, readers, exclusive_alone, shared_together, exclusive_unlocks,
    shared_unlocks, unlocked_free,
  }

  abbrev pub IsOk : Latch rw_lock → Type 0
  IsOk l = PhaseOk l.version (is_write_locked l.mutex) (readers l.mutex) l.phase

  pub new_latch-IsOk : (content : ℕ) → IsOk (new_latch rw_lock content)
  unfolding new_latch
  new_latch-IsOk content = (omega arith, unlocked_free.0)

  -- A writer gets the lock only where no other writer is in the latch.
  phase_free :
      (version : ℕ) (b : Bool) (n : ℕ) (ph : Phase) → PhaseOk version b n ph → b ≡ false → ph ≡ idle
  phase_free version b n idle ok e = refl
  phase_free version b n acquired ok e = cc
  phase_free version b n leaving ok e = cc
  phase_free version b n (held v) ok e = cc

  pub phase_at :
      (l : Latch rw_lock) (ph : Phase)
      → l.phase ≡ ph
      → IsOk l
      → PhaseOk l.version (is_write_locked l.mutex) (readers l.mutex) ph
  phase_at l ph e ok = subst (PhaseOk l.version (is_write_locked l.mutex) (readers l.mutex)) e ok

  -- Where the inner lock is not locked exclusively, no writer is in the latch.
  pub free_at : (l : Latch rw_lock) → is_write_locked l.mutex ≡ false → IsOk l → l.phase ≡ idle
  free_at l e ok = phase_free l.version (is_write_locked l.mutex) (readers l.mutex) l.phase ok e

  phase_read :
      (version : ℕ) (b : Bool) (n k : ℕ) (ph : Phase)
      → PhaseOk version b n ph
      → n ≡ suc k
      → ph ≡ idle
  phase_read version b n k idle ok e = refl
  phase_read version b n k acquired ok e = grind arith
  phase_read version b n k leaving ok e = grind arith
  phase_read version b n k (held v) ok e = grind arith

  -- While a shared guard lives, no writer is in the latch.
  pub read_at : (l : Latch rw_lock) (k : ℕ) → readers l.mutex ≡ suc k → IsOk l → l.phase ≡ idle
  read_at l k e ok = phase_read l.version (is_write_locked l.mutex) (readers l.mutex) k l.phase ok e

  idle-IsOk :
      (version : ℕ) (b : Bool) (n : ℕ) (ph : Phase)
      → ph ≡ idle
      → version % 2 ≡ 0
      → b ≡ false
      → PhaseOk version b n ph
  idle-IsOk version b n ph e even free = subst (PhaseOk version b n) (sym e) (even, free)

  pub upgrade_cas-swapped :
      (v snapshot : ℕ)
      → upgrade_cas v snapshot ≡ swapped
      → (v ≡ snapshot) × (can_advance_readable_version snapshot ≡ true)
  unfolding upgrade_cas
  upgrade_cas-swapped v snapshot e = ground arith

  enter-held :
      (v : ℕ) (b : Bool) (n : ℕ)
      → can_advance_readable_version v ≡ true
      → PhaseOk v b n acquired
      → PhaseOk (enter_exclusive_version v) b n (held (enter_exclusive_version v))
  enter-held v b n can (even, locked, alone) =
      let odd : enter_exclusive_version v ≡ v + 1 = enter_exclusive-even v even in
      let same : enter_exclusive_version v - 1 ≡ v = omega (arith, odd) in
      (refl, omega (arith, odd, even), rw same can, locked, alone)

  -- The drop of an exclusive guard does not panic, and leaves the next readable version.
  pub held_exit :
      (l : Latch rw_lock) (v : ℕ)
      → l.phase ≡ held v
      → IsOk l
      → (v ≡ l.version) × (v % 2 ≡ 1) × (exit_exclusive_version v ≡ some (v + 1))
  held_exit l v e ok =
      let (same, odd, can, _, _) = phase_at l (held v) e ok in
      let leave : exit_exclusive_version (v - 1 + 1) ≡ some (v - 1 + 2) =
        exit_exclusive-enter (v - 1) (omega (arith, same, odd)) (rw same can) in
      let back : v - 1 + 1 ≡ v = omega (arith, same, odd) in
      let ahead : v - 1 + 2 ≡ v + 1 = omega (arith, same, odd) in
      (same, rw same odd, sym (ap exit_exclusive_version back) ∙ leave ∙ ap some ahead)

  exit_version :
      (l : Latch rw_lock) (v v' : ℕ)
      → l.phase ≡ held v
      → exit_exclusive_version v ≡ some v'
      → IsOk l
      → (v' ≡ l.version + 1) × (l.version % 2 ≡ 1)
  exit_version l v v' e exit ok =
      let (same, odd, leave) = held_exit l v e ok in
      let ends : some (v + 1) ≡ some v' = sym leave ∙ exit in grind (arith, same)

  pub Step-IsOk : {l m : Latch rw_lock} → Step rw_lock l m → IsOk l → IsOk m
  Step-IsOk (lock l m e) ok =
      let (free, _, locked, alone) = exclusive_alone l.mutex m e in
      let (even, _) = phase_at l idle (free_at l free ok) ok in (even, locked, alone)
  Step-IsOk (enter l e can) ok =
      enter-held l.version (is_write_locked l.mutex) (readers l.mutex) can
        (phase_at l acquired e ok)
  Step-IsOk (enter_panics l e can) ok =
      let (even, locked, _) = phase_at l acquired e ok in
      (even, (exclusive_unlocks l.mutex locked).0)
  Step-IsOk (upgrade l snapshot e swap) ok =
      let (same, can) = upgrade_cas-swapped l.version snapshot swap in
      let (even, locked, alone) = phase_at l acquired e ok in
      enter-held snapshot (is_write_locked l.mutex) (readers l.mutex) can
        (rw (sym same) even, locked, alone)
  Step-IsOk (upgrade_fails l snapshot e fails) ok =
      let (even, locked, _) = phase_at l acquired e ok in
      (even, (exclusive_unlocks l.mutex locked).0)
  Step-IsOk (write l v new_content e) ok = ok
  Step-IsOk (drop_exclusive l v v' e exit) ok =
      let (_, _, _, locked, alone) = phase_at l (held v) e ok in
      let (next_version, odd) = exit_version l v v' e exit ok in
      (omega (arith, next_version, odd), locked, alone)
  Step-IsOk (unlock l e) ok =
      let (even, locked, _) = phase_at l leaving e ok in
      (even, (exclusive_unlocks l.mutex locked).0)
  Step-IsOk (lock_shared l m e) ok =
      let (free, free', _) = shared_together l.mutex m e in
      let none_in : l.phase ≡ idle = free_at l free ok in
      let (even, _) = phase_at l idle none_in ok in
      idle-IsOk l.version (is_write_locked m) (readers m) l.phase none_in even free'
  Step-IsOk (drop_shared l n e) ok =
      let none_in : l.phase ≡ idle = read_at l n e ok in
      let (even, free) = phase_at l idle none_in ok in
      let (same, _) = shared_unlocks l.mutex n e in
      idle-IsOk l.version (is_write_locked (rw_lock.unlock_shared l.mutex))
        (readers (rw_lock.unlock_shared l.mutex)) l.phase none_in even (same ∙ free)

  pub Reach-IsOk : {l m : Latch rw_lock} → Reach rw_lock l m → IsOk l → IsOk m
  Reach-IsOk here ok = ok
  Reach-IsOk (next r step) ok = Step-IsOk step (Reach-IsOk r ok)

  -- The version word never goes back, and the content is the same while it is the same and even.
  abbrev pub Later : Latch rw_lock → Latch rw_lock → Type 0
  Later l m =
      (l.version ≤ m.version) × (m.version ≡ l.version → l.version % 2 ≡ 0 → m.content ≡ l.content)

  Step-Later : {l m : Latch rw_lock} → Step rw_lock l m → IsOk l → Later l m
  Step-Later (lock l m e) ok = (omega arith, λ _ _. refl)
  Step-Later (enter l e can) ok =
      let (even, _, _) = phase_at l acquired e ok in
      let odd : enter_exclusive_version l.version ≡ l.version + 1 =
        enter_exclusive-even l.version even in
      (omega (arith, odd), λ _ _. refl)
  Step-Later (enter_panics l e can) ok = (omega arith, λ _ _. refl)
  Step-Later (upgrade l snapshot e swap) ok =
      let (even, _, _) = phase_at l acquired e ok in
      let (same, _) = upgrade_cas-swapped l.version snapshot swap in
      let odd : enter_exclusive_version snapshot ≡ snapshot + 1 =
        enter_exclusive-even snapshot (omega (arith, same, even)) in
      (omega (arith, odd, same), λ _ _. refl)
  Step-Later (upgrade_fails l snapshot e fails) ok = (omega arith, λ _ _. refl)
  Step-Later (write l v new_content e) ok =
      let (same, odd, _, _, _) = phase_at l (held v) e ok in
      (omega arith, λ _ even. omega (arith, odd, even))
  Step-Later (drop_exclusive l v v' e exit) ok =
      let (next_version, _) = exit_version l v v' e exit ok in
      (omega (arith, next_version), λ _ _. refl)
  Step-Later (unlock l e) ok = (omega arith, λ _ _. refl)
  Step-Later (lock_shared l m e) ok = (omega arith, λ _ _. refl)
  Step-Later (drop_shared l n e) ok = (omega arith, λ _ _. refl)

  pub Reach-Later : {l m : Latch rw_lock} → Reach rw_lock l m → IsOk l → Later l m
  Reach-Later here ok = (omega arith, λ _ _. refl)
  Reach-Later {l} {m} (next {t} r step) ok =
      let (before, same) = Reach-Later r ok in
      let (after, same') = Step-Later step (Reach-IsOk r ok) in
      let stay : m.version ≡ l.version → t.version ≡ l.version =
        λ e. omega (arith, before, after, e) in
      (
        omega (arith, before, after),
        λ e even. same' (e ∙ sym (stay e)) (omega (arith, stay e, even)) ∙ same (stay e) even,
      )
