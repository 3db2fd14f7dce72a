-- ===== src/Latch/System.antt =====
-- `crates/hybrid-latch/src/latch.rs`: the latch under any number of threads. The writer that is in
-- the latch goes through the phases below; what happens between two phases is one atomic access of
-- the version word or of the inner lock, so the steps of `Step` interleave as the code's accesses do
-- (in one order that all threads see).
use pagebox.Base.{ℕ, suc, ◌≡◌, ◌≢◌, Option, none, some, Bool, true, false, ◌==◌, if◌then◌else◌}
use pagebox.Latch.Word.{
  optimistic_snapshot, optimistic_snapshot_still_valid, optimistic_restart_required,
  enter_exclusive_version, can_advance_readable_version, exit_exclusive_version,
}

-- The read-write lock of `parking_lot` that `lock.rs` wraps: its tries and unlocks, and its
-- documented behaviour. A blocking acquisition is a try that succeeds.
pub record RawRwLock : Type 1 where
  pub State : Type 0
  pub unlocked : State
  pub try_lock_exclusive : State → Option State
  pub try_lock_shared : State → Option State
  pub unlock_exclusive : State → State
  pub unlock_shared : State → State
  pub is_write_locked : State → Bool
  pub readers : State → ℕ
  pub unlocked_free : (is_write_locked unlocked ≡ false) × (readers unlocked ≡ 0)
  pub exclusive_alone :
      (s t : State)
      → try_lock_exclusive s ≡ some t
      → (is_write_locked s ≡ false) × (readers s ≡ 0) × (is_write_locked t ≡ true) × (readers t ≡ 0)
  pub shared_together :
      (s t : State)
      → try_lock_shared s ≡ some t
      → (is_write_locked s ≡ false) × (is_write_locked t ≡ false) × (readers t ≡ suc (readers s))
  pub exclusive_unlocks :
      (s : State)
      → is_write_locked s ≡ true
      → (is_write_locked (unlock_exclusive s) ≡ false) × (readers (unlock_exclusive s) ≡ readers s)
  pub shared_unlocks :
      (s : State) (n : ℕ)
      → readers s ≡ suc n
      → (is_write_locked (unlock_shared s) ≡ is_write_locked s) × (readers (unlock_shared s) ≡ n)

-- Where the writer is: nowhere; holding the lock, before it marks the version word; with a live
-- `ExclusiveGuard` of this version; or past the store of its drop, before the unlock.
pub data Phase : Type 0 where
  idle acquired leaving : Phase
  held : ℕ → Phase

pub data CasResult : Type 0 where
  swapped restart panicked : CasResult

-- `can_advance_readable_version` is asserted, and the word goes from the snapshot to the snapshot with the
-- exclusive bit, if it still is the snapshot.
unfoldable pub upgrade_cas : ℕ → ℕ → CasResult
upgrade_cas current snapshot =
    if can_advance_readable_version snapshot
    then (if current == snapshot then swapped else restart)
    else panicked

-- `OptimisticGuard::validate`: whether the snapshot still holds.
unfoldable pub validate : ℕ → ℕ → Bool
validate current snapshot = if optimistic_restart_required current snapshot then false else true

-- `HybridLatch::optimistic_or_restart`: the snapshot, or `Restart`.
unfoldable pub optimistic_or_restart : ℕ → Option ℕ
optimistic_or_restart version = optimistic_snapshot version

-- `upgrade_to_shared` and `try_upgrade_to_shared`, once the inner lock is held shared: the guard's
-- version, or `Restart`, with which the lock is given back.
unfoldable pub finish_shared_upgrade : ℕ → ℕ → Option ℕ
finish_shared_upgrade current snapshot =
    if optimistic_snapshot_still_valid current snapshot then some snapshot else none

module _ (rw_lock : RawRwLock) where
  open rw_lock use {
    State, unlocked, try_lock_exclusive, try_lock_shared, unlock_exclusive, unlock_shared, readers,
  }

  -- The latch, the phase of the writer, and the data that the latch protects.
  pub record Latch : Type 0 where
    pub version : ℕ
    pub mutex : State
    pub phase : Phase
    pub content : ℕ

  -- `HybridLatch::new`
  unfoldable pub new_latch : ℕ → Latch
  new_latch content = record { version = 0; mutex = unlocked; phase = idle; content = content }

  -- One atomic access by some thread. The first three are the ways to lock exclusively: take the
  -- lock, and then mark the word (`lock_exclusive`, `try_lock_exclusive`), or upgrade a snapshot.
  pub data Step : Latch → Latch → Type 0 where
    lock :
        (l : Latch) (m : State)
        → try_lock_exclusive l.mutex ≡ some m
        → Step l (record l { mutex = m; phase = acquired })
    enter :
        (l : Latch)
        → l.phase ≡ acquired
        → can_advance_readable_version l.version ≡ true
        → Step l (record l {
          version = enter_exclusive_version l.version;
          phase = held (enter_exclusive_version l.version);
        })
    enter_panics :
        (l : Latch)
        → l.phase ≡ acquired
        → can_advance_readable_version l.version ≡ false
        → Step l (record l { mutex = unlock_exclusive l.mutex; phase = idle })
    upgrade :
        (l : Latch) (snapshot : ℕ)
        → l.phase ≡ acquired
        → upgrade_cas l.version snapshot ≡ swapped
        → Step l (record l {
          version = enter_exclusive_version snapshot;
          phase = held (enter_exclusive_version snapshot);
        })
    upgrade_fails :
        (l : Latch) (snapshot : ℕ)
        → l.phase ≡ acquired
        → upgrade_cas l.version snapshot ≢ swapped
        → Step l (record l { mutex = unlock_exclusive l.mutex; phase = idle })
    write :
        (l : Latch) (v new_content : ℕ)
        → l.phase ≡ held v
        → Step l (record l { content = new_content })
    drop_exclusive :
        (l : Latch) (v v' : ℕ)
        → l.phase ≡ held v
        → exit_exclusive_version v ≡ some v'
        → Step l (record l { version = v'; phase = leaving })
    unlock :
        (l : Latch)
        → l.phase ≡ leaving
        → Step l (record l { mutex = unlock_exclusive l.mutex; phase = idle })
    lock_shared :
        (l : Latch) (m : State) → try_lock_shared l.mutex ≡ some m → Step l (record l { mutex = m })
    drop_shared :
        (l : Latch) (n : ℕ)
        → readers l.mutex ≡ suc n
        → Step l (record l { mutex = unlock_shared l.mutex })

  pub data Reach (s : Latch) : Latch → Type 0 where
    here : Reach s s
    next : {t u : Latch} → Reach s t → Step t u → Reach s u
