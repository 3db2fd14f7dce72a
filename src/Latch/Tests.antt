-- ===== src/Latch/Tests.antt =====
-- Runs of `crates/hybrid-latch`, over a small read-write lock.
use pagebox.Base.{ℕ, zero, suc, ◌≡◌, ◌≢◌, ◌⊎◌, refl, Option, none, some, Bool, true, false, subst}
use pagebox.Latch.Word.{
  optimistic_snapshot_still_valid, optimistic_snapshot, optimistic_restart_required,
  can_advance_readable_version, exit_exclusive_version, enter_exclusive_version,
}
use pagebox.Latch.System.{
  optimistic_or_restart, finish_shared_upgrade, RawRwLock, Latch, Step, Reach, Phase, idle,
  acquired, leaving, held, swapped, upgrade_cas, validate, lock, enter, write, drop_exclusive,
  unlock, lock_shared, here, next, new_latch,
}
use pagebox.Latch.Reads.{validate_sound, upgrade_sound, shared_upgrade_sound, exclusion, drop_total}

-- A lock that is shared by some number of readers, or held by one writer.
data SmallLock : Type 0 where
  shared : ℕ → SmallLock
  exclusive : SmallLock

abbrev try_exclusive : SmallLock → Option SmallLock
try_exclusive (shared zero) = some exclusive
try_exclusive (shared (suc n)) = none
try_exclusive exclusive = none

abbrev try_shared : SmallLock → Option SmallLock
try_shared (shared n) = some (shared (suc n))
try_shared exclusive = none

abbrev leave_exclusive : SmallLock → SmallLock
leave_exclusive s = shared 0

abbrev leave_shared : SmallLock → SmallLock
leave_shared (shared zero) = shared 0
leave_shared (shared (suc n)) = shared n
leave_shared exclusive = exclusive

abbrev is_exclusive : SmallLock → Bool
is_exclusive (shared n) = false
is_exclusive exclusive = true

abbrev reader_count : SmallLock → ℕ
reader_count (shared n) = n
reader_count exclusive = 0

some_inv : (s t : SmallLock) → some s ≡ some t → s ≡ t
some_inv s t e = cc

exclusive_lem :
    (s t : SmallLock)
    → try_exclusive s ≡ some t
    → (is_exclusive s ≡ false)
      × (reader_count s ≡ 0)
      × (is_exclusive t ≡ true)
      × (reader_count t ≡ 0)
exclusive_lem (shared zero) t e =
    subst
      (λ u.
        (false ≡ false)
        × (reader_count (shared 0) ≡ 0)
        × (is_exclusive u ≡ true)
        × (reader_count u ≡ 0))
      (some_inv exclusive t e) (refl, refl, refl, refl)
exclusive_lem (shared (suc n)) t e = cc
exclusive_lem exclusive t e = cc

shared_lem :
    (s t : SmallLock)
    → try_shared s ≡ some t
    → (is_exclusive s ≡ false) × (is_exclusive t ≡ false) × (reader_count t ≡ suc (reader_count s))
shared_lem (shared n) t e =
    subst (λ u. (false ≡ false) × (is_exclusive u ≡ false) × (reader_count u ≡ suc n))
      (some_inv (shared (suc n)) t e) (refl, refl, refl)
shared_lem exclusive t e = cc

leave_exclusive_lem :
    (s : SmallLock)
    → is_exclusive s ≡ true
    → (is_exclusive (leave_exclusive s) ≡ false)
      × (reader_count (leave_exclusive s) ≡ reader_count s)
leave_exclusive_lem (shared n) e = cc
leave_exclusive_lem exclusive e = (refl, refl)

leave_shared_lem :
    (s : SmallLock) (n : ℕ)
    → reader_count s ≡ suc n
    → (is_exclusive (leave_shared s) ≡ is_exclusive s) × (reader_count (leave_shared s) ≡ n)
leave_shared_lem (shared zero) n e = cc
leave_shared_lem (shared (suc m)) n e = (refl, cc)
leave_shared_lem exclusive n e = cc

abbrev small_lock : RawRwLock
small_lock = record {
  State = SmallLock;
  unlocked = shared 0;
  try_lock_exclusive = try_exclusive;
  try_lock_shared = try_shared;
  unlock_exclusive = leave_exclusive;
  unlock_shared = leave_shared;
  is_write_locked = is_exclusive;
  readers = reader_count;
  unlocked_free = (refl, refl);
  exclusive_alone = exclusive_lem;
  shared_together = shared_lem;
  exclusive_unlocks = leave_exclusive_lem;
  shared_unlocks = leave_shared_lem;
}

abbrev fresh : Latch small_lock
fresh = new_latch small_lock 7

-- A writer that takes the lock, writes 9 and leaves.
abbrev at : ℕ → SmallLock → Phase → ℕ → Latch small_lock
at v m p c = record { version = v; mutex = m; phase = p; content = c }

fresh_is : fresh ≡ at 0 (shared 0) idle 7
unfolding new_latch
fresh_is = refl

abbrev version_of : Latch small_lock → ℕ
version_of l = l.version

locked-Reach : Reach small_lock fresh (at 0 exclusive acquired 7)
unfolding new_latch
locked-Reach = next here (lock fresh exclusive refl)

held-Reach : Reach small_lock fresh (at 1 exclusive (held 1) 7)
unfolding new_latch enter_exclusive_version can_advance_readable_version
held-Reach = next locked-Reach (enter (at 0 exclusive acquired 7) refl refl)

written-Reach : Reach small_lock fresh (at 1 exclusive (held 1) 9)
written-Reach = next held-Reach (write (at 1 exclusive (held 1) 7) 1 9 refl)

left-Reach : Reach small_lock fresh (at 2 exclusive leaving 9)
unfolding exit_exclusive_version
left-Reach = next written-Reach (drop_exclusive (at 1 exclusive (held 1) 9) 1 2 refl refl)

after_write : Reach small_lock fresh (at 2 (shared 0) idle 9)
after_write = next left-Reach (unlock (at 2 exclusive leaving 9) refl)

snapshot_two : optimistic_snapshot 2 ≡ some 2
unfolding optimistic_snapshot
snapshot_two = refl

valid_two : validate 2 2 ≡ true
unfolding validate optimistic_restart_required
valid_two = refl

upgrade_two : upgrade_cas 2 2 ≡ swapped
unfolding upgrade_cas can_advance_readable_version
upgrade_two = refl

abbrev written : Latch small_lock
written = at 2 (shared 0) idle 9

abbrev read_locked : Latch small_lock
read_locked = at 2 (shared 1) idle 9

abbrev write_locked : Latch small_lock
write_locked = at 2 exclusive acquired 9

relocked : Step small_lock (at 2 (shared 0) idle 9) (at 2 exclusive acquired 9)
relocked = lock (at 2 (shared 0) idle 9) exclusive refl

validate_sound_example :
    (written.content ≡ written.content) × (read_locked.content ≡ written.content)
validate_sound_example =
    validate_sound small_lock 7 2 written written read_locked after_write snapshot_two here
      (next here (lock_shared written (shared 1) refl)) valid_two

upgrade_sound_example :
    (written.content ≡ written.content) × (write_locked.content ≡ written.content)
upgrade_sound_example =
    upgrade_sound small_lock 7 2 written written write_locked after_write snapshot_two here
      (next here relocked) upgrade_two

exclusion_example :
    ((held 1 ≡ idle) × (is_exclusive exclusive ≡ false) × (optimistic_snapshot 1 ≡ some 1))
    ⊎ ((held 1 ≢ idle) × (is_exclusive exclusive ≡ true) × (reader_count exclusive ≡ 0))
exclusion_example = exclusion small_lock 7 (at 1 exclusive (held 1) 9) written-Reach

drop_total_example :
    (1 ≡ version_of (at 1 exclusive (held 1) 9))
    × (optimistic_snapshot 1 ≡ none)
    × (exit_exclusive_version 1 ≡ some 2)
    × (optimistic_snapshot 2 ≡ some 2)
drop_total_example = drop_total small_lock 7 1 (at 1 exclusive (held 1) 9) written-Reach refl

snapshot_given : optimistic_or_restart 2 ≡ some 2
unfolding optimistic_or_restart optimistic_snapshot
snapshot_given = refl

shared_upgrade_two : finish_shared_upgrade 2 2 ≡ some 2
unfolding finish_shared_upgrade optimistic_snapshot_still_valid
shared_upgrade_two = refl

shared_upgrade_sound_example :
    (◌≡◌ {A = ℕ} 2 2)
    × (read_locked.phase ≡ idle)
    × (written.content ≡ written.content)
    × (read_locked.content ≡ written.content)
shared_upgrade_sound_example =
    shared_upgrade_sound small_lock 7 2 2 0 written written read_locked after_write snapshot_given
      here (next here (lock_shared written (shared 1) refl)) refl shared_upgrade_two
