-- ===== src/Latch/Reads.antt =====
-- The readers of `crates/hybrid-latch/src/latch.rs`: what the optimistic, the shared and the
-- exclusive guards may rely on, whatever the other threads do.
use pagebox.Base.{
  suc, refl, sym, ◌∙◌, Bool, ℕ, ◌+◌, ◌%◌, ◌≡◌, ◌≢◌, ◌⊎◌, inl, inr, none, some, true, false, arith,
}
use pagebox.Latch.Word.{
  optimistic_snapshot_still_valid, optimistic_snapshot, optimistic_snapshot_lem,
  optimistic_snapshot-even, optimistic_snapshot-odd, optimistic_restart_required,
  exit_exclusive_version,
}
use pagebox.Latch.System.{
  optimistic_or_restart, finish_shared_upgrade, RawRwLock, Latch, Reach, Phase, idle, acquired,
  leaving, held, swapped, upgrade_cas, validate, new_latch,
}
use pagebox.Latch.Safety.{
  PhaseOk, IsOk, new_latch-IsOk, Reach-IsOk, Reach-Later, upgrade_cas-swapped, held_exit, read_at,
}

-- A snapshot is validated where the version word still is the snapshot.
validate_same : (v snapshot : ℕ) → validate v snapshot ≡ true → v ≡ snapshot
unfolding validate optimistic_restart_required
validate_same v snapshot e = ground arith

shared_upgrade_same :
    (current snapshot v : ℕ)
    → finish_shared_upgrade current snapshot ≡ some v
    → (current ≡ snapshot) × (v ≡ snapshot)
unfolding finish_shared_upgrade optimistic_snapshot_still_valid
shared_upgrade_same current snapshot v e = ground arith

in_phase :
    (version : ℕ) (b : Bool) (n : ℕ) (ph : Phase)
    → PhaseOk version b n ph
    → ((ph ≡ idle) × (b ≡ false) × (optimistic_snapshot version ≡ some version))
      ⊎ ((ph ≢ idle) × (b ≡ true) × (n ≡ 0))
in_phase version b n idle (even, free) = inl (refl, free, optimistic_snapshot-even version even)
in_phase version b n acquired (even, locked, alone) = inr (λ e. cc, locked, alone)
in_phase version b n leaving (even, locked, alone) = inr (λ e. cc, locked, alone)
in_phase version b n (held v) (same, odd, can, locked, alone) = inr (λ e. cc, locked, alone)

module _ (rw_lock : RawRwLock) where
  open rw_lock use {is_write_locked, readers}

  -- Between two states of the same even version no state has other content.
  unchanged :
      {l m n : Latch rw_lock}
      → IsOk rw_lock l
      → Reach rw_lock l m
      → Reach rw_lock m n
      → n.version ≡ l.version
      → l.version % 2 ≡ 0
      → (m.content ≡ l.content) × (n.content ≡ l.content)
  unchanged {l} {m} {n} ok r q e even =
      let (before, same) = Reach-Later rw_lock r ok in
      let (after, same') = Reach-Later rw_lock q (Reach-IsOk rw_lock r ok) in
      let stay : m.version ≡ l.version = omega (arith, before, after, e) in
      let first : m.content ≡ l.content = same stay even in
      (first, same' (e ∙ sym stay) (omega (arith, stay, even)) ∙ first)

  exclusive_or_idle :
      (l : Latch rw_lock)
      → IsOk rw_lock l
      → ((l.phase ≡ idle)
          × (is_write_locked l.mutex ≡ false)
          × (optimistic_snapshot l.version ≡ some l.version))
        ⊎ ((l.phase ≢ idle) × (is_write_locked l.mutex ≡ true) × (readers l.mutex ≡ 0))
  exclusive_or_idle l ok = in_phase l.version (is_write_locked l.mutex) (readers l.mutex) l.phase ok

  -- An optimistic read is sound: if a latch that started new gives out a snapshot at l, and the
  -- snapshot is validated at n, then every state m between the two has the content that l has, and
  -- so has n, whatever steps the other threads took.
  pub validate_sound :
      (initial snapshot : ℕ) (l m n : Latch rw_lock)
      → Reach rw_lock (new_latch rw_lock initial) l
      → optimistic_snapshot l.version ≡ some snapshot
      → Reach rw_lock l m
      → Reach rw_lock m n
      → validate n.version snapshot ≡ true
      → (m.content ≡ l.content) × (n.content ≡ l.content)
  validate_sound initial snapshot l m n start taken r q valid =
      let (same, even) = optimistic_snapshot_lem l.version snapshot taken in
      unchanged (Reach-IsOk rw_lock start (new_latch-IsOk rw_lock initial)) r q
        (validate_same n.version snapshot valid ∙ same) even

  -- A snapshot that is taken at l and upgraded at n, when the exclusive lock is held, gives a
  -- writer that finds the content it read, and no state in between had other content.
  pub upgrade_sound :
      (initial snapshot : ℕ) (l m n : Latch rw_lock)
      → Reach rw_lock (new_latch rw_lock initial) l
      → optimistic_snapshot l.version ≡ some snapshot
      → Reach rw_lock l m
      → Reach rw_lock m n
      → upgrade_cas n.version snapshot ≡ swapped
      → (m.content ≡ l.content) × (n.content ≡ l.content)
  upgrade_sound initial snapshot l m n start taken r q swap =
      let (same, even) = optimistic_snapshot_lem l.version snapshot taken in
      let (still, _) = upgrade_cas-swapped rw_lock n.version snapshot swap in
      unchanged (Reach-IsOk rw_lock start (new_latch-IsOk rw_lock initial)) r q (still ∙ same) even

  -- A snapshot that is taken at l by `optimistic_or_restart` and upgraded at n, when a shared lock is
  -- held, gives a reader of that version that finds the content it read, with no writer in the
  -- latch, and no state m in between had other content.
  pub shared_upgrade_sound :
      (initial snapshot v k : ℕ) (l m n : Latch rw_lock)
      → Reach rw_lock (new_latch rw_lock initial) l
      → optimistic_or_restart l.version ≡ some snapshot
      → Reach rw_lock l m
      → Reach rw_lock m n
      → readers n.mutex ≡ suc k
      → finish_shared_upgrade n.version snapshot ≡ some v
      → (v ≡ snapshot) × (n.phase ≡ idle) × (m.content ≡ l.content) × (n.content ≡ l.content)
  unfolding optimistic_or_restart
  shared_upgrade_sound initial snapshot v k l m n start taken r q shares upgraded =
      let ok = Reach-IsOk rw_lock start (new_latch-IsOk rw_lock initial) in
      let ok' = Reach-IsOk rw_lock q (Reach-IsOk rw_lock r ok) in
      let (same, even) = optimistic_snapshot_lem l.version snapshot taken in
      let (still, kept) = shared_upgrade_same n.version snapshot v upgraded in
      let (before, after) = unchanged ok r q (still ∙ same) even in
      (kept, read_at rw_lock n k shares ok', before, after)

  -- Exclusion: in every state that a new latch reaches, either no writer is in the latch, the inner
  -- lock is not locked exclusively and the version word can be read optimistically; or one is in it,
  -- the inner lock is locked exclusively and no shared guard lives.
  pub exclusion :
      (initial : ℕ) (l : Latch rw_lock)
      → Reach rw_lock (new_latch rw_lock initial) l
      → ((l.phase ≡ idle)
          × (is_write_locked l.mutex ≡ false)
          × (optimistic_snapshot l.version ≡ some l.version))
        ⊎ ((l.phase ≢ idle) × (is_write_locked l.mutex ≡ true) × (readers l.mutex ≡ 0))
  exclusion initial l start =
      exclusive_or_idle l (Reach-IsOk rw_lock start (new_latch-IsOk rw_lock initial))

  -- A live exclusive guard holds the version of the latch, which then gives out no snapshot; its drop
  -- never panics, and leaves the next readable version, which does.
  pub drop_total :
      (initial v : ℕ) (l : Latch rw_lock)
      → Reach rw_lock (new_latch rw_lock initial) l
      → l.phase ≡ held v
      → (v ≡ l.version)
        × (optimistic_snapshot v ≡ none)
        × (exit_exclusive_version v ≡ some (v + 1))
        × (optimistic_snapshot (v + 1) ≡ some (v + 1))
  drop_total initial v l start e =
      let (same, odd, leave) =
        held_exit rw_lock l v e (Reach-IsOk rw_lock start (new_latch-IsOk rw_lock initial)) in
      (
        same,
        optimistic_snapshot-odd v odd,
        leave,
        optimistic_snapshot-even (v + 1) (omega (arith, odd)),
      )
