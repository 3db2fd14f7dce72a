-- ===== src/Wal/Submitted.antt =====
-- `SubmittedWrites` of `crates/wal/src/wal_impl.rs`: the writes that were handed to the operating
-- system complete in any order, and the written LSN advances over the completed ones at the front
-- only. `none` is the panic on a completion that nothing waits for.
use pagebox.Base.{
  ℕ, max, Option, none, some, List, [], ◌∷◌, ◌++◌, Bool, true, false, not, ltb, ◌==◌, ◌&&◌, ◌||◌,
  if◌then◌else◌, ◌>>=◌,
}

pub record SubmittedWrite : Type 0 where
  pub max_lsn : ℕ
  pub completed : Bool

pub record SubmittedWrites : Type 0 where
  pub entries : List SubmittedWrite
  pub high_water_lsn : ℕ

-- `SubmittedWrites::new`
abbrev pub new_writes : ℕ → SubmittedWrites
new_writes high_water_lsn = record { entries = []; high_water_lsn = high_water_lsn }

abbrev pub submitted : ℕ → SubmittedWrite
submitted max_lsn = record { max_lsn = max_lsn; completed = false }

unfoldable pub push : SubmittedWrites → ℕ → SubmittedWrites
push s max_lsn = record s { entries = s.entries ++ (submitted max_lsn ∷ []) }

-- `find` of the first entry that waits for the LSN, and `entry.completed = true`
unfoldable pub mark_completed : ℕ → List SubmittedWrite → Option (List SubmittedWrite)
mark_completed max_lsn [] = none
mark_completed max_lsn (w ∷ ws) =
    let rest = mark_completed max_lsn ws in
    if w.max_lsn == max_lsn && not w.completed
    then some (record w { completed = true } ∷ ws)
    else do ws' ← rest; some (w ∷ ws')

-- The loop that takes the completed entries off the front.
unfoldable pub pop_completed : ℕ → List SubmittedWrite → List SubmittedWrite × ℕ
pop_completed high_water_lsn [] = ([], high_water_lsn)
pop_completed high_water_lsn (w ∷ ws) =
    let rest = pop_completed (max high_water_lsn w.max_lsn) ws in
    if w.completed then rest else (w ∷ ws, high_water_lsn)

-- The new high water mark, where it has risen.
abbrev pub risen : ℕ → ℕ → Option ℕ
risen previous high_water_lsn = if ltb previous high_water_lsn then some high_water_lsn else none

unfoldable pub complete : SubmittedWrites → ℕ → Option (SubmittedWrites × Option ℕ)
unfolding mark_completed pop_completed
complete s max_lsn = do
  entries ← mark_completed max_lsn s.entries
  let popped = pop_completed s.high_water_lsn entries
  some (record { entries = popped.0; high_water_lsn = popped.1 }, risen s.high_water_lsn popped.1)

-- `should_submit_sync`
unfoldable pub should_submit_sync : Bool → Bool → ℕ → ℕ → Bool
should_submit_sync pending_sync sync_in_flight written_lsn sync_target =
    pending_sync && (not sync_in_flight || ltb sync_target written_lsn)

-- `can_submit_write`
unfoldable pub can_submit_write : ℕ → ℕ → Bool
can_submit_write writes_in_progress max_in_flight_writes =
    ltb writes_in_progress max_in_flight_writes

-- What the driver does with the window, and the written LSNs that it is told.
pub data WriteEvent : Type 0 where
  pushed : ℕ → WriteEvent
  finished : ℕ → WriteEvent

abbrev pub report : Option ℕ → List ℕ → List ℕ
report none lsns = lsns
report (some lsn) lsns = lsn ∷ lsns

unfoldable pub run : SubmittedWrites → List WriteEvent → Option (SubmittedWrites × List ℕ)
unfolding push complete
run s [] = some (s, [])
run s (pushed max_lsn ∷ events) = run (push s max_lsn) events
run s (finished max_lsn ∷ events) = do
  (s', lsn) ← complete s max_lsn
  (s'', lsns) ← run s' events
  some (s'', report lsn lsns)
