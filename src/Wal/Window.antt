-- ===== src/Wal/Window.antt =====
-- `SubmittedWrites` of `crates/wal/src/wal_impl.rs`: the window is a view of the whole history of writes.
use pagebox.Base.{
  ℕ, ◌≡◌, refl, max, Option, none, some, List, [], ◌∷◌, ◌++◌, true, false, if◌then◌else◌, ◌>>=◌,
  Bool-cases, Option-cases, inl, inr, arith,
}
use pagebox.Wal.Submitted.{
  SubmittedWrite, SubmittedWrites, submitted, push, mark_completed, pop_completed, risen, complete,
  WriteEvent, pushed, finished, report, run,
}

-- The writes before the first one that has not completed, and the others.
unfoldable pub take_done : List SubmittedWrite → List SubmittedWrite
take_done [] = []
take_done (w ∷ ws) = let rest = take_done ws in if w.completed then w ∷ rest else []

unfoldable pub drop_done : List SubmittedWrite → List SubmittedWrite
drop_done [] = []
drop_done (w ∷ ws) = let rest = drop_done ws in if w.completed then rest else w ∷ ws

unfoldable pub max_lsns : ℕ → List SubmittedWrite → ℕ
max_lsns lsn [] = lsn
max_lsns lsn (w ∷ ws) = max_lsns (max lsn w.max_lsn) ws

-- The LSN up to which a log that began at `start` is written.
unfoldable pub written : ℕ → List SubmittedWrite → ℕ
unfolding take_done max_lsns
written start history = max_lsns start (take_done history)

-- The window of a history.
unfoldable pub view : ℕ → List SubmittedWrite → SubmittedWrites
unfolding written drop_done
view start history = record { entries = drop_done history; high_water_lsn = written start history }

-- The same run on the whole history: nothing is ever taken off it.
unfoldable pub history_run :
    ℕ → List SubmittedWrite → List WriteEvent → Option (List SubmittedWrite × List ℕ)
unfolding written mark_completed
history_run start history [] = some (history, [])
history_run start history (pushed lsn ∷ events) =
    history_run start (history ++ (submitted lsn ∷ [])) events
history_run start history (finished lsn ∷ events) = do
  history' ← mark_completed lsn history
  (history'', lsns) ← history_run start history' events
  some (history'', report (risen (written start history) (written start history')) lsns)

pop_completed_lem :
    (ws : List SubmittedWrite) (start : ℕ)
    → pop_completed start ws ≡ (drop_done ws, written start ws)
unfolding pop_completed drop_done written take_done max_lsns
pop_completed_lem [] start = refl
pop_completed_lem (w ∷ ws) start = elim (Bool-cases w.completed) [
  | inl e ↦ rw e (pop_completed_lem ws (max start w.max_lsn))
  | inr e ↦ rw e refl
]

view-push :
    (history : List SubmittedWrite) (start lsn : ℕ)
    → push (view start history) lsn ≡ view start (history ++ (submitted lsn ∷ []))
unfolding push view drop_done written take_done max_lsns
view-push [] start lsn = refl
view-push (w ∷ ws) start lsn = elim (Bool-cases w.completed) [
  | inl e ↦ rw e (view-push ws (max start w.max_lsn) lsn)
  | inr e ↦ rw e refl
]

-- The report and the window after a completion.
abbrev completed_to :
    ℕ → List SubmittedWrite → List SubmittedWrite → Option (SubmittedWrites × Option ℕ)
completed_to start history history' =
    some (view start history', risen (written start history) (written start history'))

completed_by :
    (entries entries' : List SubmittedWrite) (start lsn : ℕ)
    → mark_completed lsn entries ≡ some entries'
    → complete (record { entries = entries; high_water_lsn = start }) lsn
      ≡ some (view start entries', risen start (written start entries'))
unfolding complete view
completed_by entries entries' start lsn e = rw (e, pop_completed_lem entries' start) refl

unknown :
    (entries : List SubmittedWrite) (start lsn : ℕ)
    → mark_completed lsn entries ≡ none
    → complete (record { entries = entries; high_water_lsn = start }) lsn ≡ none
unfolding complete
unknown entries start lsn e = rw e refl

view-done :
    (w : SubmittedWrite) (ws : List SubmittedWrite) (start : ℕ)
    → w.completed ≡ true
    → view start (w ∷ ws) ≡ view (max start w.max_lsn) ws
unfolding view drop_done written take_done max_lsns
view-done w ws start e = rw e refl

written-done :
    (w : SubmittedWrite) (ws : List SubmittedWrite) (start : ℕ)
    → w.completed ≡ true
    → written start (w ∷ ws) ≡ written (max start w.max_lsn) ws
unfolding written take_done max_lsns
written-done w ws start e = rw e refl

view-open :
    (w : SubmittedWrite) (ws : List SubmittedWrite) (start : ℕ)
    → w.completed ≡ false
    → view start (w ∷ ws) ≡ record { entries = w ∷ ws; high_water_lsn = start }
unfolding view drop_done written take_done max_lsns
view-open w ws start e = rw e refl

written-open :
    (w : SubmittedWrite) (ws : List SubmittedWrite) (start : ℕ)
    → w.completed ≡ false
    → written start (w ∷ ws) ≡ start
unfolding written take_done max_lsns
written-open w ws start e = rw e refl

mark_completed-done :
    (w : SubmittedWrite) (ws : List SubmittedWrite) (lsn : ℕ)
    → w.completed ≡ true
    → mark_completed lsn (w ∷ ws) ≡ (do ws' ← mark_completed lsn ws; some (w ∷ ws'))
unfolding mark_completed
mark_completed-done w ws lsn e = ground arith

view-complete :
    (history : List SubmittedWrite) (start lsn : ℕ)
    → complete (view start history) lsn ≡ mark_completed lsn history >>= completed_to start history
view-complete [] start lsn =
    unfold complete in unfold view in unfold mark_completed in unfold drop_done in refl
view-complete (w ∷ ws) start lsn = elim (Bool-cases w.completed) [
  | inl e ↦ elim (Option-cases (mark_completed lsn ws)) [
    | inl missing ↦
        rw
          (
            view-done w ws start e,
            view-complete ws (max start w.max_lsn) lsn,
            mark_completed-done w ws lsn e,
            missing,
          )
          refl
    | inr (ws', marked) ↦
        rw
          (
            view-done w ws start e,
            view-complete ws (max start w.max_lsn) lsn,
            mark_completed-done w ws lsn e,
            marked,
          )
          (rw (view-done w ws' start e, written-done w ws start e, written-done w ws' start e) refl)
  ]
  | inr e ↦ elim (Option-cases (mark_completed lsn (w ∷ ws))) [
    | inl missing ↦ rw (view-open w ws start e, missing) (unknown (w ∷ ws) start lsn missing)
    | inr (ws', marked) ↦
        rw (view-open w ws start e, marked, written-open w ws start e)
          (completed_by (w ∷ ws) ws' start lsn marked)
  ]
]

-- From any history on, the run of the window is the run of the history, seen as a window, with the
-- same reports.
pub run-view :
    (events : List WriteEvent) (history : List SubmittedWrite) (start : ℕ)
    → run (view start history) events
      ≡ (history_run start history events >>= λ out. some (view start (out.0), out.1))
unfolding run history_run
run-view [] history start = refl
run-view (pushed lsn ∷ events) history start =
    rw (view-push history start lsn) (run-view events (history ++ (submitted lsn ∷ [])) start)
run-view (finished lsn ∷ events) history start = elim (Option-cases (mark_completed lsn history)) [
  | inl missing ↦ rw (view-complete history start lsn, missing) refl
  | inr (history', marked) ↦ elim (Option-cases (history_run start history' events)) [
    | inl panics ↦
        rw (view-complete history start lsn, marked, run-view events history' start, panics) refl
    | inr (out, ran) ↦
        rw (view-complete history start lsn, marked, run-view events history' start, ran) refl
  ]
]
