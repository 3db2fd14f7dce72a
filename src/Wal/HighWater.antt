-- ===== src/Wal/HighWater.antt =====
-- The written LSN of `SubmittedWrites` of `crates/wal/src/wal_impl.rs`, against the writes that are open.
use pagebox.Base.{
  ℕ, ◌<◌, ◌≡◌, ◌≢◌, ◌⊎◌, refl, sym, ap, subst, ◌∙◌, inl, inr, max, Option, none, some, List, [],
  ◌∷◌, ◌++◌, true, false, ◌==◌, if◌then◌else◌, ◌>>=◌, All, All-map, Bool-cases, arith,
}
use pagebox.Wal.Submitted.{
  SubmittedWrite, SubmittedWrites, new_writes, submitted, push, mark_completed, pop_completed,
  risen, complete, WriteEvent, pushed, finished, report, run,
}

-- A list without the first place of a number, where it has one.
unfoldable pub take_out : ℕ → List ℕ → Option (List ℕ)
take_out lsn [] = none
take_out lsn (o ∷ os) =
    let rest = take_out lsn os in if o == lsn then some os else do os' ← rest; some (o ∷ os')

-- The LSNs of the writes that were pushed and have not finished, in order.
unfoldable pub open_after : List ℕ → List WriteEvent → Option (List ℕ)
unfolding take_out
open_after os [] = some os
open_after os (pushed lsn ∷ events) = open_after (os ++ (lsn ∷ [])) events
open_after os (finished lsn ∷ events) = do os' ← take_out lsn os; open_after os' events

-- The LSN of the last write that was pushed.
unfoldable pub newest : ℕ → List WriteEvent → ℕ
newest lsn [] = lsn
newest lsn (pushed lsn' ∷ events) = newest lsn' events
newest lsn (finished _ ∷ events) = newest lsn events

-- The writes are pushed with ascending LSNs.
unfoldable pub Rising : ℕ → List WriteEvent → Type 0
Rising lsn [] = Unit
Rising lsn (pushed lsn' ∷ events) = (lsn < lsn') × Rising lsn' events
Rising lsn (finished _ ∷ events) = Rising lsn events

unfoldable open_of : List SubmittedWrite → List ℕ
open_of [] = []
open_of (w ∷ ws) = let rest = open_of ws in if w.completed then rest else w.max_lsn ∷ rest

-- The LSNs of a window ascend from the written one to the newest.
unfoldable Between : ℕ → List SubmittedWrite → ℕ → Type 0
Between low [] high = low ≡ high
Between low (w ∷ ws) high = (low < w.max_lsn) × Between (w.max_lsn) ws high

unfoldable Front : List SubmittedWrite → Type 0
Front [] = Unit
Front (w ∷ ws) = w.completed ≡ false

Between-push :
    (ws : List SubmittedWrite) (low high lsn : ℕ)
    → Between low ws high
    → high < lsn
    → Between low (ws ++ (submitted lsn ∷ [])) lsn
unfolding Between
Between-push [] low high lsn b h = (omega (arith, b), refl)
Between-push (w ∷ ws) low high lsn (first, b) h = (first, Between-push ws (w.max_lsn) high lsn b h)

open_of-push :
    (ws : List SubmittedWrite) (lsn : ℕ)
    → open_of (ws ++ (submitted lsn ∷ [])) ≡ open_of ws ++ (lsn ∷ [])
unfolding open_of
open_of-push [] lsn = refl
open_of-push (w ∷ ws) lsn = elim (Bool-cases w.completed) [
  | inl e ↦ rw e (open_of-push ws lsn)
  | inr e ↦ rw e (ap (◌∷◌ w.max_lsn) (open_of-push ws lsn))
]

Front-push : (ws : List SubmittedWrite) (lsn : ℕ) → Front ws → Front (ws ++ (submitted lsn ∷ []))
unfolding Front
Front-push [] lsn f = refl
Front-push (w ∷ ws) lsn f = f

-- A completion finds no open write, or takes it off the open ones and leaves the LSNs.
abbrev Marked : ℕ → List SubmittedWrite → Type 0
Marked lsn ws =
    ((mark_completed lsn ws ≡ none) × (take_out lsn (open_of ws) ≡ none))
    ⊎ ((ws' : List SubmittedWrite) × (mark_completed lsn ws ≡ some ws')
        × (take_out lsn (open_of ws) ≡ some (open_of ws'))
        × ((low high : ℕ) → Between low ws high → Between low ws' high))

mark_completed_lem : (ws : List SubmittedWrite) (lsn : ℕ) → Marked lsn ws
unfolding mark_completed take_out open_of Between
mark_completed_lem [] lsn = inl (refl, refl)
mark_completed_lem (w ∷ ws) lsn = elim (Bool-cases w.completed) [
  | inl done ↦ elim (Bool-cases (w.max_lsn == lsn)) [
    | inl same ↦ elim (mark_completed_lem ws lsn) [
      | inl (missing, no_one) ↦ inl (rw (done, same, missing) refl, rw done no_one)
      | inr (ws', marked, taken, kept) ↦ inr (
        w ∷ ws',
        rw (done, same, marked) refl,
        rw done taken,
        λ low high b. (b.0, kept (w.max_lsn) high (b.1)),
      )
    ]
    | inr other ↦ elim (mark_completed_lem ws lsn) [
      | inl (missing, no_one) ↦ inl (rw (done, other, missing) refl, rw done no_one)
      | inr (ws', marked, taken, kept) ↦ inr (
        w ∷ ws',
        rw (done, other, marked) refl,
        rw done taken,
        λ low high b. (b.0, kept (w.max_lsn) high (b.1)),
      )
    ]
  ]
  | inr waits ↦ elim (Bool-cases (w.max_lsn == lsn)) [
    | inl same ↦ inr (
      record w { completed = true } ∷ ws,
      rw (waits, same) refl,
      rw (waits, same) refl,
      λ low high b. b,
    )
    | inr other ↦ elim (mark_completed_lem ws lsn) [
      | inl (missing, no_one) ↦
          inl (rw (waits, other, missing) refl, rw (waits, other, no_one) refl)
      | inr (ws', marked, taken, kept) ↦ inr (
        w ∷ ws',
        rw (waits, other, marked) refl,
        rw (waits, other, taken) refl,
        λ low high b. (b.0, kept (w.max_lsn) high (b.1)),
      )
    ]
  ]
]

-- Popping keeps the open writes, and ends at one of them.
pop_completed_lem :
    (ws : List SubmittedWrite) (low high : ℕ)
    → Between low ws high
    → let popped = pop_completed low ws in
      Between (popped.1) (popped.0) high × (open_of (popped.0) ≡ open_of ws) × Front (popped.0)
unfolding pop_completed Between open_of Front
pop_completed_lem [] low high b = (b, refl, tt)
pop_completed_lem (w ∷ ws) low high (first, b) = elim (Bool-cases w.completed) [
  | inl e ↦
      let top : w.max_lsn ≡ max low (w.max_lsn) = omega (arith, first) in
      rw e (pop_completed_lem ws (max low (w.max_lsn)) high (subst (λ l. Between l ws high) top b))
  | inr e ↦ rw e ((first, b), refl, refl)
]

-- Every open write is above the written LSN.
open_above :
    (ws : List SubmittedWrite) (low high : ℕ)
    → Between low ws high
    → All (λ lsn. low < lsn) (open_of ws)
unfolding Between open_of
open_above [] low high b = tt
open_above (w ∷ ws) low high (first, b) =
    let later =
      All-map (open_of ws) (λ lsn above. omega (arith, first, above))
        (open_above ws (w.max_lsn) high b) in
    elim (Bool-cases w.completed) [ inl e ↦ rw e later | inr e ↦ rw e (first, later) ]

all_written :
    (ws : List SubmittedWrite) (low high : ℕ)
    → Between low ws high
    → Front ws
    → open_of ws ≡ []
    → low ≡ high
unfolding Between Front open_of
all_written [] low high b f e = b
all_written (w ∷ ws) low high b f e = cc

-- The window of a state, and the writes that are open at it.
record Follows (s : SubmittedWrites) (high : ℕ) (os : List ℕ) : Type 0 where
  between : Between s.high_water_lsn s.entries high
  opens : open_of s.entries ≡ os
  front : Front s.entries

-- Where no write is open, all are written; else the written LSN is below every open write.
abbrev pub WrittenTo : SubmittedWrites → ℕ → List ℕ → Type 0
WrittenTo s high os =
    ((os ≡ []) × (s.high_water_lsn ≡ high)) ⊎ ((os ≢ []) × All (λ lsn. s.high_water_lsn < lsn) os)

-- A run that panics where a completion has no open write, and else follows the open ones.
abbrev pub RunAnswer : Option (SubmittedWrites × List ℕ) → Option (List ℕ) → ℕ → Type 0
RunAnswer ran opens high =
    ((ran ≡ none) × (opens ≡ none))
    ⊎ ((s : SubmittedWrites) × (lsns : List ℕ) × (os : List ℕ) × (ran ≡ some (s, lsns))
        × (opens ≡ some os)
        × WrittenTo s high os)

Follows-WrittenTo :
    (s : SubmittedWrites) (high : ℕ) (os : List ℕ) → Follows s high os → WrittenTo s high os
Follows-WrittenTo s high [] f =
    inl (refl, all_written s.entries s.high_water_lsn high f.between f.front f.opens)
Follows-WrittenTo s high (o ∷ os) f = inr (
  λ e. cc,
  subst (All (λ lsn. s.high_water_lsn < lsn)) f.opens
      (open_above s.entries s.high_water_lsn high f.between),
)

Follows-push :
    (s : SubmittedWrites) (high lsn : ℕ) (os : List ℕ)
    → Follows s high os
    → high < lsn
    → Follows (push s lsn) lsn (os ++ (lsn ∷ []))
unfolding push
Follows-push s high lsn os f up = record {
  between = Between-push s.entries s.high_water_lsn high lsn f.between up;
  opens = open_of-push s.entries lsn ∙ ap (λ xs. xs ++ (lsn ∷ [])) f.opens;
  front = Front-push s.entries lsn f.front;
}

-- A completion panics where its write is not open, and else takes it off the open ones.
abbrev Completes : SubmittedWrites → ℕ → ℕ → List ℕ → Type 0
Completes s lsn high os =
    ((complete s lsn ≡ none) × (take_out lsn os ≡ none))
    ⊎ ((s' : SubmittedWrites) × (told : Option ℕ) × (os' : List ℕ) × (complete s lsn
          ≡ some (s', told))
        × (take_out lsn os ≡ some os')
        × Follows s' high os')

complete_lem :
    (s : SubmittedWrites) (lsn high : ℕ) (os : List ℕ) → Follows s high os → Completes s lsn high os
unfolding complete
complete_lem s lsn high os f = elim (mark_completed_lem s.entries lsn) [
  | inl (missing, no_one) ↦ inl (rw missing refl, ap (take_out lsn) (sym f.opens) ∙ no_one)
  | inr (ws', marked, taken, kept) ↦
      let (between, opens, front) =
        pop_completed_lem ws' s.high_water_lsn high (kept s.high_water_lsn high f.between) in
      inr (
        record {
          entries = (pop_completed s.high_water_lsn ws').0;
          high_water_lsn = (pop_completed s.high_water_lsn ws').1;
        },
        risen s.high_water_lsn ((pop_completed s.high_water_lsn ws').1),
        open_of ws',
        rw marked refl,
        ap (take_out lsn) (sym f.opens) ∙ taken,
        record { between = between; opens = opens; front = front },
      )
]

run-Follows :
    (events : List WriteEvent) (s : SubmittedWrites) (high : ℕ) (os : List ℕ)
    → Follows s high os
    → Rising high events
    → RunAnswer (run s events) (open_after os events) (newest high events)
unfolding run open_after newest Rising
run-Follows [] s high os f up = inr (s, [], os, refl, refl, Follows-WrittenTo s high os f)
run-Follows (pushed lsn ∷ events) s high os f (above, up) =
    run-Follows events (push s lsn) lsn (os ++ (lsn ∷ [])) (Follows-push s high lsn os f above) up
run-Follows (finished lsn ∷ events) s high os f up = elim (complete_lem s lsn high os f) [
  | inl (panics, no_one) ↦ inl (rw panics refl, rw no_one refl)
  | inr (s', told, os', runs, taken, f') ↦ elim (run-Follows events s' high os' f' up) [
    | inl (panics, no_one) ↦ inl (rw (runs, panics) refl, rw (taken, no_one) refl)
    | inr (last, lsns, left, ran, opens, to) ↦
        inr (last, report told lsns, left, rw (runs, ran) refl, rw (taken, opens) refl, to)
  ]
]

-- A new window that gets writes with ascending LSNs above its own, and completions in any order: its run panics
-- just where one completes that is not open. Otherwise, where all have completed, the written LSN is that of the
-- last write, or the first one of the window; and where some are open, it is below the LSN of each of them.
pub run-new_writes :
    (events : List WriteEvent) (start : ℕ)
    → Rising start events
    → RunAnswer (run (new_writes start) events) (open_after [] events) (newest start events)
unfolding Between open_of Front
run-new_writes events start up =
    run-Follows events (new_writes start) start []
      (record { between = refl; opens = refl; front = tt }) up
