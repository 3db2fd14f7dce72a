-- ===== src/Frame/Transition.antt =====
-- What the state byte of `crates/frame-kernel/src/frame.rs` goes through.
use pagebox.Base.{ℕ, ◌<◌, ◌≡◌, Bool, refl, none, some, false, ◌⊎◌, inl, inr, arith, zero, suc}
use pagebox.Frame.State.{FrameState, free, loading, resident, evicting, as_u8, from_u8}

-- A byte reads as a frame state just where it is the byte of that state: the four states read back,
-- and every other byte panics.
from_u8_lem :
    (v : ℕ)
    → ((from_u8 v ≡ none) × (3 < v)) ⊎ ((s : FrameState) × (from_u8 v ≡ some s) × (v ≡ as_u8 s))
unfolding from_u8
from_u8_lem zero = inr (free, refl, refl)
from_u8_lem (suc zero) = inr (loading, refl, refl)
from_u8_lem (suc (suc zero)) = inr (resident, refl, refl)
from_u8_lem (suc (suc (suc zero))) = inr (evicting, refl, refl)
from_u8_lem (suc (suc (suc (suc v)))) = inl (ground arith, omega arith)

-- The state machine as a relation: the transitions that the code accepts, with why they are taken.
pub data Moves : FrameState → FrameState → Type 0 where
  start_load : Moves free loading
  allocate : Moves free resident
  finish_load : Moves loading resident
  abort_load : Moves loading free
  start_evict : Moves resident evicting
  finish_evict : Moves evicting free
  revert_evict : Moves evicting resident

-- The check of a build passes where it has no debug assertions or the state machine has the move, and only
-- there.
abbrev pub Passes : Bool → FrameState → FrameState → Type 0
Passes debug_assertions from to = (debug_assertions ≡ false) ⊎ Moves from to
