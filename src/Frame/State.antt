-- ===== src/Frame/State.antt =====
-- `crates/frame-kernel/src/frame.rs`: the life of a buffer frame, its atomic state byte, and the core
-- header. An atomic access is a function from the value of the cell. `none` is a panic. What has a
-- `debug_assert!` takes whether the build has debug assertions.
use pagebox.Base.{
  ℕ, ◌+◌, ◌-◌, ◌%◌, Option, none, some, Bool, true, false, not, ◌||◌, ◌==◌, if◌then◌else◌, guard,
  ◌>>=◌, ◌>>◌, ◌⊎◌, inl, inr,
}

pub data FrameState : Type 0 where
  free loading resident evicting : FrameState

-- `state as u8`
abbrev pub as_u8 : FrameState → ℕ
as_u8 free = 0
as_u8 loading = 1
as_u8 resident = 2
as_u8 evicting = 3

unfoldable pub is_valid_frame_state_tag : ℕ → Bool
is_valid_frame_state_tag v = (v == 0) || ((v == 1) || ((v == 2) || (v == 3)))

unfoldable pub from_u8 : ℕ → Option FrameState
unfolding is_valid_frame_state_tag
from_u8 v = do
  guard (is_valid_frame_state_tag v)
  if v == 0
      then some free
      else (if v == 1
          then some loading
          else (if v == 2 then some resident else (if v == 3 then some evicting else none)))

unfoldable pub is_valid_transition : FrameState → FrameState → Bool
is_valid_transition free loading = true
is_valid_transition free resident = true
is_valid_transition loading resident = true
is_valid_transition loading free = true
is_valid_transition resident evicting = true
is_valid_transition evicting free = true
is_valid_transition evicting resident = true
is_valid_transition _ _ = false

-- `AtomicFrameState::load`
unfoldable pub load : ℕ → Option FrameState
load cell = from_u8 cell

-- `AtomicFrameState::store`
unfoldable pub store : ℕ → FrameState → ℕ
store cell state = as_u8 state

-- `AtomicFrameState::transition`
unfoldable pub transition : Bool → ℕ → FrameState → FrameState → Option ℕ
transition debug_assertions cell from to = do
  guard (not debug_assertions || is_valid_transition from to)
  some (as_u8 to)

-- `AtomicFrameState::compare_exchange`: the answer, `inl` for `Err`, and the new value of the cell.
unfoldable pub compare_exchange :
    ℕ → FrameState → FrameState → Option ((FrameState ⊎ FrameState) × ℕ)
unfolding from_u8
compare_exchange cell expected new =
    if cell == as_u8 expected
    then (from_u8 cell >>= λ s. some (inr s, as_u8 new))
    else (from_u8 cell >>= λ s. some (inl s, cell))

unfoldable pub compare_exchange_transition :
    Bool → ℕ → FrameState → FrameState → Option ((FrameState ⊎ FrameState) × ℕ)
unfolding is_valid_transition compare_exchange
compare_exchange_transition debug_assertions cell from to = do
  guard (not debug_assertions || is_valid_transition from to)
  compare_exchange cell from to

-- `PaddedAtomicU32::fetch_add` and `fetch_sub`, which wrap around: the old value and the new one.
unfoldable pub fetch_add : ℕ → ℕ → ℕ × ℕ
fetch_add cell value = (cell, (cell + value) % 4294967296)

unfoldable pub fetch_sub : ℕ → ℕ → ℕ × ℕ
fetch_sub cell value = (cell, (cell + (4294967296 - value)) % 4294967296)

pub record FrameCoreHeader : Type 0 where
  pub pin_count : ℕ
  pub pid : ℕ
  pub dirty : Bool
  pub dirty_generation : ℕ
  pub referenced : Bool
  pub state : ℕ
  pub page_lsn : ℕ
  pub has_page_image_base : Bool
  pub wal_buffer_epoch : ℕ
  pub wal_buffer_offset : ℕ

unfoldable pub new_free : FrameCoreHeader
new_free = record {
  pin_count = 0;
  pid = 0;
  dirty = false;
  dirty_generation = 0;
  referenced = false;
  state = as_u8 free;
  page_lsn = 0;
  has_page_image_base = false;
  wal_buffer_epoch = 0;
  wal_buffer_offset = 0;
}
