-- ===== src/Swip/State.antt =====
-- `crates/swip-kernel/src/state.rs`: the two top bits of a swip word, which say whether it is a hot
-- pointer, a cool pointer or the id of an evicted page.
use Prim.Native.Nat.{bit_and}
use pagebox.Base.{ℕ, Bool, not, ◌&&◌, ◌==◌, if◌then◌else◌}

-- 1 << 62
abbrev pub cool_bit : ℕ
cool_bit = 4611686018427387904

-- 1 << 63
abbrev pub evicted_bit : ℕ
evicted_bit = 9223372036854775808

abbrev pub state_bits : ℕ
state_bits = 13835058055282163712

-- `!STATE_MASK`
abbrev pub ptr_mask : ℕ
ptr_mask = 4611686018427387903

-- `!EVICTED_BIT`
abbrev pub clear_evicted_bit : ℕ
clear_evicted_bit = 9223372036854775807

-- `!COOL_BIT`
abbrev pub clear_cool_bit : ℕ
clear_cool_bit = 13835058055282163711

pub data SwipState : Type 0 where
  hot cool evicted : SwipState

unfoldable pub evicted_mask_is_set : ℕ → Bool
evicted_mask_is_set mask = not (mask == 0)

unfoldable pub evicted_mask : ℕ → ℕ
evicted_mask raw = bit_and raw evicted_bit

unfoldable pub raw_is_evicted : ℕ → Bool
unfolding evicted_mask evicted_mask_is_set
raw_is_evicted raw = evicted_mask_is_set (evicted_mask raw)

unfoldable pub state_mask : ℕ → ℕ
state_mask raw = bit_and raw state_bits

unfoldable pub is_cool_mask : ℕ → Bool
is_cool_mask mask = mask == cool_bit

unfoldable pub raw_is_cool : ℕ → Bool
unfolding raw_is_evicted state_mask is_cool_mask
raw_is_cool raw = not (raw_is_evicted raw) && is_cool_mask (state_mask raw)

unfoldable pub raw_is_hot : ℕ → Bool
unfolding raw_is_cool
raw_is_hot raw = not (raw_is_evicted raw) && not (raw_is_cool raw)

unfoldable pub classify_raw : ℕ → SwipState
unfolding raw_is_cool
classify_raw raw = if raw_is_evicted raw then evicted else (if raw_is_cool raw then cool else hot)
