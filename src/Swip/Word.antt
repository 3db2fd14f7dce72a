-- ===== src/Swip/Word.antt =====
-- `crates/swip-kernel/src/word.rs`: the 64-bit word of a swip. `none` is a failed `debug_assert!`.
use Prim.Native.Nat.{bit_and, bit_or}
use pagebox.Base.{ℕ, Option, some, not, ◌==◌, guard, ◌>>◌}
use pagebox.Swip.State.{
  cool_bit, evicted_bit, ptr_mask, clear_evicted_bit, clear_cool_bit, state_mask, raw_is_evicted,
  raw_is_cool, raw_is_hot,
}

unfoldable pub make_hot_ptr_word : ℕ → ℕ
make_hot_ptr_word ptr = ptr

unfoldable pub make_evicted_page_word : ℕ → ℕ
make_evicted_page_word page_id = bit_or page_id evicted_bit

unfoldable pub pointer_bits_of : ℕ → ℕ
pointer_bits_of raw = bit_and raw ptr_mask

unfoldable pub page_id_of : ℕ → ℕ
page_id_of raw = bit_and raw clear_evicted_bit

unfoldable pub cool_word : ℕ → ℕ
cool_word raw = bit_or raw cool_bit

unfoldable pub warm_word : ℕ → ℕ
warm_word raw = bit_and raw clear_cool_bit

unfoldable pub evict_word : ℕ → ℕ → ℕ
evict_word raw page_id = bit_or page_id evicted_bit

unfoldable pub resolve_ptr_word : ℕ → ℕ → ℕ
resolve_ptr_word raw ptr = ptr

-- The methods of `SwipWord`: those that change the word return the new one.
unfoldable pub hot_ptr : ℕ → Option ℕ
hot_ptr ptr = do guard (state_mask ptr == 0); some (make_hot_ptr_word ptr)

unfoldable pub evicted_page : ℕ → Option ℕ
evicted_page page_id = do guard (state_mask page_id == 0); some (make_evicted_page_word page_id)

unfoldable pub pointer_bits : ℕ → Option ℕ
pointer_bits raw = do guard (not (raw_is_evicted raw)); some (pointer_bits_of raw)

unfoldable pub page_id : ℕ → Option ℕ
page_id raw = do guard (raw_is_evicted raw); some (page_id_of raw)

unfoldable pub cool : ℕ → Option ℕ
cool raw = do guard (raw_is_hot raw); some (cool_word raw)

unfoldable pub warm : ℕ → Option ℕ
warm raw = do guard (raw_is_cool raw); some (warm_word raw)

unfoldable pub evict : ℕ → ℕ → Option ℕ
evict raw page_id = do
  guard (raw_is_cool raw)
  guard (state_mask page_id == 0)
  some (evict_word raw page_id)

unfoldable pub resolve_ptr : ℕ → ℕ → Option ℕ
resolve_ptr raw ptr = do
  guard (raw_is_evicted raw)
  guard (state_mask ptr == 0)
  some (resolve_ptr_word raw ptr)
