-- ===== src/Slotted/Logged.antt =====
-- The operations of `crates/storage/src/slotted_page.rs` that add the byte ranges they change to a
-- page mutation.
use pagebox.Base.{
  ℕ, ◌+◌, ◌-◌, ◌*◌, Option, some, Bool, true, false, List, ltb, length, get_elem?, if◌then◌else◌,
  ◌>>=◌,
}
use pagebox.Mutation.Ranges.{PageMutation, page_lsn_range_end, add_range}
use pagebox.Slotted.Layout.{SlottedPage, page_size, header_size, slot_size, num_slots, free_space}
use pagebox.Slotted.Ops.{insert, remove, update_value_if_same_length}

-- A range that is empty is left out.
unfoldable pub add_if_some : PageMutation → ℕ → ℕ → Option PageMutation
add_if_some m start end = if ltb start end then add_range m start end else some m

unfoldable pub insert_with_mutation :
    SlottedPage → ℕ → List ℕ → List ℕ → PageMutation → Option (SlottedPage × PageMutation)
unfolding add_if_some
insert_with_mutation p slot_id key value m = do
  let size = length key + length value
  let compacted = ltb (free_space p) (slot_size + size)
  q ← insert p slot_id key value
  m1 ← add_range m page_lsn_range_end header_size
  let first_changed_slot = if compacted then 0 else slot_id
  m2 ←
      add_range m1 (header_size + first_changed_slot * slot_size)
        (header_size + (num_slots p + 1) * slot_size)
  m3 ← add_if_some m2 q.data_offset (if compacted then page_size else q.data_offset + size)
  some (q, m3)

unfoldable pub remove_with_mutation :
    SlottedPage → ℕ → PageMutation → Option (SlottedPage × PageMutation)
unfolding add_if_some
remove_with_mutation p slot_id m = do
  q ← remove p slot_id
  m1 ← add_range m page_lsn_range_end header_size
  m2 ←
      add_if_some m1 (header_size + slot_id * slot_size)
        (header_size + (num_slots p - 1) * slot_size)
  some (q, m2)

-- The start and the end of a slot's value.
unfoldable pub value_range : SlottedPage → ℕ → Option (ℕ × ℕ)
value_range p slot_id =
    get_elem? p.slots slot_id >>= λ s. some (s.offset + s.key_len, s.offset + s.key_len + s.val_len)

unfoldable pub update_value_with_mutation :
    SlottedPage → ℕ → List ℕ → PageMutation → Option ((SlottedPage × PageMutation) × Bool)
unfolding value_range add_if_some
update_value_with_mutation p slot_id value m = do
  range ← value_range p slot_id
  u ← update_value_if_same_length p slot_id value
  if u.1
      then (add_if_some m range.0 range.1 >>= λ m1. some ((u.0, m1), true))
      else some ((u.0, m), false)
