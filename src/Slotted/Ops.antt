-- ===== src/Slotted/Ops.antt =====
-- `crates/storage/src/slotted_page.rs`: the operations that change a page. `none` is a panic: a
-- failed assertion, a slice past the page or a subtraction below zero.
use Prim.Native.Nat.{bit_and, bit_or}
use pagebox.Base.{
  ℕ, zero, suc, ◌+◌, ◌-◌, ◌%◌, List, [], ◌∷◌, Option, none, some, Bool, true, false, length,
  get_elem?, insert_at, remove_at, take, drop, ltb, leb, ◌==◌, if◌then◌else◌, guard, checked_sub,
  ◌>>=◌, ◌>>◌,
}
use pagebox.Bytes.Memory.{Memory, read_bytes, write_bytes}
use pagebox.Slotted.Layout.{
  SlottedPage, Slot, page_size, slot_size, flag_has_garbage, num_slots, free_space,
  free_space_after_compaction, make_head, data_len, get_key, get_value,
}

-- The first loop of `compactify`: every slot must end inside the page; the live bytes are summed.
unfoldable pub sum_live : List Slot → ℕ → Option ℕ
sum_live [] live = some live
sum_live (s ∷ ss) live =
    if leb (s.offset + data_len s) page_size then sum_live ss (live + data_len s) else none

-- The second: the live bytes are gathered in a buffer, downwards from `offset`.
unfoldable pub gather : Memory → Memory → ℕ → List Slot → Option Memory
gather src tmp offset [] = some tmp
gather src tmp offset (s ∷ ss) = do
  at ← checked_sub offset (data_len s)
  gather src (write_bytes tmp at (read_bytes src s.offset (data_len s))) at ss

-- The slots, the bytes and the offset that the last loop leaves.
pub record Packed : Type 0 where
  pub packed_slots : List Slot
  pub packed_bytes : Memory
  pub packed_offset : ℕ

-- The last: the buffer is copied back and the slots get their new offsets. The lengths were saved
-- as `u16` sums.
unfoldable pub write_back : Memory → Memory → ℕ → List Slot → Option Packed
write_back tmp m offset [] =
    some (record { packed_slots = []; packed_bytes = m; packed_offset = offset })
write_back tmp m offset (s ∷ ss) = do
  let len = data_len s % 65536
  at ← checked_sub offset len
  rest ← write_back tmp (write_bytes m at (read_bytes tmp at len)) at ss
  some (record rest { packed_slots = record s { offset = at % 65536 } ∷ rest.packed_slots })

abbrev pub clear_garbage : ℕ → ℕ
clear_garbage flags = bit_and flags (65535 - flag_has_garbage)

abbrev pub mark_garbage : ℕ → ℕ
mark_garbage flags = bit_or flags flag_has_garbage

unfoldable pub compactify_empty : SlottedPage → Option SlottedPage
compactify_empty p = do
  at ← checked_sub page_size p.space_used
  some (record p { data_offset = at; flags = clear_garbage p.flags })

unfoldable pub compactify_slots : SlottedPage → Option SlottedPage
compactify_slots p = do
  live ← sum_live p.slots 0
  reserved ← checked_sub p.space_used live
  top ← checked_sub page_size reserved
  tmp ← gather p.bytes (λ a. 0) top p.slots
  packed ← write_back tmp p.bytes top p.slots
  some (record p {
    slots = packed.packed_slots;
    bytes = packed.packed_bytes;
    data_offset = packed.packed_offset;
    flags = clear_garbage p.flags;
  })

unfoldable pub compactify : SlottedPage → Option SlottedPage
compactify p = if num_slots p == 0 then compactify_empty p else compactify_slots p

unfoldable pub can_insert : SlottedPage → ℕ → ℕ → Bool
can_insert p key_len val_len =
    if leb (slot_size + key_len + val_len) (free_space p)
    then true
    else leb (slot_size + key_len + val_len) (free_space_after_compaction p)

-- The head of `insert`: room for `needed` bytes, by compaction if need be.
unfoldable pub ensure_space : SlottedPage → ℕ → Option SlottedPage
ensure_space p needed =
    if ltb (free_space p) needed
    then (guard (leb needed (free_space_after_compaction p)) >> compactify p)
    else some p

-- The slot that `insert` writes for an entry at `at`.
abbrev pub new_slot : ℕ → List ℕ → List ℕ → Slot
new_slot at key value = record {
  offset = at % 65536;
  key_len = length key % 65536;
  val_len = length value % 65536;
  pad = 0;
  head = make_head key;
}

-- The rest of `insert`, once there is room: the bytes go to the heap, the slots behind `slot_id`
-- move up by one. `slot_mut` asserts that the new slot is in the array.
unfoldable pub place : SlottedPage → ℕ → List ℕ → List ℕ → Option SlottedPage
place p slot_id key value = do
  at ← checked_sub p.data_offset (length key + length value)
  guard (leb p.data_offset page_size)
  guard (leb slot_id (num_slots p))
  some (record p {
    bytes = write_bytes (write_bytes p.bytes at key) (at + length key) value;
    slots = insert_at p.slots slot_id (new_slot at key value);
    data_offset = at;
    space_used = p.space_used + (length key + length value);
  })

unfoldable pub insert : SlottedPage → ℕ → List ℕ → List ℕ → Option SlottedPage
insert p slot_id key value = do
  q ← ensure_space p (slot_size + (length key + length value))
  place q slot_id key value

unfoldable pub remove : SlottedPage → ℕ → Option SlottedPage
remove p slot_id = do
  s ← get_elem? p.slots slot_id
  used ← checked_sub p.space_used (data_len s)
  some (record p {
    space_used = used;
    slots = remove_at p.slots slot_id;
    flags = mark_garbage p.flags;
  })

-- The new page and whether the value was written.
unfoldable pub update_value_if_same_length : SlottedPage → ℕ → List ℕ → Option (SlottedPage × Bool)
update_value_if_same_length p slot_id value = do
  s ← get_elem? p.slots slot_id
  if length value == s.val_len
      then (guard (leb (s.offset + s.key_len + length value) page_size)
          >> some (record p { bytes = write_bytes p.bytes (s.offset + s.key_len) value }, true))
      else some (p, false)

-- The loop of `truncate` over the slots that go.
unfoldable pub release : List Slot → ℕ → Option ℕ
release [] used = some used
release (s ∷ ss) used = checked_sub used (data_len s) >>= release ss

unfoldable pub truncate : SlottedPage → ℕ → Option SlottedPage
truncate p new_count = do
  guard (leb new_count (num_slots p))
  if new_count == num_slots p
      then some p
      else (release (drop new_count p.slots) p.space_used >>= λ used. compactify (record p {
        space_used = used;
        slots = take new_count p.slots;
        flags = mark_garbage p.flags;
      }))

-- The loop of `copy_key_value_range`, over the number of slots left.
unfoldable pub copy_range : SlottedPage → SlottedPage → ℕ → ℕ → Option SlottedPage
copy_range src dst slot zero = some dst
copy_range src dst slot (suc count) = do
  key ← get_key src slot
  value ← get_value src slot
  dst' ← insert dst (num_slots dst) key value
  copy_range src dst' (slot + 1) count

unfoldable pub copy_key_value_range : SlottedPage → SlottedPage → ℕ → ℕ → ℕ → Option SlottedPage
copy_key_value_range src dst dst_slot src_slot count = do
  guard (dst_slot == num_slots dst)
  copy_range src dst src_slot count
