-- ===== src/Slotted/Layout.antt =====
-- `crates/storage/src/slotted_page.rs`: the page header, the slots, the accessors, and the list of
-- entries that a page stands for.
use Prim.Native.Nat.{bit_and}
use pagebox.Base.{
  ℕ, ◌+◌, ◌-◌, ◌*◌, ◌≤◌, ◌≡◌, ◌⊎◌, List, [], ◌∷◌, map, Option, none, some, Bool, not, length,
  get_elem?, All, leb, ◌==◌, if◌then◌else◌, guard, ◌>>=◌, ◌>>◌,
}
use pagebox.Bytes.Memory.{Memory, read_bytes, IsByte}
use pagebox.Bytes.BigEndian.{from_be_bytes, pad_to}

-- The default build; `page-4k` selects 4096.
abbrev pub page_size : ℕ
page_size = 65536

abbrev pub header_size : ℕ
header_size = 24

abbrev pub slot_size : ℕ
slot_size = 12

abbrev pub flag_has_garbage : ℕ
flag_has_garbage = 1

pub record Slot : Type 0 where
  pub offset : ℕ
  pub key_len : ℕ
  pub val_len : ℕ
  pub pad : ℕ
  pub head : ℕ

-- The header's fields, the `num_slots` slots behind it, and the bytes that the heap is read from.
pub record SlottedPage : Type 0 where
  pub page_lsn : ℕ
  pub data_offset : ℕ
  pub space_used : ℕ
  pub flags : ℕ
  pub slots : List Slot
  pub bytes : Memory

abbrev pub num_slots : SlottedPage → ℕ
num_slots p = length p.slots

-- `init`, and `reserve_suffix` right behind it
unfoldable pub init : SlottedPage
init = record {
  page_lsn = 0;
  data_offset = page_size;
  space_used = 0;
  flags = 0;
  slots = [];
  bytes = λ a. 0;
}

unfoldable pub reserve_suffix : SlottedPage → ℕ → Option SlottedPage
reserve_suffix p n = do
  guard (num_slots p == 0)
  guard (leb n p.data_offset)
  some (record p { data_offset = p.data_offset - n; space_used = p.space_used + n })

abbrev pub slot_array_end : SlottedPage → ℕ
slot_array_end p = header_size + num_slots p * slot_size

-- `saturating_sub` is the subtraction of ℕ.
abbrev pub free_space : SlottedPage → ℕ
free_space p = p.data_offset - slot_array_end p

abbrev pub free_space_after_compaction : SlottedPage → ℕ
free_space_after_compaction p = page_size - (slot_array_end p + p.space_used)

unfoldable pub has_garbage : SlottedPage → Bool
has_garbage p = not (bit_and p.flags flag_has_garbage == 0)

unfoldable pub make_head : List ℕ → ℕ
make_head key = from_be_bytes (pad_to 4 key)

-- `&self.data[start..end]`; a slice past the page panics.
abbrev pub slice : SlottedPage → ℕ → ℕ → Option (List ℕ)
slice p start len =
    if leb (start + len) page_size then some (read_bytes p.bytes start len) else none

abbrev pub slot_key : SlottedPage → Slot → Option (List ℕ)
slot_key p s = slice p s.offset s.key_len

abbrev pub slot_value : SlottedPage → Slot → Option (List ℕ)
slot_value p s = slice p (s.offset + s.key_len) s.val_len

-- `slot` asserts that the slot exists.
unfoldable pub get_key : SlottedPage → ℕ → Option (List ℕ)
get_key p id = get_elem? p.slots id >>= slot_key p

unfoldable pub get_value : SlottedPage → ℕ → Option (List ℕ)
get_value p id = get_elem? p.slots id >>= slot_value p

abbrev pub data_len : Slot → ℕ
data_len s = s.key_len + s.val_len

-- The entry that a slot names in some bytes: its key and its value.
abbrev pub payload : Memory → Slot → List ℕ × List ℕ
payload m s = (read_bytes m s.offset s.key_len, read_bytes m (s.offset + s.key_len) s.val_len)

-- The abstract view of a page: its entries, in slot order.
unfoldable pub entries : SlottedPage → List (List ℕ × List ℕ)
entries p = map (payload p.bytes) p.slots

abbrev pub live_data : List Slot → ℕ
live_data [] = 0
live_data (s ∷ ss) = data_len s + live_data ss

-- Where the heap ends: behind it lie the bytes that `reserve_suffix` set aside.
abbrev pub heap_end : SlottedPage → ℕ
heap_end p = page_size - (p.space_used - live_data p.slots)

-- A slot's bytes lie in the page and, if it has any, in the heap from `d` to `e`.
abbrev pub InHeap : ℕ → ℕ → Slot → Type 0
InHeap d e s =
    (s.offset + data_len s ≤ page_size)
    × ((data_len s ≡ 0) ⊎ ((d ≤ s.offset) × (s.offset + data_len s ≤ e)))

-- Two slots share no byte.
abbrev pub Separate : Slot → Slot → Type 0
Separate s t =
    (data_len s ≡ 0)
    ⊎ (data_len t ≡ 0)
    ⊎ (s.offset + data_len s ≤ t.offset)
    ⊎ (t.offset + data_len t ≤ s.offset)

abbrev pub Disjoint : List Slot → Type 0
Disjoint [] = Unit
Disjoint (s ∷ ss) = All (Separate s) ss × Disjoint ss

-- The heads agree with the keys.
abbrev pub HeadFits : Memory → Slot → Type 0
HeadFits m s = s.head ≡ make_head (read_bytes m s.offset s.key_len)

-- What every operation keeps: the slot array ends below the heap; the heap holds each slot's bytes,
-- shared with no other slot; `space_used` counts the live bytes and the reserved suffix, and leaves
-- room for them above `data_offset`.
pub record IsValid (p : SlottedPage) : Type 0 where
  pub apart : slot_array_end p ≤ p.data_offset
  pub room : p.data_offset + p.space_used ≤ page_size
  pub counted : live_data p.slots ≤ p.space_used
  pub in_heap : All (InHeap p.data_offset (heap_end p)) p.slots
  pub disjoint : Disjoint p.slots
  pub heads : All (HeadFits p.bytes) p.slots
  pub is_bytes : (a : ℕ) → IsByte (p.bytes a)
