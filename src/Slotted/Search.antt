-- ===== src/Slotted/Search.antt =====
-- The binary searches of `crates/storage/src/slotted_page.rs`. `none` is a panic, or, in the `try_`
-- variants, the answer that the page looks torn. The four loops differ in how they look at the
-- slot in the middle; the fuel is one more than the number of slots.
use Prim.Native.Nat.{compare, Ordering}
use pagebox.Base.{
  ℕ, zero, suc, ◌+◌, ◌-◌, ◌*◌, ◌/◌, List, Option, none, some, Bool, true, false, length, get_elem?,
  ltb, leb, ◌==◌, if◌then◌else◌, ◌>>=◌,
}
use pagebox.Bytes.Memory.{read_bytes}
use pagebox.Bytes.BigEndian.{from_be_bytes, to_be_bytes, cmp_keys}
use pagebox.Slotted.Layout.{
  SlottedPage, Slot, page_size, slot_size, header_size, num_slots, make_head, get_key,
}

-- What the look at a slot decides: where its key stands to the key searched for, or a result.
pub data Probe : Type 0 where
  less greater equal : Probe
  stop : Option (ℕ × Bool) → Probe

abbrev pub probe_of : Ordering → Probe
probe_of Ordering.lt = less
probe_of Ordering.eq = equal
probe_of Ordering.gt = greater

abbrev pub midpoint : ℕ → ℕ → ℕ
midpoint lo hi = lo + (hi - lo) / 2

unfoldable pub bisect : (ℕ → Probe) → ℕ → ℕ → ℕ → Option (ℕ × Bool)
bisect probe zero lo hi = none
bisect probe (suc fuel) lo hi = elim (ltb lo hi) [
  | true ↦ elim (probe (midpoint lo hi)) [
    | less ↦ bisect probe fuel (midpoint lo hi + 1) hi
    | greater ↦ bisect probe fuel lo (midpoint lo hi)
    | equal ↦ some (midpoint lo hi, true)
    | stop r ↦ r
  ]
  | false ↦ some (lo, false)
]

-- The comparison of the stored key, once the heads are equal.
abbrev pub probe_key : List ℕ → Option (List ℕ) → Probe
probe_key key none = stop none
probe_key key (some slot_key) = probe_of (cmp_keys slot_key key)

-- The heads first, then the keys.
abbrev pub probe_slot : SlottedPage → List ℕ → ℕ → Option Slot → Probe
probe_slot p key mid none = stop none
probe_slot p key mid (some s) = elim (compare s.head (make_head key)) [
  | Ordering.lt ↦ less
  | Ordering.gt ↦ greater
  | Ordering.eq ↦ probe_key key (get_key p mid)
]

unfoldable pub probe_generic : SlottedPage → List ℕ → ℕ → Probe
probe_generic p key mid = probe_slot p key mid (get_elem? p.slots mid)

unfoldable pub lower_bound_generic : SlottedPage → List ℕ → Option (ℕ × Bool)
lower_bound_generic p key =
    if num_slots p == 0
    then some (0, false)
    else bisect (probe_generic p key) (suc (num_slots p)) 0 (num_slots p)

-- A key of eight bytes as an integer; the inner `none` for keys of other lengths.
abbrev pub key_u64 : SlottedPage → Slot → Option ℕ
key_u64 p s =
    if s.key_len == 8
    then (if leb (s.offset + 8) page_size
        then some (from_be_bytes (read_bytes p.bytes s.offset 8))
        else none)
    else none

unfoldable pub slot_key_u64 : SlottedPage → ℕ → Option (Option ℕ)
slot_key_u64 p id = get_elem? p.slots id >>= λ s. some (key_u64 p s)

abbrev pub probe_u64 : SlottedPage → ℕ → Option (Option ℕ) → Probe
probe_u64 p search_key none = stop none
probe_u64 p search_key (some none) = stop (lower_bound_generic p (to_be_bytes 8 search_key))
probe_u64 p search_key (some (some slot_key)) = probe_of (compare slot_key search_key)

unfoldable pub lower_bound_u64_be : SlottedPage → ℕ → Option (ℕ × Bool)
lower_bound_u64_be p search_key =
    if num_slots p == 0
    then some (0, false)
    else bisect (λ mid. probe_u64 p search_key (slot_key_u64 p mid)) (suc (num_slots p)) 0
        (num_slots p)

unfoldable pub lower_bound : SlottedPage → List ℕ → Option (ℕ × Bool)
lower_bound p key =
    if length key == 8 then lower_bound_u64_be p (from_be_bytes key) else lower_bound_generic p key

-- The variants for optimistic reads: every access is checked against the page.
unfoldable pub try_slot_copy : SlottedPage → ℕ → Option Slot
try_slot_copy p id =
    if leb (header_size + id * slot_size + slot_size) page_size then get_elem? p.slots id else none

abbrev pub try_slice : SlottedPage → ℕ → ℕ → Option (List ℕ)
try_slice p start end =
    if ltb page_size end then none else some (read_bytes p.bytes start (end - start))

unfoldable pub try_get_key : SlottedPage → ℕ → Option (List ℕ)
try_get_key p id = do s ← try_slot_copy p id; try_slice p s.offset (s.offset + s.key_len)

unfoldable pub try_get_value : SlottedPage → ℕ → Option (List ℕ)
try_get_value p id = do
  s ← try_slot_copy p id
  try_slice p (s.offset + s.key_len) (s.offset + s.key_len + s.val_len)

abbrev pub try_probe_slot : SlottedPage → List ℕ → ℕ → Option Slot → Probe
try_probe_slot p key mid none = stop none
try_probe_slot p key mid (some s) = elim (compare s.head (make_head key)) [
  | Ordering.lt ↦ less
  | Ordering.gt ↦ greater
  | Ordering.eq ↦ probe_key key (try_get_key p mid)
]

unfoldable pub try_lower_bound_generic : SlottedPage → List ℕ → Option (ℕ × Bool)
try_lower_bound_generic p key =
    if num_slots p == 0
    then some (0, false)
    else (if ltb (page_size / 12) (num_slots p)
        then none
        else (bisect (λ mid. try_probe_slot p key mid (try_slot_copy p mid)) (suc (num_slots p)) 0
            (num_slots p)))

unfoldable pub try_slot_key_u64 : SlottedPage → ℕ → Option ℕ
try_slot_key_u64 p id = try_slot_copy p id >>= key_u64 p

abbrev pub try_probe_u64 : SlottedPage → ℕ → Option ℕ → Probe
try_probe_u64 p search_key none = stop (try_lower_bound_generic p (to_be_bytes 8 search_key))
try_probe_u64 p search_key (some slot_key) = probe_of (compare slot_key search_key)

unfoldable pub try_lower_bound_u64_be : SlottedPage → ℕ → Option (ℕ × Bool)
try_lower_bound_u64_be p search_key =
    if num_slots p == 0
    then some (0, false)
    else (if ltb (page_size / 12) (num_slots p)
        then none
        else (bisect (λ mid. try_probe_u64 p search_key (try_slot_key_u64 p mid))
            (suc (num_slots p)) 0 (num_slots p)))

unfoldable pub try_lower_bound : SlottedPage → List ℕ → Option (ℕ × Bool)
try_lower_bound p key =
    if length key == 8
    then try_lower_bound_u64_be p (from_be_bytes key)
    else try_lower_bound_generic p key
