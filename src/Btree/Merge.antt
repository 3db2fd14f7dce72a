-- ===== src/Btree/Merge.antt =====
-- `crates/btree/src/btree.rs`: how two neighbours are merged into the left one (`leaf_pair_fits`,
-- `merge_leaf_pages_into_left`, `inner_pair_fits`, `merge_inner_pages_into_left`), by what is built in the buffer
-- that takes the place of its page. `none` is a panic; inside, `none` is the answer that the pair is not merged.
use Prim.Native.Nat.{bit_or}
use pagebox.Base.{
  ℕ, zero, suc, ◌+◌, Option, none, some, List, Bool, true, false, ltb, length, if◌then◌else◌, ◌>>=◌,
}
use pagebox.Bytes.LittleEndian.{to_le_bytes}
use pagebox.Header.PageType.{index, with_type}
use pagebox.Slotted.Layout.{SlottedPage, num_slots, get_key, get_value, init, reserve_suffix}
use pagebox.Slotted.Ops.{can_insert, insert, copy_key_value_range}
use pagebox.Slotted.Search.{try_get_key, try_get_value}
use pagebox.Btree.Node.{flag_is_leaf, leaf_left_pid, leaf_right_pid, upper_swip, set_upper}
use pagebox.Btree.Split.{link_leaf}

-- An entry at the end of a page, if it has room.
unfoldable pub push_entry : SlottedPage → List ℕ → List ℕ → Option (Option SlottedPage)
push_entry tmp key value =
    if can_insert tmp (length key) (length value)
    then (do tmp' ← insert tmp (num_slots tmp) key value; some (some tmp'))
    else some none

-- The loop over the entries of a leaf, with `n` left from `i` on.
unfoldable pub pack_entries : SlottedPage → SlottedPage → ℕ → ℕ → Option (Option SlottedPage)
unfolding push_entry
pack_entries src tmp zero i = some (some tmp)
pack_entries src tmp (suc n) i = elim (try_get_key src i) [
  | none ↦ some none
  | some key ↦ elim (try_get_value src i) [
    | none ↦ some none
    | some value ↦ do
      pushed ← push_entry tmp key value
      elim pushed [ none ↦ some none | some tmp' ↦ pack_entries src tmp' n (i + 1) ]
  ]
]

-- Both leaves in one page, as both functions build it.
unfoldable pub pack_leaves : SlottedPage → SlottedPage → Option (Option SlottedPage)
unfolding pack_entries
pack_leaves left right = do
  blank ← reserve_suffix init 16
  packed ←
      pack_entries left (record blank { flags = bit_or blank.flags flag_is_leaf }) (num_slots left)
        0
  elim packed [ none ↦ some none | some tmp ↦ pack_entries right tmp (num_slots right) 0 ]

unfoldable pub leaf_pair_fits : SlottedPage → SlottedPage → Option Bool
unfolding pack_leaves
leaf_pair_fits left right = do
  packed ← pack_leaves left right
  some (elim packed [ none ↦ false | some tmp ↦ true ])

unfoldable pub merge_leaf_pages_into_left : SlottedPage → SlottedPage → Option (Option SlottedPage)
unfolding pack_leaves
merge_leaf_pages_into_left left right = do
  packed ← pack_leaves left right
  some (elim packed [
    | none ↦ none
    | some tmp ↦
        let linked = link_leaf tmp (leaf_left_pid left) (leaf_right_pid right) in
        some (record linked { flags = with_type linked.flags index })
  ])

-- The loop of `inner_pair_fits` over the separators of a node.
unfoldable pub pack_separators : SlottedPage → SlottedPage → ℕ → ℕ → Option (Option SlottedPage)
pack_separators src tmp zero i = some (some tmp)
pack_separators src tmp (suc n) i = do
  key ← get_key src i
  if can_insert tmp (length key) 8
      then (do
        value ← get_value src i
        tmp' ← insert tmp (num_slots tmp) key value
        pack_separators src tmp' n (i + 1))
      else some none

unfoldable pub inner_pair_fits : SlottedPage → List ℕ → SlottedPage → Option Bool
unfolding pack_separators push_entry
inner_pair_fits left boundary_key right = do
  blank ← reserve_suffix init 8
  packed ← pack_separators left blank (num_slots left) 0
  elim packed [
    | none ↦ some false
    | some tmp ↦ do
      pushed ← push_entry tmp boundary_key (to_le_bytes 8 (upper_swip left))
      elim pushed [
        | none ↦ some false
        | some tmp' ↦ do
          all ← pack_separators right tmp' (num_slots right) 0
          some (elim all [ none ↦ false | some tmp'' ↦ true ])
      ]
  ]

-- A copy of all separators behind those that are there.
unfoldable pub append_separators : SlottedPage → SlottedPage → Option SlottedPage
append_separators src dst =
    if ltb 0 (num_slots src)
    then copy_key_value_range src dst (num_slots dst) 0 (num_slots src)
    else some dst

unfoldable pub merge_inner_pages_into_left : SlottedPage → List ℕ → SlottedPage → Option SlottedPage
merge_inner_pages_into_left left boundary_key right = do
  blank ← reserve_suffix init 8
  tmp ← append_separators left blank
  tmp' ← insert tmp (num_slots tmp) boundary_key (to_le_bytes 8 (upper_swip left))
  merged ← append_separators right tmp'
  some (set_upper (record merged { flags = with_type merged.flags index }) (upper_swip right))
