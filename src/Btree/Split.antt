-- ===== src/Btree/Split.antt =====
-- `crates/btree/src/btree.rs`: how a full node is split into two pages (`split_node` and
-- `split_single_entry_leaf`), by what each writes to the pages of the node and of its new sibling. `none` is a
-- panic. The page ids of both are given; the frames, and the publication to the parent, are elsewhere.
use Prim.Native.Nat.{bit_or, Ordering}
use pagebox.Base.{
  ℕ, ◌+◌, ◌-◌, ◌/◌, Option, none, some, List, Bool, true, false, not, ltb, ◌==◌, guard,
  if◌then◌else◌, ◌>>=◌, ◌>>◌,
}
use pagebox.Bytes.BigEndian.{cmp_keys}
use pagebox.Header.PageType.{index, with_type}
use pagebox.Slotted.Layout.{SlottedPage, num_slots, get_key, init, reserve_suffix}
use pagebox.Slotted.Ops.{insert, copy_key_value_range}
use pagebox.Slotted.Search.{lower_bound}
use pagebox.Btree.Node.{
  flag_is_leaf, init_node, leaf_left_pid, leaf_right_pid, set_leaf_left_pid, set_leaf_right_pid,
  upper_swip, set_upper, child_swip_at, is_greater,
}

-- `PendingLeafEntry`: the entry that the leaf had no room for.
pub record PendingLeafEntry : Type 0 where
  pub key : List ℕ
  pub value : List ℕ

-- The pages that a split leaves, and the key between them.
pub record SplitPages : Type 0 where
  pub left : SlottedPage
  pub right : SlottedPage
  pub sep_key : List ℕ

-- `a < b` and `a <= b` of keys
abbrev pub is_less : Ordering → Bool
is_less Ordering.lt = true
is_less _ = false

-- Both links of a leaf.
abbrev pub link_leaf : SlottedPage → ℕ → ℕ → SlottedPage
link_leaf p left_pid right_pid = set_leaf_right_pid (set_leaf_left_pid p left_pid) right_pid

-- The right half of a leaf, in the new sibling.
unfoldable pub right_leaf : SlottedPage → ℕ → ℕ → ℕ → ℕ → Option SlottedPage
right_leaf src start count left_pid right_pid = do
  blank ← init_node true
  dst ← copy_key_value_range src blank 0 start count
  some (link_leaf dst left_pid right_pid)

-- The left half, rebuilt in a buffer that takes the place of the node's page.
unfoldable pub left_leaf : SlottedPage → ℕ → ℕ → ℕ → Option SlottedPage
left_leaf src count left_pid right_pid = do
  blank ← reserve_suffix init 16
  dst ← copy_key_value_range src blank 0 0 count
  let tmp = link_leaf (record dst { flags = bit_or dst.flags flag_is_leaf }) left_pid right_pid
  some (record tmp { flags = with_type tmp.flags index })

unfoldable pub split_leaf_at : SlottedPage → ℕ → ℕ → ℕ → Option SplitPages
unfolding right_leaf left_leaf leaf_left_pid leaf_right_pid
split_leaf_at p node_pid sibling_pid split_pos = do
  sep_key ← get_key p split_pos
  let start = split_pos + 1
  right ← right_leaf p start (num_slots p - start) node_pid (leaf_right_pid p)
  left ← left_leaf p start (leaf_left_pid p) sibling_pid
  some (record { left = left; right = right; sep_key = sep_key })

-- The entry goes into a page where its key is absent.
unfoldable pub insert_absent : SlottedPage → PendingLeafEntry → Option SlottedPage
insert_absent p e = do
  (pos, exact) ← lower_bound p e.key
  guard (not exact)
  insert p pos e.key e.value

-- The pending entry goes to its half.
unfoldable pub place_pending : SplitPages → PendingLeafEntry → Option SplitPages
unfolding insert_absent
place_pending s e =
    if is_greater (cmp_keys e.key s.sep_key)
    then (do right ← insert_absent s.right e; some (record s { right = right }))
    else (do left ← insert_absent s.left e; some (record s { left = left }))

-- A leaf of two entries that splits for a pending one.
unfoldable pub split_small_leaf : SlottedPage → ℕ → ℕ → PendingLeafEntry → Option SplitPages
unfolding split_leaf_at place_pending
split_small_leaf p node_pid sibling_pid pending = do
  last ← get_key p 1
  s ← split_leaf_at p node_pid sibling_pid (if is_less (cmp_keys pending.key last) then 0 else 1)
  place_pending s pending

-- A leaf of one entry: the pending one gets a page of its own.
unfoldable pub split_single_entry_leaf : SlottedPage → ℕ → ℕ → PendingLeafEntry → Option SplitPages
unfolding right_leaf left_leaf leaf_left_pid leaf_right_pid
split_single_entry_leaf p node_pid sibling_pid pending = do
  existing ← get_key p 0
  if is_less (cmp_keys pending.key existing)
      then (do
        right ← right_leaf p 0 1 node_pid (leaf_right_pid p)
        blank ← left_leaf p 0 (leaf_left_pid p) sibling_pid
        left ← insert blank 0 pending.key pending.value
        some (record { left = left; right = right; sep_key = pending.key }))
      else (do
        left ← left_leaf p 1 (leaf_left_pid p) sibling_pid
        blank ← init_node true
        right ← insert blank 0 pending.key pending.value
        some (record {
          left = left;
          right = link_leaf right node_pid (leaf_right_pid p);
          sep_key = existing;
        }))

-- The part of `split_node` that is about a leaf, and whether the pending entry is in.
unfoldable pub split_leaf :
    SlottedPage → ℕ → ℕ → Option PendingLeafEntry → Option (Option (SplitPages × Bool))
unfolding split_leaf_at split_small_leaf split_single_entry_leaf
split_leaf p node_pid sibling_pid pending =
    let count = num_slots p in
    if ltb count 2
    then elim pending [
      | none ↦ some none
      | some e ↦ do s ← split_single_entry_leaf p node_pid sibling_pid e; some (some (s, true))
    ]
    else elim pending [
      | none ↦ do s ← split_leaf_at p node_pid sibling_pid (count / 2); some (some (s, false))
      | some e ↦
          if count == 2
          then (do s ← split_small_leaf p node_pid sibling_pid e; some (some (s, true)))
          else (do s ← split_leaf_at p node_pid sibling_pid (count / 2); some (some (s, false)))
    ]

-- A run of separators with their children, in a page with another upper child.
unfoldable pub copy_separators : SlottedPage → SlottedPage → ℕ → ℕ → Option SlottedPage
copy_separators src dst start count =
    if ltb 0 count then copy_key_value_range src dst 0 start count else some dst

-- The part that is about an inner node: the middle separator goes up.
unfoldable pub split_inner_at : SlottedPage → ℕ → Option SplitPages
split_inner_at p split_pos = do
  let start = split_pos + 1
  sep_key ← get_key p split_pos
  blank_right ← init_node false
  right ← copy_separators p blank_right start (num_slots p - start)
  blank_left ← reserve_suffix init 8
  left ← copy_separators p blank_left 0 split_pos
  left_upper ← child_swip_at p split_pos
  some (record {
    left = set_upper (record left { flags = with_type left.flags index }) left_upper;
    right = set_upper right (upper_swip p);
    sep_key = sep_key;
  })

-- One of fewer than two separators is left alone.
unfoldable pub split_inner : SlottedPage → Option (Option SplitPages)
unfolding split_inner_at
split_inner p =
    if ltb (num_slots p) 2
    then some none
    else (do s ← split_inner_at p (num_slots p / 2); some (some s))
