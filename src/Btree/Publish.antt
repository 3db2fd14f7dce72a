-- ===== src/Btree/Publish.antt =====
-- How a split is published in the parent (`apply_split_to_latched_parent` of `crates/btree/src/btree.rs`), with the
-- changes of an exclusively latched inner node (`crates/btree/src/btree/node.rs`). `none` is a panic. The swips of
-- both children are given.
use pagebox.Base.{ℕ, ◌+◌, Option, some, List, not, if◌then◌else◌, ◌>>=◌}
use pagebox.Bytes.LittleEndian.{to_le_bytes}
use pagebox.Mutation.Ranges.{add_range}
use pagebox.Slotted.Layout.{page_size, num_slots}
use pagebox.Slotted.Logged.{value_range}
use pagebox.Btree.Edge.{
  ParentEdge, slot, upper, parent_edge_pos, split_right_parent_uses_upper,
  split_separator_insert_pos,
}
use pagebox.Btree.Node.{upper_offset, set_upper, set_child_swip_at}
use pagebox.Btree.Leaf.{ExclusiveNode, insert_entry}

unfoldable pub set_child_edge_swip : ExclusiveNode → ParentEdge → ℕ → Option ExclusiveNode
set_child_edge_swip n (slot pos) swip =
    if n.logs_dirty_ranges
    then (do
      (start, end) ← value_range n.page pos
      page' ← set_child_swip_at n.page pos swip
      mutation' ← add_range n.mutation start end
      some (record n { page = page'; mutation = mutation' }))
    else (do page' ← set_child_swip_at n.page pos swip; some (record n { page = page' }))
set_child_edge_swip n upper swip =
    if n.logs_dirty_ranges
    then (do
      mutation' ← add_range n.mutation upper_offset page_size
      some (record n { page = set_upper n.page swip; mutation = mutation' }))
    else some (record n { page = set_upper n.page swip })

unfoldable pub insert_separator : ExclusiveNode → ℕ → List ℕ → ℕ → Option ExclusiveNode
insert_separator n pos key child_swip = insert_entry n pos key (to_le_bytes 8 child_swip)

-- `SplitParentEdges`: the edges of both children.
pub record SplitParentEdges : Type 0 where
  pub left : ParentEdge
  pub right : ParentEdge

unfoldable pub apply_split_to_latched_parent :
    ExclusiveNode → List ℕ → ℕ → ℕ → ParentEdge → Option (ExclusiveNode × SplitParentEdges)
apply_split_to_latched_parent parent sep_key left right edge =
    let count = num_slots parent.page in
    let pos = parent_edge_pos edge count in
    let right_uses_upper = split_right_parent_uses_upper pos count in
    let separator_pos = split_separator_insert_pos pos count in
    let edges : SplitParentEdges = record {
      left = slot pos;
      right = if right_uses_upper then upper else slot (pos + 1);
    } in
    if not right_uses_upper
    then (do
      parent' ← set_child_edge_swip parent (slot pos) right
      parent'' ← insert_separator parent' separator_pos sep_key left
      some (parent'', edges))
    else (do
      parent' ← insert_separator parent separator_pos sep_key left
      parent'' ← set_child_edge_swip parent' upper right
      some (parent'', edges))
