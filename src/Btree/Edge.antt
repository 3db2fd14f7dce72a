-- ===== src/Btree/Edge.antt =====
-- `crates/btree/src/btree/parent_edge.rs` and `split_publish.rs`: which edge of an inner node leads to a
-- child, and where a split puts its separator.
use pagebox.Base.{ℕ, Bool, true, false, ltb, leb, ◌==◌, if◌then◌else◌}

-- `slot pos` leads to the child of a separator, `upper` to the one behind all separators.
pub data ParentEdge : Type 0 where
  slot : ℕ → ParentEdge
  upper : ParentEdge

unfoldable pub parent_edge_is_upper : ParentEdge → Bool
parent_edge_is_upper upper = true
parent_edge_is_upper (slot pos) = false

unfoldable pub parent_edge_pos : ParentEdge → ℕ → ℕ
parent_edge_pos (slot pos) count = pos
parent_edge_pos upper count = count

unfoldable pub parent_edge_from_pos : ℕ → ℕ → ParentEdge
parent_edge_from_pos pos count = if pos == count then upper else slot pos

unfoldable pub parent_edge_round_trip_pos : ℕ → ℕ → ℕ
unfolding parent_edge_pos parent_edge_from_pos
parent_edge_round_trip_pos pos count = parent_edge_pos (parent_edge_from_pos pos count) count

unfoldable pub split_right_parent_uses_upper : ℕ → ℕ → Bool
split_right_parent_uses_upper pos count = leb count pos

unfoldable pub split_separator_insert_pos : ℕ → ℕ → ℕ
split_separator_insert_pos pos count = if ltb pos count then pos else count
