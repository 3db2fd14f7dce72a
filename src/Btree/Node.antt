-- ===== src/Btree/Node.antt =====
-- `crates/btree/src/btree/node.rs`: tree nodes over slotted pages. A frame's page is the slotted page; the
-- bytes of its reserved suffix are read and written by address. Native-endian reads are little-endian
-- ones, as on the targets of the build.
use Prim.Native.Nat.{bit_and, bit_or, Ordering}
use pagebox.Base.{
  ℕ, ◌+◌, ◌-◌, ◌*◌, ◌/◌, zero, suc, Option, none, some, List, [], ◌∷◌, Bool, true, false, not, ltb,
  ◌==◌, length, take, guard, if◌then◌else◌, ◌>>=◌, ◌>>◌,
}
use pagebox.Bytes.BigEndian.{cmp_keys}
use pagebox.Bytes.LittleEndian.{from_le_bytes, to_le_bytes}
use pagebox.Bytes.Fields.{get_le, put_le}
use pagebox.Header.PageType.{index, with_type}
use pagebox.Slotted.Layout.{
  SlottedPage, page_size, num_slots, get_value, init, reserve_suffix, free_space_after_compaction,
}
use pagebox.Slotted.Ops.{can_insert, update_value_if_same_length}
use pagebox.Slotted.Search.{try_lower_bound, try_get_key, try_get_value}
use pagebox.Btree.Edge.{
  ParentEdge, slot, upper, parent_edge_is_upper, parent_edge_pos, parent_edge_from_pos,
  parent_edge_round_trip_pos,
}

abbrev pub flag_is_leaf : ℕ
flag_is_leaf = 2

abbrev pub upper_offset : ℕ
upper_offset = page_size - 8

abbrev pub left_sibling_offset : ℕ
left_sibling_offset = upper_offset

abbrev pub right_sibling_offset : ℕ
right_sibling_offset = page_size - 16

abbrev pub underfull_threshold : ℕ
underfull_threshold = page_size * 60 / 100

-- `BTreeNode::init`
unfoldable pub init_node : Bool → Option SlottedPage
unfolding init reserve_suffix
init_node is_leaf = do
  p ← reserve_suffix init (if is_leaf then 16 else 8)
  let flags = if is_leaf then bit_or p.flags flag_is_leaf else p.flags
  some (record p {
    flags = with_type flags index;
    bytes = put_le 8 right_sibling_offset 0 (put_le 8 upper_offset 0 p.bytes);
  })

unfoldable pub is_leaf_node : SlottedPage → Bool
is_leaf_node p = not (bit_and p.flags flag_is_leaf == 0)

unfoldable pub upper_swip : SlottedPage → ℕ
upper_swip p = get_le 8 upper_offset p.bytes

unfoldable pub set_upper : SlottedPage → ℕ → SlottedPage
set_upper p swip = record p { bytes = put_le 8 upper_offset swip p.bytes }

unfoldable pub leaf_right_pid : SlottedPage → ℕ
leaf_right_pid p = get_le 8 right_sibling_offset p.bytes

unfoldable pub set_leaf_right_pid : SlottedPage → ℕ → SlottedPage
set_leaf_right_pid p pid = record p { bytes = put_le 8 right_sibling_offset pid p.bytes }

unfoldable pub leaf_left_pid : SlottedPage → ℕ
leaf_left_pid p = get_le 8 left_sibling_offset p.bytes

unfoldable pub set_leaf_left_pid : SlottedPage → ℕ → SlottedPage
set_leaf_left_pid p pid = record p { bytes = put_le 8 left_sibling_offset pid p.bytes }

-- `u64::from_ne_bytes(val[..8])`; a shorter value panics.
abbrev pub swip_of : List ℕ → Option ℕ
swip_of val = if ltb (length val) 8 then none else some (from_le_bytes (take 8 val))

unfoldable pub child_swip_at : SlottedPage → ℕ → Option ℕ
child_swip_at p pos = do val ← get_value p pos; swip_of val

unfoldable pub set_child_swip_at : SlottedPage → ℕ → ℕ → Option SlottedPage
set_child_swip_at p pos child_swip = do
  (p', ok) ← update_value_if_same_length p pos (to_le_bytes 8 child_swip)
  guard ok
  some p'

abbrev pub can_insert_inner : SlottedPage → ℕ → Bool
can_insert_inner p key_len = can_insert p key_len 8

abbrev pub is_underfull : SlottedPage → Bool
is_underfull p = ltb underfull_threshold (free_space_after_compaction p)

abbrev pub is_empty_leaf : SlottedPage → Bool
is_empty_leaf p = num_slots p == 0

-- A routing decision.
pub record RoutedChildRef : Type 0 where
  pub swip : ℕ
  pub edge : ParentEdge

-- The coordinates by which a loaded child is published.
pub record RoutedChildPublication : Type 0 where
  pub edge : ParentEdge
  pub slot_index : ℕ
  pub is_upper : Bool

-- `RoutedChildRef::into_publication`
unfoldable pub into_publication : RoutedChildRef → ℕ → RoutedChildPublication
unfolding parent_edge_pos parent_edge_is_upper
into_publication route parent_count = record {
  edge = route.edge;
  slot_index = parent_edge_pos route.edge parent_count;
  is_upper = parent_edge_is_upper route.edge;
}

-- The child behind an edge, with the slot that the edge names. `none`: the page looks torn.
unfoldable pub route_through : SlottedPage → ParentEdge → ℕ → Option RoutedChildRef
unfolding upper_swip
route_through p upper at = some (record { swip = upper_swip p; edge = upper })
route_through p (slot pos) at = do
  val ← try_get_value p at
  swip ← swip_of val
  some (record { swip = swip; edge = slot pos })

-- `try_route_to_child`, and `route_to_child` of an optimistic inner node
unfoldable pub try_route_to_child : SlottedPage → List ℕ → Option RoutedChildRef
unfolding route_through parent_edge_from_pos parent_edge_round_trip_pos
try_route_to_child p key = do
  let count = num_slots p
  (pos, found) ← try_lower_bound p key
  route_through p (parent_edge_from_pos pos count) (parent_edge_round_trip_pos pos count)

abbrev pub is_greater : Ordering → Bool
is_greater Ordering.gt = true
is_greater _ = false

unfoldable pub should_chase_right : SlottedPage → List ℕ → Bool
unfolding leaf_right_pid
should_chase_right p key =
    if leaf_right_pid p == 0
    then false
    else (if num_slots p == 0 then true else elim (try_get_key p (num_slots p - 1)) [
      | some last_key ↦ is_greater (cmp_keys key last_key)
      | none ↦ false
    ])

-- The loop of `for_each_child_route`, with `n` slots left from `pos` on.
unfoldable pub slot_routes : SlottedPage → ℕ → ℕ → Option (List RoutedChildRef)
slot_routes p zero pos = some []
slot_routes p (suc n) pos = do
  val ← try_get_value p pos
  swip ← swip_of val
  routes ← slot_routes p n (pos + 1)
  some (record { swip = swip; edge = slot pos } ∷ routes)

abbrev pub snoc_route : List RoutedChildRef → RoutedChildRef → List RoutedChildRef
snoc_route [] route = route ∷ []
snoc_route (r ∷ routes) route = r ∷ snoc_route routes route

-- `for_each_child_route`: the routes it hands on when it returns `Some`.
unfoldable pub child_routes : SlottedPage → Option (List RoutedChildRef)
unfolding slot_routes upper_swip
child_routes p = do
  guard (not (ltb (page_size / 12) (num_slots p)))
  routes ← slot_routes p (num_slots p) 0
  some (snoc_route routes (record { swip = upper_swip p; edge = upper }))

-- The loop of `child_edge_for_evicting`, for a child that `matches` recognizes by its swip.
unfoldable pub matching_slot : (ℕ → Bool) → SlottedPage → ℕ → ℕ → Option (Option ParentEdge)
unfolding child_swip_at
matching_slot matches p zero pos = some none
matching_slot matches p (suc n) pos = do
  swip ← child_swip_at p pos
  let rest = matching_slot matches p n (pos + 1)
  if matches swip then some (some (slot pos)) else rest

unfoldable pub child_edge_for_evicting : (ℕ → Bool) → SlottedPage → Option (Option ParentEdge)
unfolding matching_slot upper_swip
child_edge_for_evicting matches p = do
  found ← matching_slot matches p (num_slots p) 0
  elim found [
    | some edge ↦ some (some edge)
    | none ↦ some (if matches (upper_swip p) then some upper else none)
  ]
