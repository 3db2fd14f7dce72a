-- ===== src/Btree/Tests.antt =====
-- Runs of `crates/btree/src/btree/node.rs` on an inner node of two separators and on a leaf of two keys.
use pagebox.Base.{
  ℕ, Bool, ◌-◌, ◌≡◌, ◌≢◌, ◌⊎◌, refl, sym, subst, inl, inr, List, [], ◌∷◌, some, true, false, arith,
  All, get_elem?,
}
use pagebox.Bytes.Memory.{read_bytes, IsByte}
use pagebox.Slotted.Layout.{num_slots, SlottedPage, IsValid, entries, make_head}
use pagebox.Slotted.Bisect.{IsSorted, Precedes}
use pagebox.Slotted.LowerBound.{keys}
use pagebox.Slotted.Tests.{IsSorted-keys}
use pagebox.Btree.Node.{leaf_right_pid, should_chase_right}
use pagebox.Btree.Route.{IsInner, Routed, try_route_to_child_lem}
use pagebox.Btree.Chase.{should_chase_right_lem}
use pagebox.Base.{◌<◌, ◌≤◌, ◌++◌, none}
use pagebox.Mutation.Ranges.{empty_mutation}
use pagebox.Mutation.Add
use pagebox.Base.{◌+◌}
use pagebox.Slotted.Append.{cost}
use pagebox.Btree.Node.{leaf_left_pid}
use pagebox.Btree.SplitPending.{CutFor, PendingAnswer, split_small_leaf_lem}
use pagebox.Btree.Edge.{slot, parent_edge_pos, parent_edge_from_pos}
use pagebox.Slotted.Ops.{can_insert}
use pagebox.Btree.Publish.{SplitParentEdges, apply_split_to_latched_parent}
use pagebox.Btree.PublishSplit.{Published, apply_split_to_latched_parent_lem}
use pagebox.Btree.Split.{PendingLeafEntry, SplitPages, split_leaf, split_inner}
use pagebox.Btree.LeafPage.{IsLeaf, LeafPage}
use pagebox.Btree.SplitLeaf.{SplitApart, split_leaf_lem}
use pagebox.Btree.InnerPage.{IsInnerPage, child_swips}
use pagebox.Btree.SplitInner.{SplitBetween, split_inner_lem}
use pagebox.Btree.Merge.{
  leaf_pair_fits, merge_leaf_pages_into_left, inner_pair_fits, merge_inner_pages_into_left,
}
use pagebox.Btree.MergeLeaf.{leaf_room, merge_leaf_pages_into_left_lem}
use pagebox.Btree.MergeInner.{
  inner_room, merged_entries, MergedInner, merge_inner_pages_into_left_lem,
}
use pagebox.Btree.RoundTrip.{
  merge_leaf_pages_into_left-split_leaf, merge_inner_pages_into_left-split_inner,
}
use pagebox.Btree.Leaf.{ExclusiveNode}
use pagebox.Btree.LeafMarks.{GoodLeaf}
use pagebox.Btree.LeafInsert.{InsertAnswer, try_insert_leaf_lem}
use pagebox.Btree.LeafUpsert.{UpsertAnswer, try_upsert_leaf_lem}

-- Every byte is 7: the separators are 7 and 7 7, and the last eight bytes are the upper swip.
abbrev inner_page : SlottedPage
inner_page = record {
  page_lsn = 0;
  data_offset = 65509;
  space_used = 27;
  flags = 1;
  slots =
      record { offset = 65509; key_len = 1; val_len = 8; pad = 0; head = make_head (7 ∷ []) }
      ∷ record { offset = 65518; key_len = 2; val_len = 8; pad = 0; head = make_head (7 ∷ 7 ∷ []) }
      ∷ [];
  bytes = λ a. 7;
}

inner_page-IsValid : IsValid inner_page
unfolding read_bytes
inner_page-IsValid = record {
  apart = omega arith;
  room = omega arith;
  counted = omega arith;
  in_heap = (
    (omega arith, inr (omega arith, omega arith)),
    ((omega arith, inr (omega arith, omega arith)), tt),
  );
  disjoint = ((inr (inr (inl (omega arith))), tt), (tt, tt));
  heads = (refl, (refl, tt));
  is_bytes = λ a. omega arith;
}

keys-inner_page : keys inner_page ≡ (7 ∷ []) ∷ (7 ∷ 7 ∷ []) ∷ []
unfolding keys entries read_bytes
keys-inner_page = refl

inner_page-IsInner : IsInner inner_page
unfolding entries read_bytes
inner_page-IsInner = (refl, (refl, tt))

try_route_to_child_lem_example :
    (r : ℕ × Bool) × Routed inner_page inner_page-IsValid (7 ∷ 7 ∷ []) r
try_route_to_child_lem_example =
    try_route_to_child_lem inner_page inner_page-IsValid (7 ∷ 7 ∷ [])
      (subst IsSorted (sym keys-inner_page) IsSorted-keys) inner_page-IsInner
      (omega arith, (omega arith, tt))

-- A leaf with a sibling on each side.
abbrev leaf_page : SlottedPage
leaf_page = record {
  page_lsn = 0;
  data_offset = 65515;
  space_used = 21;
  flags = 3;
  slots =
      record { offset = 65515; key_len = 1; val_len = 1; pad = 0; head = make_head (7 ∷ []) }
      ∷ record { offset = 65517; key_len = 2; val_len = 1; pad = 0; head = make_head (7 ∷ 7 ∷ []) }
      ∷ [];
  bytes = λ a. 7;
}

leaf_page-IsValid : IsValid leaf_page
unfolding read_bytes
leaf_page-IsValid = record {
  apart = omega arith;
  room = omega arith;
  counted = omega arith;
  in_heap = (
    (omega arith, inr (omega arith, omega arith)),
    ((omega arith, inr (omega arith, omega arith)), tt),
  );
  disjoint = ((inr (inr (inl (omega arith))), tt), (tt, tt));
  heads = (refl, (refl, tt));
  is_bytes = λ a. omega arith;
}

keys-leaf_page : keys leaf_page ≡ (7 ∷ []) ∷ (7 ∷ 7 ∷ []) ∷ []
unfolding keys entries read_bytes
keys-leaf_page = refl

should_chase_right_lem_example :
    ((should_chase_right leaf_page (9 ∷ []) ≡ true)
      × (leaf_right_pid leaf_page ≢ 0)
      × All (λ k. Precedes k (9 ∷ [])) (keys leaf_page))
    ⊎ ((should_chase_right leaf_page (9 ∷ []) ≡ false)
        × ((leaf_right_pid leaf_page ≡ 0)
            ⊎ ((k : List ℕ) × (get_elem? (keys leaf_page) (num_slots leaf_page - 1) ≡ some k)
                × (¬ Precedes k (9 ∷ [])))))
should_chase_right_lem_example =
    should_chase_right_lem leaf_page leaf_page-IsValid (9 ∷ [])
      (subst IsSorted (sym keys-leaf_page) IsSorted-keys)

leaf_page-IsLeaf : IsLeaf leaf_page
leaf_page-IsLeaf = (leaf_page-IsValid, omega arith)

leaf_page-IsSorted : IsSorted (keys leaf_page)
leaf_page-IsSorted = subst IsSorted (sym keys-leaf_page) IsSorted-keys

inner_page-IsInnerPage : IsInnerPage inner_page
inner_page-IsInnerPage = (inner_page-IsValid, omega arith, inner_page-IsInner)

inner_page-IsSorted : IsSorted (keys inner_page)
inner_page-IsSorted = subst IsSorted (sym keys-inner_page) IsSorted-keys

split_leaf_lem_example :
    (s : SplitPages) × (split_leaf leaf_page 5 6 none ≡ some (some (s, false)))
    × SplitApart leaf_page 5 6 s
split_leaf_lem_example =
    split_leaf_lem leaf_page 5 6 none leaf_page-IsLeaf leaf_page-IsSorted (omega arith)
      (omega arith) (omega arith) (inl refl)

split_inner_lem_example :
    ((num_slots inner_page < 2) × (split_inner inner_page ≡ some none))
    ⊎ ((2 ≤ num_slots inner_page)
        × (s : SplitPages) × (split_inner inner_page ≡ some (some s))
        × SplitBetween inner_page s)
split_inner_lem_example = split_inner_lem inner_page inner_page-IsInnerPage inner_page-IsSorted

merge_leaf_pages_into_left_lem_example :
    ((cost (entries leaf_page ++ entries leaf_page) ≤ leaf_room)
      × (leaf_pair_fits leaf_page leaf_page ≡ some true)
      × (q : SlottedPage) × (merge_leaf_pages_into_left leaf_page leaf_page ≡ some (some q))
      × LeafPage q
          (entries leaf_page ++ entries leaf_page)
          (leaf_left_pid leaf_page)
          (leaf_right_pid leaf_page))
    ⊎ ((leaf_room < cost (entries leaf_page ++ entries leaf_page))
        × (leaf_pair_fits leaf_page leaf_page ≡ some false)
        × (merge_leaf_pages_into_left leaf_page leaf_page ≡ some none))
merge_leaf_pages_into_left_lem_example =
    merge_leaf_pages_into_left_lem leaf_page leaf_page leaf_page-IsLeaf leaf_page-IsLeaf

merge_inner_pages_into_left_lem_example :
    ((cost (merged_entries inner_page (9 ∷ []) inner_page) ≤ inner_room)
      × (inner_pair_fits inner_page (9 ∷ []) inner_page ≡ some true)
      × (q : SlottedPage) × (merge_inner_pages_into_left inner_page (9 ∷ []) inner_page ≡ some q)
      × MergedInner inner_page (9 ∷ []) inner_page q)
    ⊎ ((inner_room < cost (merged_entries inner_page (9 ∷ []) inner_page))
        × (inner_pair_fits inner_page (9 ∷ []) inner_page ≡ some false))
merge_inner_pages_into_left_lem_example =
    merge_inner_pages_into_left_lem inner_page (9 ∷ []) inner_page inner_page-IsInnerPage
      inner_page-IsInnerPage (omega arith, tt)

merge_leaf_pages_into_left-split_leaf_example :
    (s : SplitPages) × (split_leaf leaf_page 5 6 none ≡ some (some (s, false)))
    × (q : SlottedPage) × (merge_leaf_pages_into_left s.left s.right ≡ some (some q))
    × LeafPage q (entries leaf_page) (leaf_left_pid leaf_page) (leaf_right_pid leaf_page)
merge_leaf_pages_into_left-split_leaf_example =
    merge_leaf_pages_into_left-split_leaf leaf_page 5 6 leaf_page-IsLeaf leaf_page-IsSorted
      (omega arith) (omega arith) (omega arith)

merge_inner_pages_into_left-split_inner_example :
    (s : SplitPages) × (split_inner inner_page ≡ some (some s))
    × (q : SlottedPage) × (merge_inner_pages_into_left s.left s.sep_key s.right ≡ some q)
    × (keys q ≡ keys inner_page)
    × (child_swips q ≡ child_swips inner_page)
    × IsInnerPage q
merge_inner_pages_into_left-split_inner_example =
    merge_inner_pages_into_left-split_inner inner_page inner_page-IsInnerPage inner_page-IsSorted
      (omega arith)

-- A frame that logs byte ranges.
abbrev leaf_node : ExclusiveNode
leaf_node = record {
  logs_dirty_ranges = true;
  page = leaf_page;
  mutation = empty_mutation;
  marks = [];
}

leaf_node-GoodLeaf : GoodLeaf leaf_node
unfolding empty_mutation
leaf_node-GoodLeaf = record {
  leaf = leaf_page-IsLeaf;
  sorted = leaf_page-IsSorted;
  recorded = inr (refl, tt, omega arith);
}

key_bytes : All IsByte (7 ∷ 7 ∷ [])
key_bytes = (omega arith, (omega arith, tt))

value_bytes : All IsByte (1 ∷ 2 ∷ [])
value_bytes = (omega arith, (omega arith, tt))

try_insert_leaf_lem_example :
    InsertAnswer leaf_node (7 ∷ 7 ∷ []) (1 ∷ 2 ∷ []) leaf_node-GoodLeaf key_bytes value_bytes
try_insert_leaf_lem_example =
    try_insert_leaf_lem leaf_node (7 ∷ 7 ∷ []) (1 ∷ 2 ∷ []) leaf_node-GoodLeaf key_bytes value_bytes

try_upsert_leaf_lem_example :
    UpsertAnswer leaf_node (7 ∷ 7 ∷ []) (1 ∷ 2 ∷ []) leaf_node-GoodLeaf key_bytes value_bytes
try_upsert_leaf_lem_example =
    try_upsert_leaf_lem leaf_node (7 ∷ 7 ∷ []) (1 ∷ 2 ∷ []) leaf_node-GoodLeaf key_bytes value_bytes

-- A pending entry under a key that the leaf has.
abbrev pending_entry : PendingLeafEntry
pending_entry = record { key = 7 ∷ 7 ∷ []; value = 1 ∷ 2 ∷ [] }

split_small_leaf_lem_example :
    (s : SplitPages) × CutFor leaf_page (7 ∷ 7 ∷ []) s
    × SplitApart leaf_page 5 6 s
    × PendingAnswer leaf_page 5 6 pending_entry s
split_small_leaf_lem_example =
    split_small_leaf_lem leaf_page 5 6 pending_entry leaf_page-IsLeaf leaf_page-IsSorted
      (omega arith) (omega arith) refl key_bytes value_bytes

abbrev inner_node : ExclusiveNode
inner_node = record {
  logs_dirty_ranges = true;
  page = inner_page;
  mutation = empty_mutation;
  marks = [];
}

no_ranges : Add.IsValid inner_node.mutation
unfolding empty_mutation
no_ranges = inr (refl, tt, omega arith)

room_for_separator : can_insert inner_page 2 8 ≡ true
unfolding can_insert
room_for_separator = refl

edge_inside : parent_edge_pos (slot 1) 2 ≤ 2
unfolding parent_edge_pos
edge_inside = omega arith

apply_split_to_latched_parent_lem_example :
    (n' : ExclusiveNode) × (edges : SplitParentEdges) × (apply_split_to_latched_parent inner_node
        (7 ∷ 7 ∷ [])
        4096
        8192
        (slot 1)
      ≡ some (n', edges))
    × Published inner_node n' (parent_edge_pos (slot 1) 2) (7 ∷ 7 ∷ []) 4096 8192
    × (edges.left ≡ slot (parent_edge_pos (slot 1) 2))
    × (edges.right ≡ parent_edge_from_pos (parent_edge_pos (slot 1) 2 + 1) (2 + 1))
apply_split_to_latched_parent_lem_example =
    apply_split_to_latched_parent_lem inner_node (7 ∷ 7 ∷ []) 4096 8192 inner_page-IsInnerPage
      no_ranges key_bytes (omega arith) (omega arith) room_for_separator (slot 1) edge_inside
