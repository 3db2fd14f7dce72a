-- ===== src/Btree/Leaf.antt =====
-- An exclusively latched leaf (`ExclusiveNode` of `crates/btree/src/btree/node.rs`), and how
-- `crates/btree/src/btree.rs` puts an entry into it (`leaf_insert_bound`, `try_insert_leaf`, `try_upsert_leaf`).
-- `none` is a panic. What `finish_mutation` hands to the frame is kept, the last call first.
use Prim.Native.Nat.{Ordering}
use pagebox.Base.{
  ℕ, ◌+◌, ◌-◌, Option, some, List, ◌∷◌, Bool, true, false, not, leb, ◌==◌, length, guard,
  if◌then◌else◌, ◌>>=◌, ◌>>◌,
}
use pagebox.Bytes.BigEndian.{cmp_keys}
use pagebox.Mutation.Ranges.{PageMutation, empty_mutation, is_empty}
use pagebox.Slotted.Layout.{SlottedPage, num_slots, get_key, get_value, free_space_after_compaction}
use pagebox.Slotted.Ops.{can_insert, insert, remove, update_value_if_same_length}
use pagebox.Slotted.Logged.{insert_with_mutation, remove_with_mutation, update_value_with_mutation}
use pagebox.Slotted.Search.{lower_bound}

-- A call of the frame that makes it dirty.
pub data DirtyMark : Type 0 where
  mark_dirty : DirtyMark
  mark_dirty_ranges : PageMutation → DirtyMark

pub record ExclusiveNode : Type 0 where
  pub logs_dirty_ranges : Bool
  pub page : SlottedPage
  pub mutation : PageMutation
  pub marks : List DirtyMark

unfoldable pub finish_mutation : ExclusiveNode → ExclusiveNode
unfolding is_empty empty_mutation
finish_mutation n =
    if not n.logs_dirty_ranges
    then record n { marks = DirtyMark.mark_dirty ∷ n.marks }
    else if is_empty n.mutation
    then record n { mutation = empty_mutation }
    else record n {
      mutation = empty_mutation;
      marks = DirtyMark.mark_dirty_ranges n.mutation ∷ n.marks;
    }

unfoldable pub insert_entry : ExclusiveNode → ℕ → List ℕ → List ℕ → Option ExclusiveNode
insert_entry n pos key value =
    if n.logs_dirty_ranges
    then (insert_with_mutation n.page pos key value n.mutation >>= λ r.
        some (record n { page = r.0; mutation = r.1 }))
    else (insert n.page pos key value >>= λ q. some (record n { page = q }))

unfoldable pub remove_slot : ExclusiveNode → ℕ → Option ExclusiveNode
remove_slot n pos =
    if n.logs_dirty_ranges
    then (remove_with_mutation n.page pos n.mutation >>= λ r.
        some (record n { page = r.0; mutation = r.1 }))
    else (remove n.page pos >>= λ q. some (record n { page = q }))

-- `update_value_if_same_length` of a node
unfoldable pub update_entry : ExclusiveNode → ℕ → List ℕ → Option (ExclusiveNode × Bool)
update_entry n pos value =
    if n.logs_dirty_ranges
    then (update_value_with_mutation n.page pos value n.mutation >>= λ r.
        some (record n { page = r.0.0; mutation = r.0.1 }, r.1))
    else (update_value_if_same_length n.page pos value >>= λ r. some (record n { page = r.0 }, r.1))

-- The answer of a comparison with the last key, or of the search below it.
abbrev pub bound_from_last : SlottedPage → List ℕ → ℕ → Ordering → Option (ℕ × Bool)
bound_from_last p key count Ordering.gt = some (count, false)
bound_from_last p key count Ordering.eq = some (count - 1, true)
bound_from_last p key count Ordering.lt = lower_bound p key

unfoldable pub leaf_insert_bound : SlottedPage → List ℕ → Option (ℕ × Bool)
leaf_insert_bound p key =
    let count = num_slots p in
    if count == 0
    then some (0, false)
    else (do last_key ← get_key p (count - 1); bound_from_last p key count (cmp_keys key last_key))

pub data InsertLeafAction : Type 0 where
  return_false : InsertLeafAction
  inserted : InsertLeafAction
  split_required : InsertLeafAction

pub data UpsertLeafAction : Type 0 where
  updated_existing : UpsertLeafAction
  inserted : UpsertLeafAction
  split_required : UpsertLeafAction

unfoldable pub try_insert_leaf :
    ExclusiveNode → List ℕ → List ℕ → Option (InsertLeafAction × ExclusiveNode)
unfolding leaf_insert_bound insert_entry finish_mutation
try_insert_leaf leaf key value = do
  (pos, exact) ← leaf_insert_bound leaf.page key
  if exact
      then some (InsertLeafAction.return_false, leaf)
      else if not (can_insert leaf.page (length key) (length value))
      then some (InsertLeafAction.split_required, leaf)
      else (do
        leaf' ← insert_entry leaf pos key value
        some (InsertLeafAction.inserted, finish_mutation leaf'))

-- The value of an existing key is replaced, in place or by a removal and an insertion. The guard is the
-- `debug_assert!`.
unfoldable pub replace_existing :
    ExclusiveNode → ℕ → List ℕ → List ℕ → Option (UpsertLeafAction × ExclusiveNode)
unfolding insert_entry remove_slot update_entry finish_mutation
replace_existing leaf pos key value = do
  old ← get_value leaf.page pos
  if length old == length value
      then (do
        (leaf', updated) ← update_entry leaf pos value
        guard updated
        some (UpsertLeafAction.updated_existing, finish_mutation leaf'))
      else if leb (length key + length value)
          (free_space_after_compaction leaf.page + (length key + length old))
      then (do
        removed ← remove_slot leaf pos
        leaf' ← insert_entry removed pos key value
        some (UpsertLeafAction.updated_existing, finish_mutation leaf'))
      else some (UpsertLeafAction.split_required, leaf)

unfoldable pub try_upsert_leaf :
    ExclusiveNode → List ℕ → List ℕ → Option (UpsertLeafAction × ExclusiveNode)
unfolding leaf_insert_bound insert_entry finish_mutation replace_existing
try_upsert_leaf leaf key value = do
  (pos, exact) ← leaf_insert_bound leaf.page key
  if exact
      then replace_existing leaf pos key value
      else if not (can_insert leaf.page (length key) (length value))
      then some (UpsertLeafAction.split_required, leaf)
      else (do
        leaf' ← insert_entry leaf pos key value
        some (UpsertLeafAction.inserted, finish_mutation leaf'))
