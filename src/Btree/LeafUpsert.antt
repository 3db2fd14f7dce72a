-- ===== src/Btree/LeafUpsert.antt =====
-- `try_upsert_leaf` of `crates/btree/src/btree.rs`, with and without the logging of byte ranges.
use mathlib.Core.Option.{some-injective}
use pagebox.Base.{
  ℕ, ◌+◌, ◌<◌, ◌≡◌, ◌≢◌, ◌⊎◌, inl, inr, refl, sym, ap, ◌∙◌, List, some, true, false, length,
  get_elem?, get_elem?-some, All, arith, Bool-cases,
}
use pagebox.Bytes.Memory.{IsByte}
use pagebox.Slotted.Layout.{entries, free_space_after_compaction}
use pagebox.Slotted.Ops.{can_insert}
use pagebox.Slotted.Append.{length-entries}
use pagebox.Slotted.Runs.{keys_lem}
use pagebox.Slotted.Bisect.{IsLowerBound}
use pagebox.Slotted.LowerBound.{keys, length-keys}
use pagebox.Slotted.Accounts.{get_elem?-map}
use pagebox.Btree.Leaf.{
  ExclusiveNode, UpsertLeafAction, finish_mutation, leaf_insert_bound, try_upsert_leaf,
}
use pagebox.Btree.LeafBound.{leaf_insert_bound-Finds}
use pagebox.Btree.LeafMarks.{GoodLeaf}
use pagebox.Btree.LeafInsert.{InsertedLeaf, absent_lem, entry_inserted}
use pagebox.Btree.LeafEdit.{get_elem?-lt}
use pagebox.Btree.LeafReplace.{ReplacedLeaf, replace_lem}

module _ (n : ExclusiveNode) (key value : List ℕ) (good : GoodLeaf n) (kb : All IsByte key)
    (vb : All IsByte value) where
  abbrev pub UpsertAnswer : Type 0
  UpsertAnswer =
      ((n' : ExclusiveNode) × (try_upsert_leaf n key value
          ≡ some (UpsertLeafAction.updated_existing, n'))
        × ReplacedLeaf n n' key value)
      ⊎ (All (λ k. k ≢ key) (keys n.page)
          × (n' : ExclusiveNode) × (try_upsert_leaf n key value
              ≡ some (UpsertLeafAction.inserted, n'))
          × InsertedLeaf n n' key value)
      ⊎ (((All (λ k. k ≢ key) (keys n.page)
              × (can_insert n.page (length key) (length value) ≡ false))
            ⊎ ((at : ℕ) × (old : List ℕ) × (get_elem? (entries n.page) at ≡ some (key, old))
                × (free_space_after_compaction n.page + (length key + length old)
                    < length key + length value)))
          × (try_upsert_leaf n key value ≡ some (UpsertLeafAction.split_required, n)))

  entry_there :
      (pos : ℕ)
      → get_elem? (keys n.page) pos ≡ some key
      → (old : List ℕ) × (get_elem? (entries n.page) pos ≡ some (key, old))
  entry_there pos here =
      let size = length-keys n.page in
      let size' = length-entries n.page in
      let (e, there) =
        get_elem?-some (entries n.page) pos
          (omega (arith, size, size', get_elem?-lt (keys n.page) pos here)) in
      let named : e.0 ≡ key = some-injective _ _ (
        sym (
          ap (λ ks. get_elem? ks pos) (keys_lem n.page)
          ∙ get_elem?-map (λ x. x.0) (entries n.page) pos there)
        ∙ here) in
      (e.1, there ∙ ap (λ k. some (k, e.1)) named)

  -- An upsert into a valid leaf with ascending keys does not panic. Where the key is there, its value is
  -- replaced, in place or by a removal and an insertion, and no other entry changes; where it is not, the entry
  -- is inserted. Either way the leaf stays valid with ascending keys and keeps its neighbours, and its frame is
  -- marked, unless the ranges of an empty value are none: as a whole, or in ranges that have each slot and each
  -- byte of the heap that is not as it was, and the header where it changed. Just where there is no room, even without the old entry, nothing changes and
  -- the action says that a split is required.
  pub try_upsert_leaf_lem : UpsertAnswer
  unfolding try_upsert_leaf
  try_upsert_leaf_lem =
      let ((pos, exact), found, bound) =
        leaf_insert_bound-Finds n.page (good.leaf.0) key good.sorted kb in
      (elim exact
          as (λ b.
            leaf_insert_bound n.page key ≡ some (pos, b)
            → IsLowerBound (keys n.page) key (pos, b)
            → UpsertAnswer) [
              | true ↦ λ found' (below, here).
                  let (old, was) = entry_there pos here in
                  elim (replace_lem n key value good kb vb pos old was) [
                    | inl (n', runs, replaced) ↦ inl (n', rw found' runs, replaced)
                    | inr (short, runs) ↦ inr (inr (inr (pos, old, was, short), rw found' runs))
                  ]
              | false ↦ λ found' bound'.
                  elim (Bool-cases (can_insert n.page (length key) (length value))) [
                    | inr full ↦ inr (
                        inr (
                          inl (absent_lem n key value good kb vb pos bound', full),
                          rw (found', full) refl,
                        ))
                    | inl room ↦
                        let (n', runs, ins) =
                          entry_inserted n key value good kb vb pos bound' room in
                        inr (
                          inl (
                            absent_lem n key value good kb vb pos bound',
                            finish_mutation n',
                            rw (found', room, runs) refl,
                            ins,
                          ))
                  ]
            ])
        found bound
