-- ===== src/Btree/LeafReplace.antt =====
-- The replacement of a value in `try_upsert_leaf` of `crates/btree/src/btree.rs`.
use mathlib.Core.Option
use mathlib.Core.Option.{some-injective}
use pagebox.Base.{
  ℕ, ◌+◌, ◌-◌, ◌≤◌, ◌<◌, ◌≡◌, ◌⊎◌, inl, inr, refl, sym, ap, ◌∙◌, subst, List, ◌∷◌, some, true,
  false, length, get_elem?, insert_at, set, All, arith, leb, leb→le, ◌==◌, ==_iff, Bool-cases,
}
use pagebox.Bytes.Memory.{IsByte}
use pagebox.Mutation.Ranges.{PageMutation, is_empty}
use pagebox.Slotted.Layout.{
  IsValid, heap_end, num_slots, entries, get_value, free_space_after_compaction,
}
use pagebox.Slotted.Edit.{Removed, get_lem}
use pagebox.Slotted.Changes.{since_removal}
use pagebox.Slotted.Update.{update_lem, update-accounts}
use pagebox.Slotted.Append.{length-entries}
use pagebox.Slotted.Runs.{entry_keys, keys_lem}
use pagebox.Slotted.Bisect.{IsSorted}
use pagebox.Slotted.LowerBound.{keys}
use pagebox.Btree.Node.{leaf_left_pid, leaf_right_pid}
use pagebox.Btree.LeafPage.{IsLeaf}
use pagebox.Btree.Leaf.{
  ExclusiveNode, DirtyMark, UpsertLeafAction, finish_mutation, insert_entry, remove_slot,
  update_entry, replace_existing,
}
use pagebox.Btree.LeafMarks.{
  GoodLeaf, MarkedOnce, RecordsEntry, Touched, insert_entry_lem, finish_mutation-page,
  finish_mutation-recorded, links_kept,
}
use pagebox.Btree.LeafEdit.{
  insert_at-remove_at, get_elem?-lt, entry_keys-set, RecordsValue, update_entry_lem,
  remove_slot_lem, room_lem,
}

-- The frame was marked, unless nothing was recorded.
abbrev pub MarkedIfAny : ExclusiveNode → ExclusiveNode → (PageMutation → Type 0) → Type 0
MarkedIfAny n n' P =
    MarkedOnce n n' P
    ⊎ ((n.logs_dirty_ranges ≡ true)
        × (n'.marks ≡ n.marks)
        × (m : PageMutation) × (is_empty m ≡ true)
        × P m)

finish_any :
    (n n' : ExclusiveNode) (P : PageMutation → Type 0)
    → Touched n n' P
    → MarkedIfAny n (finish_mutation n') P
unfolding finish_mutation
finish_any n n' P t = elim t.has [
  | inl plain ↦
      let mode : n'.logs_dirty_ranges ≡ false = t.same_mode ∙ plain in
      inl (inl (plain, rw mode (ap (λ ms. DirtyMark.mark_dirty ∷ ms) t.same_marks)))
  | inr (logs, has) ↦
      let mode : n'.logs_dirty_ranges ≡ true = t.same_mode ∙ logs in
      elim (Bool-cases (is_empty n'.mutation)) [
        | inl empty ↦ inr (logs, rw (mode, empty) t.same_marks, n'.mutation, empty, has)
        | inr filled ↦ inl (
            inr (
              logs,
              n'.mutation,
              rw (mode, filled)
                  (ap (λ ms. DirtyMark.mark_dirty_ranges n'.mutation ∷ ms) t.same_marks),
              has,
            ))
      ]
]

-- A leaf with another value under a key that it had.
pub record ReplacedLeaf (n n' : ExclusiveNode) (key value : List ℕ) : Type 0 where
  pub at : ℕ
  pub old : List ℕ
  pub was : get_elem? (entries n.page) at ≡ some (key, old)
  pub new_entries : entries n'.page ≡ set (entries n.page) at (key, value)
  pub links :
      (leaf_left_pid n'.page ≡ leaf_left_pid n.page)
      × (leaf_right_pid n'.page ≡ leaf_right_pid n.page)
  pub good : GoodLeaf n'
  pub marked :
      MarkedIfAny n n'
        (λ m. RecordsValue n.page n'.page at m ⊎ RecordsEntry n.page n'.page at key value m)

module _ (n : ExclusiveNode) (key value : List ℕ) (good : GoodLeaf n) (kb : All IsByte key)
    (vb : All IsByte value) (at : ℕ) (old : List ℕ)
    (was : get_elem? (entries n.page) at ≡ some (key, old)) where
  pub replaced_leaf :
      (n' : ExclusiveNode)
      → entries n'.page ≡ set (entries n.page) at (key, value)
      → IsValid n'.page
      → heap_end n'.page ≡ heap_end n.page
      → ((x : ℕ) → heap_end n.page ≤ x → n'.page.bytes x ≡ n.page.bytes x)
      → Touched n n'
          (λ m. RecordsValue n.page n'.page at m ⊎ RecordsEntry n.page n'.page at key value m)
      → ReplacedLeaf n (finish_mutation n') key value
  replaced_leaf n' is v ends kept t =
      let page_is = sym (finish_mutation-page n') in
      let same_keys : keys n'.page ≡ keys n.page =
        keys_lem n'.page
        ∙ ap entry_keys is
        ∙ entry_keys-set (entries n.page) at key value old was
        ∙ sym (keys_lem n.page) in
      record {
        at = at;
        old = old;
        was = was;
        new_entries = subst (λ q. entries q ≡ set (entries n.page) at (key, value)) page_is is;
        links =
            subst
              (λ q.
                (leaf_left_pid q ≡ leaf_left_pid n.page)
                × (leaf_right_pid q ≡ leaf_right_pid n.page))
              page_is (links_kept n.page n'.page (good.leaf.1) kept);
        good = record {
          leaf = subst IsLeaf page_is (v, ends ∙ good.leaf.1);
          sorted =
              subst (λ q. IsSorted (keys q)) page_is (subst IsSorted (sym same_keys) good.sorted);
          recorded = finish_mutation-recorded n' t.recorded;
        };
        marked =
            subst
              (λ q.
                MarkedIfAny n (finish_mutation n')
                  (λ m. RecordsValue n.page q at m ⊎ RecordsEntry n.page q at key value m))
              page_is
              (finish_any n n'
                (λ m. RecordsValue n.page n'.page at m ⊎ RecordsEntry n.page n'.page at key value m)
                t);
      }

  -- In place, or by a removal and an insertion, or not at all for want of room.
  abbrev pub ReplaceAnswer : Type 0
  ReplaceAnswer =
      ((n' : ExclusiveNode) × (replace_existing n at key value
          ≡ some (UpsertLeafAction.updated_existing, n'))
        × ReplacedLeaf n n' key value)
      ⊎ ((free_space_after_compaction n.page + (length key + length old)
            < length key + length value)
          × (replace_existing n at key value ≡ some (UpsertLeafAction.split_required, n)))

  in_place :
      length value ≡ length old
      → (n' : ExclusiveNode) × (update_entry n at value ≡ some (n', true))
        × ReplacedLeaf n (finish_mutation n') key value
  in_place same =
      let v = good.leaf.0 in
      let (n', runs, updates, t) =
        update_entry_lem n at key old value v good.recorded vb was same in
      let (q, updates', is, kept, vq) = update_lem n.page at value key old v vb was same in
      let q_is : q ≡ n'.page = ap (λ r. r.0) (some-injective _ _ (sym updates' ∙ updates)) in
      (
        n',
        runs,
        replaced_leaf n' (subst (λ x. entries x ≡ set (entries n.page) at (key, value)) q_is is)
            (subst IsValid q_is vq)
            ((update-accounts n.page n'.page at value key old v vb was same updates).0)
            (λ x low.
              let from : heap_end n.page + (x - heap_end n.page) ≡ x = omega (arith, low) in
              subst (λ y. n'.page.bytes y ≡ n.page.bytes y) from
                (ap (λ r. r.bytes (heap_end n.page + (x - heap_end n.page))) (sym q_is)
                  ∙ kept (x - heap_end n.page)))
            (record {
              same_mode = t.same_mode;
              same_marks = t.same_marks;
              recorded = t.recorded;
              has = left_has n' t.has;
            }),
      )
    where
      left_has :
          (n' : ExclusiveNode)
          → (n.logs_dirty_ranges ≡ false)
            ⊎ ((n.logs_dirty_ranges ≡ true) × RecordsValue n.page n'.page at n'.mutation)
          → (n.logs_dirty_ranges ≡ false)
            ⊎ ((n.logs_dirty_ranges ≡ true)
                × (RecordsValue n.page n'.page at n'.mutation
                    ⊎ RecordsEntry n.page n'.page at key value n'.mutation))
      left_has n' (inl plain) = inl plain
      left_has n' (inr (logs, has)) = inr (logs, inl has)

  moved :
      length key + length value ≤ free_space_after_compaction n.page + (length key + length old)
      → (r n' : ExclusiveNode) × (remove_slot n at ≡ some r)
        × (insert_entry r at key value ≡ some n')
        × ReplacedLeaf n (finish_mutation n') key value
  moved enough =
      let v = good.leaf.0 in
      let size = length-entries n.page in
      let here : at < num_slots n.page =
        omega (arith, size, get_elem?-lt (entries n.page) at was) in
      let (r, removes, gone, vm, mode, marks) = remove_slot_lem n at v good.recorded here in
      let room = room_lem n.page r.page at key old value v gone was enough in
      let (n', inserts, ins, t, _) =
        insert_entry_lem r at key value gone.valid vm kb vb (omega (arith, gone.one_less, here))
          room in
      let is : entries n'.page ≡ set (entries n.page) at (key, value) =
        ins.new_entries
        ∙ ap (λ es. insert_at es at (key, value)) gone.fewer_entries
        ∙ insert_at-remove_at (entries n.page) at (key, value) (omega (arith, here, size)) in
      (
        r,
        n',
        removes,
        inserts,
        replaced_leaf n' is ins.valid (ins.same_end ∙ gone.same_end)
            (λ x low.
              ins.suffix x (omega (arith, low, gone.same_end)) ∙ ap (λ m. m x) gone.same_bytes)
            (record {
              same_mode = t.same_mode ∙ mode;
              same_marks = t.same_marks ∙ marks;
              recorded = t.recorded;
              has = right_has r n' gone mode t.has;
            }),
      )
    where
      right_has :
          (r n' : ExclusiveNode)
          → Removed n.page r.page at
          → r.logs_dirty_ranges ≡ n.logs_dirty_ranges
          → (r.logs_dirty_ranges ≡ false)
            ⊎ ((r.logs_dirty_ranges ≡ true) × RecordsEntry r.page n'.page at key value n'.mutation)
          → (n.logs_dirty_ranges ≡ false)
            ⊎ ((n.logs_dirty_ranges ≡ true)
                × (RecordsValue n.page n'.page at n'.mutation
                    ⊎ RecordsEntry n.page n'.page at key value n'.mutation))
      right_has r n' gone mode (inl plain) = inl (sym mode ∙ plain)
      right_has r n' gone mode
            (inr (logs, (header, first, low, slots, last, high, bytes, changes))) =
          inr (
            sym mode ∙ logs,
            inr (
              header,
              first,
              low,
              slots,
              last,
              high,
              bytes,
              since_removal n.page r.page n'.page at first n'.mutation gone header low slots
                  changes,
            ),
          )

  pub replace_lem : ReplaceAnswer
  unfolding replace_existing
  replace_lem =
      let value_is : get_value n.page at ≡ some old =
        (get_lem n.page at (good.leaf.0)).1 ∙ ap (λ o. Option.map (λ q. q.1) o) was in
      elim (Bool-cases (length old == length value)) [
        | inl same ↦
            let (n', runs, replaced) =
              in_place (sym ((==_iff (length old) (length value)).0 same)) in
            inl (finish_mutation n', rw (value_is, same, runs) refl, replaced)
        | inr other ↦
            elim (Bool-cases (
              leb (length key + length value)
                (free_space_after_compaction n.page + (length key + length old)))) [
                  | inl enough ↦
                      let (r, n', removes, inserts, replaced) = moved (leb→le _ _ enough) in
                      inl (
                        finish_mutation n',
                        rw (value_is, other, enough, removes, inserts) refl,
                        replaced,
                      )
                  | inr short ↦ inr (ground arith, rw (value_is, other, short) refl)
                ]
      ]
