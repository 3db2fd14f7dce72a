-- ===== src/Btree/LeafInsert.antt =====
-- `try_insert_leaf` of `crates/btree/src/btree.rs`, with and without the logging of byte ranges.
use native.Mathlib.Decide.{dec_lt}
use pagebox.Base.{
  ℕ, ◌-◌, ◌≡◌, ◌≢◌, ◌⊎◌, inl, inr, refl, sym, ap, ◌∙◌, subst, List, some, true, false, length,
  get_elem?, insert_at, All, arith, Bool-cases,
}
use pagebox.Bytes.Memory.{IsByte}
use pagebox.Slotted.Layout.{page_size, heap_end, entries}
use pagebox.Slotted.Ops.{can_insert}
use pagebox.Slotted.Place.{Inserted}
use pagebox.Slotted.Bisect.{IsSorted, Precedes, IsLowerBound}
use pagebox.Slotted.LowerBound.{keys, length-keys}
use pagebox.Slotted.Sorted.{IsSorted-insert_at}
use pagebox.Slotted.Accounts.{map-insert_at}
use pagebox.Slotted.Runs.{entry_keys, keys_lem}
use pagebox.Btree.Node.{leaf_left_pid, leaf_right_pid}
use pagebox.Btree.Chase.{cmp_keys_irreflexive, get_elem?-All}
use pagebox.Btree.LeafPage.{IsLeaf}
use pagebox.Btree.Leaf.{
  ExclusiveNode, InsertLeafAction, finish_mutation, insert_entry, leaf_insert_bound,
  try_insert_leaf,
}
use pagebox.Btree.LeafBound.{leaf_insert_bound-Finds}
use pagebox.Btree.LeafMarks.{
  GoodLeaf, MarkedOnce, RecordsEntry, Touched, insert_entry_lem, finish_mutation_lem,
  finish_mutation-page, finish_mutation-recorded, links_kept,
}

-- A leaf with one more entry, where its keys stay ascending, marked as dirty.
pub record InsertedLeaf (n n' : ExclusiveNode) (key value : List ℕ) : Type 0 where
  pub at : ℕ
  pub new_entries : entries n'.page ≡ insert_at (entries n.page) at (key, value)
  pub links :
      (leaf_left_pid n'.page ≡ leaf_left_pid n.page)
      × (leaf_right_pid n'.page ≡ leaf_right_pid n.page)
  pub good : GoodLeaf n'
  pub marked : MarkedOnce n n' (RecordsEntry n.page n'.page at key value)

module _ (n : ExclusiveNode) (key value : List ℕ) (good : GoodLeaf n) (kb : All IsByte key)
    (vb : All IsByte value) where
  pub absent_lem :
      (r : ℕ) → IsLowerBound (keys n.page) key (r, false) → All (λ k. k ≢ key) (keys n.page)
  absent_lem r (fits, below, above) = get_elem?-All (λ k. k ≢ key) (keys n.page) differs
    where
      differs : (i : ℕ) (k : List ℕ) → get_elem? (keys n.page) i ≡ some k → k ≢ key
      differs i k here same = elim (dec_lt i r) [
        | yes less ↦
            cmp_keys_irreflexive key (subst (λ x. Precedes x key) same (below i k less here))
        | no not_less ↦
            cmp_keys_irreflexive key (subst (Precedes key) same (above i k (omega arith) here))
      ]

  -- Where the search points, an absent key is inserted and the frame marked.
  pub entry_inserted :
      (pos : ℕ)
      → IsLowerBound (keys n.page) key (pos, false)
      → can_insert n.page (length key) (length value) ≡ true
      → (n' : ExclusiveNode) × (insert_entry n pos key value ≡ some n')
        × InsertedLeaf n (finish_mutation n') key value
  entry_inserted pos (fits, below, above) room =
      let (v, ends) = good.leaf in
      let size = length-keys n.page in
      let (n', runs, ins, t, _) =
        insert_entry_lem n pos key value v good.recorded kb vb (omega (arith, size, fits)) room in
      let page_is = finish_mutation-page n' in
      let new_keys : insert_at (keys n.page) pos key ≡ keys n'.page = sym (
        keys_lem n'.page
        ∙ ap entry_keys ins.new_entries
        ∙ map-insert_at (λ e. e.0) (entries n.page) pos (key, value)
        ∙ ap (λ ks. insert_at ks pos key) (sym (keys_lem n.page))) in
      let sorted = IsSorted-insert_at (keys n.page) key pos fits good.sorted below above in
      (n', runs, with_page n' page_is pos ins t (subst IsSorted new_keys sorted) (ends))
    where
      with_page :
          (n' : ExclusiveNode)
          → (finish_mutation n').page ≡ n'.page
          → (pos : ℕ) → Inserted n.page n'.page pos key value
          → Touched n n' (RecordsEntry n.page n'.page pos key value)
          → IsSorted (keys n'.page)
          → heap_end n.page ≡ page_size - 16
          → InsertedLeaf n (finish_mutation n') key value
      with_page n' page_is pos ins t sorted ends = record {
        at = pos;
        new_entries = ap entries page_is ∙ ins.new_entries;
        links =
            subst
              (λ q.
                (leaf_left_pid q ≡ leaf_left_pid n.page)
                × (leaf_right_pid q ≡ leaf_right_pid n.page))
              (sym page_is) (links_kept n.page n'.page ends ins.suffix);
        good = record {
          leaf = subst IsLeaf (sym page_is) (ins.valid, ins.same_end ∙ ends);
          sorted = subst (λ q. IsSorted (keys q)) (sym page_is) sorted;
          recorded = finish_mutation-recorded n' t.recorded;
        };
        marked =
            subst (λ q. MarkedOnce n (finish_mutation n') (RecordsEntry n.page q pos key value))
              (sym page_is)
              (finish_mutation_lem n n' (RecordsEntry n.page n'.page pos key value) (λ m r. r.0) t);
      }

  abbrev pub InsertAnswer : Type 0
  InsertAnswer =
      ((at : ℕ) × (get_elem? (keys n.page) at ≡ some key)
        × (try_insert_leaf n key value ≡ some (InsertLeafAction.return_false, n)))
      ⊎ (All (λ k. k ≢ key) (keys n.page)
          × (can_insert n.page (length key) (length value) ≡ false)
          × (try_insert_leaf n key value ≡ some (InsertLeafAction.split_required, n)))
      ⊎ (All (λ k. k ≢ key) (keys n.page)
          × (n' : ExclusiveNode) × (try_insert_leaf n key value
              ≡ some (InsertLeafAction.inserted, n'))
          × InsertedLeaf n n' key value)

  -- Inserting an entry into a valid leaf with ascending keys does not panic. Where the key is there already,
  -- or else where there is no room, nothing changes and the action says so. Otherwise the leaf gets the entry,
  -- stays valid with ascending keys and keeps its neighbours, and its frame is marked once: as dirty as a
  -- whole or in ranges that have the header, the slots from the new one on, the bytes of the entry, and each
  -- other slot and byte of the heap that is not as it was.
  pub try_insert_leaf_lem : InsertAnswer
  unfolding try_insert_leaf
  try_insert_leaf_lem =
      let ((pos, exact), found, bound) =
        leaf_insert_bound-Finds n.page (good.leaf.0) key good.sorted kb in
      (elim exact
          as (λ b.
            leaf_insert_bound n.page key ≡ some (pos, b)
            → IsLowerBound (keys n.page) key (pos, b)
            → InsertAnswer) [
              | true ↦ λ found' (below, here). inl (pos, here, rw found' refl)
              | false ↦ λ found' bound'.
                  elim (Bool-cases (can_insert n.page (length key) (length value))) [
                    | inr full ↦ inr (inl (absent_lem pos bound', full, rw (found', full) refl))
                    | inl room ↦
                        let (n', runs, ins) = entry_inserted pos bound' room in
                        inr (
                          inr (
                            absent_lem pos bound',
                            finish_mutation n',
                            rw (found', room, runs) refl,
                            ins,
                          ))
                  ]
            ])
        found bound
