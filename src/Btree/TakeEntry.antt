-- ===== src/Btree/TakeEntry.antt =====
-- The entry that a split of `crates/btree/src/btree.rs` puts into one of its halves.
use native.Mathlib.Decide.{dec_lt}
use pagebox.Base.{
  ℕ, ◌≤◌, ◌≡◌, ◌≢◌, ◌⊎◌, inl, inr, refl, sym, ap, ◌∙◌, subst, List, some, none, Option, true, false,
  length, get_elem?, insert_at, All, arith, Bool-cases,
}
use pagebox.Bytes.Memory.{IsByte}
use pagebox.Slotted.Layout.{SlottedPage, entries}
use pagebox.Slotted.Ops.{can_insert}
use pagebox.Slotted.Search.{lower_bound}
use pagebox.Slotted.Insert.{insert_lem, insert_full}
use pagebox.Slotted.Accounts.{map-insert_at}
use pagebox.Slotted.Append.{length-entries}
use pagebox.Slotted.Bisect.{IsSorted, Precedes, Below, Above, IsLowerBound}
use pagebox.Slotted.LowerBound.{keys, length-keys, lower_bound_lem}
use pagebox.Slotted.Runs.{entry_keys, keys_lem}
use pagebox.Slotted.Sorted.{IsSorted-insert_at}
use pagebox.Btree.Node.{leaf_left_pid, leaf_right_pid}
use pagebox.Btree.Chase.{cmp_keys_irreflexive, get_elem?-All}
use pagebox.Btree.LeafPage.{IsLeaf}
use pagebox.Btree.LeafMarks.{links_kept}
use pagebox.Btree.Split.{PendingLeafEntry, insert_absent}

-- A leaf that took an entry.
pub record Took (q q' : SlottedPage) (e : PendingLeafEntry) : Type 0 where
  pub at : ℕ
  pub at_fits : at ≤ length (entries q)
  pub new_entries : entries q' ≡ insert_at (entries q) at (e.key, e.value)
  pub sorted : IsSorted (keys q')
  pub leaf : IsLeaf q'
  pub links : (leaf_left_pid q' ≡ leaf_left_pid q) × (leaf_right_pid q' ≡ leaf_right_pid q)

-- The key is there, or it is not and there is no room, or the entry is taken.
abbrev pub TakeAnswer : Option SlottedPage → SlottedPage → PendingLeafEntry → Type 0
TakeAnswer run q e =
    ((at : ℕ) × (get_elem? (keys q) at ≡ some e.key) × (run ≡ none))
    ⊎ (All (λ k. k ≢ e.key) (keys q)
        × (((can_insert q (length e.key) (length e.value) ≡ false) × (run ≡ none))
            ⊎ ((q' : SlottedPage) × (run ≡ some q') × Took q q' e)))

module _ (q : SlottedPage) (leaf : IsLeaf q) (sorted : IsSorted (keys q)) (e : PendingLeafEntry)
    (kb : All IsByte e.key) (vb : All IsByte e.value) where
  absent_in :
      (r : ℕ) → Below (keys q) e.key r → Above (keys q) e.key r → All (λ k. k ≢ e.key) (keys q)
  absent_in r below above = get_elem?-All (λ k. k ≢ e.key) (keys q) differs
    where
      differs : (i : ℕ) (k : List ℕ) → get_elem? (keys q) i ≡ some k → k ≢ e.key
      differs i k here same = elim (dec_lt i r) [
        | yes less ↦
            cmp_keys_irreflexive e.key (subst (λ x. Precedes x e.key) same (below i k less here))
        | no not_less ↦
            cmp_keys_irreflexive e.key (subst (Precedes e.key) same (above i k (omega arith) here))
      ]

  pub insert_absent_lem : TakeAnswer (insert_absent q e) q e
  unfolding insert_absent
  insert_absent_lem =
      let ((r, exact), found, bound) = lower_bound_lem q (leaf.0) sorted e.key kb in
      (elim exact
          as (λ b.
            lower_bound q e.key ≡ some (r, b)
            → IsLowerBound (keys q) e.key (r, b)
            → TakeAnswer (insert_absent q e) q e) [
              | true ↦ λ found' (below, here). inl (r, here, rw found' refl)
              | false ↦ λ found' (fits, below, above). inr (
                absent_in r below above,
                elim (Bool-cases (can_insert q (length e.key) (length e.value))) [
                  | inr full ↦ inl (full, rw (found', insert_full q r e.key e.value full) refl)
                  | inl room ↦
                      let size = length-keys q in
                      let (q', runs, ins) =
                        insert_lem q r e.key e.value (leaf.0) kb vb (omega (arith, size, fits))
                          room in
                      let new_keys : insert_at (keys q) r e.key ≡ keys q' = sym (
                        keys_lem q'
                        ∙ ap entry_keys ins.new_entries
                        ∙ map-insert_at (λ x. x.0) (entries q) r (e.key, e.value)
                        ∙ ap (λ ks. insert_at ks r e.key) (sym (keys_lem q))) in
                      inr (
                        q',
                        rw (found', runs) refl,
                        record {
                          at = r;
                          at_fits = omega (arith, size, fits, length-entries q);
                          new_entries = ins.new_entries;
                          sorted =
                              subst IsSorted new_keys
                                (IsSorted-insert_at (keys q) e.key r fits sorted below above);
                          leaf = (ins.valid, ins.same_end ∙ leaf.1);
                          links = links_kept q q' (leaf.1) ins.suffix;
                        },
                      )
                ],
              )
            ])
        found bound
