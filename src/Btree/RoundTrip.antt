-- ===== src/Btree/RoundTrip.antt =====
-- A merge undoes a split (`crates/btree/src/btree.rs`).
use pagebox.Base.{
  ℕ, ◌+◌, ◌/◌, ◌^◌, ◌≤◌, ◌<◌, ◌≡◌, refl, ap, ◌∙◌, inl, inr, ◌∷◌, some, none, false, arith, length,
  take, drop, All-get_elem?, ltb,
}
use pagebox.Base.Ranges.{take-around}
use pagebox.Bytes.LittleEndian.{to_le_bytes, length-to_le_bytes}
use pagebox.Slotted.Layout.{SlottedPage, entries, num_slots}
use pagebox.Slotted.Bisect.{IsSorted}
use pagebox.Slotted.LowerBound.{keys}
use pagebox.Slotted.Append.{cost, cost-append, IsEntry}
use pagebox.Slotted.Copy.{entries-IsEntry}
use pagebox.Btree.Node.{leaf_left_pid, leaf_right_pid, upper_swip}
use pagebox.Btree.Split.{SplitPages, split_leaf, split_inner}
use pagebox.Btree.LeafPage.{IsLeaf, LeafPage, page_fits}
use pagebox.Btree.SplitLeaf.{SplitApart, split_leaf_lem}
use pagebox.Btree.InnerPage.{IsInnerPage, child_swips}
use pagebox.Btree.SplitInner.{InnerHalves, split_inner_at_lem, halves_between}
use pagebox.Btree.Merge.{merge_leaf_pages_into_left, merge_inner_pages_into_left}
use pagebox.Btree.MergeLeaf.{merge_leaf_pages_into_left_lem}
use pagebox.Btree.MergeInner.{inner_room, merged_entries, merge_inner_pages_into_left_lem}

-- The halves of a leaf of two entries or more merge back into a leaf with its entries and its neighbours.
pub merge_leaf_pages_into_left-split_leaf :
    (p : SlottedPage) (node_pid sibling_pid : ℕ)
    → IsLeaf p
    → IsSorted (keys p)
    → node_pid < 2 ^ 64
    → sibling_pid < 2 ^ 64
    → 2 ≤ num_slots p
    → (s : SplitPages) × (split_leaf p node_pid sibling_pid none ≡ some (some (s, false)))
      × (q : SlottedPage) × (merge_leaf_pages_into_left s.left s.right ≡ some (some q))
      × LeafPage q (entries p) (leaf_left_pid p) (leaf_right_pid p)
merge_leaf_pages_into_left-split_leaf p node_pid sibling_pid leaf sorted node_fits sibling_fits
      two =
    let (s, runs, apart) =
      split_leaf_lem p node_pid sibling_pid none leaf sorted node_fits sibling_fits two
        (inl refl) in
    let (q, merges, page) = merged s apart in (s, runs, q, merges, page)
  where
    merged :
        (s : SplitPages)
        → SplitApart p node_pid sibling_pid s
        → (q : SlottedPage) × (merge_leaf_pages_into_left s.left s.right ≡ some (some q))
          × LeafPage q (entries p) (leaf_left_pid p) (leaf_right_pid p)
    merged s apart =
        let fits = page_fits p 16 (leaf.0) (leaf.1) (omega arith) in
        elim (merge_leaf_pages_into_left_lem s.left s.right (apart.left_leaf_page.0)
          (apart.right_leaf_page.0)) [
            | inr (long, _, _) ↦ absurd (omega (arith, long, fits, ap cost apart.all_entries))
            | inl (_, _, q, merges, page) ↦ (
              q,
              merges,
              record {
                entries_are = page.entries_are ∙ apart.all_entries;
                left_is = page.left_is ∙ apart.left_links.0;
                right_is = page.right_is ∙ apart.right_links.1;
                marked = page.marked;
                leaf = page.leaf;
              },
            )
          ]

-- The halves of an inner node have room on one page with the separator between them.
halves_fit :
    (p : SlottedPage) (split_pos : ℕ) (s : SplitPages)
    → IsInnerPage p
    → InnerHalves p split_pos s
    → cost (merged_entries s.left s.sep_key s.right) ≤ inner_room
halves_fit p split_pos s (v, ends, inner) h =
    let fits = page_fits p 8 v ends (omega arith) in
    let es = entries p in
    let eight = All-get_elem? (λ e. length (e.1) ≡ 8) es split_pos inner h.at in
    let eight' = length-to_le_bytes 8 (upper_swip s.left) in
    let whole = ap cost (take-around es split_pos h.at) in
    let parts =
      cost-append (take split_pos es) ((s.sep_key, h.between) ∷ drop (split_pos + 1) es) in
    let merged =
      cost-append (entries s.left)
        ((s.sep_key, to_le_bytes 8 (upper_swip s.left)) ∷ entries s.right) in
    omega (
      arith,
      fits,
      eight,
      eight',
      whole,
      parts,
      merged,
      ap cost (h.left_half).entries_are,
      ap cost (h.right_half).entries_are,
    )

-- The halves of an inner node of two separators or more merge back, with the separator between them, into an
-- inner node with its separators and its children.
pub merge_inner_pages_into_left-split_inner :
    (p : SlottedPage)
    → IsInnerPage p
    → IsSorted (keys p)
    → 2 ≤ num_slots p
    → (s : SplitPages) × (split_inner p ≡ some (some s))
      × (q : SlottedPage) × (merge_inner_pages_into_left s.left s.sep_key s.right ≡ some q)
      × (keys q ≡ keys p)
      × (child_swips q ≡ child_swips p)
      × IsInnerPage q
unfolding split_inner
merge_inner_pages_into_left-split_inner p inner sorted two =
    let split_pos = num_slots p / 2 in
    let (s, runs, h) = split_inner_at_lem p split_pos inner (omega arith) in
    let many : ltb (num_slots p) 2 ≡ false = ground arith in
    let (q, merges, ks, cs, page) = merged s split_pos h in
    (s, rw (many, runs) refl, q, merges, ks, cs, page)
  where
    merged :
        (s : SplitPages) (split_pos : ℕ)
        → InnerHalves p split_pos s
        → (q : SlottedPage) × (merge_inner_pages_into_left s.left s.sep_key s.right ≡ some q)
          × (keys q ≡ keys p)
          × (child_swips q ≡ child_swips p)
          × IsInnerPage q
    merged s split_pos h =
        let b = halves_between p split_pos s h (inner.2) sorted in
        let bytes =
          All-get_elem? IsEntry (entries p) split_pos (entries-IsEntry p (inner.0)) h.at in
        elim (merge_inner_pages_into_left_lem s.left s.sep_key s.right (b.left_inner_page.0)
          (b.right_inner_page.0) (bytes.0)) [
            | inr (long, _) ↦ absurd (omega (arith, long, halves_fit p split_pos s inner h))
            | inl (_, _, q, merges, m) ↦ (
              q,
              merges,
              m.all_keys ∙ b.all_keys,
              m.all_children ∙ b.all_children,
              m.inner_page.0,
            )
          ]
