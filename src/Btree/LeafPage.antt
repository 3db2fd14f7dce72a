-- ===== src/Btree/LeafPage.antt =====
-- The leaf pages that `crates/btree/src/btree.rs` builds out of the entries of another one.
use Prim.Native.Nat.{bit_and, bit_or}
use pagebox.Base.{
  ℕ, ◌+◌, ◌-◌, ◌^◌, ◌≤◌, ◌<◌, ◌≡◌, refl, ap, ◌∙◌, List, [], ◌∷◌, ◌++◌, map, some, true, arith, take,
  drop, ◌==◌, not,
}
use pagebox.Base.Ranges.{take-++-drop}
use pagebox.Bytes.Memory.{length-read_bytes}
use pagebox.Header.PageType.{index, with_type}
use pagebox.Slotted.Layout.{
  SlottedPage, Slot, IsValid, page_size, header_size, entries, num_slots, heap_end, payload,
  live_data,
}
use pagebox.Slotted.Suffix.{with_flags-Kept}
use pagebox.Slotted.Append.{cost, entry_bytes, cost-append, cost_lem, length-entries}
use pagebox.Slotted.Copy.{entry_range, copy_key_value_range_lem}
use pagebox.Btree.Node.{
  is_leaf_node, leaf_left_pid, leaf_right_pid, flag_is_leaf, left_sibling_offset,
  right_sibling_offset,
}
use pagebox.Btree.Split.{link_leaf, right_leaf, left_leaf}
use pagebox.Btree.Shape.{
  leaf_flags, init_node_leaf, reserve_suffix-Blank, link_leaf-Kept, link_leaf-links,
  link_leaf-flags, get_le_fits,
}

-- A valid page with the suffix of a leaf.
abbrev pub IsLeaf : SlottedPage → Type 0
IsLeaf p = IsValid p × (heap_end p ≡ page_size - 16)

-- A leaf with these entries and these links.
pub record LeafPage (q : SlottedPage) (es : List (List ℕ × List ℕ)) (l r : ℕ) : Type 0 where
  pub entries_are : entries q ≡ es
  pub left_is : leaf_left_pid q ≡ l
  pub right_is : leaf_right_pid q ≡ r
  pub marked : is_leaf_node q ≡ true
  pub leaf : IsLeaf q

entry_bytes-live : (p : SlottedPage) → entry_bytes (entries p) ≡ live_data p.slots
unfolding entries
entry_bytes-live p = go p.slots
  where
    go : (ss : List Slot) → entry_bytes (map (payload p.bytes) ss) ≡ live_data ss
    go [] = refl
    go (s ∷ ss) = omega (
      arith,
      go ss,
      length-read_bytes p.bytes s.offset s.key_len,
      length-read_bytes p.bytes (s.offset + s.key_len) s.val_len,
    )

-- What a page holds has room on a blank one with the same suffix.
pub page_fits :
    (p : SlottedPage) (n : ℕ)
    → IsValid p
    → heap_end p ≡ page_size - n
    → n ≤ 16
    → cost (entries p) ≤ page_size - (header_size + n)
page_fits p n v ends small = omega (
  arith,
  cost_lem (entries p),
  length-entries p,
  entry_bytes-live p,
  v.apart,
  v.room,
  v.counted,
  ends,
)

pub range_fits :
    (p : SlottedPage) (start count : ℕ) → cost (entry_range p start count) ≤ cost (entries p)
range_fits p start count =
    let es = entries p in
    omega (
      arith,
      ap cost (take-++-drop start es),
      cost-append (take start es) (drop start es),
      ap cost (take-++-drop count (drop start es)),
      cost-append (take count (drop start es)) (drop count (drop start es)),
    )

-- The links that a page holds fit.
module _ (p : SlottedPage) (v : IsValid p) where
  pub left_fits : leaf_left_pid p < 2 ^ 64
  unfolding leaf_left_pid
  left_fits = get_le_fits p.bytes left_sibling_offset v.is_bytes

  pub right_fits : leaf_right_pid p < 2 ^ 64
  unfolding leaf_right_pid
  right_fits = get_le_fits p.bytes right_sibling_offset v.is_bytes

-- A leaf page that gets its links and its flags.
pub linked :
    (q : SlottedPage) (es : List (List ℕ × List ℕ)) (l r flags : ℕ)
    → l < 2 ^ 64
    → r < 2 ^ 64
    → IsLeaf q
    → entries q ≡ es
    → (not (bit_and flags flag_is_leaf == 0)) ≡ true
    → LeafPage (record (link_leaf q l r) { flags = flags }) es l r
unfolding is_leaf_node leaf_left_pid leaf_right_pid
linked q es l r flags l_fits r_fits (v, ends) is marked =
    let kept = link_leaf-Kept q v ends l r in
    let links = link_leaf-links q v ends l r l_fits r_fits in
    let flagged = with_flags-Kept (link_leaf q l r) kept.valid flags in
    record {
      entries_are = flagged.same_entries ∙ kept.same_entries ∙ is;
      left_is = links.0;
      right_is = links.1;
      marked = marked;
      leaf = (flagged.valid, flagged.same_end ∙ kept.same_end ∙ ends);
    }

module _ (p : SlottedPage) (leaf : IsLeaf p) (start count l r : ℕ)
    (inside : start + count ≤ num_slots p) (l_fits : l < 2 ^ 64) (r_fits : r < 2 ^ 64) where
  room : cost (entry_range p start count) ≤ page_size - (header_size + 16)
  room = omega (arith, range_fits p start count, page_fits p 16 (leaf.0) (leaf.1) (omega arith))

  pub right_leaf_lem :
      (q : SlottedPage) × (right_leaf p start count l r ≡ some q)
      × LeafPage q (entry_range p start count) l r
  unfolding right_leaf
  right_leaf_lem =
      let (blank, made, b) = init_node_leaf in
      let (dst, copied, a) =
        copy_key_value_range_lem p (leaf.0) blank 0 start count b.valid b.tight b.no_slots inside
          (omega (arith, room, b.all_free)) in
      let filled : entries dst ≡ entry_range p start count =
        a.new_entries ∙ ap (λ es. es ++ entry_range p start count) b.no_entries in
      let flags : (link_leaf dst l r).flags ≡ leaf_flags =
        link_leaf-flags dst a.valid (a.same_end ∙ b.ends_at) l r ∙ a.same_flags ∙ b.flags_are in
      (
        link_leaf dst l r,
        rw (made, copied) refl,
        linked dst (entry_range p start count) l r (link_leaf dst l r).flags l_fits r_fits
            (a.valid, a.same_end ∙ b.ends_at) filled
            (ap (λ f. not (bit_and f flag_is_leaf == 0)) flags),
      )

module _ (p : SlottedPage) (leaf : IsLeaf p) (count l r : ℕ) (inside : count ≤ num_slots p)
    (l_fits : l < 2 ^ 64) (r_fits : r < 2 ^ 64) where
  pub left_leaf_lem :
      (q : SlottedPage) × (left_leaf p count l r ≡ some q) × LeafPage q (entry_range p 0 count) l r
  unfolding left_leaf
  left_leaf_lem =
      let (blank, made, b) = reserve_suffix-Blank 16 (omega arith) in
      let fits = room p leaf 0 count l r (omega arith) l_fits r_fits in
      let (dst, copied, a) =
        copy_key_value_range_lem p (leaf.0) blank 0 0 count b.valid b.tight b.no_slots (omega arith)
          (omega (arith, fits, b.all_free)) in
      let flagged = with_flags-Kept dst a.valid (bit_or dst.flags flag_is_leaf) in
      let tmp = link_leaf (record dst { flags = bit_or dst.flags flag_is_leaf }) l r in
      let filled : entries dst ≡ entry_range p 0 count =
        a.new_entries ∙ ap (λ es. es ++ entry_range p 0 count) b.no_entries in
      let ends = flagged.same_end ∙ a.same_end ∙ b.ends_at in
      let flags : with_type tmp.flags index ≡ leaf_flags =
        ap (λ f. with_type f index) (link_leaf-flags _ flagged.valid ends l r)
        ∙ ap (λ f. with_type (bit_or f flag_is_leaf) index) (a.same_flags ∙ b.flags_are) in
      (
        record tmp { flags = with_type tmp.flags index },
        rw (made, copied) refl,
        linked (record dst { flags = bit_or dst.flags flag_is_leaf }) (entry_range p 0 count) l r
            (with_type tmp.flags index) l_fits r_fits (flagged.valid, ends)
            (flagged.same_entries ∙ filled) (ap (λ f. not (bit_and f flag_is_leaf == 0)) flags),
      )
