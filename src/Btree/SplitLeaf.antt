-- ===== src/Btree/SplitLeaf.antt =====
-- The halves of a split leaf (`crates/btree/src/btree.rs`).
use mathlib.Core.Option
use mathlib.Core.Option.{some-injective}
use pagebox.Base.{
  ℕ, ◌+◌, ◌-◌, ◌/◌, ◌^◌, ◌≤◌, ◌<◌, ◌≡◌, ◌≢◌, ◌⊎◌, refl, sym, ap, ◌∙◌, subst, inl, inr, List, ◌++◌,
  some, none, Option, true, false, arith, get_elem?, get_elem?-some, take, drop, All, ltb, ◌==◌,
}
use pagebox.Base.Ranges.{take-++-drop, take-drop_rest}
use pagebox.Slotted.Layout.{SlottedPage, entries, num_slots, get_key}
use pagebox.Slotted.LowerBound.{keys}
use pagebox.Slotted.Edit.{get_lem}
use pagebox.Slotted.Append.{length-entries}
use pagebox.Slotted.Copy.{entry_range}
use pagebox.Btree.Node.{is_leaf_node, leaf_left_pid, leaf_right_pid}
use pagebox.Btree.Split.{SplitPages, split_leaf_at}
use pagebox.Base.Ranges.{map-drop}
use pagebox.Slotted.Accounts.{map-take, get_elem?-map}
use pagebox.Slotted.Bisect.{IsSorted, Precedes}
use pagebox.Slotted.Runs.{
  entry_keys, keys_lem, take-IsSorted, drop-IsSorted, take-Precedes, drop-Precedes,
}
use pagebox.Btree.Split.{PendingLeafEntry, split_leaf}
use pagebox.Btree.LeafPage.{IsLeaf, LeafPage, right_leaf_lem, left_leaf_lem, left_fits, right_fits}

-- A leaf split behind a slot: both halves, and the key of the slot.
pub record Halves (p : SlottedPage) (node_pid sibling_pid split_pos : ℕ) (s : SplitPages)
    : Type 0 where
  pub left_half : LeafPage s.left (take (split_pos + 1) (entries p)) (leaf_left_pid p) sibling_pid
  pub right_half : LeafPage s.right (drop (split_pos + 1) (entries p)) node_pid (leaf_right_pid p)
  pub between : (value : List ℕ) × (get_elem? (entries p) split_pos ≡ some (s.sep_key, value))

module _ (p : SlottedPage) (leaf : IsLeaf p) (node_pid sibling_pid : ℕ)
    (node_fits : node_pid < 2 ^ 64) (sibling_fits : sibling_pid < 2 ^ 64) where
  pub split_leaf_at_lem :
      (split_pos : ℕ)
      → split_pos < num_slots p
      → (s : SplitPages) × (split_leaf_at p node_pid sibling_pid split_pos ≡ some s)
        × Halves p node_pid sibling_pid split_pos s
  unfolding split_leaf_at
  split_leaf_at_lem split_pos inside =
      let start = split_pos + 1 in
      let count = num_slots p - start in
      let size = length-entries p in
      let (e, here) = get_elem?-some (entries p) split_pos (omega (arith, size, inside)) in
      let key : get_key p split_pos ≡ some (e.0) =
        (get_lem p split_pos (leaf.0)).0 ∙ ap (λ o. Option.map (λ q. q.0) o) here in
      let (right, made_right, r) =
        right_leaf_lem p leaf start count node_pid (leaf_right_pid p) (omega arith) node_fits
          (right_fits p (leaf.0)) in
      let (left, made_left, l) =
        left_leaf_lem p leaf start (leaf_left_pid p) sibling_pid (omega arith)
          (left_fits p (leaf.0)) sibling_fits in
      let rest : entry_range p start count ≡ drop start (entries p) =
        take-drop_rest start count (entries p) (omega (arith, size)) in
      (
        record { left = left; right = right; sep_key = e.0 },
        rw (key, made_right, made_left) refl,
        record {
          left_half = l;
          right_half = subst (λ es. LeafPage right es node_pid (leaf_right_pid p)) rest r;
          between = (e.1, here);
        },
      )

-- Two leaves that hold the entries of one in order, apart at a key, and linked to each other and to its
-- neighbours.
pub record SplitApart (p : SlottedPage) (node_pid sibling_pid : ℕ) (s : SplitPages) : Type 0 where
  pub all_entries : entries s.left ++ entries s.right ≡ entries p
  pub left_below : All (λ k. ¬ Precedes s.sep_key k) (keys s.left)
  pub right_above : All (λ k. Precedes s.sep_key k) (keys s.right)
  pub left_sorted : IsSorted (keys s.left)
  pub right_sorted : IsSorted (keys s.right)
  pub left_links : (leaf_left_pid s.left ≡ leaf_left_pid p) × (leaf_right_pid s.left ≡ sibling_pid)
  pub right_links : (leaf_left_pid s.right ≡ node_pid) × (leaf_right_pid s.right ≡ leaf_right_pid p)
  pub left_leaf_page : IsLeaf s.left × (is_leaf_node s.left ≡ true)
  pub right_leaf_page : IsLeaf s.right × (is_leaf_node s.right ≡ true)

keys_of : (q : SlottedPage) (es : List (List ℕ × List ℕ)) → entries q ≡ es → keys q ≡ entry_keys es
keys_of q es e = keys_lem q ∙ ap entry_keys e

pub Halves-SplitApart :
    (p : SlottedPage) (node_pid sibling_pid split_pos : ℕ) (s : SplitPages)
    → IsSorted (keys p)
    → Halves p node_pid sibling_pid split_pos s
    → SplitApart p node_pid sibling_pid s
Halves-SplitApart p node_pid sibling_pid split_pos s sorted h =
    let n = split_pos + 1 in
    let es = entries p in
    let l = h.left_half in
    let r = h.right_half in
    let left_keys : keys s.left ≡ take n (keys p) =
      keys_of s.left (take n es) l.entries_are
      ∙ map-take (λ e. e.0) n es
      ∙ ap (take n) (sym (keys_lem p)) in
    let right_keys : keys s.right ≡ drop n (keys p) =
      keys_of s.right (drop n es) r.entries_are
      ∙ map-drop (λ e. e.0) n es
      ∙ ap (drop n) (sym (keys_lem p)) in
    let at : get_elem? (keys p) split_pos ≡ some s.sep_key =
      ap (λ ks. get_elem? ks split_pos) (keys_lem p)
      ∙ get_elem?-map (λ e. e.0) es split_pos ((h.between).1) in
    record {
      all_entries =
          ap (λ xs. xs ++ entries s.right) l.entries_are
          ∙ ap (λ xs. take n es ++ xs) r.entries_are
          ∙ take-++-drop n es;
      left_below =
          subst (All (λ k. ¬ Precedes s.sep_key k)) (sym left_keys)
            (take-Precedes (keys p) sorted n s.sep_key split_pos at refl);
      right_above =
          subst (All (λ k. Precedes s.sep_key k)) (sym right_keys)
            (drop-Precedes (keys p) sorted n s.sep_key split_pos at refl);
      left_sorted = subst IsSorted (sym left_keys) (take-IsSorted (keys p) sorted n);
      right_sorted = subst IsSorted (sym right_keys) (drop-IsSorted (keys p) sorted n);
      left_links = (l.left_is, l.right_is);
      right_links = (r.left_is, r.right_is);
      left_leaf_page = (l.leaf, l.marked);
      right_leaf_page = (r.leaf, r.marked);
    }

-- A leaf of two entries or more with ascending keys splits without a panic where no entry is pending or
-- there are not just two: into two leaves that hold its entries in order, the keys of the first not greater
-- than the separator and those of the second greater, both linked to each other and to its neighbours.
pub split_leaf_lem :
    (p : SlottedPage) (node_pid sibling_pid : ℕ) (pending : Option PendingLeafEntry)
    → IsLeaf p
    → IsSorted (keys p)
    → node_pid < 2 ^ 64
    → sibling_pid < 2 ^ 64
    → 2 ≤ num_slots p
    → (pending ≡ none) ⊎ (num_slots p ≢ 2)
    → (s : SplitPages) × (split_leaf p node_pid sibling_pid pending ≡ some (some (s, false)))
      × SplitApart p node_pid sibling_pid s
unfolding split_leaf
split_leaf_lem p node_pid sibling_pid pending leaf sorted node_fits sibling_fits two not_small =
    let split_pos = num_slots p / 2 in
    let (s, runs, h) =
      split_leaf_at_lem p leaf node_pid sibling_pid node_fits sibling_fits split_pos
        (omega arith) in
    let many : ltb (num_slots p) 2 ≡ false = ground arith in
    (
      s,
      go pending not_small many runs,
      Halves-SplitApart p node_pid sibling_pid split_pos s sorted h,
    )
  where
    go :
        (pending' : Option PendingLeafEntry)
        → (pending' ≡ none) ⊎ (num_slots p ≢ 2)
        → {s : SplitPages} → ltb (num_slots p) 2 ≡ false
        → split_leaf_at p node_pid sibling_pid (num_slots p / 2) ≡ some s
        → split_leaf p node_pid sibling_pid pending' ≡ some (some (s, false))
    go none h many runs = rw (many, runs) refl
    go (some e) (inl h) many runs = cc
    go (some e) (inr other) many runs =
        let not_two : (num_slots p == 2) ≡ false = ground arith in rw (many, not_two, runs) refl
