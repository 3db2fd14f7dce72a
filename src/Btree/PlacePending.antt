-- ===== src/Btree/PlacePending.antt =====
-- Where the pending entry of a split leaf goes (`split_node` of `crates/btree/src/btree.rs`).
use pagebox.Base.{
  ◌>>=◌, ℕ, zero, suc, ◌≤◌, ◌<◌, ◌≡◌, ◌≢◌, ◌⊎◌, inl, inr, refl, sym, ap, ◌∙◌, subst, List, [], ◌∷◌,
  ◌++◌, some, none, Option, false, length, get_elem?, insert_at, All, All-insert_at,
  length-insert_at, arith,
}
use pagebox.Base.Ranges.{map-append, All-append}
use pagebox.Bytes.Memory.{IsByte}
use pagebox.Slotted.Layout.{SlottedPage, num_slots, entries}
use pagebox.Slotted.Ops.{can_insert}
use pagebox.Slotted.Accounts.{map-insert_at}
use pagebox.Slotted.Append.{length-entries}
use pagebox.Slotted.Bisect.{IsSorted, Precedes}
use pagebox.Slotted.LowerBound.{keys}
use pagebox.Slotted.Runs.{entry_keys, keys_lem}
use pagebox.Btree.Node.{leaf_left_pid, leaf_right_pid}
use pagebox.Btree.Chase.{greater_cases}
use pagebox.Btree.LeafPage.{IsLeaf}
use pagebox.Btree.Split.{PendingLeafEntry, SplitPages, insert_absent, place_pending}
use pagebox.Btree.SplitLeaf.{SplitApart}
use pagebox.Btree.TakeEntry.{Took, TakeAnswer, insert_absent_lem}

module _ {ℓ} {A : Type ℓ} where
  found_left :
      (xs ys : List A) (i : ℕ) {x : A} → get_elem? xs i ≡ some x → get_elem? (xs ++ ys) i ≡ some x
  found_left [] ys i e = cc
  found_left (y ∷ xs) ys zero e = e
  found_left (y ∷ xs) ys (suc i) e = found_left xs ys i e

  found_right :
      (xs ys : List A) (i : ℕ) {x : A}
      → get_elem? ys i ≡ some x
      → (at : ℕ) × (get_elem? (xs ++ ys) at ≡ some x)
  found_right [] ys i e = (i, e)
  found_right (y ∷ xs) ys i e = let (at, here) = found_right xs ys i e in (suc at, here)

  pub insert_left :
      (xs ys : List A) (r : ℕ) (x : A)
      → r ≤ length xs
      → insert_at xs r x ++ ys ≡ insert_at (xs ++ ys) r x
  insert_left xs ys zero x h = refl
  insert_left [] ys (suc r) x h = absurd (omega arith)
  insert_left (y ∷ xs) ys (suc r) x h = ap (◌∷◌ y) (insert_left xs ys r x (omega arith))

  insert_right :
      (xs ys : List A) (r : ℕ) (x : A)
      → (at : ℕ) × (xs ++ insert_at ys r x ≡ insert_at (xs ++ ys) at x)
  insert_right [] ys r x = (r, refl)
  insert_right (y ∷ xs) ys r x =
      let (at, same) = insert_right xs ys r x in (suc at, ap (◌∷◌ y) same)

-- Two leaves that hold the entries of one and a pending one in order, apart at a key, and linked to each other
-- and to its neighbours.
pub record PlacedApart (p : SlottedPage) (node_pid sibling_pid : ℕ) (e : PendingLeafEntry)
    (s : SplitPages) : Type 0 where
  pub at : ℕ
  pub all_entries : entries s.left ++ entries s.right ≡ insert_at (entries p) at (e.key, e.value)
  pub left_below : All (λ k. ¬ Precedes s.sep_key k) (keys s.left)
  pub right_above : All (λ k. Precedes s.sep_key k) (keys s.right)
  pub sorted : IsSorted (keys s.left) × IsSorted (keys s.right)
  pub left_links : (leaf_left_pid s.left ≡ leaf_left_pid p) × (leaf_right_pid s.left ≡ sibling_pid)
  pub right_links : (leaf_left_pid s.right ≡ node_pid) × (leaf_right_pid s.right ≡ leaf_right_pid p)
  pub leaves : IsLeaf s.left × IsLeaf s.right
  pub filled : (0 < num_slots s.left) × (0 < num_slots s.right)

-- A leaf that took an entry has one.
Took-filled : (q q' : SlottedPage) (e : PendingLeafEntry) → Took q q' e → 0 < num_slots q'
Took-filled q q' e t = omega (
  arith,
  length-entries q',
  ap length t.new_entries,
  length-insert_at (entries q) t.at (e.key, e.value),
)

-- The half of the pending entry's key.
abbrev pub HalfOf : SplitPages → List ℕ → SlottedPage → Type 0
HalfOf s key half =
    ((half ≡ s.left) × ¬ Precedes s.sep_key key) ⊎ ((half ≡ s.right) × Precedes s.sep_key key)

-- The keys of a leaf that took an entry.
Took-keys :
    (q q' : SlottedPage) (e : PendingLeafEntry) (t : Took q q' e)
    → keys q' ≡ insert_at (keys q) t.at e.key
Took-keys q q' e t =
    keys_lem q'
    ∙ ap entry_keys t.new_entries
    ∙ map-insert_at (λ x. x.0) (entries q) t.at (e.key, e.value)
    ∙ ap (λ ks. insert_at ks t.at e.key) (sym (keys_lem q))

module _ (p : SlottedPage) (node_pid sibling_pid : ℕ) (s : SplitPages)
    (apart : SplitApart p node_pid sibling_pid s) (e : PendingLeafEntry) where
  -- The key is there, or it is not and its half has no room, or its half takes the entry.
  abbrev pub PlaceAnswer : Option SplitPages → Type 0
  PlaceAnswer run =
      ((at : ℕ) × (get_elem? (keys p) at ≡ some e.key) × (run ≡ none))
      ⊎ (All (λ k. k ≢ e.key) (keys p)
          × (((half : SlottedPage) × HalfOf s e.key half
                × (can_insert half (length e.key) (length e.value) ≡ false)
                × (run ≡ none))
              ⊎ ((s' : SplitPages) × (run ≡ some s') × PlacedApart p node_pid sibling_pid e s')))

  both_keys : keys s.left ++ keys s.right ≡ keys p
  both_keys =
      ap (λ ks. ks ++ keys s.right) (keys_lem s.left)
      ∙ ap (λ ks. entry_keys (entries s.left) ++ ks) (keys_lem s.right)
      ∙ sym (map-append (λ x. x.0) (entries s.left) (entries s.right))
      ∙ ap entry_keys apart.all_entries
      ∙ sym (keys_lem p)

  absent_both :
      All (λ k. k ≢ e.key) (keys s.left)
      → All (λ k. k ≢ e.key) (keys s.right)
      → All (λ k. k ≢ e.key) (keys p)
  absent_both l r =
      subst (All (λ k. k ≢ e.key)) both_keys
        (All-append (λ k. k ≢ e.key) (keys s.left) (keys s.right) l r)

  All-map :
      {P Q : List ℕ → Type 0} (ks : List (List ℕ))
      → ((k : List ℕ) → P k → Q k)
      → All P ks
      → All Q ks
  All-map [] f all = tt
  All-map (k ∷ ks) f all = (f k (all.0), All-map ks f (all.1))

  place_right :
      Precedes s.sep_key e.key
      → 0 < num_slots s.left
      → TakeAnswer (insert_absent s.right e) s.right e
      → PlaceAnswer (insert_absent s.right e >>= λ right. some (record s { right = right }))
  place_right behind filled (inl (i, here, runs)) =
      let (at, found) = found_right (keys s.left) (keys s.right) i here in
      inl (at, ap (λ ks. get_elem? ks at) (sym both_keys) ∙ found, rw runs refl)
  place_right behind filled (inr (absent, answer)) =
      let others =
        All-map (keys s.left)
          (λ k not_behind same. not_behind (subst (Precedes s.sep_key) (sym same) behind))
          apart.left_below in
      inr (
        absent_both others absent,
        elim answer [
          | inl (full, runs) ↦ inl (s.right, inr (refl, behind), full, rw runs refl)
          | inr (q', runs, t) ↦ inr (record s { right = q' }, rw runs refl, placed q' t)
        ],
      )
    where
      placed :
          (q' : SlottedPage)
          → Took s.right q' e
          → PlacedApart p node_pid sibling_pid e (record s { right = q' })
      placed q' t =
          let (at, same) = insert_right (entries s.left) (entries s.right) t.at (e.key, e.value) in
          record {
            at = at;
            all_entries =
                ap (λ es. entries s.left ++ es) t.new_entries
                ∙ same
                ∙ ap (λ es. insert_at es at (e.key, e.value)) apart.all_entries;
            left_below = apart.left_below;
            right_above = subst (All (λ k. Precedes s.sep_key k)) (sym (Took-keys s.right q' e t)) (
                All-insert_at (λ k. Precedes s.sep_key k) (keys s.right) t.at e.key behind
                  apart.right_above);
            sorted = (apart.left_sorted, t.sorted);
            left_links = apart.left_links;
            right_links = (t.links.0 ∙ apart.right_links.0, t.links.1 ∙ apart.right_links.1);
            leaves = (apart.left_leaf_page.0, t.leaf);
            filled = (filled, Took-filled s.right q' e t);
          }

  place_left :
      ¬ Precedes s.sep_key e.key
      → (All (λ k. k ≢ e.key) (keys p) → 0 < num_slots s.right)
      → TakeAnswer (insert_absent s.left e) s.left e
      → PlaceAnswer (insert_absent s.left e >>= λ left. some (record s { left = left }))
  place_left before filled (inl (i, here, runs)) = inl (
    i,
    ap (λ ks. get_elem? ks i) (sym both_keys) ∙ found_left (keys s.left) (keys s.right) i here,
    rw runs refl,
  )
  place_left before filled (inr (absent, answer)) =
      let others =
        All-map (keys s.right) (λ k behind same. before (subst (Precedes s.sep_key) same behind))
          apart.right_above in
      inr (
        absent_both absent others,
        elim answer [
          | inl (full, runs) ↦ inl (s.left, inl (refl, before), full, rw runs refl)
          | inr (q', runs, t) ↦ inr (
            record s { left = q' },
            rw runs refl,
            placed (filled (absent_both absent others)) q' t,
          )
        ],
      )
    where
      placed :
          0 < num_slots s.right
          → (q' : SlottedPage) → Took s.left q' e
          → PlacedApart p node_pid sibling_pid e (record s { left = q' })
      placed other q' t = record {
        at = t.at;
        all_entries =
            ap (λ es. es ++ entries s.right) t.new_entries
            ∙ insert_left (entries s.left) (entries s.right) t.at (e.key, e.value) t.at_fits
            ∙ ap (λ es. insert_at es t.at (e.key, e.value)) apart.all_entries;
        left_below = subst (All (λ k. ¬ Precedes s.sep_key k)) (sym (Took-keys s.left q' e t)) (
            All-insert_at (λ k. ¬ Precedes s.sep_key k) (keys s.left) t.at e.key before
              apart.left_below);
        right_above = apart.right_above;
        sorted = (t.sorted, apart.right_sorted);
        left_links = (t.links.0 ∙ apart.left_links.0, t.links.1 ∙ apart.left_links.1);
        right_links = apart.right_links;
        leaves = (t.leaf, apart.right_leaf_page.0);
        filled = (Took-filled s.left q' e t, other);
      }

  pub place_pending_lem :
      IsSorted (keys s.left)
      → All IsByte e.key
      → All IsByte e.value
      → 0 < num_slots s.left
      → (¬ Precedes s.sep_key e.key → All (λ k. k ≢ e.key) (keys p) → 0 < num_slots s.right)
      → PlaceAnswer (place_pending s e)
  unfolding place_pending
  place_pending_lem sorted kb vb left_filled right_filled = elim (greater_cases e.key s.sep_key) [
    | inl (greater, behind) ↦
        let run = insert_absent s.right e >>= λ right. some (record s { right = right }) in
        let same : run ≡ place_pending s e = rw greater refl in
        subst PlaceAnswer same (
          place_right behind left_filled
            (insert_absent_lem s.right (apart.right_leaf_page.0) apart.right_sorted e kb vb))
    | inr (not_greater, before) ↦
        let run = insert_absent s.left e >>= λ left. some (record s { left = left }) in
        let same : run ≡ place_pending s e = rw not_greater refl in
        subst PlaceAnswer same (
          place_left before (right_filled before)
            (insert_absent_lem s.left (apart.left_leaf_page.0) sorted e kb vb))
  ]
