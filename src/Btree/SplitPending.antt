-- ===== src/Btree/SplitPending.antt =====
-- The split of a leaf of two entries for a pending one (`split_node` of `crates/btree/src/btree.rs`).
use mathlib.Core.Option
use pagebox.Slotted.Edit.{get_lem}
use mathlib.Core.Option.{some-injective}
use pagebox.Base.{
  ℕ, suc, ◌^◌, ◌≤◌, ◌<◌, ◌≡◌, ◌≢◌, ◌⊎◌, inl, inr, refl, sym, ap, ◌∙◌, subst, List, some, none, Bool,
  true, false, length, get_elem?, get_elem?-some, if◌then◌else◌, All, All-get_elem?, length-take,
  ◌+◌, arith, ltb, ◌==◌,
}
use pagebox.Base.Ranges.{length-drop}
use pagebox.Bytes.Memory.{IsByte}
use pagebox.Bytes.BigEndian.{cmp_keys, cmp_keys-eq, cmp_keys_flip}
use Prim.Native.Nat.{Ordering}
use pagebox.Slotted.Layout.{SlottedPage, num_slots, entries, get_key}
use pagebox.Slotted.Ops.{can_insert}
use pagebox.Slotted.Accounts.{get_elem?-map}
use pagebox.Slotted.Append.{length-entries}
use pagebox.Slotted.Bisect.{IsSorted, Precedes}
use pagebox.Slotted.LowerBound.{keys}
use pagebox.Slotted.Runs.{keys_lem}
use pagebox.Btree.LeafPage.{IsLeaf}
use pagebox.Btree.Split.{PendingLeafEntry, SplitPages, is_less, split_small_leaf, split_leaf}
use pagebox.Btree.SplitLeaf.{Halves, SplitApart, split_leaf_at_lem, Halves-SplitApart}
use pagebox.Btree.PlacePending.{PlacedApart, HalfOf, place_pending_lem}

-- What the split of a leaf of two entries for a pending one gives.
abbrev pub PendingAnswer : SlottedPage → ℕ → ℕ → PendingLeafEntry → SplitPages → Type 0
PendingAnswer p node_pid sibling_pid e s =
    ((at : ℕ) × (get_elem? (keys p) at ≡ some e.key)
      × (split_leaf p node_pid sibling_pid (some e) ≡ none))
    ⊎ (All (λ k. k ≢ e.key) (keys p)
        × (((half : SlottedPage) × HalfOf s e.key half
              × (can_insert half (length e.key) (length e.value) ≡ false)
              × (split_leaf p node_pid sibling_pid (some e) ≡ none))
            ⊎ ((s' : SplitPages) × (split_leaf p node_pid sibling_pid (some e)
                  ≡ some (some (s', true)))
                × PlacedApart p node_pid sibling_pid e s')))

-- Where a leaf of two entries is cut: before its second key for a pending one that is less, else behind it.
abbrev pub CutFor : SlottedPage → List ℕ → SplitPages → Type 0
CutFor p key s =
    (second : List ℕ) × (get_elem? (keys p) 1 ≡ some second)
    × ((Precedes key second × (num_slots s.left ≡ 1))
        ⊎ (¬ Precedes key second × (num_slots s.left ≡ 2)))

less-Precedes : (a b : List ℕ) → is_less (cmp_keys a b) ≡ true → Precedes a b
less-Precedes a b = go (cmp_keys a b)
  where
    go : (o : Ordering) → is_less o ≡ true → o ≡ Ordering.lt
    go Ordering.lt e = refl
    go Ordering.eq e = cc
    go Ordering.gt e = cc

not_less-Precedes : (a b : List ℕ) → is_less (cmp_keys a b) ≡ false → ¬ Precedes a b
not_less-Precedes a b e before = go (ap is_less (sym before) ∙ e)
  where
    go : true ≡ false → ⊥
    go h = cc

-- A key that is not below another and not above it is that key.
same_key : (a b : List ℕ) → ¬ Precedes a b → ¬ Precedes b a → a ≡ b
same_key a b not_before not_behind = go (cmp_keys a b) refl
  where
    go : (o : Ordering) → cmp_keys a b ≡ o → a ≡ b
    go Ordering.lt e = absurd (not_before e)
    go Ordering.eq e = cmp_keys-eq a b e
    go Ordering.gt e = absurd (not_behind (cmp_keys_flip a b e))

-- The cut leaves an entry on the left, and on the right too unless the pending one goes there.
module _ (p : SlottedPage) (node_pid sibling_pid : ℕ) (e : PendingLeafEntry) (s : SplitPages)
    (two : num_slots p ≡ 2) (last value : List ℕ)
    (there : get_elem? (entries p) 1 ≡ some (last, value)) where
  last_key : get_elem? (keys p) 1 ≡ some last
  last_key = ap (λ ks. get_elem? ks 1) (keys_lem p) ∙ get_elem?-map (λ x. x.0) (entries p) 1 there

  cut_sizes :
      (at : ℕ)
      → Halves p node_pid sibling_pid at s
      → at ≤ 1
      → (num_slots s.left ≡ suc at) × (num_slots s.right + at ≡ 1)
  cut_sizes at h low =
      let total : length (entries p) ≡ 2 = length-entries p ∙ two in
      (
        omega (
          arith,
          length-entries s.left,
          ap length (h.left_half).entries_are,
          length-take (at + 1) (entries p),
          total,
          low,
        ),
        omega (
          arith,
          length-entries s.right,
          ap length (h.right_half).entries_are,
          length-drop (at + 1) (entries p),
          total,
          low,
        ),
      )

  cut_lem :
      (before : Bool)
      → is_less (cmp_keys e.key last) ≡ before
      → Halves p node_pid sibling_pid (if before then 0 else 1) s
      → CutFor p e.key s
        × (0 < num_slots s.left)
        × (¬ Precedes s.sep_key e.key → All (λ k. k ≢ e.key) (keys p) → 0 < num_slots s.right)
  cut_lem true less h =
      let (left, right) = cut_sizes 0 h (omega arith) in
      (
        (last, last_key, inl (less-Precedes e.key last less, left)),
        omega (arith, left),
        λ _ _. omega (arith, right),
      )
  cut_lem false not_less h =
      let (left, right) = cut_sizes 1 h (omega arith) in
      let not_before = not_less-Precedes e.key last not_less in
      let sep_is : last ≡ s.sep_key =
        ap (λ x. x.0) (some-injective _ _ (sym there ∙ (h.between).1)) in
      (
        (last, last_key, inr (not_before, left)),
        omega (arith, left),
        λ not_behind absent. absurd (
            All-get_elem? (λ k. k ≢ e.key) (keys p) 1 absent last_key
              (sym (
                same_key e.key last not_before
                  (subst (λ k. ¬ Precedes k e.key) (sym sep_is) not_behind)))),
      )

-- A leaf of two entries with ascending keys is cut before its second key for a pending entry whose key is less,
-- and behind it otherwise, into halves apart at a key; then the entry goes to the half of its key. The split
-- panics where the key is in the leaf already, as it is for an upsert that needs more room than its old entry
-- had, and where the half of the key has no room for the entry. Otherwise both halves have an entry, and they
-- hold the entries of the leaf and the pending one in order, linked to each other and its neighbours.
pub split_small_leaf_lem :
    (p : SlottedPage) (node_pid sibling_pid : ℕ) (e : PendingLeafEntry)
    → IsLeaf p
    → IsSorted (keys p)
    → node_pid < 2 ^ 64
    → sibling_pid < 2 ^ 64
    → num_slots p ≡ 2
    → All IsByte e.key
    → All IsByte e.value
    → (s : SplitPages) × CutFor p e.key s
      × SplitApart p node_pid sibling_pid s
      × PendingAnswer p node_pid sibling_pid e s
unfolding split_leaf split_small_leaf
split_small_leaf_lem p node_pid sibling_pid e leaf sorted node_fits sibling_fits two kb vb =
    let (last, key_there) = get_elem?-some (entries p) 1 (omega (arith, two, length-entries p)) in
    let key : get_key p 1 ≡ some (last.0) =
      (get_lem p 1 (leaf.0)).0 ∙ ap (λ o. Option.map (λ q. q.0) o) key_there in
    let few : ltb (num_slots p) 2 ≡ false = ground arith in
    let both : (num_slots p == 2) ≡ true = ground arith in
    let split_pos = if is_less (cmp_keys e.key (last.0)) then 0 else 1 in
    let (s, runs, h) =
      split_leaf_at_lem p leaf node_pid sibling_pid node_fits sibling_fits split_pos
        (omega (arith, two, low (is_less (cmp_keys e.key (last.0))))) in
    let apart = Halves-SplitApart p node_pid sibling_pid split_pos s sorted h in
    let (cut, left_filled, right_filled) =
      cut_lem p node_pid sibling_pid e s two (last.0) (last.1) key_there
        (is_less (cmp_keys e.key (last.0))) refl h in
    (
      s,
      cut,
      apart,
      elim (place_pending_lem p node_pid sibling_pid s apart e apart.left_sorted kb vb left_filled
          right_filled) [
            | inl (at, here, panics) ↦ inl (at, here, rw (few, both, key, runs, panics) refl)
            | inr (absent, inl (half, which, full, panics)) ↦
                inr (absent, inl (half, which, full, rw (few, both, key, runs, panics) refl))
            | inr (absent, inr (s', placed, ok)) ↦
                inr (absent, inr (s', rw (few, both, key, runs, placed) refl, ok))
          ],
    )
  where
    low : (b : Bool) → (if b then 0 else 1) ≤ 1
    low true = omega arith
    low false = omega arith
