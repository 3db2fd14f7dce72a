-- ===== src/Btree/SplitInner.antt =====
-- The halves of a split inner node (`crates/btree/src/btree.rs`).
use Prim.Native.Nat.{bit_and}
use mathlib.Core.Option
use pagebox.Base.{
  ℕ, ◌≤◌, ◌+◌, ◌-◌, ◌<◌, ◌≡◌, refl, sym, ap, ◌∙◌, subst, inl, inr, List, [], ◌∷◌, ◌++◌, map, some,
  none, true, false, arith, length, get_elem?, get_elem?-some, take, drop, All, ltb, ◌==◌,
}
use pagebox.Bytes.LittleEndian.{from_le_bytes}
use pagebox.Header.PageType.{index, with_type}
use pagebox.Slotted.Layout.{SlottedPage, entries, num_slots, get_key}
use pagebox.Slotted.Edit.{get_lem}
use pagebox.Slotted.Append.{length-entries}
use pagebox.Slotted.Copy.{entry_range}
use pagebox.Btree.Node.{is_leaf_node, upper_swip, set_upper, flag_is_leaf}
use pagebox.Btree.Route.{IsInner}
use native.Mathlib.Decide.{dec_lt}
use pagebox.Base.{◌/◌, All-take, ◌⊎◌}
use pagebox.Base.Ranges.{take-around, map-append, take-drop_rest, map-drop, All-drop}
use pagebox.Slotted.Accounts.{map-take, get_elem?-map}
use pagebox.Slotted.Append.{append_assoc}
use pagebox.Slotted.Bisect.{IsSorted, Precedes}
use pagebox.Slotted.LowerBound.{keys}
use pagebox.Slotted.Runs.{
  entry_keys, keys_lem, take-IsSorted, drop-IsSorted, take-Precedes_all, drop-Precedes,
}
use pagebox.Btree.Split.{SplitPages, split_inner_at, split_inner}
use pagebox.Btree.Shape.{inner_flags, init_node_inner, reserve_suffix-Blank}
use pagebox.Btree.InnerPage.{
  swip_in, child_swips, IsInnerPage, InnerPage, upper_swip_fits, swip_in_fits, child_swip_at_lem,
  copy_separators_lem, built_inner,
}

-- An inner node split at a separator.
pub record InnerHalves (p : SlottedPage) (split_pos : ℕ) (s : SplitPages) : Type 0 where
  pub between : List ℕ
  pub at : get_elem? (entries p) split_pos ≡ some (s.sep_key, between)
  pub left_half : InnerPage s.left (take split_pos (entries p)) (from_le_bytes between)
  pub right_half : InnerPage s.right (drop (split_pos + 1) (entries p)) (upper_swip p)

pub split_inner_at_lem :
    (p : SlottedPage) (split_pos : ℕ)
    → IsInnerPage p
    → split_pos < num_slots p
    → (s : SplitPages) × (split_inner_at p split_pos ≡ some s) × InnerHalves p split_pos s
unfolding split_inner_at
split_inner_at_lem p split_pos (v, ends, inner) inside =
    let start = split_pos + 1 in
    let count = num_slots p - start in
    let size = length-entries p in
    let (e, here) = get_elem?-some (entries p) split_pos (omega (arith, size, inside)) in
    let key : get_key p split_pos ≡ some (e.0) =
      (get_lem p split_pos v).0 ∙ ap (λ o. Option.map (λ q. q.0) o) here in
    let child = child_swip_at_lem p v inner split_pos e here in
    let child_fits = swip_in_fits p v inner split_pos e here in
    let (blank_right, made_right, b) = init_node_inner in
    let (right, copied_right, r) =
      copy_separators_lem p v blank_right start count inner_flags ends b (omega arith) in
    let (blank_left, made_left, c) = reserve_suffix-Blank 8 (omega arith) in
    let (left, copied_left, l) =
      copy_separators_lem p v blank_left 0 split_pos 0 ends c (omega arith) in
    let rest : entry_range p start count ≡ drop start (entries p) =
      take-drop_rest start count (entries p) (omega (arith, size)) in
    (
      record {
        left = set_upper (record left { flags = with_type left.flags index }) (swip_in e);
        right = set_upper right (upper_swip p);
        sep_key = e.0;
      },
      rw (key, made_right, copied_right, made_left, copied_left, child) refl,
      record {
        between = e.1;
        at = here;
        left_half =
            built_inner left (take split_pos (entries p)) (with_type left.flags index) (swip_in e)
              l.valid (l.same_end ∙ c.ends_at)
              (l.new_entries ∙ ap (λ es. es ++ entry_range p 0 split_pos) c.no_entries)
              (ap (λ f. bit_and (with_type f index) flag_is_leaf == 0) (l.same_flags ∙ c.flags_are))
              child_fits;
        right_half =
            built_inner right (drop start (entries p)) right.flags (upper_swip p) r.valid
              (r.same_end ∙ b.ends_at)
              (r.new_entries ∙ ap (λ es. es ++ entry_range p start count) b.no_entries ∙ rest)
              (ap (λ f. bit_and f flag_is_leaf == 0) (r.same_flags ∙ b.flags_are))
              (upper_swip_fits p v);
      },
    )

-- Two inner nodes that hold the separators and the children of one in order, but for the separator between
-- them.
pub record SplitBetween (p : SlottedPage) (s : SplitPages) : Type 0 where
  pub all_keys : keys s.left ++ (s.sep_key ∷ keys s.right) ≡ keys p
  pub all_children : child_swips s.left ++ child_swips s.right ≡ child_swips p
  pub left_below : All (λ k. Precedes k s.sep_key) (keys s.left)
  pub right_above : All (λ k. Precedes s.sep_key k) (keys s.right)
  pub left_sorted : IsSorted (keys s.left)
  pub right_sorted : IsSorted (keys s.right)
  pub left_inner_page : IsInnerPage s.left × (is_leaf_node s.left ≡ false)
  pub right_inner_page : IsInnerPage s.right × (is_leaf_node s.right ≡ false)

module _ (p : SlottedPage) (split_pos : ℕ) (s : SplitPages) (h : InnerHalves p split_pos s) where
  left_keys : keys s.left ≡ take split_pos (keys p)
  left_keys =
      keys_lem s.left
      ∙ ap entry_keys (h.left_half).entries_are
      ∙ map-take (λ e. e.0) split_pos (entries p)
      ∙ ap (take split_pos) (sym (keys_lem p))

  right_keys : keys s.right ≡ drop (split_pos + 1) (keys p)
  right_keys =
      keys_lem s.right
      ∙ ap entry_keys (h.right_half).entries_are
      ∙ map-drop (λ e. e.0) (split_pos + 1) (entries p)
      ∙ ap (drop (split_pos + 1)) (sym (keys_lem p))

  sep_there : get_elem? (keys p) split_pos ≡ some s.sep_key
  sep_there =
      ap (λ ks. get_elem? ks split_pos) (keys_lem p)
      ∙ get_elem?-map (λ e. e.0) (entries p) split_pos h.at

  children_around : child_swips s.left ++ child_swips s.right ≡ child_swips p
  children_around =
      let es = entries p in
      let b = from_le_bytes h.between in
      let u = upper_swip p in
      let A = map swip_in (take split_pos es) in
      let B = map swip_in (drop (split_pos + 1) es) in
      let left_is : child_swips s.left ≡ A ++ (b ∷ []) =
        ap (λ xs. map swip_in xs ++ (upper_swip s.left ∷ [])) (h.left_half).entries_are
        ∙ ap (λ x. A ++ (x ∷ [])) (h.left_half).upper_is in
      let right_is : child_swips s.right ≡ B ++ (u ∷ []) =
        ap (λ xs. map swip_in xs ++ (upper_swip s.right ∷ [])) (h.right_half).entries_are
        ∙ ap (λ x. B ++ (x ∷ [])) (h.right_half).upper_is in
      let middle : A ++ (b ∷ B) ≡ map swip_in es =
        sym (
          map-append swip_in (take split_pos es) ((s.sep_key, h.between) ∷ drop (split_pos + 1) es))
        ∙ ap (map swip_in) (take-around es split_pos h.at) in
      ap (λ xs. xs ++ child_swips s.right) left_is
      ∙ ap (λ xs. (A ++ (b ∷ [])) ++ xs) right_is
      ∙ sym (append_assoc (A ++ (b ∷ [])) B (u ∷ []))
      ∙ ap (λ xs. xs ++ (u ∷ [])) (append_assoc A (b ∷ []) B ∙ middle)

  pub halves_between : IsInner p → IsSorted (keys p) → SplitBetween p s
  halves_between inner sorted =
      let l = h.left_half in
      let r = h.right_half in
      record {
        all_keys =
            ap (λ ks. ks ++ (s.sep_key ∷ keys s.right)) left_keys
            ∙ ap (λ ks. take split_pos (keys p) ++ (s.sep_key ∷ ks)) right_keys
            ∙ take-around (keys p) split_pos sep_there;
        all_children = children_around;
        left_below =
            subst (All (λ k. Precedes k s.sep_key)) (sym left_keys)
              (take-Precedes_all (keys p) sorted split_pos s.sep_key sep_there);
        right_above =
            subst (All (λ k. Precedes s.sep_key k)) (sym right_keys)
              (drop-Precedes (keys p) sorted (split_pos + 1) s.sep_key split_pos sep_there refl);
        left_sorted = subst IsSorted (sym left_keys) (take-IsSorted (keys p) sorted split_pos);
        right_sorted =
            subst IsSorted (sym right_keys) (drop-IsSorted (keys p) sorted (split_pos + 1));
        left_inner_page = (
          (
            l.valid,
            l.ends_at,
            subst (All (λ e. length (e.1) ≡ 8)) (sym l.entries_are)
                (All-take (λ e. length (e.1) ≡ 8) split_pos (entries p) inner),
          ),
          l.unmarked,
        );
        right_inner_page = (
          (
            r.valid,
            r.ends_at,
            subst (All (λ e. length (e.1) ≡ 8)) (sym r.entries_are)
                (All-drop (λ e. length (e.1) ≡ 8) (split_pos + 1) (entries p) inner),
          ),
          r.unmarked,
        );
      }

-- An inner node of two separators or more, in ascending order, splits without a panic into two that hold
-- its separators, but for the one between them, and its children, in order; the separators of the first are
-- less than the one between, those of the second greater. One of fewer than two is left alone.
pub split_inner_lem :
    (p : SlottedPage)
    → IsInnerPage p
    → IsSorted (keys p)
    → ((num_slots p < 2) × (split_inner p ≡ some none))
      ⊎ ((2 ≤ num_slots p) × (s : SplitPages) × (split_inner p ≡ some (some s)) × SplitBetween p s)
unfolding split_inner
split_inner_lem p inner sorted = elim (dec_lt (num_slots p) 2) [
  | yes few ↦ let e : ltb (num_slots p) 2 ≡ true = ground arith in inl (few, rw e refl)
  | no many ↦
      let e : ltb (num_slots p) 2 ≡ false = ground arith in
      let (s, runs, h) = split_inner_at_lem p (num_slots p / 2) inner (omega arith) in
      inr (
        omega (arith, many),
        s,
        rw (e, runs) refl,
        halves_between p (num_slots p / 2) s h (inner.2) sorted,
      )
]
