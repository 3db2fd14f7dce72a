-- ===== src/Btree/MergeInner.antt =====
-- Two inner nodes merged into one around the separator between them (`crates/btree/src/btree.rs`).
use Prim.Native.Nat.{bit_and}
use pagebox.Base.{
  ℕ, ◌+◌, ◌-◌, ◌≤◌, ◌<◌, ◌≡◌, ◌⊎◌, refl, sym, ap, ◌∙◌, subst, inl, inr, List, [], ◌∷◌, ◌++◌, map,
  some, true, false, arith, length, All, ◌==◌,
}
use pagebox.Base.Ranges.{map-append, All-append}
use pagebox.Bytes.Memory.{IsByte}
use pagebox.Bytes.LittleEndian.{
  to_le_bytes, length-to_le_bytes, to_le_bytes-IsByte, from_le_bytes-to_le_bytes,
}
use pagebox.Header.PageType.{index, with_type}
use pagebox.Slotted.Layout.{
  SlottedPage, page_size, header_size, entries, num_slots, init, reserve_suffix,
}
use pagebox.Slotted.Ops.{insert}
use pagebox.Slotted.LowerBound.{keys}
use pagebox.Slotted.Runs.{entry_keys, keys_lem}
use pagebox.Slotted.Append.{
  cost, cost-append, IsEntry, Appended, Appended-trans, append_lem, append_assoc,
  free_space-Appended,
}
use pagebox.Btree.Node.{is_leaf_node, upper_swip, set_upper, flag_is_leaf}
use pagebox.Btree.Shape.{Blank, reserve_suffix-Blank}
use pagebox.Btree.Merge.{inner_pair_fits, append_separators, merge_inner_pages_into_left}
use pagebox.Btree.MergeLeaf.{push_entry_lem}
use pagebox.Btree.InnerPage.{
  swip_in, child_swips, IsInnerPage, InnerPage, upper_swip_fits, built_inner,
}
use pagebox.Btree.PackInner.{pack_all, append_separators_lem}

-- The separator that comes down, over the upper child of the first node.
abbrev brought_down : SlottedPage → List ℕ → List ℕ × List ℕ
brought_down left boundary_key = (boundary_key, to_le_bytes 8 (upper_swip left))

abbrev pub merged_entries : SlottedPage → List ℕ → SlottedPage → List (List ℕ × List ℕ)
merged_entries left boundary_key right =
    entries left ++ (brought_down left boundary_key ∷ entries right)

-- The room for separators in an inner node.
abbrev pub inner_room : ℕ
inner_room = page_size - (header_size + 8)

abbrev HasSwip : List ℕ × List ℕ → Type 0
HasSwip e = length (e.1) ≡ 8

-- An inner node that holds the separators and the children of two in order, with the separator between them.
pub record MergedInner (left : SlottedPage) (boundary_key : List ℕ) (right q : SlottedPage)
    : Type 0 where
  pub all_keys : keys q ≡ keys left ++ (boundary_key ∷ keys right)
  pub all_children : child_swips q ≡ child_swips left ++ child_swips right
  pub inner_page : IsInnerPage q × (is_leaf_node q ≡ false)

module _ (left : SlottedPage) (boundary_key : List ℕ) (right : SlottedPage) (l : IsInnerPage left)
    (r : IsInnerPage right) (key_bytes : All IsByte boundary_key) where
  brought_down-IsEntry : IsEntry (brought_down left boundary_key)
  brought_down-IsEntry = (key_bytes, to_le_bytes-IsByte 8 (upper_swip left))

  all_costs :
      cost (merged_entries left boundary_key right)
      ≡ cost (entries left) + (cost (brought_down left boundary_key ∷ []) + cost (entries right))
  all_costs =
      omega (arith, cost-append (entries left) (brought_down left boundary_key ∷ entries right))

  -- The check answers just where all separators fit on one page.
  inner_pair_fits_lem :
      ((cost (merged_entries left boundary_key right) ≤ inner_room)
        × (inner_pair_fits left boundary_key right ≡ some true))
      ⊎ ((inner_room < cost (merged_entries left boundary_key right))
          × (inner_pair_fits left boundary_key right ≡ some false))
  unfolding inner_pair_fits
  inner_pair_fits_lem =
      let (blank, made, b) = reserve_suffix-Blank 8 (omega arith) in
      let e = brought_down left boundary_key in
      let costs = all_costs in
      elim (pack_all left (l.0) blank (l.2) b.valid b.tight) [
        | inr (short, stopped) ↦
            inr (omega (arith, costs, short, b.all_free), rw (made, stopped) refl)
        | inl (fits, q, packed, a) ↦
            let rest = free_space-Appended {p = blank} (entries left) b.tight a in
            elim (push_entry_lem q (e.0) (e.1) a.valid a.tight brought_down-IsEntry) [
              | inr (short, stopped) ↦ inr (
                omega (arith, costs, short, rest, fits, b.all_free),
                rw (made, packed, stopped) refl,
              )
              | inl (more, q', pushed, a') ↦
                  let rest' = free_space-Appended {p = q} (e ∷ []) a.tight a' in
                  elim (pack_all right (r.0) q' (r.2) a'.valid a'.tight) [
                    | inr (short, stopped) ↦ inr (
                      omega (arith, costs, short, rest, rest', fits, more, b.all_free),
                      rw (made, packed, pushed, stopped) refl,
                    )
                    | inl (last, m, done, c) ↦ inl (
                      omega (arith, costs, last, rest, rest', fits, more, b.all_free),
                      rw (made, packed, pushed, done) refl,
                    )
                  ]
            ]
      ]

  merge_runs :
      (blank tmp tmp' m : SlottedPage)
      → reserve_suffix init 8 ≡ some blank
      → append_separators left blank ≡ some tmp
      → insert tmp (num_slots tmp) boundary_key (to_le_bytes 8 (upper_swip left)) ≡ some tmp'
      → append_separators right tmp' ≡ some m
      → merge_inner_pages_into_left left boundary_key right
        ≡ some (set_upper (record m { flags = with_type m.flags index }) (upper_swip right))
  unfolding merge_inner_pages_into_left
  merge_runs blank tmp tmp' m made copied inserted copied' =
      rw (made, copied, inserted, copied') refl

  merged_built :
      (blank tmp tmp' m : SlottedPage)
      → Blank 8 0 blank
      → Appended blank tmp (entries left)
      → Appended tmp tmp' (brought_down left boundary_key ∷ [])
      → Appended tmp' m (entries right)
      → InnerPage
          (set_upper (record m { flags = with_type m.flags index }) (upper_swip right))
          (merged_entries left boundary_key right)
          (upper_swip right)
  merged_built blank tmp tmp' m b a a' a'' =
      let e = brought_down left boundary_key in
      let all =
        Appended-trans {r = m} (entries left) (e ∷ entries right) a
          (Appended-trans {r = m} (e ∷ []) (entries right) a' a'') in
      built_inner m (merged_entries left boundary_key right) (with_type m.flags index)
        (upper_swip right) all.valid (all.same_end ∙ b.ends_at)
        (all.new_entries ∙ ap (λ es. es ++ merged_entries left boundary_key right) b.no_entries)
        (ap (λ f. bit_and (with_type f index) flag_is_leaf == 0) (all.same_flags ∙ b.flags_are))
        (upper_swip_fits right (r.0))

  merge_page_lem :
      cost (merged_entries left boundary_key right) ≤ inner_room
      → (q : SlottedPage) × (merge_inner_pages_into_left left boundary_key right ≡ some q)
        × InnerPage q (merged_entries left boundary_key right) (upper_swip right)
  merge_page_lem fits =
      let (blank, made, b) = reserve_suffix-Blank 8 (omega arith) in
      let e = brought_down left boundary_key in
      let costs = all_costs in
      let (tmp, copied, a) =
        append_separators_lem left (l.0) blank b.valid b.tight
          (omega (arith, costs, fits, b.all_free)) in
      let rest = free_space-Appended {p = blank} (entries left) b.tight a in
      let (tmp', inserted, a') =
        append_lem tmp (e.0) (e.1) a.valid a.tight (brought_down-IsEntry.0) (brought_down-IsEntry.1)
          (omega (arith, costs, fits, rest, b.all_free)) in
      let rest' = free_space-Appended {p = tmp} (e ∷ []) a.tight a' in
      let (m, copied', a'') =
        append_separators_lem right (r.0) tmp' a'.valid a'.tight
          (omega (arith, costs, fits, rest, rest', b.all_free)) in
      (
        set_upper (record m { flags = with_type m.flags index }) (upper_swip right),
        merge_runs blank tmp tmp' m made copied inserted copied',
        merged_built blank tmp tmp' m b a a' a'',
      )

  merged_page :
      (q : SlottedPage)
      → InnerPage q (merged_entries left boundary_key right) (upper_swip right)
      → MergedInner left boundary_key right q
  merged_page q page =
      let e = brought_down left boundary_key in
      let A = map swip_in (entries left) in
      let B = map swip_in (entries right) in
      let u = upper_swip left in
      let w = upper_swip right in
      let fits = upper_swip_fits left (l.0) in
      let swips : All HasSwip (merged_entries left boundary_key right) =
        All-append HasSwip (entries left) (e ∷ entries right) (l.2) (length-to_le_bytes 8 u, r.2) in
      let back : swip_in e ≡ u = from_le_bytes-to_le_bytes 8 u (omega (arith, fits)) in
      record {
        all_keys =
            keys_lem q
            ∙ ap entry_keys page.entries_are
            ∙ map-append (λ x. x.0) (entries left) (e ∷ entries right)
            ∙ ap (λ ks. ks ++ (boundary_key ∷ entry_keys (entries right))) (sym (keys_lem left))
            ∙ ap (λ ks. keys left ++ (boundary_key ∷ ks)) (sym (keys_lem right));
        all_children =
            ap (λ es. map swip_in es ++ (upper_swip q ∷ [])) page.entries_are
            ∙ ap (λ x. map swip_in (merged_entries left boundary_key right) ++ (x ∷ []))
                page.upper_is
            ∙ ap (λ xs. xs ++ (w ∷ [])) (map-append swip_in (entries left) (e ∷ entries right))
            ∙ ap (λ x. (A ++ (x ∷ B)) ++ (w ∷ [])) back
            ∙ append_assoc A (u ∷ B) (w ∷ [])
            ∙ sym (append_assoc A (u ∷ []) (B ++ (w ∷ [])));
        inner_page = (
          (page.valid, page.ends_at, subst (All HasSwip) (sym page.entries_are) swips),
          page.unmarked,
        );
      }

  -- Two inner nodes and the separator between them fit on one page just where the check before a merge says
  -- so, and then the merge does not panic and builds an inner node that holds the separators of both in order
  -- with the one between them, and the children of both in order.
  pub merge_inner_pages_into_left_lem :
      ((cost (merged_entries left boundary_key right) ≤ inner_room)
        × (inner_pair_fits left boundary_key right ≡ some true)
        × (q : SlottedPage) × (merge_inner_pages_into_left left boundary_key right ≡ some q)
        × MergedInner left boundary_key right q)
      ⊎ ((inner_room < cost (merged_entries left boundary_key right))
          × (inner_pair_fits left boundary_key right ≡ some false))
  merge_inner_pages_into_left_lem = elim inner_pair_fits_lem [
    | inr (short, fails) ↦ inr (short, fails)
    | inl (fits, passes) ↦
        let (q, runs, page) = merge_page_lem fits in inl (fits, passes, q, runs, merged_page q page)
  ]
