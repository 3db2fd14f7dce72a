-- ===== src/Btree/PackInner.antt =====
-- How the separators of a node are packed behind others (`crates/btree/src/btree.rs`).
use mathlib.Core.Option
use native.Mathlib.Decide.{dec_lt}
use pagebox.Base.{
  ℕ, zero, suc, ◌+◌, ◌≤◌, ◌≡◌, refl, sym, ap, ◌∙◌, subst, inl, inr, [], some, true, false, arith,
  length, get_elem?-some, take, take_all, All-get_elem?, ltb, Bool-cases,
}
use pagebox.Slotted.Layout.{
  SlottedPage, IsValid, slot_size, entries, num_slots, free_space, get_key, get_value,
}
use pagebox.Slotted.Ops.{can_insert}
use pagebox.Slotted.Edit.{get_lem}
use pagebox.Slotted.Append.{
  cost, IsTight, IsEntry, Appended, Appended-refl, append_lem, length-entries,
}
use pagebox.Slotted.Copy.{entry_range, entries-IsEntry, take-drop, copy_key_value_range_lem}
use pagebox.Btree.Route.{IsInner}
use pagebox.Btree.Merge.{pack_separators, append_separators}
use pagebox.Btree.MergeLeaf.{full_lem, roomy_lem, Packs, Packs-cons}

-- What a page holds in all.
all_range : (p : SlottedPage) → entry_range p 0 (num_slots p) ≡ entries p
all_range p = take_all (num_slots p) (entries p) (omega (arith, length-entries p))

module _ (src : SlottedPage) (v : IsValid src) where
  pack_separators_lem :
      (dst : SlottedPage) (n i : ℕ)
      → IsInner src
      → IsValid dst
      → IsTight dst
      → i + n ≤ num_slots src
      → Packs (pack_separators src dst n i) dst (entry_range src i n)
  unfolding pack_separators
  pack_separators_lem dst zero i inner w tight inside =
      inl (omega arith, dst, refl, Appended-refl tight w)
  pack_separators_lem dst (suc n) i inner w tight inside =
      let size = length-entries src in
      let (e, here) = get_elem?-some (entries src) i (omega (arith, size, inside)) in
      let bytes = All-get_elem? IsEntry (entries src) i (entries-IsEntry src v) here in
      let eight = All-get_elem? (λ e'. length (e'.1) ≡ 8) (entries src) i inner here in
      let key : get_key src i ≡ some (e.0) =
        (get_lem src i v).0 ∙ ap (λ o. Option.map (λ q. q.0) o) here in
      let value : get_value src i ≡ some (e.1) =
        (get_lem src i v).1 ∙ ap (λ o. Option.map (λ q. q.1) o) here in
      let shape = take-drop (entries src) i n here in
      elim (dec_lt (free_space dst) (slot_size + (length (e.0) + 8))) [
        | yes short ↦
            let full : can_insert dst (length (e.0)) 8 ≡ false =
              full_lem dst (length (e.0)) 8 tight short in
            inr (omega (arith, ap cost shape, short, eight), rw (key, full) refl)
        | no long ↦
            let fits : slot_size + (length (e.0) + length (e.1)) ≤ free_space dst =
              omega (arith, eight) in
            let roomy : can_insert dst (length (e.0)) 8 ≡ true =
              roomy_lem dst (length (e.0)) 8 (omega (arith, eight, fits)) in
            let (q, inserted, one) = append_lem dst (e.0) (e.1) w tight (bytes.0) (bytes.1) fits in
            Packs-cons e (entry_range src (i + 1) n) (entry_range src i (suc n)) tight
              (omega (arith, fits)) one shape
              (rw (key, roomy, value, inserted, pack_separators) refl)
              (pack_separators_lem q n (i + 1) inner one.valid one.tight (omega arith))
      ]

  pub pack_all :
      (dst : SlottedPage)
      → IsInner src
      → IsValid dst
      → IsTight dst
      → Packs (pack_separators src dst (num_slots src) 0) dst (entries src)
  pack_all dst inner w tight =
      subst (Packs (pack_separators src dst (num_slots src) 0) dst) (all_range src)
        (pack_separators_lem dst (num_slots src) 0 inner w tight (omega arith))

  pub append_separators_lem :
      (dst : SlottedPage)
      → IsValid dst
      → IsTight dst
      → cost (entries src) ≤ free_space dst
      → (q : SlottedPage) × (append_separators src dst ≡ some q) × Appended dst q (entries src)
  unfolding append_separators
  append_separators_lem dst w tight fits =
      let all = all_range src in
      let (q, copied, a) =
        copy_key_value_range_lem src v dst (num_slots dst) 0 (num_slots src) w tight refl
          (omega arith) (omega (arith, ap cost all, fits)) in
      let is = subst (Appended dst q) all a in
      elim (Bool-cases (ltb 0 (num_slots src))) [
        | inl yes_some ↦ (q, rw yes_some copied, is)
        | inr no_one ↦
            let zero_slots : num_slots src ≡ 0 = ground arith in
            (
              dst,
              rw no_one refl,
              subst (Appended dst dst) (none_there zero_slots) (Appended-refl tight w),
            )
      ]
    where
      none_there : num_slots src ≡ 0 → [] ≡ entries src
      none_there e = ap (λ n. take n (entries src)) (sym e) ∙ all_range src
