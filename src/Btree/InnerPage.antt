-- ===== src/Btree/InnerPage.antt =====
-- The inner pages that `crates/btree/src/btree.rs` builds, as separators and children.
use Prim.Native.Nat.{bit_and}
use mathlib.Core.Option
use pagebox.Base.{
  ℕ, zero, suc, ◌+◌, ◌-◌, ◌^◌, ◌≤◌, ◌<◌, ◌≡◌, refl, ap, ◌∙◌, subst, List, [], ◌∷◌, ◌++◌, map, some,
  true, false, arith, length, get_elem?, take_all, All-get_elem?, ltb, le→ltb, ◌==◌, not,
}
use pagebox.Bytes.LittleEndian.{from_le_bytes}
use pagebox.Slotted.Layout.{
  SlottedPage, IsValid, page_size, entries, num_slots, heap_end, get_value,
}
use pagebox.Slotted.Suffix.{with_flags-Kept}
use pagebox.Slotted.Edit.{get_lem}
use pagebox.Slotted.Append.{IsEntry, Appended, Appended-refl}
use pagebox.Slotted.Copy.{entry_range, entries-IsEntry, copy_key_value_range_lem}
use pagebox.Btree.Node.{is_leaf_node, upper_swip, set_upper, child_swip_at, flag_is_leaf}
use pagebox.Btree.Route.{IsInner}
use pagebox.Btree.Split.{copy_separators}
use pagebox.Btree.Shape.{
  Blank, from_le_bytes_fits, get_le_fits, set_upper-Kept, upper_swip-set_upper,
}
use pagebox.Btree.LeafPage.{page_fits, range_fits}

abbrev pub swip_in : List ℕ × List ℕ → ℕ
swip_in e = from_le_bytes (e.1)

-- The children of an inner node, in order.
abbrev pub child_swips : SlottedPage → List ℕ
child_swips p = map swip_in (entries p) ++ (upper_swip p ∷ [])

-- A valid page with the suffix of an inner node, whose values are swips.
abbrev pub IsInnerPage : SlottedPage → Type 0
IsInnerPage p = IsValid p × (heap_end p ≡ page_size - 8) × IsInner p

-- An inner node with these separators and an upper child.
pub record InnerPage (q : SlottedPage) (es : List (List ℕ × List ℕ)) (upper : ℕ) : Type 0 where
  pub entries_are : entries q ≡ es
  pub upper_is : upper_swip q ≡ upper
  pub unmarked : is_leaf_node q ≡ false
  pub valid : IsValid q
  pub ends_at : heap_end q ≡ page_size - 8

module _ (p : SlottedPage) (v : IsValid p) where
  pub upper_swip_fits : upper_swip p < 2 ^ 64
  unfolding upper_swip
  upper_swip_fits = get_le_fits p.bytes 65528 v.is_bytes

  module _ (inner : IsInner p) (pos : ℕ) (e : List ℕ × List ℕ)
      (here : get_elem? (entries p) pos ≡ some e) where
    pub swip_in_fits : swip_in e < 2 ^ 64
    swip_in_fits =
        let eight = All-get_elem? (λ e'. length (e'.1) ≡ 8) (entries p) pos inner here in
        let bytes = All-get_elem? IsEntry (entries p) pos (entries-IsEntry p v) here in
        subst (λ n. swip_in e < 256 ^ n) eight (from_le_bytes_fits (e.1) (bytes.1))

    pub child_swip_at_lem : child_swip_at p pos ≡ some (swip_in e)
    unfolding child_swip_at
    child_swip_at_lem =
        let eight = All-get_elem? (λ e'. length (e'.1) ≡ 8) (entries p) pos inner here in
        let got : get_value p pos ≡ some (e.1) =
          (get_lem p pos v).1 ∙ ap (λ o. Option.map (λ q. q.1) o) here in
        let long : ltb (length (e.1)) 8 ≡ false = le→ltb (length (e.1)) 8 (omega (arith, eight)) in
        rw (got, long) (ap (λ b. some (from_le_bytes b)) (take_all 8 (e.1) (omega (arith, eight))))

  pub copy_separators_lem :
      (blank : SlottedPage) (start count flags : ℕ)
      → heap_end p ≡ page_size - 8
      → Blank 8 flags blank
      → start + count ≤ num_slots p
      → (q : SlottedPage) × (copy_separators p blank start count ≡ some q)
        × Appended blank q (entry_range p start count)
  unfolding copy_separators
  copy_separators_lem blank start zero flags ends b inside =
      (blank, refl, Appended-refl b.tight b.valid)
  copy_separators_lem blank start (suc count) flags ends b inside =
      let some_there : ltb 0 (suc count) ≡ true = ground arith in
      let fits = range_fits p start (suc count) in
      let all = page_fits p 8 v ends (omega arith) in
      let (q, copied, a) =
        copy_key_value_range_lem p v blank 0 start (suc count) b.valid b.tight b.no_slots inside
          (omega (arith, fits, all, b.all_free)) in
      (q, rw some_there copied, a)

-- A page built that way, with its flags and its upper child.
pub built_inner :
    (q : SlottedPage) (es : List (List ℕ × List ℕ)) (flags upper : ℕ)
    → IsValid q
    → heap_end q ≡ page_size - 8
    → entries q ≡ es
    → (bit_and flags flag_is_leaf == 0) ≡ true
    → upper < 2 ^ 64
    → InnerPage (set_upper (record q { flags = flags }) upper) es upper
unfolding is_leaf_node set_upper upper_swip
built_inner q es flags upper v ends is unmarked fits =
    let flagged = with_flags-Kept q v flags in
    let kept =
      set_upper-Kept (record q { flags = flags }) flagged.valid
        (omega (arith, flagged.same_end, ends)) upper in
    record {
      entries_are = kept.same_entries ∙ flagged.same_entries ∙ is;
      upper_is =
          upper_swip-set_upper (record q { flags = flags }) flagged.valid
            (omega (arith, flagged.same_end, ends)) upper fits;
      unmarked = ap not unmarked;
      valid = kept.valid;
      ends_at = kept.same_end ∙ flagged.same_end ∙ ends;
    }
