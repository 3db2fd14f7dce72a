-- ===== src/Btree/MergeLeaf.antt =====
-- Two leaves merged into one (`crates/btree/src/btree.rs`).
use Prim.Native.Nat.{bit_and, bit_or}
use mathlib.Core.Option
use mathlib.Core.Option.{some-injective}
use native.Mathlib.Decide.{dec_lt}
use pagebox.Base.{
  ℕ, zero, suc, ◌+◌, ◌-◌, ◌≤◌, ◌<◌, ◌≡◌, ◌⊎◌, refl, sym, ap, ◌∙◌, subst, inl, inr, List, [], ◌∷◌,
  ◌++◌, some, none, Option, true, false, arith, length, get_elem?-some, take_all, All-get_elem?,
  ◌==◌, not,
}
use pagebox.Header.PageType.{index, with_type}
use pagebox.Slotted.Layout.{
  SlottedPage, IsValid, page_size, slot_size, header_size, entries, num_slots, free_space,
}
use pagebox.Slotted.Suffix.{with_flags-Kept}
use pagebox.Slotted.Edit.{get_lem}
use pagebox.Slotted.Append.{cost, cost-append, Appended, length-entries}
use pagebox.Slotted.Copy.{entry_range}
use pagebox.Btree.Node.{leaf_left_pid, leaf_right_pid, flag_is_leaf}
use pagebox.Btree.Split.{link_leaf}
use pagebox.Btree.Shape.{leaf_flags, reserve_suffix-Blank, link_leaf-flags}
use pagebox.Slotted.Copy.{take-drop, entries-IsEntry}
use pagebox.Slotted.Append.{
  IsTight, IsEntry, Appended-refl, Appended-trans, append_lem, free_space-Appended,
}
use pagebox.Slotted.Ops.{can_insert}
use pagebox.Slotted.Search.{try_get_key, try_get_value}
use pagebox.Slotted.Optimistic.{try_get_lem}
use pagebox.Btree.Merge.{
  push_entry, pack_entries, pack_leaves, leaf_pair_fits, merge_leaf_pages_into_left,
}
use pagebox.Btree.LeafPage.{IsLeaf, LeafPage, linked, left_fits, right_fits}

pub full_lem :
    (tmp : SlottedPage) (k w : ℕ)
    → IsTight tmp
    → free_space tmp < slot_size + (k + w)
    → can_insert tmp k w ≡ false
unfolding can_insert
full_lem tmp k w tight short = ground arith

pub roomy_lem :
    (tmp : SlottedPage) (k w : ℕ) → slot_size + (k + w) ≤ free_space tmp → can_insert tmp k w ≡ true
unfolding can_insert
roomy_lem tmp k w fits = ground arith

-- An entry is pushed onto a page without gaps just where it has room.
pub push_entry_lem :
    (tmp : SlottedPage) (key value : List ℕ)
    → IsValid tmp
    → IsTight tmp
    → IsEntry (key, value)
    → ((cost ((key, value) ∷ []) ≤ free_space tmp)
        × (q : SlottedPage) × (push_entry tmp key value ≡ some (some q))
        × Appended tmp q ((key, value) ∷ []))
      ⊎ ((free_space tmp < cost ((key, value) ∷ [])) × (push_entry tmp key value ≡ some none))
unfolding push_entry
push_entry_lem tmp key value v tight (kb, vb) =
    elim (dec_lt (free_space tmp) (slot_size + (length key + length value))) [
      | yes short ↦
          let full : can_insert tmp (length key) (length value) ≡ false =
            full_lem tmp (length key) (length value) tight short in
          inr (omega (arith, short), rw full refl)
      | no long ↦
          let fits : slot_size + (length key + length value) ≤ free_space tmp = omega arith in
          let (q, inserted, a) = append_lem tmp key value v tight kb vb fits in
          let roomy : can_insert tmp (length key) (length value) ≡ true =
            roomy_lem tmp (length key) (length value) fits in
          inl (omega (arith, fits), q, rw (roomy, inserted) refl, a)
    ]

-- Packing stops just where the entries have no room.
abbrev pub Packs : Option (Option SlottedPage) → SlottedPage → List (List ℕ × List ℕ) → Type 0
Packs run dst es =
    ((cost es ≤ free_space dst) × (q : SlottedPage) × (run ≡ some (some q)) × Appended dst q es)
    ⊎ ((free_space dst < cost es) × (run ≡ some none))

pub Packs-cons :
    {run full : Option (Option SlottedPage)} {dst q : SlottedPage} (e : List ℕ × List ℕ)
    (es all : List (List ℕ × List ℕ))
    → IsTight dst
    → cost (e ∷ []) ≤ free_space dst
    → Appended dst q (e ∷ [])
    → all ≡ e ∷ es
    → full ≡ run
    → Packs run q es
    → Packs full dst all
Packs-cons {dst = dst} e es all tight fits one shape same (inr (short, stopped)) =
    let left = free_space-Appended (e ∷ []) tight one in
    inr (omega (arith, ap cost shape, fits, left, short), same ∙ stopped)
Packs-cons {dst = dst} e es all tight fits one shape same (inl (more, r, packed, rest)) =
    let left = free_space-Appended (e ∷ []) tight one in
    inl (
      omega (arith, ap cost shape, fits, left, more),
      r,
      same ∙ packed,
      subst (Appended dst r) (sym shape) (Appended-trans {r = r} (e ∷ []) es one rest),
    )

pack_entries_lem :
    (src : SlottedPage) (v : IsValid src) (dst : SlottedPage) (n i : ℕ)
    → IsValid dst
    → IsTight dst
    → i + n ≤ num_slots src
    → Packs (pack_entries src dst n i) dst (entry_range src i n)
unfolding pack_entries
pack_entries_lem src v dst zero i w tight inside =
    inl (omega arith, dst, refl, Appended-refl tight w)
pack_entries_lem src v dst (suc n) i w tight inside =
    let size = length-entries src in
    let (e, here) = get_elem?-some (entries src) i (omega (arith, size, inside)) in
    let bytes = All-get_elem? IsEntry (entries src) i (entries-IsEntry src v) here in
    let tried = try_get_lem src v i (omega arith) in
    let key : try_get_key src i ≡ some (e.0) =
      tried.0 ∙ (get_lem src i v).0 ∙ ap (λ o. Option.map (λ q. q.0) o) here in
    let value : try_get_value src i ≡ some (e.1) =
      tried.1 ∙ (get_lem src i v).1 ∙ ap (λ o. Option.map (λ q. q.1) o) here in
    let shape = take-drop (entries src) i n here in
    elim (push_entry_lem dst (e.0) (e.1) w tight bytes) [
      | inr (short, stopped) ↦
          inr (omega (arith, ap cost shape, short), rw (key, value, stopped, pack_entries) refl)
      | inl (fits, q, pushed, one) ↦
          Packs-cons e (entry_range src (i + 1) n) (entry_range src i (suc n)) tight fits one shape
            (rw (key, value, pushed, pack_entries) refl)
            (pack_entries_lem src v q n (i + 1) one.valid one.tight (omega arith))
    ]

-- All entries of a page.
pack_page_lem :
    (src dst : SlottedPage)
    → IsValid src
    → IsValid dst
    → IsTight dst
    → Packs (pack_entries src dst (num_slots src) 0) dst (entries src)
pack_page_lem src dst v w tight =
    subst (Packs (pack_entries src dst (num_slots src) 0) dst)
      (take_all (num_slots src) (entries src) (omega (arith, length-entries src)))
      (pack_entries_lem src v dst (num_slots src) 0 w tight (omega arith))

-- The room for entries in a leaf.
abbrev pub leaf_room : ℕ
leaf_room = page_size - (header_size + 16)

module _ (left right : SlottedPage) (l : IsLeaf left) (r : IsLeaf right) where
  -- Both leaves are packed just where their entries fit on one page.
  pack_leaves_lem :
      ((cost (entries left ++ entries right) ≤ leaf_room)
        × (q : SlottedPage) × (pack_leaves left right ≡ some (some q))
        × IsLeaf q
        × (q.flags ≡ flag_is_leaf)
        × (entries q ≡ entries left ++ entries right))
      ⊎ ((leaf_room < cost (entries left ++ entries right)) × (pack_leaves left right ≡ some none))
  unfolding pack_leaves
  pack_leaves_lem =
      let (blank, made, b) = reserve_suffix-Blank 16 (omega arith) in
      let flags = bit_or blank.flags flag_is_leaf in
      let flagged = with_flags-Kept blank b.valid flags in
      let start : SlottedPage = record blank { flags = flags } in
      let tight : IsTight start = b.tight in
      let free : free_space start ≡ leaf_room = b.all_free in
      let both = cost-append (entries left) (entries right) in
      elim (pack_page_lem left start (l.0) flagged.valid tight) [
        | inr (short, stopped) ↦ inr (omega (arith, both, short, free), rw (made, stopped) refl)
        | inl (fits, q, packed, a) ↦
            let rest = free_space-Appended {p = start} (entries left) tight a in
            elim (pack_page_lem right q (r.0) a.valid a.tight) [
              | inr (short, stopped) ↦
                  inr (omega (arith, both, short, free, rest, fits), rw (made, packed) stopped)
              | inl (more, m, all, c) ↦ inl (
                omega (arith, both, more, free, rest, fits),
                m,
                rw (made, packed) all,
                (c.valid, c.same_end ∙ a.same_end ∙ b.ends_at),
                c.same_flags ∙ a.same_flags ∙ ap (λ f. bit_or f flag_is_leaf) b.flags_are,
                c.new_entries
                    ∙ ap (λ es. es ++ entries right)
                        (a.new_entries
                          ∙ ap (λ es. es ++ entries left) (flagged.same_entries ∙ b.no_entries)),
              )
            ]
      ]

  -- Two leaves are merged just where their entries fit on one page, and then into a leaf that holds those of
  -- the first and behind them those of the second, linked to the neighbours of both. The check before says
  -- whether they do; neither panics.
  pub merge_leaf_pages_into_left_lem :
      ((cost (entries left ++ entries right) ≤ leaf_room)
        × (leaf_pair_fits left right ≡ some true)
        × (q : SlottedPage) × (merge_leaf_pages_into_left left right ≡ some (some q))
        × LeafPage q (entries left ++ entries right) (leaf_left_pid left) (leaf_right_pid right))
      ⊎ ((leaf_room < cost (entries left ++ entries right))
          × (leaf_pair_fits left right ≡ some false)
          × (merge_leaf_pages_into_left left right ≡ some none))
  unfolding leaf_pair_fits merge_leaf_pages_into_left
  merge_leaf_pages_into_left_lem = elim pack_leaves_lem [
    | inr (short, stopped) ↦ inr (short, rw stopped refl, rw stopped refl)
    | inl (fits, m, packed, leaf, flags, is) ↦
        let l_pid = leaf_left_pid left in
        let r_pid = leaf_right_pid right in
        let q = link_leaf m l_pid r_pid in
        let typed : with_type q.flags index ≡ leaf_flags =
          ap (λ f. with_type f index) (link_leaf-flags m (leaf.0) (leaf.1) l_pid r_pid ∙ flags) in
        inl (
          fits,
          rw packed refl,
          record q { flags = with_type q.flags index },
          rw packed refl,
          linked m (entries left ++ entries right) l_pid r_pid (with_type q.flags index)
              (left_fits left (l.0)) (right_fits right (r.0)) leaf is
              (ap (λ f. not (bit_and f flag_is_leaf == 0)) typed),
        )
  ]
