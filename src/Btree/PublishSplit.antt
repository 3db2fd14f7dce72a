-- ===== src/Btree/PublishSplit.antt =====
-- A split published in the parent (`apply_split_to_latched_parent` of `crates/btree/src/btree.rs`): the parent's
-- separators and children.
use native.Mathlib.Decide.{dec_lt}
use pagebox.Base.{
  ℕ, ◌+◌, ◌-◌, ◌^◌, ◌≤◌, ◌<◌, ◌≡◌, refl, sym, ap, ◌∙◌, subst, List, [], ◌∷◌, ◌++◌, map, some, true,
  false, length, length-set, set, insert_at, get_elem?, get_elem?-some, All, All-get_elem?,
  All-insert_at, arith, leb, ltb, ◌==◌,
}
use pagebox.Base.Ranges.{set_before, set_last_one, map-set, All-set}
use pagebox.Bytes.Memory.{IsByte}
use pagebox.Bytes.Fields.{get_le_cong}
use pagebox.Bytes.LittleEndian.{
  to_le_bytes, length-to_le_bytes, to_le_bytes-IsByte, from_le_bytes-to_le_bytes,
}
use pagebox.Mutation.Add
use pagebox.Slotted.Layout.{SlottedPage, IsValid, page_size, heap_end, entries, num_slots}
use pagebox.Slotted.Ops.{can_insert}
use pagebox.Slotted.Accounts.{map-insert_at}
use pagebox.Slotted.Append.{length-entries}
use pagebox.Slotted.LowerBound.{keys, length-map}
use pagebox.Slotted.Runs.{entry_keys, keys_lem}
use pagebox.Btree.Edge.{
  ParentEdge, slot, upper, parent_edge_pos, parent_edge_from_pos, split_right_parent_uses_upper,
  split_separator_insert_pos,
}
use pagebox.Btree.Node.{upper_swip}
use pagebox.Btree.InnerPage.{swip_in, child_swips, IsInnerPage}
use pagebox.Btree.PlacePending.{insert_left}
use pagebox.Btree.Leaf.{ExclusiveNode}
use pagebox.Btree.LeafEdit.{entry_keys-set}
use pagebox.Btree.LeafMarks.{insert_entry_lem}
use pagebox.Btree.ParentEdges.{
  SameRoom, SameRoom-refl, can_insert-SameRoom, set_slot_lem, set_upper_lem,
}
use pagebox.Btree.Publish.{
  SplitParentEdges, insert_separator, set_child_edge_swip, apply_split_to_latched_parent,
}

-- A parent with one more separator, and two children in the place of one.
pub record Published (n n' : ExclusiveNode) (pos : ℕ) (sep_key : List ℕ) (left right : ℕ)
    : Type 0 where
  pub all_keys : keys n'.page ≡ insert_at (keys n.page) pos sep_key
  pub all_children : child_swips n'.page ≡ insert_at (set (child_swips n.page) pos right) pos left
  pub inner_page : IsInnerPage n'.page
  pub recorded : Add.IsValid n'.mutation

module _ (n : ExclusiveNode) (sep_key : List ℕ) (left right : ℕ) (inner : IsInnerPage n.page)
    (vm : Add.IsValid n.mutation) (kb : All IsByte sep_key) (left_fits : left < 2 ^ 64)
    (right_fits : right < 2 ^ 64) (room : can_insert n.page (length sep_key) 8 ≡ true) where
  abbrev es : List (List ℕ × List ℕ)
  es = entries n.page

  abbrev separator : List ℕ × List ℕ
  separator = (sep_key, to_le_bytes 8 left)

  swip_back : (swip : ℕ) (key : List ℕ) → swip < 2 ^ 64 → swip_in (key, to_le_bytes 8 swip) ≡ swip
  swip_back swip key fits = from_le_bytes-to_le_bytes 8 swip (omega (arith, fits))

  -- The separator goes into a page with the room of the parent's.
  separator_lem :
      (m : ExclusiveNode) (pos : ℕ)
      → SameRoom n.page m.page
      → Add.IsValid m.mutation
      → pos ≤ num_slots n.page
      → (m' : ExclusiveNode) × (insert_separator m pos sep_key left ≡ some m')
        × (entries m'.page ≡ insert_at (entries m.page) pos separator)
        × (heap_end m'.page ≡ page_size - 8)
        × (upper_swip m'.page ≡ upper_swip m.page)
        × IsValid m'.page
        × Add.IsValid m'.mutation
  unfolding insert_separator upper_swip
  separator_lem m pos same vm' inside =
      let ends : heap_end n.page ≡ page_size - 8 = inner.1 in
      let eight = length-to_le_bytes 8 left in
      let fits : can_insert m.page (length sep_key) (length (to_le_bytes 8 left)) ≡ true =
        subst (λ w. can_insert m.page (length sep_key) w ≡ true) (sym eight)
          (can_insert-SameRoom n.page m.page (length sep_key) 8 same room) in
      let (m', runs, ins, t, _) =
        insert_entry_lem m pos sep_key (to_le_bytes 8 left) same.valid vm' kb
          (to_le_bytes-IsByte 8 left) (omega (arith, same.same_count, inside)) fits in
      (
        m',
        runs,
        ins.new_entries,
        ins.same_end ∙ same.same_end ∙ ends,
        get_le_cong 8 65528 m'.page.bytes m.page.bytes
            (λ x low high. ins.suffix x (omega (arith, low, ends, same.same_end))),
        ins.valid,
        t.recorded,
      )

  -- The children of a page whose entries and upper child are known.
  children_are :
      (q : SlottedPage) (fs : List (List ℕ × List ℕ)) (u : ℕ)
      → entries q ≡ fs
      → upper_swip q ≡ u
      → child_swips q ≡ map swip_in fs ++ (u ∷ [])
  children_are q fs u is up =
      ap (λ xs. map swip_in xs ++ (upper_swip q ∷ [])) is ∙ ap (λ x. map swip_in fs ++ (x ∷ [])) up

  swips_inserted :
      (fs : List (List ℕ × List ℕ)) (pos : ℕ)
      → map swip_in (insert_at fs pos separator) ≡ insert_at (map swip_in fs) pos left
  swips_inserted fs pos =
      map-insert_at swip_in fs pos separator
      ∙ ap (λ x. insert_at (map swip_in fs) pos x) (swip_back left sep_key left_fits)

  keys_inserted :
      (q : SlottedPage) (fs : List (List ℕ × List ℕ)) (pos : ℕ)
      → entries q ≡ insert_at fs pos separator
      → entry_keys fs ≡ entry_keys es
      → keys q ≡ insert_at (keys n.page) pos sep_key
  keys_inserted q fs pos is same =
      keys_lem q
      ∙ ap entry_keys is
      ∙ map-insert_at (λ x. x.0) fs pos separator
      ∙ ap (λ ks. insert_at ks pos sep_key) (same ∙ sym (keys_lem n.page))

  slot-Published :
      (m' : ExclusiveNode) (pos : ℕ) (key old : List ℕ)
      → pos < num_slots n.page
      → get_elem? es pos ≡ some (key, old)
      → entries m'.page ≡ insert_at (set es pos (key, to_le_bytes 8 right)) pos separator
      → heap_end m'.page ≡ page_size - 8
      → upper_swip m'.page ≡ upper_swip n.page
      → IsValid m'.page
      → Add.IsValid m'.mutation
      → Published n m' pos sep_key left right
  slot-Published m' pos key old inside here is ends up v' vm' =
      let fs = set es pos (key, to_le_bytes 8 right) in
      let u = upper_swip n.page in
      let ms = map swip_in es in
      let long : pos < length ms =
        omega (arith, inside, length-entries n.page, length-map swip_in es) in
      record {
        all_keys =
            keys_inserted m'.page fs pos is
              (entry_keys-set es pos key (to_le_bytes 8 right) old here);
        all_children =
            children_are m'.page (insert_at fs pos separator) u is up
            ∙ ap (λ xs. xs ++ (u ∷ []))
                (swips_inserted fs pos
                  ∙ ap (λ xs. insert_at xs pos left)
                      (map-set swip_in es pos (key, to_le_bytes 8 right)
                        ∙ ap (λ x. set ms pos x) (swip_back right key right_fits)))
            ∙ insert_left (set ms pos right) (u ∷ []) pos left
                (omega (arith, long, length-set ms pos right))
            ∙ ap (λ xs. insert_at xs pos left) (set_before ms (u ∷ []) pos right long);
        inner_page = (
          v',
          ends,
          subst (All (λ e. length (e.1) ≡ 8)) (sym is) (
              All-insert_at (λ e. length (e.1) ≡ 8) fs pos separator (length-to_le_bytes 8 left)
                (All-set (λ e. length (e.1) ≡ 8) es pos (key, to_le_bytes 8 right)
                  (length-to_le_bytes 8 right) (inner.2))),
        );
        recorded = vm';
      }

  upper-Published :
      (m' : ExclusiveNode)
      → entries m'.page ≡ insert_at es (num_slots n.page) separator
      → heap_end m'.page ≡ page_size - 8
      → upper_swip m'.page ≡ right
      → IsValid m'.page
      → Add.IsValid m'.mutation
      → Published n m' (num_slots n.page) sep_key left right
  upper-Published m' is ends up v' vm' =
      let count = num_slots n.page in
      let ms = map swip_in es in
      let long : length ms ≡ count = omega (arith, length-entries n.page, length-map swip_in es) in
      record {
        all_keys = keys_inserted m'.page es count is refl;
        all_children =
            children_are m'.page (insert_at es count separator) right is up
            ∙ ap (λ xs. xs ++ (right ∷ [])) (swips_inserted es count)
            ∙ insert_left ms (right ∷ []) count left (omega (arith, long))
            ∙ ap (λ xs. insert_at xs count left)
                (sym (set_last_one ms (upper_swip n.page) right count long));
        inner_page = (
          v',
          ends,
          subst (All (λ e. length (e.1) ≡ 8)) (sym is) (
              All-insert_at (λ e. length (e.1) ≡ 8) es count separator (length-to_le_bytes 8 left)
                (inner.2)),
        );
        recorded = vm';
      }

  slot_runs :
      (m m' : ExclusiveNode) (edge : ParentEdge) (pos : ℕ)
      → parent_edge_pos edge (num_slots n.page) ≡ pos
      → pos < num_slots n.page
      → set_child_edge_swip n (slot pos) right ≡ some m
      → insert_separator m pos sep_key left ≡ some m'
      → apply_split_to_latched_parent n sep_key left right edge
        ≡ some (m', record { left = slot pos; right = slot (pos + 1) })
  unfolding apply_split_to_latched_parent split_right_parent_uses_upper split_separator_insert_pos
  slot_runs m m' edge pos is_pos less sets inserts =
      let late : leb (num_slots n.page) pos ≡ false = ground arith in
      let early : ltb pos (num_slots n.page) ≡ true = ground arith in
      rw (is_pos, late, early, sets, inserts) refl

  upper_runs :
      (m m' : ExclusiveNode) (edge : ParentEdge) (pos : ℕ)
      → parent_edge_pos edge (num_slots n.page) ≡ pos
      → pos ≡ num_slots n.page
      → insert_separator n (num_slots n.page) sep_key left ≡ some m
      → set_child_edge_swip m upper right ≡ some m'
      → apply_split_to_latched_parent n sep_key left right edge
        ≡ some (m', record { left = slot pos; right = upper })
  unfolding apply_split_to_latched_parent split_right_parent_uses_upper split_separator_insert_pos
  upper_runs m m' edge pos is_pos last inserts sets =
      let late : leb (num_slots n.page) pos ≡ true = ground arith in
      let early : ltb pos (num_slots n.page) ≡ false = ground arith in
      rw (is_pos, late, early, inserts, sets) refl

  -- Where the parent has room for the separator, a split is published without a panic, with and without the
  -- logging of byte ranges: the separator goes where the edge of the split child is, and both children take the
  -- place of that one in the list of children, the left one first. The edges that are answered are theirs.
  pub apply_split_to_latched_parent_lem :
      (edge : ParentEdge)
      → parent_edge_pos edge (num_slots n.page) ≤ num_slots n.page
      → (n' : ExclusiveNode) × (edges : SplitParentEdges) × (apply_split_to_latched_parent n sep_key
            left right edge
          ≡ some (n', edges))
        × Published n n' (parent_edge_pos edge (num_slots n.page)) sep_key left right
        × (edges.left ≡ slot (parent_edge_pos edge (num_slots n.page)))
        × (edges.right
            ≡ parent_edge_from_pos
                (parent_edge_pos edge (num_slots n.page) + 1)
                (num_slots n.page + 1))
  unfolding parent_edge_from_pos
  apply_split_to_latched_parent_lem edge inside =
      go (parent_edge_pos edge (num_slots n.page)) inside refl
    where
      go :
          (pos : ℕ)
          → pos ≤ num_slots n.page
          → parent_edge_pos edge (num_slots n.page) ≡ pos
          → (n' : ExclusiveNode) × (edges : SplitParentEdges) × (apply_split_to_latched_parent n
                sep_key left right edge
              ≡ some (n', edges))
            × Published n n' pos sep_key left right
            × (edges.left ≡ slot pos)
            × (edges.right ≡ parent_edge_from_pos (pos + 1) (num_slots n.page + 1))
      go pos inside is_pos = elim (dec_lt pos (num_slots n.page)) [
        | yes less ↦
            let size = length-entries n.page in
            let (e, here) = get_elem?-some es pos (omega (arith, less, size)) in
            let eight = All-get_elem? (λ x. length (x.1) ≡ 8) es pos (inner.2) here in
            let (m, sets, m_is, m_up, m_room, m_vm) =
              set_slot_lem n (inner.0) vm (inner.1) right pos (e.0) (e.1) here eight in
            let (m', inserts, is, ends, up, v', vm') = separator_lem m pos m_room m_vm inside in
            let next : (pos + 1 == num_slots n.page + 1) ≡ false = ground arith in
            (
              m',
              record { left = slot pos; right = slot (pos + 1) },
              slot_runs m m' edge pos is_pos less sets inserts,
              slot-Published m' pos (e.0) (e.1) less here
                  (is ∙ ap (λ fs. insert_at fs pos separator) m_is) ends (up ∙ m_up) v' vm',
              refl,
              rw next refl,
            )
        | no not_less ↦
            let count = num_slots n.page in
            let same : count ≡ pos = omega arith in
            let (m, inserts, is, ends, up, v', vm') =
              separator_lem n count (SameRoom-refl n.page (inner.0)) vm (omega arith) in
            let (m', sets, m_is, m_up, m_room, m_vm) =
              set_upper_lem m v' vm' ends right right_fits in
            let next : (pos + 1 == count + 1) ≡ true = ground arith in
            (
              m',
              record { left = slot pos; right = upper },
              upper_runs m m' edge pos is_pos (sym same) inserts sets,
              subst (λ x. Published n m' x sep_key left right) same
                  (upper-Published m' (m_is ∙ is) (m_room.same_end ∙ ends) m_up m_room.valid m_vm),
              refl,
              rw next refl,
            )
      ]
