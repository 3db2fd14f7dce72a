-- ===== src/Btree/LeafMarks.antt =====
-- What an insertion into a leaf leaves to `finish_mutation` of `crates/btree/src/btree/node.rs`, and what that hands
-- to the frame.
use pagebox.Base.{
  ℕ, ◌+◌, ◌-◌, ◌*◌, ◌≤◌, ◌≡◌, ◌⊎◌, inl, inr, refl, ap, ◌∙◌, List, [], ◌∷◌, some, Bool, true, false,
  length, All, arith, ◌&&◌, ◌||◌, ◌==◌, not, Bool-cases,
}
use pagebox.Bytes.Memory.{IsByte}
use pagebox.Bytes.Fields.{get_le_cong}
use pagebox.Mutation.Ranges.{
  PageMutation, PageMutationRange, page_lsn_range_end, empty_mutation, is_empty,
}
use pagebox.Mutation.Coverage.{inside, covers}
use pagebox.Mutation.Add.{records}
use pagebox.Mutation.Add
use pagebox.Slotted.Layout.{
  SlottedPage, IsValid, page_size, header_size, slot_size, heap_end, num_slots,
}
use pagebox.Slotted.Ops.{can_insert}
use pagebox.Slotted.Place.{Inserted}
use pagebox.Slotted.Insert.{insert_lem}
use pagebox.Slotted.Changes.{RecordsChanges}
use pagebox.Slotted.Covered.{Has, Grows}
use pagebox.Slotted.Recorded.{insert_with_mutation_lem}
use pagebox.Slotted.Bisect.{IsSorted}
use pagebox.Slotted.LowerBound.{keys}
use pagebox.Btree.Node.{leaf_left_pid, leaf_right_pid}
use pagebox.Btree.LeafPage.{IsLeaf}
use pagebox.Btree.Leaf.{ExclusiveNode, DirtyMark, finish_mutation, insert_entry}

-- A leaf page with ascending keys, and a valid mutation of it.
pub record GoodLeaf (n : ExclusiveNode) : Type 0 where
  pub leaf : IsLeaf n.page
  pub sorted : IsSorted (keys n.page)
  pub recorded : Add.IsValid n.mutation

-- The frame was made dirty once more: as a whole, or in the ranges of a mutation.
abbrev pub MarkedOnce : ExclusiveNode → ExclusiveNode → (PageMutation → Type 0) → Type 0
MarkedOnce n n' P =
    ((n.logs_dirty_ranges ≡ false) × (n'.marks ≡ DirtyMark.mark_dirty ∷ n.marks))
    ⊎ ((n.logs_dirty_ranges ≡ true)
        × (m : PageMutation) × (n'.marks ≡ DirtyMark.mark_dirty_ranges m ∷ n.marks)
        × P m)

-- The mutation has the header, the slots from the new one on, the bytes of the new entry, and all else that
-- changed in the page.
abbrev pub RecordsEntry : SlottedPage → SlottedPage → ℕ → List ℕ → List ℕ → PageMutation → Type 0
RecordsEntry p q pos key value m =
    Has m page_lsn_range_end header_size
    × (first : ℕ) × (first ≤ pos)
    × Has m (header_size + first * slot_size) (header_size + num_slots q * slot_size)
    × (last : ℕ) × (q.data_offset + (length key + length value) ≤ last)
    × Has m q.data_offset last
    × RecordsChanges p q m

-- What an operation leaves to `finish_mutation`.
pub record Touched (n n' : ExclusiveNode) (P : PageMutation → Type 0) : Type 0 where
  pub same_mode : n'.logs_dirty_ranges ≡ n.logs_dirty_ranges
  pub same_marks : n'.marks ≡ n.marks
  pub recorded : Add.IsValid n'.mutation
  pub has : (n.logs_dirty_ranges ≡ false) ⊎ ((n.logs_dirty_ranges ≡ true) × P n'.mutation)

-- A mutation that has the header is not empty.
not_empty : (m : PageMutation) → Has m page_lsn_range_end header_size → is_empty m ≡ false
unfolding is_empty records inside
not_empty m has = go m.ranges m.full_image (has 8)
  where
    go :
        (rs : List PageMutationRange) (full : Bool)
        → true ≡ (full || covers rs 8)
        → (length rs == 0 && not full) ≡ false
    go [] false e = cc
    go [] true e = refl
    go (r ∷ rs) full e = ground arith

pub insert_entry_lem :
    (n : ExclusiveNode) (pos : ℕ) (key value : List ℕ)
    → IsValid n.page
    → Add.IsValid n.mutation
    → All IsByte key
    → All IsByte value
    → pos ≤ num_slots n.page
    → can_insert n.page (length key) (length value) ≡ true
    → (n' : ExclusiveNode) × (insert_entry n pos key value ≡ some n')
      × Inserted n.page n'.page pos key value
      × Touched n n' (RecordsEntry n.page n'.page pos key value)
      × ((n.logs_dirty_ranges ≡ false)
          ⊎ ((n.logs_dirty_ranges ≡ true) × Grows n.mutation n'.mutation))
unfolding insert_entry
insert_entry_lem n pos key value v vm kb vb here room = elim (Bool-cases n.logs_dirty_ranges) [
  | inl logs ↦
      let (q, m, runs, ins, vm', grows, header, first, low, slots, last, high, bytes, changes) =
        insert_with_mutation_lem n.page pos key value n.mutation v vm kb vb here room in
      (
        record n { page = q; mutation = m },
        rw (logs, runs) refl,
        ins,
        record {
          same_mode = refl;
          same_marks = refl;
          recorded = vm';
          has = inr (logs, (header, first, low, slots, last, high, bytes, changes));
        },
        inr (logs, grows),
      )
  | inr plain ↦
      let (q, runs, ins) = insert_lem n.page pos key value v kb vb here room in
      (
        record n { page = q },
        rw (plain, runs) refl,
        ins,
        record { same_mode = refl; same_marks = refl; recorded = vm; has = inl plain },
        inl plain,
      )
]

-- The end of an operation marks the frame once, since the mutation has the header.
pub finish_mutation_lem :
    (n n' : ExclusiveNode) (P : PageMutation → Type 0)
    → ((m : PageMutation) → P m → Has m page_lsn_range_end header_size)
    → Touched n n' P
    → MarkedOnce n (finish_mutation n') P
unfolding finish_mutation
finish_mutation_lem n n' P header t = elim t.has [
  | inl plain ↦
      let mode : n'.logs_dirty_ranges ≡ false = t.same_mode ∙ plain in
      inl (plain, rw mode (ap (λ ms. DirtyMark.mark_dirty ∷ ms) t.same_marks))
  | inr (logs, has) ↦
      let mode : n'.logs_dirty_ranges ≡ true = t.same_mode ∙ logs in
      let filled = not_empty n'.mutation (header n'.mutation has) in
      inr (
        logs,
        n'.mutation,
        rw (mode, filled) (ap (λ ms. DirtyMark.mark_dirty_ranges n'.mutation ∷ ms) t.same_marks),
        has,
      )
]

pub finish_mutation-page : (n : ExclusiveNode) → (finish_mutation n).page ≡ n.page
unfolding finish_mutation
finish_mutation-page n = ground arith

pub finish_mutation-recorded :
    (n : ExclusiveNode) → Add.IsValid n.mutation → Add.IsValid ((finish_mutation n).mutation)
unfolding finish_mutation empty_mutation
finish_mutation-recorded n v = ground arith

-- The links of a leaf lie behind its heap.
pub links_kept :
    (p q : SlottedPage)
    → heap_end p ≡ page_size - 16
    → ((x : ℕ) → heap_end p ≤ x → q.bytes x ≡ p.bytes x)
    → (leaf_left_pid q ≡ leaf_left_pid p) × (leaf_right_pid q ≡ leaf_right_pid p)
unfolding leaf_left_pid leaf_right_pid
links_kept p q ends same = (
  get_le_cong 8 65528 q.bytes p.bytes (λ x low high. same x (omega (arith, ends, low))),
  get_le_cong 8 65520 q.bytes p.bytes (λ x low high. same x (omega (arith, ends, low))),
)
