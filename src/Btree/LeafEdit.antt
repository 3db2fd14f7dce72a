-- ===== src/Btree/LeafEdit.antt =====
-- What the updates and removals of a leaf in `crates/btree/src/btree/node.rs` do to its page and to its mutation.
use mathlib.Core.Option.{some-injective}
use native.Mathlib.Decide.{dec_lt}
use pagebox.Base.{
  ℕ, zero, suc, ◌+◌, ◌≤◌, ◌<◌, ◌≡◌, ◌⊎◌, inl, inr, refl, sym, ap, ◌∙◌, List, [], ◌∷◌, some, true,
  false, length, get_elem?, get_elem?-none, insert_at, remove_at, set, All, All-get_elem?, arith,
  ltb, ltb→lt, Bool-cases,
}
use pagebox.Bytes.Memory.{IsByte}
use pagebox.Mutation.Ranges.{PageMutation, page_lsn_range_end, page_bytes}
use pagebox.Mutation.Add
use pagebox.Slotted.Layout.{
  SlottedPage, Slot, IsValid, InHeap, slot_size, heap_end, num_slots, entries,
  free_space_after_compaction,
}
use pagebox.Slotted.Ops.{can_insert, update_value_if_same_length}
use pagebox.Slotted.Edit.{Removed, remove_lem}
use pagebox.Slotted.Update.{update_lem, slot_of}
use pagebox.Slotted.Changes.{RecordsChanges, value_recorded}
use pagebox.Slotted.Covered.{Has, Adds, Adds-if_some, Adds-nothing}
use pagebox.Slotted.Logged.{update_value_with_mutation, value_range, add_if_some}
use pagebox.Slotted.Recorded.{remove_with_mutation_lem}
use pagebox.Slotted.Runs.{entry_keys}
use pagebox.Btree.Leaf.{ExclusiveNode, remove_slot, update_entry}
use pagebox.Btree.LeafMarks.{Touched}

pub insert_at-remove_at {ℓ} :
    {A : Type ℓ} (xs : List A) (i : ℕ) (x : A)
    → i < length xs
    → insert_at (remove_at xs i) i x ≡ set xs i x
insert_at-remove_at [] i x h = absurd (omega arith)
insert_at-remove_at (y ∷ ys) zero x h = refl
insert_at-remove_at (y ∷ ys) (suc i) x h = ap (◌∷◌ y) (insert_at-remove_at ys i x (omega arith))

pub get_elem?-lt {ℓ} :
    {A : Type ℓ} (xs : List A) (i : ℕ) {x : A} → get_elem? xs i ≡ some x → i < length xs
get_elem?-lt xs i e = elim (dec_lt i (length xs)) [
  | yes h ↦ h
  | no h ↦ let missing = get_elem?-none xs i (omega arith) in cc
]

-- A new value under the same key keeps the keys.
pub entry_keys-set :
    (es : List (List ℕ × List ℕ)) (i : ℕ) (key value old : List ℕ)
    → get_elem? es i ≡ some (key, old)
    → entry_keys (set es i (key, value)) ≡ entry_keys es
entry_keys-set [] i key value old e = cc
entry_keys-set (y ∷ ys) zero key value old e =
    let same : y ≡ (key, old) = cc in ap (λ z. z.0 ∷ entry_keys ys) (sym same)
entry_keys-set (y ∷ ys) (suc i) key value old e =
    ap (◌∷◌ (y.0)) (entry_keys-set ys i key value old e)

-- The bytes of the value in a slot, and all else that changed in the page.
abbrev pub RecordsValue : SlottedPage → SlottedPage → ℕ → PageMutation → Type 0
RecordsValue p q pos m =
    (s : Slot) × (get_elem? p.slots pos ≡ some s)
    × Has m (s.offset + s.key_len) (s.offset + s.key_len + s.val_len)
    × RecordsChanges p q m

pub update_entry_lem :
    (n : ExclusiveNode) (pos : ℕ) (key old value : List ℕ)
    → IsValid n.page
    → Add.IsValid n.mutation
    → All IsByte value
    → get_elem? (entries n.page) pos ≡ some (key, old)
    → length value ≡ length old
    → (n' : ExclusiveNode) × (update_entry n pos value ≡ some (n', true))
      × (update_value_if_same_length n.page pos value ≡ some (n'.page, true))
      × Touched n n' (RecordsValue n.page n'.page pos)
unfolding update_entry update_value_with_mutation value_range
update_entry_lem n pos key old value v vm vb here same =
    let (q, runs, _, _, _) = update_lem n.page pos value key old v vb here same in
    let (s, found, key_is, len) = slot_of n.page pos key old here in
    let (inside, heap) =
      All-get_elem? (InHeap (n.page.data_offset) (heap_end n.page)) n.page.slots pos v.in_heap
        found in
    let low = v.apart in
    let start = s.offset + s.key_len in
    let end = start + s.val_len in
    elim (Bool-cases n.logs_dirty_ranges) [
      | inr plain ↦ (
        record n { page = q },
        rw (plain, runs) refl,
        runs,
        record { same_mode = refl; same_marks = refl; recorded = vm; has = inl plain },
      )
      | inl logs ↦
          let (m, adds, (vm', grows, has)) =
            added start end (Bool-cases (ltb start end))
              (λ some_bytes. (omega (arith, heap, low, some_bytes), omega (arith, inside))) in
          (
            record n { page = q; mutation = m },
            rw (logs, found, runs, adds) refl,
            runs,
            record {
              same_mode = refl;
              same_marks = refl;
              recorded = vm';
              has = inr (
                logs,
                (
                  s,
                  found,
                  has,
                  value_recorded n.page q pos value key old s m v vb here same runs found
                      (same ∙ len) has,
                ),
              );
            },
          )
    ]
  where
    added :
        (s e : ℕ)
        → (ltb s e ≡ true) ⊎ (ltb s e ≡ false)
        → (s < e → (page_lsn_range_end ≤ s) × (e ≤ page_bytes))
        → (m : PageMutation) × (add_if_some n.mutation s e ≡ some m) × Adds n.mutation s e m
    added s e (inl some_bytes) bounds =
        let (low, high) = bounds (ltb→lt s e some_bytes) in Adds-if_some n.mutation s e vm low high
    added s e (inr empty) bounds =
        let (runs, adds) = Adds-nothing n.mutation s e vm empty in (n.mutation, runs, adds)

pub remove_slot_lem :
    (n : ExclusiveNode) (pos : ℕ)
    → IsValid n.page
    → Add.IsValid n.mutation
    → pos < num_slots n.page
    → (n' : ExclusiveNode) × (remove_slot n pos ≡ some n')
      × Removed n.page n'.page pos
      × Add.IsValid n'.mutation
      × (n'.logs_dirty_ranges ≡ n.logs_dirty_ranges)
      × (n'.marks ≡ n.marks)
unfolding remove_slot
remove_slot_lem n pos v vm here = elim (Bool-cases n.logs_dirty_ranges) [
  | inl logs ↦
      let (q, m, runs, gone, vm', _, _, _) =
        remove_with_mutation_lem n.page pos n.mutation v vm here in
      (record n { page = q; mutation = m }, rw (logs, runs) refl, gone, vm', refl, refl)
  | inr plain ↦
      let (q, runs, gone) = remove_lem n.page pos v here in
      (record n { page = q }, rw (plain, runs) refl, gone, vm, refl, refl)
]

-- The room that a removal makes is that of the entry and of its slot.
pub room_lem :
    (p q : SlottedPage) (pos : ℕ) (key old value : List ℕ)
    → IsValid p
    → Removed p q pos
    → get_elem? (entries p) pos ≡ some (key, old)
    → length key + length value ≤ free_space_after_compaction p + (length key + length old)
    → can_insert q (length key) (length value) ≡ true
unfolding can_insert
room_lem p q pos key old value v gone was enough =
    let (e, here, freed) = gone.freed in
    let same : e ≡ (key, old) = some-injective _ _ (sym here ∙ was) in
    let fewer = gone.one_less in
    let used = freed_of same freed in
    let room : slot_size + (length key + length value) ≤ free_space_after_compaction q =
      omega (arith, enough, fewer, used, v.apart, v.room) in
    ground arith
  where
    freed_of :
        {e : List ℕ × List ℕ}
        → e ≡ (key, old)
        → q.space_used + (length (e.0) + length (e.1)) ≡ p.space_used
        → q.space_used + (length key + length old) ≡ p.space_used
    freed_of same freed =
        omega (arith, freed, ap (λ x. length (x.0)) same, ap (λ x. length (x.1)) same)
