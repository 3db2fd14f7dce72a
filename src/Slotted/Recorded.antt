-- ===== src/Slotted/Recorded.antt =====
-- The operations of `crates/storage/src/slotted_page.rs` that add the byte ranges they change to a
-- page mutation: they change the page as the plain ones do, and the mutation covers the ranges.
use native.Mathlib.Decide.{dec_lt}
use pagebox.Base.{
  ℕ, suc, ◌+◌, ◌-◌, ◌*◌, ◌≤◌, ◌<◌, ◌≡◌, refl, sym, ap, ◌∙◌, some, Bool, true, false, List, ltb,
  subst, length, if◌then◌else◌, arith, All, inl, inr, length-insert_at, map, [], ◌∷◌,
}
use pagebox.Mutation.Ranges.{PageMutation, page_lsn_range_end, page_bytes}
use pagebox.Mutation.Add.{records, add_range_lem}
use pagebox.Mutation.Add
use pagebox.Bytes.Memory.{IsByte}
use pagebox.Slotted.Layout.{
  Slot, entries, payload, SlottedPage, IsValid, page_size, header_size, slot_size, num_slots,
  free_space,
}
use pagebox.Slotted.Ops.{can_insert, insert}
use pagebox.Slotted.Place.{Inserted}
use pagebox.Slotted.Insert.{insert_lem, insert_unmoved}
use pagebox.Slotted.Edit.{Removed, remove_lem}
use pagebox.Slotted.Logged.{remove_with_mutation, insert_with_mutation}
use pagebox.Slotted.Changes.{RecordsChanges, slot_recorded}
use pagebox.Slotted.Covered.{Has-byte, Grows, Has, adds, Adds-if_some, Grows-trans, Has-Grows}

-- `remove_with_mutation` on a valid page and a valid mutation does not panic: it removes the entry as
-- `remove` does, and the mutation stays valid, keeps what it recorded, and now records the header
-- behind the page LSN and all slots from the removed one to the new end of the slot array.
pub remove_with_mutation_lem :
    (p : SlottedPage) (i : ℕ) (m : PageMutation)
    → IsValid p
    → Add.IsValid m
    → i < num_slots p
    → (q : SlottedPage) × (m' : PageMutation) × (remove_with_mutation p i m ≡ some (q, m'))
      × Removed p q i
      × Add.IsValid m'
      × Grows m m'
      × Has m' page_lsn_range_end header_size
      × Has m' (header_size + i * slot_size) (header_size + num_slots q * slot_size)
unfolding remove_with_mutation
remove_with_mutation_lem p i m v vm here =
    let (q, removes, ok) = remove_lem p i v here in
    let (m1, runs1, (v1, grows1, has1)) =
      adds m page_lsn_range_end header_size vm (omega arith) (omega arith) (omega arith) in
    let end = header_size + (num_slots p - 1) * slot_size in
    let fits : end ≤ page_bytes = let a = v.apart in let b = v.room in omega (arith, a, b) in
    let (m2, runs2, (v2, grows2, has2)) =
      Adds-if_some m1 (header_size + i * slot_size) end v1 (omega arith) fits in
    let count : num_slots p - 1 ≡ num_slots q = let c = ok.one_less in omega (arith, c) in
    (
      q,
      m2,
      rw (removes, runs1) (rw runs2 refl),
      ok,
      v2,
      Grows-trans m m1 m2 grows1 grows2,
      Has-Grows m1 m2 page_lsn_range_end header_size has1 grows2,
      subst (λ n. Has m2 (header_size + i * slot_size) (header_size + n * slot_size)) count has2,
    )

length-entries : (p : SlottedPage) → length (entries p) ≡ num_slots p
unfolding entries
length-entries p = mapped p.slots
  where
    mapped : (ss : List Slot) → length (map (payload p.bytes) ss) ≡ length ss
    mapped [] = refl
    mapped (s ∷ ss) = ap suc (mapped ss)

one_more :
    (p q : SlottedPage) (i : ℕ) (key value : List ℕ)
    → Inserted p q i key value
    → num_slots q ≡ suc (num_slots p)
one_more p q i key value ins =
    sym (length-entries q)
    ∙ ap length ins.new_entries
    ∙ length-insert_at (entries p) i (key, value)
    ∙ ap suc (length-entries p)

-- What an insertion changes is in the ranges that it adds, whether it compacts the page or not.
changed_recorded :
    (p q : SlottedPage) (i : ℕ) (key value : List ℕ) (m : PageMutation)
    → IsValid p
    → All IsByte key
    → All IsByte value
    → i ≤ num_slots p
    → Inserted p q i key value
    → insert p i key value ≡ some q
    → Has m page_lsn_range_end header_size
    → (compacted : Bool) → ltb (free_space p) (slot_size + (length key + length value)) ≡ compacted
    → Has m
        (header_size + (if compacted then 0 else i) * slot_size)
        (header_size + num_slots q * slot_size)
    → Has m q.data_offset
        (if compacted then page_size else q.data_offset + (length key + length value))
    → RecordsChanges p q m
changed_recorded p q i key value m v kb vb here ok runs header true compacted slots bytes = record {
  header = inl header;
  slots = λ j low. inr (slot_recorded m 0 (num_slots q) j slots (omega arith) low);
  heap = λ x from. elim (dec_lt x page_size) [
    | yes on_page ↦ inr (Has-byte m q.data_offset page_size x bytes from on_page)
    | no behind ↦ inl (ok.suffix x (omega (arith, behind, v.room, v.counted)))
  ];
}
changed_recorded p q i key value m v kb vb here ok runs header false roomy slots bytes =
    let (same_slots, same_bytes, lower) = insert_unmoved p q i key value v kb vb here roomy runs in
    record {
      header = inl header;
      slots = λ j low. elim (dec_lt j i) [
        | yes before ↦ inl (same_slots j before)
        | no not_before ↦
            inr (slot_recorded m i (num_slots q) j slots (omega (arith, not_before)) low)
      ];
      heap = λ x from. elim (dec_lt x p.data_offset) [
        | yes fresh ↦ inr (
            Has-byte m q.data_offset (q.data_offset + (length key + length value)) x bytes from
              (omega (arith, fresh, lower)))
        | no old ↦ inl (same_bytes x (omega (arith, old)))
      ];
    }

-- `insert_with_mutation` on a valid page with room for the entry and a valid mutation does not panic:
-- it inserts the entry as `insert` does, and the mutation stays valid, keeps what it recorded, and
-- now records the header behind the page LSN, all slots from the new one on, and the bytes of the new
-- key and value. Where the insertion compacts the page it also records all else that this moves: each
-- slot, and each byte from the heap's start to the page's end, is the same as before or is recorded.
pub insert_with_mutation_lem :
    (p : SlottedPage) (i : ℕ) (key value : List ℕ) (m : PageMutation)
    → IsValid p
    → Add.IsValid m
    → All IsByte key
    → All IsByte value
    → i ≤ num_slots p
    → can_insert p (length key) (length value) ≡ true
    → (q : SlottedPage) × (m' : PageMutation) × (insert_with_mutation p i key value m
        ≡ some (q, m'))
      × Inserted p q i key value
      × Add.IsValid m'
      × Grows m m'
      × Has m' page_lsn_range_end header_size
      × (first : ℕ) × (first ≤ i)
      × Has m' (header_size + first * slot_size) (header_size + num_slots q * slot_size)
      × (last : ℕ) × (q.data_offset + (length key + length value) ≤ last)
      × Has m' q.data_offset last
      × RecordsChanges p q m'
unfolding insert_with_mutation
insert_with_mutation_lem p i key value m v vm kb vb here room =
    let size = length key + length value in
    let (q, inserts, ok) = insert_lem p i key value v kb vb here room in
    let more = one_more p q i key value ok in
    let a = (ok.valid).apart in
    let b = (ok.valid).room in
    let used = ok.more_used in
    let first = if ltb (free_space p) (slot_size + size) then 0 else i in
    let last = if ltb (free_space p) (slot_size + size) then page_size else q.data_offset + size in
    let first_low : first ≤ i = lower (ltb (free_space p) (slot_size + size)) in
    let ends : (q.data_offset + size ≤ last) × (last ≤ page_bytes) =
      bounded (ltb (free_space p) (slot_size + size)) (q.data_offset + size)
        (omega (arith, b, used)) in
    let (m1, runs1, (v1, grows1, has1)) =
      adds m page_lsn_range_end header_size vm (omega arith) (omega arith) (omega arith) in
    let slots_end = header_size + (num_slots p + 1) * slot_size in
    let (m2, runs2, (v2, grows2, has2)) =
      adds m1 (header_size + first * slot_size) slots_end v1 (omega arith)
        (omega (arith, first_low, here)) (omega (arith, a, b, more)) in
    let (m3, runs3, (v3, grows3, has3)) =
      Adds-if_some m2 q.data_offset last v2 (omega (arith, a)) ends.1 in
    let count : num_slots p + 1 ≡ num_slots q = omega (arith, more) in
    let header =
      Has-Grows m2 m3 page_lsn_range_end header_size
        (Has-Grows m1 m2 page_lsn_range_end header_size has1 grows2) grows3 in
    let slots =
      subst (λ n. Has m3 (header_size + first * slot_size) (header_size + n * slot_size)) count
        (Has-Grows m2 m3 (header_size + first * slot_size) slots_end has2 grows3) in
    (
      q,
      m3,
      rw (inserts, runs1) (rw runs2 (rw runs3 refl)),
      ok,
      v3,
      Grows-trans m m2 m3 (Grows-trans m m1 m2 grows1 grows2) grows3,
      header,
      first,
      first_low,
      slots,
      last,
      ends.0,
      has3,
      changed_recorded p q i key value m3 v kb vb here ok inserts header
          (ltb (free_space p) (slot_size + size)) refl slots has3,
    )
  where
    lower : (b : Bool) → (if b then 0 else i) ≤ i
    lower true = omega arith
    lower false = omega arith

    bounded :
        (b : Bool) (end : ℕ)
        → end ≤ page_bytes
        → (end ≤ (if b then page_size else end)) × ((if b then page_size else end) ≤ page_bytes)
    bounded true end h = (h, omega arith)
    bounded false end h = (omega arith, h)
