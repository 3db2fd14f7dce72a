-- ===== src/Slotted/Place.antt =====
-- The end of `insert` of `crates/storage/src/slotted_page.rs`: an entry is written below the heap of
-- a page that has room for it.
use native.Mathlib.Nat.{eq-zero-or-pos}
use pagebox.Base.{
  ℕ, suc, ◌+◌, ◌-◌, ◌≤◌, ◌<◌, get_elem?, ◌≡◌, refl, sym, ap, subst, ◌∙◌, inl, inr, List, map, some,
  arith, length, length-insert_at, insert_at, All, All-insert_at, All-map, checked_sub-some, le→leb,
}
use pagebox.Base.Ranges.{get_elem?-insert_at_lt}
use pagebox.Bytes.Memory.{
  Memory, IsByte, write_bytes, write_bytes_outside, read_back, read_bytes_outside,
  write_bytes-IsByte,
}
use pagebox.Slotted.Layout.{
  SlottedPage, Slot, IsValid, page_size, slot_size, entries, num_slots, free_space, heap_end,
  live_data, InHeap, Separate, HeadFits, make_head, payload,
}
use pagebox.Slotted.Ops.{place, new_slot}
use pagebox.Slotted.Payload.{payload_moved}
use pagebox.Slotted.Accounts.{
  map-insert_at, live_data-insert_at, Disjoint-insert_at, payloads_cong, heads_cong,
}

-- The page `q` is `p` with one more entry, at `i`.
pub record Inserted (p q : SlottedPage) (i : ℕ) (key value : List ℕ) : Type 0 where
  pub new_entries : entries q ≡ insert_at (entries p) i (key, value)
  pub more_used : q.space_used ≡ p.space_used + (length key + length value)
  pub same_lsn : q.page_lsn ≡ p.page_lsn
  pub same_end : heap_end q ≡ heap_end p
  pub suffix : (x : ℕ) → heap_end p ≤ x → q.bytes x ≡ p.bytes x
  pub valid : IsValid q

-- Writing an entry below the heap of a page that has room for it.
module _ (p : SlottedPage) (v : IsValid p) (i : ℕ) (key value : List ℕ) (key_bytes : All IsByte key)
    (value_bytes : All IsByte value) (in_range : i ≤ num_slots p)
    (fits : slot_size + (length key + length value) ≤ free_space p) where
  k : ℕ
  k = length key

  at : ℕ
  at = p.data_offset - (length key + length value)

  stored : Memory
  stored = write_bytes (write_bytes p.bytes at key) (at + length key) value

  fresh : Slot
  fresh = new_slot at key value

  pub placed : SlottedPage
  placed = record p {
    bytes = stored;
    slots = insert_at p.slots i fresh;
    data_offset = at;
    space_used = p.space_used + (length key + length value);
  }

  fresh_len : (fresh.key_len ≡ length key) × (fresh.val_len ≡ length value)
  unfolding fresh
  fresh_len = (omega (arith, v.room), omega (arith, v.room))

  old_bytes : (x : ℕ) → p.data_offset ≤ x → stored x ≡ p.bytes x
  unfolding stored at
  old_bytes x h =
      write_bytes_outside _ (at + length key) value x (inr (omega arith))
      ∙ write_bytes_outside p.bytes at key x (inr (omega arith))

  fresh-payload : payload stored fresh ≡ (key, value)
  unfolding stored fresh at
  fresh-payload =
      let moved =
        payload_moved stored stored at at (length key) (length value) (omega (arith, v.room))
          refl in
      let first =
        read_bytes_outside (write_bytes p.bytes at key) (at + length key) value at (length key)
          (inl (omega arith)) in
      let key_read = moved.0 ∙ first ∙ read_back p.bytes at key refl in
      let value_read =
        moved.1 ∙ read_back (write_bytes p.bytes at key) (at + length key) value refl in
      rw (fresh_len.0, fresh_len.1) (λ j. (key_read j, value_read j))

  fresh_in_heap : InHeap at (heap_end p) fresh
  unfolding fresh at
  fresh_in_heap = elim (eq-zero-or-pos (length key + length value)) [
    | inl e ↦ (omega (arith, v.room), inl (omega (arith, fresh_len)))
    | inr h ↦ (
      omega (arith, v.room),
      inr (omega (arith, v.room), omega (arith, v.room, v.counted, fresh_len)),
    )
  ]

  fresh-Separate : (s : Slot) → InHeap p.data_offset (heap_end p) s → Separate fresh s
  unfolding fresh at
  fresh-Separate s (inside, inl nothing) = inr (inl nothing)
  fresh-Separate s (inside, inr range) = elim (eq-zero-or-pos (length key + length value)) [
    | inl e ↦ inl (omega (arith, fresh_len))
    | inr h ↦ inr (inr (inl (omega (arith, v.room, fresh_len))))
  ]

  more_live : live_data (insert_at p.slots i fresh) ≡ length key + length value + live_data p.slots
  more_live = omega (arith, live_data-insert_at p.slots i fresh, fresh_len)

  old_entries : map (payload stored) p.slots ≡ map (payload p.bytes) p.slots
  old_entries = sym (
      payloads_cong p.bytes stored p.data_offset (heap_end p) p.slots v.in_heap
        (λ x a b. sym (old_bytes x a)))

  same_end : heap_end placed ≡ heap_end p
  unfolding placed
  same_end = omega (arith, more_live, v.counted)

  All-in_heap : All (InHeap at (heap_end p)) (insert_at p.slots i fresh)
  unfolding at
  All-in_heap =
      All-insert_at (InHeap at (heap_end p)) p.slots i fresh fresh_in_heap
        (All-map p.slots (λ s h. omega (arith, h)) v.in_heap)

  All-heads : All (HeadFits stored) (insert_at p.slots i fresh)
  unfolding fresh
  All-heads =
      All-insert_at (HeadFits stored) p.slots i fresh (ap (λ q. make_head q.0) (sym fresh-payload))
        (heads_cong p.bytes stored p.data_offset (heap_end p) p.slots v.in_heap
          (λ x a b. sym (old_bytes x a)) v.heads)

  placed-IsValid : IsValid placed
  unfolding placed at stored
  placed-IsValid = record {
    apart = omega (arith, length-insert_at p.slots i fresh);
    room = omega (arith, v.room);
    counted = omega (arith, more_live, v.counted);
    in_heap = subst (λ e. All (InHeap at e) (insert_at p.slots i fresh)) (sym same_end) All-in_heap;
    disjoint =
        Disjoint-insert_at p.slots i fresh (All-map p.slots fresh-Separate v.in_heap) v.disjoint;
    heads = All-heads;
    is_bytes =
        write_bytes-IsByte _ (at + length key) value value_bytes
          (write_bytes-IsByte p.bytes at key key_bytes v.is_bytes);
  }

  pub placed-Inserted : Inserted p placed i key value
  unfolding placed entries
  placed-Inserted = record {
    new_entries =
        map-insert_at (payload stored) p.slots i fresh
        ∙ (λ j. insert_at (old_entries j) i (fresh-payload j));
    more_used = refl;
    same_lsn = refl;
    same_end = same_end;
    suffix = λ x h. old_bytes x (omega (arith, v.room, v.counted));
    valid = placed-IsValid;
  }

  pub placed-slots : (j : ℕ) → j < i → get_elem? placed.slots j ≡ get_elem? p.slots j
  unfolding placed
  placed-slots j low = get_elem?-insert_at_lt fresh p.slots i j low in_range

  pub placed-bytes : (x : ℕ) → p.data_offset ≤ x → placed.bytes x ≡ p.bytes x
  unfolding placed
  placed-bytes = old_bytes

  pub placed-flags : placed.flags ≡ p.flags
  unfolding placed
  placed-flags = refl

  pub placed-data_offset : placed.data_offset + (length key + length value) ≡ p.data_offset
  unfolding placed at
  placed-data_offset = omega arith

  pub placed-num_slots : num_slots placed ≡ suc (num_slots p)
  unfolding placed
  placed-num_slots = length-insert_at p.slots i fresh

  pub place_lem : place p i key value ≡ some placed
  unfolding place placed at stored fresh
  place_lem = rw (
    checked_sub-some p.data_offset (length key + length value) (omega arith),
    le→leb p.data_offset page_size (omega (arith, v.room)),
    le→leb i (num_slots p) in_range,
  )
