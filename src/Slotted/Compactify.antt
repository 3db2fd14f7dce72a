-- ===== src/Slotted/Compactify.antt =====
-- What `compactify` of `crates/storage/src/slotted_page.rs` does to a page.
use Prim.Native.Nat.{bit_and}
use pagebox.Base.{
  ℕ, ◌+◌, ◌-◌, ◌≤◌, ◌≡◌, refl, sym, ap, subst, ◌∙◌, inl, inr, [], some, false, arith,
  length-eq-zero, All, checked_sub-some, ◌==◌, ==_iff, Bool-cases,
}
use pagebox.Base.Bits.{bit_and-one, bit_and-even}
use pagebox.Slotted.Layout.{
  SlottedPage, IsValid, page_size, entries, heap_end, num_slots, live_data, has_garbage, InHeap,
}
use pagebox.Slotted.Ops.{compactify, compactify_empty, compactify_slots, clear_garbage, sum_live}
use pagebox.Slotted.Compaction.{Repacks, repack, sum_live_lem}

-- The page `q` is `p` compacted: the same entries and accounts, the heap in one block below the
-- reserved suffix, and the suffix's bytes as they were.
pub record Compacted (p q : SlottedPage) : Type 0 where
  pub same_entries : entries q ≡ entries p
  pub same_count : num_slots q ≡ num_slots p
  pub same_used : q.space_used ≡ p.space_used
  pub same_live : live_data q.slots ≡ live_data p.slots
  pub same_lsn : q.page_lsn ≡ p.page_lsn
  pub tight : q.data_offset + q.space_used ≡ page_size
  pub clean : has_garbage q ≡ false
  pub suffix : (x : ℕ) → heap_end p ≤ x → q.bytes x ≡ p.bytes x
  pub valid : IsValid q

clean_flags : (flags : ℕ) → bit_and (clear_garbage flags) 1 ≡ 0
clean_flags flags = bit_and-one (clear_garbage flags) ∙ bit_and-even flags 32767

module _ (p : SlottedPage) (v : IsValid p) where
  no_entries : num_slots p ≡ 0 → (q : SlottedPage) × (compactify_empty p ≡ some q) × Compacted p q
  unfolding compactify_empty has_garbage entries
  no_entries none_there =
      let none_left : p.slots ≡ [] = length-eq-zero p.slots none_there in
      (
        record p { data_offset = page_size - p.space_used; flags = clear_garbage p.flags },
        rw (checked_sub-some page_size p.space_used (omega (arith, v.room))),
        record {
          same_entries = refl;
          same_count = refl;
          same_used = refl;
          same_live = refl;
          same_lsn = refl;
          tight = omega (arith, v.room);
          clean = rw (clean_flags p.flags);
          suffix = λ x h. refl;
          valid = record {
            apart = omega (arith, v.room, v.apart);
            room = omega (arith, v.room);
            counted = v.counted;
            in_heap =
                subst (All (InHeap (page_size - p.space_used) (heap_end p))) (sym none_left) tt;
            disjoint = v.disjoint;
            heads = v.heads;
            is_bytes = v.is_bytes;
          };
        },
      )

  top : ℕ
  top = heap_end p

  packed : Repacks p.bytes (λ a. 0) top p.slots
  unfolding top
  packed =
      repack p.bytes (λ a. 0) top p.slots (omega arith) (omega (arith, v.room, v.counted))
        (omega (arith, v.room, v.apart, v.counted))

  summed : sum_live p.slots 0 ≡ some (live_data p.slots)
  summed = sum_live_lem p.data_offset (heap_end p) p.slots 0 v.in_heap ∙ ap some (omega arith)

  some_entries : (q : SlottedPage) × (compactify_slots p ≡ some q) × Compacted p q
  unfolding compactify_slots has_garbage entries top
  some_entries =
      let back = packed.3 v.is_bytes p.bytes in
      let r = back.2 in
      (
        record p {
          slots = back.0.packed_slots;
          bytes = back.0.packed_bytes;
          data_offset = back.0.packed_offset;
          flags = clear_garbage p.flags;
        },
        rw (
          summed,
          checked_sub-some p.space_used (live_data p.slots) v.counted,
          checked_sub-some page_size (p.space_used - live_data p.slots) (omega (arith, v.room)),
          packed.1,
          back.1,
        ),
        record {
          same_entries = r.same;
          same_count = r.count;
          same_used = refl;
          same_live = r.live;
          same_lsn = refl;
          tight = omega (arith, r.block, v.counted, v.room);
          clean = rw (clean_flags p.flags);
          suffix = r.kept;
          valid = record {
            apart = omega (arith, r.count, r.block, v.apart, v.room, v.counted);
            room = omega (arith, r.block, v.counted, v.room);
            counted = omega (arith, r.live, v.counted);
            in_heap =
                subst (λ e. All (InHeap back.0.packed_offset e) back.0.packed_slots)
                  (ap (λ n. page_size - (p.space_used - n)) (sym r.live)) r.in_block;
            disjoint = r.disjoint;
            heads = r.heads v.heads;
            is_bytes = r.are_bytes v.is_bytes;
          };
        },
      )

  -- `compactify` of a valid page does not panic, and gives a page with the same entries in the same
  -- order and the same accounts, whose heap is one block below the untouched reserved suffix, which
  -- has no garbage, and which is valid.
  pub compactify_lem : (q : SlottedPage) × (compactify p ≡ some q) × Compacted p q
  unfolding compactify
  compactify_lem = elim (Bool-cases (num_slots p == 0)) [
    | inl e ↦ let r = no_entries ((==_iff _ _).0 e) in (r.0, rw e r.1, r.2)
    | inr e ↦ let r = some_entries in (r.0, rw e r.1, r.2)
  ]
