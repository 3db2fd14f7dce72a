-- ===== src/Slotted/Truncate.antt =====
-- `truncate` of `crates/storage/src/slotted_page.rs`: drop the entries from some slot on, and compact.
use pagebox.Base.{
  ℕ, ◌+◌, ◌-◌, ◌≤◌, ◌≡◌, refl, sym, ap, subst, ◌∙◌, inl, inr, List, [], ◌∷◌, map, some, arith,
  length-take, take_all, take, drop, All, All-take, checked_sub-some, le→leb, Bool-cases, ◌==◌,
  ==_iff,
}
use pagebox.Slotted.Layout.{
  SlottedPage, Slot, IsValid, entries, num_slots, heap_end, live_data, data_len, InHeap, HeadFits,
  payload,
}
use pagebox.Slotted.Ops.{truncate, release, mark_garbage}
use pagebox.Slotted.Compactify.{Compacted, compactify_lem}
use pagebox.Slotted.Accounts.{map-take, live_data-take, Disjoint-take}

-- The loop takes the bytes of the slots that go off the account.
release_lem :
    (ss : List Slot) (used : ℕ) → live_data ss ≤ used → release ss used ≡ some (used - live_data ss)
unfolding release
release_lem [] used h = ap some (omega arith)
release_lem (s ∷ ss) used h =
    rw (checked_sub-some used (data_len s) (omega arith))
      (release_lem ss (used - data_len s) (omega arith) ∙ ap some (omega arith))

-- The page `q` is `p` with its first `n` entries.
pub record Truncated (p q : SlottedPage) (n : ℕ) : Type 0 where
  pub first_entries : entries q ≡ take n (entries p)
  pub count : num_slots q ≡ n
  pub same_lsn : q.page_lsn ≡ p.page_lsn
  pub suffix : (x : ℕ) → heap_end p ≤ x → q.bytes x ≡ p.bytes x
  pub valid : IsValid q

module _ (p : SlottedPage) (v : IsValid p) (n : ℕ) (fits : n ≤ num_slots p) where
  left : ℕ
  left = p.space_used - live_data (drop n p.slots)

  cut : SlottedPage
  cut = record p { space_used = left; slots = take n p.slots; flags = mark_garbage p.flags }

  cut_live : live_data p.slots ≡ live_data (take n p.slots) + live_data (drop n p.slots)
  cut_live = live_data-take n p.slots

  cut_end : heap_end cut ≡ heap_end p
  unfolding cut left
  cut_end = omega (arith, cut_live, v.counted)

  cut-IsValid : IsValid cut
  unfolding cut left
  cut-IsValid = record {
    apart = omega (arith, length-take n p.slots, v.apart);
    room = omega (arith, v.room);
    counted = omega (arith, cut_live, v.counted);
    in_heap =
        subst (λ t. All (InHeap p.data_offset t) (take n p.slots)) (sym cut_end)
          (All-take (InHeap p.data_offset (heap_end p)) n p.slots v.in_heap);
    disjoint = Disjoint-take n p.slots v.disjoint;
    heads = All-take (HeadFits p.bytes) n p.slots v.heads;
    is_bytes = v.is_bytes;
  }

  cut-entries : entries cut ≡ take n (entries p)
  unfolding cut entries
  cut-entries = map-take (payload p.bytes) n p.slots

  Compacted-Truncated : {q : SlottedPage} → Compacted cut q → Truncated p q n
  unfolding cut
  Compacted-Truncated c = record {
    first_entries = c.same_entries ∙ cut-entries;
    count = omega (arith, c.same_count, length-take n p.slots);
    same_lsn = c.same_lsn;
    suffix = λ x h. c.suffix x (omega (arith, cut_end));
    valid = c.valid;
  }

  all_kept : n ≡ num_slots p → Truncated p p n
  unfolding entries
  all_kept e = record {
    first_entries = sym (
        sym (map-take (payload p.bytes) n p.slots)
        ∙ ap (map (payload p.bytes)) (take_all n p.slots (omega arith)));
    count = sym e;
    same_lsn = refl;
    suffix = λ x h. refl;
    valid = v;
  }

  -- `truncate` keeps the first entries of a valid page, which stays valid.
  pub truncate_lem : (q : SlottedPage) × (truncate p n ≡ some q) × Truncated p q n
  unfolding truncate cut left
  truncate_lem = elim (Bool-cases (n == num_slots p)) [
    | inl same ↦ (p, rw (le→leb n (num_slots p) fits, same), all_kept ((==_iff _ _).0 same))
    | inr fewer ↦
        let r = compactify_lem cut cut-IsValid in
        (
          r.0,
          rw
              (
                le→leb n (num_slots p) fits,
                fewer,
                release_lem (drop n p.slots) p.space_used (omega (arith, cut_live, v.counted)),
              )
              r.1,
          Compacted-Truncated r.2,
        )
  ]
