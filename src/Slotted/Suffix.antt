-- ===== src/Slotted/Suffix.antt =====
-- The reserved suffix and the flags of a slotted page (`crates/storage/src/slotted_page.rs`): a change of
-- them leaves the entries and the validity.
use pagebox.Base.{ℕ, ◌≤◌, ◌<◌, ◌≡◌, refl, sym, ◌∙◌, inl, arith}
use pagebox.Bytes.Fields.{put_le, put_le_outside, put_le-IsByte}
use pagebox.Slotted.Layout.{SlottedPage, IsValid, entries, heap_end, num_slots}
use pagebox.Slotted.Accounts.{payloads_cong, heads_cong}

-- A page whose entries, and all that its header keeps about them, are those of another one.
pub record Kept (p q : SlottedPage) : Type 0 where
  pub same_entries : entries q ≡ entries p
  pub same_count : num_slots q ≡ num_slots p
  pub same_offset : q.data_offset ≡ p.data_offset
  pub same_used : q.space_used ≡ p.space_used
  pub same_lsn : q.page_lsn ≡ p.page_lsn
  pub same_end : heap_end q ≡ heap_end p
  pub valid : IsValid q

module _ (p : SlottedPage) (v : IsValid p) where
  pub with_flags-Kept : (flags : ℕ) → Kept p (record p { flags = flags })
  unfolding entries
  with_flags-Kept flags = record {
    same_entries = refl;
    same_count = refl;
    same_offset = refl;
    same_used = refl;
    same_lsn = refl;
    same_end = refl;
    valid = record {
      apart = v.apart;
      room = v.room;
      counted = v.counted;
      in_heap = v.in_heap;
      disjoint = v.disjoint;
      heads = v.heads;
      is_bytes = v.is_bytes;
    };
  }

  -- A field in the suffix.
  pub put_le-Kept :
      (n at value : ℕ) → heap_end p ≤ at → Kept p (record p { bytes = put_le n at value p.bytes })
  unfolding entries
  put_le-Kept n at value behind =
      let m = put_le n at value p.bytes in
      let kept : (x : ℕ) → p.data_offset ≤ x → x < heap_end p → p.bytes x ≡ m x = λ x _ below.
        sym (put_le_outside n at value p.bytes x (inl (omega (arith, below, behind)))) in
      record {
        same_entries =
            sym (payloads_cong p.bytes m p.data_offset (heap_end p) p.slots v.in_heap kept);
        same_count = refl;
        same_offset = refl;
        same_used = refl;
        same_lsn = refl;
        same_end = refl;
        valid = record {
          apart = v.apart;
          room = v.room;
          counted = v.counted;
          in_heap = v.in_heap;
          disjoint = v.disjoint;
          heads = heads_cong p.bytes m p.data_offset (heap_end p) p.slots v.in_heap kept v.heads;
          is_bytes = put_le-IsByte n at value p.bytes v.is_bytes;
        };
      }

pub Kept-trans : {p q r : SlottedPage} → Kept p q → Kept q r → Kept p r
Kept-trans k l = record {
  same_entries = l.same_entries ∙ k.same_entries;
  same_count = l.same_count ∙ k.same_count;
  same_offset = l.same_offset ∙ k.same_offset;
  same_used = l.same_used ∙ k.same_used;
  same_lsn = l.same_lsn ∙ k.same_lsn;
  same_end = l.same_end ∙ k.same_end;
  valid = l.valid;
}
