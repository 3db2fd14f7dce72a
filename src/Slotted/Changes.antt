-- ===== src/Slotted/Changes.antt =====
-- What a page mutation says of two states of a page of `crates/storage/src/slotted_page.rs`: all that is
-- different between them is recorded.
use native.Mathlib.Decide.{dec_lt}
use pagebox.Base.{
  ℕ, ◌+◌, ◌*◌, ◌≤◌, ◌<◌, ◌≡◌, ◌⊎◌, inl, inr, ap, ◌∙◌, List, some, true, length, get_elem?, All,
  arith,
}
use pagebox.Base.Ranges.{get_elem?-remove_at_lt}
use pagebox.Bytes.Memory.{IsByte}
use pagebox.Mutation.Ranges.{PageMutation, page_lsn_range_end}
use pagebox.Mutation.Add.{records}
use pagebox.Slotted.Layout.{SlottedPage, Slot, IsValid, entries, header_size, slot_size, num_slots}
use pagebox.Slotted.Covered.{Has, Has-byte, Has-part}
use pagebox.Slotted.Ops.{update_value_if_same_length}
use pagebox.Slotted.Edit.{Removed}
use pagebox.Slotted.Update.{update-accounts, update-bytes}

-- The header behind the page LSN is recorded unless its fields are the same; each slot of the new page
-- is recorded unless it is the same; and so is each byte from the new heap's start to the page's end.
pub record RecordsChanges (p q : SlottedPage) (m : PageMutation) : Type 0 where
  pub header :
      Has m page_lsn_range_end header_size
      ⊎ ((q.data_offset ≡ p.data_offset)
          × (q.space_used ≡ p.space_used)
          × (q.flags ≡ p.flags)
          × (num_slots q ≡ num_slots p))
  pub slots :
      (j : ℕ)
      → j < num_slots q
      → (get_elem? q.slots j ≡ get_elem? p.slots j)
        ⊎ Has m (header_size + j * slot_size) (header_size + (j + 1) * slot_size)
  pub heap : (x : ℕ) → q.data_offset ≤ x → (q.bytes x ≡ p.bytes x) ⊎ (records m x ≡ true)

pub slot_recorded :
    (m : PageMutation) (first count j : ℕ)
    → Has m (header_size + first * slot_size) (header_size + count * slot_size)
    → first ≤ j
    → j < count
    → Has m (header_size + j * slot_size) (header_size + (j + 1) * slot_size)
slot_recorded m first count j has low high =
    Has-part m (header_size + first * slot_size) (header_size + count * slot_size)
      (header_size + j * slot_size) (header_size + (j + 1) * slot_size) has (omega (arith, low))
      (omega (arith, high))

-- What is recorded of the changes since a removal is all that changed since before it, if the header and the
-- slots from the removed one on are recorded.
pub since_removal :
    (p r q : SlottedPage) (pos first : ℕ) (m : PageMutation)
    → Removed p r pos
    → Has m page_lsn_range_end header_size
    → first ≤ pos
    → Has m (header_size + first * slot_size) (header_size + num_slots q * slot_size)
    → RecordsChanges r q m
    → RecordsChanges p q m
since_removal p r q pos first m gone header low has later = record {
  header = inl header;
  slots = λ j here. elim (dec_lt j pos) [
    | yes before ↦ elim (later.slots j here) [
      | inl same ↦ inl (
          same
          ∙ ap (λ ss. get_elem? ss j) gone.slots_are
          ∙ get_elem?-remove_at_lt p.slots pos j before)
      | inr recorded ↦ inr recorded
    ]
    | no behind ↦ inr (slot_recorded m first (num_slots q) j has (omega (arith, low, behind)) here)
  ];
  heap = λ x from. elim (later.heap x from) [
    | inl same ↦ inl (same ∙ ap (λ b. b x) gone.same_bytes)
    | inr recorded ↦ inr recorded
  ];
}

-- What a value written in place changes is its bytes.
pub value_recorded :
    (p q : SlottedPage) (i : ℕ) (value key old : List ℕ) (s : Slot) (m : PageMutation)
    → IsValid p
    → All IsByte value
    → get_elem? (entries p) i ≡ some (key, old)
    → length value ≡ length old
    → update_value_if_same_length p i value ≡ some (q, true)
    → get_elem? p.slots i ≡ some s
    → length value ≡ s.val_len
    → Has m (s.offset + s.key_len) (s.offset + s.key_len + s.val_len)
    → RecordsChanges p q m
value_recorded p q i value key old s m v vb e len runs here same has =
    let (_, slots, used, offset) = update-accounts p q i value key old v vb e len runs in
    let (flags, bytes) = update-bytes p q i value s v vb here same runs in
    record {
      header = inr (offset, used, flags, ap length slots);
      slots = λ j low. inl (ap (λ ss. get_elem? ss j) slots);
      heap = λ x from. elim (dec_lt x (s.offset + s.key_len)) [
        | yes below ↦ inl (bytes x (inl below))
        | no not_below ↦ elim (dec_lt x (s.offset + s.key_len + s.val_len)) [
          | yes within ↦ inr (
              Has-byte m (s.offset + s.key_len) (s.offset + s.key_len + s.val_len) x has
                (omega (arith, not_below)) within)
          | no not_within ↦ inl (bytes x (inr (omega (arith, not_within))))
        ]
      ];
    }
