-- ===== src/Slotted/Tests.antt =====
-- Runs of `crates/storage/src/slotted_page.rs` on a page of two entries.
use pagebox.Base.{
  ℕ, zero, suc, ◌+◌, ◌*◌, ◌≤◌, ◌≡◌, refl, sym, subst, inl, inr, List, [], ◌∷◌, some, true, false,
  arith, get_elem?,
}
use pagebox.Bytes.Memory.{read_bytes}
use pagebox.Bytes.BigEndian.{cmp_keys, from_be_bytes, pad_to}
use pagebox.Slotted.Layout.{num_slots, SlottedPage, IsValid, entries, make_head}
use pagebox.Slotted.Ops.{compactify, insert, truncate, can_insert}
use pagebox.Slotted.Search.{
  lower_bound, lower_bound_generic, bisect, probe_generic, try_lower_bound,
}
use pagebox.Slotted.Compactify.{Compacted, compactify_lem}
use pagebox.Slotted.Place.{Inserted}
use pagebox.Slotted.Insert.{insert_lem}
use pagebox.Slotted.Truncate.{Truncated, truncate_lem}
use pagebox.Slotted.Bisect.{IsSorted, Precedes, Finds}
use pagebox.Slotted.LowerBound.{keys, lower_bound_lem}
use pagebox.Slotted.Optimistic.{try_lower_bound_lem}
use pagebox.Mutation.Ranges.{PageMutation, empty_mutation}
use pagebox.Mutation.Add
use pagebox.Slotted.Logged.{insert_with_mutation}
use pagebox.Slotted.Changes.{RecordsChanges}
use pagebox.Slotted.Covered.{Grows, Has}
use pagebox.Slotted.Recorded.{insert_with_mutation_lem}

-- Every byte is 7: the keys are 7 and 7 7, the values 7.
abbrev two_entries : SlottedPage
two_entries = record {
  page_lsn = 0;
  data_offset = 65530;
  space_used = 6;
  flags = 0;
  slots =
      record { offset = 65530; key_len = 1; val_len = 1; pad = 0; head = make_head (7 ∷ []) }
      ∷ record { offset = 65532; key_len = 2; val_len = 1; pad = 0; head = make_head (7 ∷ 7 ∷ []) }
      ∷ [];
  bytes = λ a. 7;
}

two_entries-IsValid : IsValid two_entries
unfolding read_bytes
two_entries-IsValid = record {
  apart = omega arith;
  room = omega arith;
  counted = omega arith;
  in_heap = (
    (omega arith, inr (omega arith, omega arith)),
    ((omega arith, inr (omega arith, omega arith)), tt),
  );
  disjoint = ((inr (inr (inl (omega arith))), tt), (tt, tt));
  heads = (refl, (refl, tt));
  is_bytes = λ a. omega arith;
}

two_entries-entries : entries two_entries ≡ (7 ∷ [], 7 ∷ []) ∷ (7 ∷ 7 ∷ [], 7 ∷ []) ∷ []
unfolding entries read_bytes
two_entries-entries = refl

keys_are : keys two_entries ≡ (7 ∷ []) ∷ (7 ∷ 7 ∷ []) ∷ []
unfolding keys entries read_bytes
keys_are = refl

some_inv : (s t : List ℕ) → some s ≡ some t → s ≡ t
some_inv s t e = cc

shorter : Precedes (7 ∷ []) (7 ∷ 7 ∷ [])
unfolding cmp_keys
shorter = refl

pub IsSorted-keys : IsSorted ((7 ∷ []) ∷ (7 ∷ 7 ∷ []) ∷ [])
IsSorted-keys zero zero k l h e f = absurd (omega arith)
IsSorted-keys zero (suc zero) k l h e f =
    subst (λ x. Precedes x l) (some_inv (7 ∷ []) k e)
      (subst (λ x. Precedes (7 ∷ []) x) (some_inv (7 ∷ 7 ∷ []) l f) shorter)
IsSorted-keys zero (suc (suc j)) k l h e f = cc
IsSorted-keys (suc zero) zero k l h e f = absurd (omega arith)
IsSorted-keys (suc zero) (suc zero) k l h e f = absurd (omega arith)
IsSorted-keys (suc zero) (suc (suc j)) k l h e f = cc
IsSorted-keys (suc (suc i)) j k l h e f = cc

two_entries-IsSorted : IsSorted (keys two_entries)
two_entries-IsSorted = subst IsSorted (sym keys_are) IsSorted-keys

roomy : can_insert two_entries 2 1 ≡ true
unfolding can_insert
roomy = refl

-- A page whose reserved suffix leaves no room.
abbrev packed_page : SlottedPage
packed_page = record {
  page_lsn = 0;
  data_offset = 32;
  space_used = 65504;
  flags = 0;
  slots = [];
  bytes = λ a. 0;
}

full : can_insert packed_page 2 1 ≡ false
unfolding can_insert
full = refl

absent : lower_bound two_entries (7 ∷ 5 ∷ []) ≡ some (1, false)
unfolding lower_bound lower_bound_generic bisect probe_generic make_head from_be_bytes pad_to
absent = refl

first_entry : get_elem? (entries two_entries) 0 ≡ some (7 ∷ [], 7 ∷ [])
unfolding entries read_bytes
first_entry = refl

compactify_lem_example :
    (q : SlottedPage) × (compactify two_entries ≡ some q) × Compacted two_entries q
compactify_lem_example = compactify_lem two_entries two_entries-IsValid

insert_lem_example :
    (q : SlottedPage) × (insert two_entries 1 (7 ∷ 5 ∷ []) (9 ∷ []) ≡ some q)
    × Inserted two_entries q 1 (7 ∷ 5 ∷ []) (9 ∷ [])
insert_lem_example =
    insert_lem two_entries 1 (7 ∷ 5 ∷ []) (9 ∷ []) two_entries-IsValid
      (omega arith, (omega arith, tt)) (omega arith, tt) (omega arith) roomy

truncate_lem_example :
    (q : SlottedPage) × (truncate two_entries 1 ≡ some q) × Truncated two_entries q 1
truncate_lem_example = truncate_lem two_entries two_entries-IsValid 1 (omega arith)

lower_bound_lem_example :
    Finds (keys two_entries) (7 ∷ 5 ∷ []) (lower_bound two_entries (7 ∷ 5 ∷ []))
lower_bound_lem_example =
    lower_bound_lem two_entries two_entries-IsValid two_entries-IsSorted (7 ∷ 5 ∷ [])
      (omega arith, (omega arith, tt))

try_lower_bound_lem_example :
    try_lower_bound two_entries (7 ∷ 5 ∷ []) ≡ lower_bound two_entries (7 ∷ 5 ∷ [])
try_lower_bound_lem_example = try_lower_bound_lem two_entries two_entries-IsValid (7 ∷ 5 ∷ [])

no_changes : Add.IsValid empty_mutation
unfolding empty_mutation
no_changes = inr (refl, tt, omega arith)

insert_with_mutation_lem_example :
    (q : SlottedPage) × (m' : PageMutation) × (insert_with_mutation two_entries 1
        (7 ∷ 5 ∷ [])
        (9 ∷ [])
        empty_mutation
      ≡ some (q, m'))
    × Inserted two_entries q 1 (7 ∷ 5 ∷ []) (9 ∷ [])
    × Add.IsValid m'
    × Grows empty_mutation m'
    × Has m' 8 24
    × (first : ℕ) × (first ≤ 1)
    × Has m' (24 + first * 12) (24 + num_slots q * 12)
    × (last : ℕ) × (q.data_offset + 3 ≤ last)
    × Has m' q.data_offset last
    × RecordsChanges two_entries q m'
insert_with_mutation_lem_example =
    insert_with_mutation_lem two_entries 1 (7 ∷ 5 ∷ []) (9 ∷ []) empty_mutation two_entries-IsValid
      no_changes (omega arith, (omega arith, tt)) (omega arith, tt) (omega arith) roomy
