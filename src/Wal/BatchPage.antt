-- ===== src/Wal/BatchPage.antt =====
-- `crates/wal/src/format.rs`: a finalized metadata page gives back its count and its entries.
use pagebox.Base.{
  ℕ, zero, suc, ◌+◌, ◌-◌, ◌^◌, ◌≤◌, ◌<◌, ◌≡◌, refl, sym, ◌∙◌, inl, inr, some, List, [], ◌∷◌, false,
  ◌==◌, ==_iff, le→ltb, length, All, arith,
}
use pagebox.Bytes.Memory.{Memory, read_bytes_cong}
use pagebox.Bytes.Fields.{
  get_le, put_le, get_le-put_le, get_le-put_le_apart, put_le_outside, get_le_cong,
}
use pagebox.Wal.Capacity.{wal_record_size, batch_max_records}
use pagebox.Wal.Records.{BatchEntry}
use pagebox.Wal.Batch.{
  init_batch_meta, zeroed, batch_meta_magic, wal_version, batch_meta_count_unchecked,
  set_batch_meta_count, batch_entry_offset, write_batch_entry, batch_meta_crc, batch_meta_count,
  finalize_batch_meta, write_entries, read_entries,
}
use pagebox.Wal.BatchCodec.{
  FitsEntry, write_batch_entry_outside, read_batch_entry_cong, read_batch_entry-write_batch_entry,
}

next_offset : (idx : ℕ) → batch_entry_offset (idx + 1) ≡ batch_entry_offset idx + 28
unfolding batch_entry_offset
next_offset idx = omega arith

write_entries_below :
    (entries : List BatchEntry) (idx : ℕ) (buf : Memory) (x : ℕ)
    → x < batch_entry_offset idx
    → write_entries idx entries buf x ≡ buf x
unfolding write_entries
write_entries_below [] idx buf x below = refl
write_entries_below (e ∷ entries) idx buf x below =
    let next = next_offset idx in
    write_entries_below entries (idx + 1) (write_batch_entry buf idx e) x (omega (arith, next))
    ∙ write_batch_entry_outside buf idx e x (inl below)

read_entries-write_entries :
    (entries : List BatchEntry) (idx : ℕ) (buf : Memory)
    → All FitsEntry entries
    → read_entries (length entries) idx (write_entries idx entries buf) ≡ entries
unfolding read_entries write_entries
read_entries-write_entries [] idx buf all = refl
read_entries-write_entries (e ∷ entries) idx buf all =
    let next = next_offset idx in
    let m = write_batch_entry buf idx e in
    let head =
      read_batch_entry_cong (write_entries (idx + 1) entries m) m idx
        (λ x p q. write_entries_below entries (idx + 1) m x (omega (arith, next)))
      ∙ read_batch_entry-write_batch_entry buf idx e all.0 in
    cc (head, read_entries-write_entries entries (idx + 1) m all.1)

entries_high : (idx : ℕ) → 16 ≤ batch_entry_offset idx
unfolding batch_entry_offset
entries_high idx = omega arith

-- The entries do not depend on the first sixteen bytes.
read_entries_cong :
    (n idx : ℕ) (m m' : Memory)
    → ((x : ℕ) → 16 ≤ x → m x ≡ m' x)
    → read_entries n idx m ≡ read_entries n idx m'
unfolding read_entries
read_entries_cong zero idx m m' same = refl
read_entries_cong (suc n) idx m m' same =
    let high = entries_high idx in
    cc (
      read_batch_entry_cong m m' idx (λ x p q. same x (omega (arith, high))),
      read_entries_cong n (idx + 1) m m' same,
    )

-- The magic and the version of a page.
abbrev IsMeta : Memory → Type 0
IsMeta m = (get_le 4 0 m ≡ batch_meta_magic) × (get_le 2 4 m ≡ wal_version)

init_batch_meta-IsMeta : (buf : Memory) → IsMeta (init_batch_meta buf)
unfolding init_batch_meta
init_batch_meta-IsMeta buf =
    let m = put_le 4 0 batch_meta_magic (zeroed buf) in
    (
      get_le-put_le_apart 4 0 2 4 wal_version m (inl (omega arith))
          ∙ get_le-put_le 4 0 batch_meta_magic (zeroed buf) (omega arith),
      get_le-put_le 2 4 wal_version m (omega arith),
    )

count_read :
    (m : Memory) (count : ℕ)
    → IsMeta m
    → get_le 2 6 m ≡ count
    → 0 < count
    → count ≤ batch_max_records
    → batch_meta_count_unchecked m ≡ some count
unfolding batch_meta_count_unchecked
count_read m count (magic, version) e some_records few =
    let not_zero : (count == 0) ≡ false = ground arith in
    let not_many = le→ltb batch_max_records count few in
    rw (magic, version, e, not_zero, not_many) refl

module _ (crc : List ℕ → ℕ) where
  -- The stored checksum does not count.
  batch_meta_crc-put_le :
      (m : Memory) (v : ℕ) → batch_meta_crc crc (put_le 4 8 v m) ≡ batch_meta_crc crc m
  unfolding batch_meta_crc
  batch_meta_crc-put_le m v =
      let low =
        read_bytes_cong (put_le 4 8 v m) m 0 8 (λ x p q. put_le_outside 4 8 v m x (omega arith)) in
      let high =
        read_bytes_cong (put_le 4 8 v m) m 12 (wal_record_size - 12)
          (λ x p q. put_le_outside 4 8 v m x (omega arith)) in
      cc (low, high)

  crc_small : (m : Memory) → batch_meta_crc crc m < 2 ^ 32
  unfolding batch_meta_crc
  crc_small m = omega arith

  checked :
      (page : Memory) (count : ℕ)
      → batch_meta_count_unchecked page ≡ some count
      → get_le 4 8 page ≡ batch_meta_crc crc page
      → batch_meta_count crc page ≡ some count
  unfolding batch_meta_count
  checked page count counted stored =
      let same = (==_iff (batch_meta_crc crc page) (batch_meta_crc crc page)).1 refl in
      rw (counted, stored, same, batch_meta_count) refl

  finalized_count :
      (m : Memory) (count : ℕ)
      → IsMeta m
      → get_le 2 6 m ≡ count
      → 0 < count
      → count ≤ batch_max_records
      → batch_meta_count crc (finalize_batch_meta crc m) ≡ some count
  unfolding finalize_batch_meta
  finalized_count m count (magic, version) e some_records few =
      let v = batch_meta_crc crc m in
      let page = put_le 4 8 v m in
      let small : v < 2 ^ 32 = crc_small m in
      let meta : IsMeta page = (
        get_le-put_le_apart 4 0 4 8 v m (inl (omega arith)) ∙ magic,
        get_le-put_le_apart 2 4 4 8 v m (inl (omega arith)) ∙ version,
      ) in
      let counted =
        count_read page count meta (get_le-put_le_apart 2 6 4 8 v m (inl (omega arith)) ∙ e)
          some_records few in
      let stored = get_le-put_le 4 8 v m small in
      checked page count counted (stored ∙ sym (batch_meta_crc-put_le m v))

  above : (m : Memory) (count x : ℕ) → 16 ≤ x → finalize_batch_meta crc (put_le 2 6 count m) x ≡ m x
  unfolding finalize_batch_meta
  above m count x far =
      put_le_outside 4 8 (batch_meta_crc crc (put_le 2 6 count m)) (put_le 2 6 count m) x
        (inr (omega arith))
      ∙ put_le_outside 2 6 count m x (inr (omega arith))

  -- A metadata page as the log makes it: initialized, the entries, the count, the checksum.
  abbrev pub batch_page : Memory → List BatchEntry → Memory
  batch_page buf entries =
      finalize_batch_meta crc
        (set_batch_meta_count (write_entries 0 entries (init_batch_meta buf)) (length entries))

  -- Whatever the checksum function and whatever the buffer held before, a metadata page made of at
  -- least one and no more entries than a batch has, with fields that fit, passes the check with their
  -- number as the count, and the entries are read back.
  pub batch_page_lem :
      (buf : Memory) (entries : List BatchEntry)
      → 0 < length entries
      → length entries ≤ batch_max_records
      → All FitsEntry entries
      → (batch_meta_count crc (batch_page buf entries) ≡ some (length entries))
        × (read_entries (length entries) 0 (batch_page buf entries) ≡ entries)
  unfolding set_batch_meta_count
  batch_page_lem buf entries some_entries few all =
      let m0 = init_batch_meta buf in
      let m1 = write_entries 0 entries m0 in
      let count = length entries in
      let m2 = put_le 2 6 count m1 in
      let (magic, version) = init_batch_meta-IsMeta buf in
      let from_start = entries_high 0 in
      let same = write_entries_below entries 0 m0 in
      let meta : IsMeta m2 = (
        get_le-put_le_apart 4 0 2 6 count m1 (inl (omega arith))
            ∙ get_le_cong 4 0 m1 m0 (λ x p q. same x (omega (arith, from_start)))
            ∙ magic,
        get_le-put_le_apart 2 4 2 6 count m1 (inl (omega arith))
            ∙ get_le_cong 2 4 m1 m0 (λ x p q. same x (omega (arith, from_start)))
            ∙ version,
      ) in
      let counted = get_le-put_le 2 6 count m1 (omega (arith, few)) in
      (
        finalized_count m2 count meta counted some_entries few,
        read_entries_cong count 0 (finalize_batch_meta crc m2) m1 (above m1 count)
            ∙ read_entries-write_entries entries 0 m0 all,
      )
