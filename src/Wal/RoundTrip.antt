-- ===== src/Wal/RoundTrip.antt =====
-- `crates/wal/src/format.rs`: a buffer that is sized for some records holds just as many.
use pagebox.Base.{ℕ, ◌+◌, ◌*◌, ◌/◌, ◌≤◌, ◌≡◌, refl, arith}
use pagebox.Wal.Capacity.{
  wal_buf_capacity, wal_buf_records, max_buf_records, clamp_records,
  wal_buffer_capacity_for_records,
}

max_buf_records-is : max_buf_records ≡ 4094
unfolding max_buf_records
max_buf_records-is = refl

clamped : (records : ℕ) → (1 ≤ clamp_records records) × (clamp_records records ≤ 4094)
unfolding clamp_records max_buf_records wal_buf_records
clamped records = ground arith

records_of : (r : ℕ) → 1 ≤ r → r ≤ 4094 → wal_buf_records ((r + (r + 2339) / 2340) * 65536) ≡ r
unfolding wal_buf_records
records_of r low high = ground arith

-- A buffer of the capacity that `wal_buffer_capacity_for_records` gives holds, by `wal_buf_records`,
-- exactly the records that were asked for, raised to one and cut off at `WAL_BUF_RECORDS`, and it is
-- no larger than `WAL_BUF_CAPACITY`.
pub wal_buf_records-capacity :
    (records : ℕ)
    → (wal_buf_records (wal_buffer_capacity_for_records records) ≡ clamp_records records)
      × (wal_buffer_capacity_for_records records ≤ wal_buf_capacity)
unfolding wal_buffer_capacity_for_records
wal_buf_records-capacity records =
    let (low, high) = clamped records in
    (records_of (clamp_records records) low high, omega (arith, low, high))
