-- ===== src/Wal/Capacity.antt =====
-- `crates/wal/src/format.rs`: how many records an append buffer holds. A batch is one page of entries
-- and one page for each record.
use pagebox.Base.{ℕ, ◌+◌, ◌-◌, ◌*◌, ◌/◌, ltb, if◌then◌else◌}

-- `PAGE_SIZE`, of the default build
abbrev pub wal_record_size : ℕ
wal_record_size = 65536

abbrev pub batch_meta_header_size : ℕ
batch_meta_header_size = 16

abbrev pub batch_entry_size : ℕ
batch_entry_size = 28

abbrev pub batch_max_records : ℕ
batch_max_records = (wal_record_size - batch_meta_header_size) / batch_entry_size

abbrev pub wal_batch_bytes : ℕ
wal_batch_bytes = (batch_max_records + 1) * wal_record_size

-- The next power of two from 153419776 on.
abbrev pub wal_buf_capacity : ℕ
wal_buf_capacity = 268435456

unfoldable pub wal_buf_records : ℕ → ℕ
wal_buf_records capacity =
    let full_batch_bytes = (batch_max_records + 1) * wal_record_size in
    let full_batches = capacity / full_batch_bytes in
    let records = full_batches * batch_max_records in
    let remaining = capacity - full_batches * full_batch_bytes in
    if ltb remaining (2 * wal_record_size)
    then records
    else (let extra = (remaining - wal_record_size) / wal_record_size in
        records + (if ltb batch_max_records extra then batch_max_records else extra))

-- `WAL_BUF_RECORDS`
unfoldable pub max_buf_records : ℕ
unfolding wal_buf_records
max_buf_records = wal_buf_records wal_buf_capacity

-- `WAL_DEFAULT_BUFFER_RECORDS`
unfoldable pub default_buffer_records : ℕ
unfolding max_buf_records
default_buffer_records = if ltb 256 max_buf_records then 256 else max_buf_records

unfoldable pub clamp_records : ℕ → ℕ
unfolding max_buf_records
clamp_records records =
    if ltb records 1 then 1 else (if ltb max_buf_records records then max_buf_records else records)

-- `div_ceil` by the records of a batch
abbrev pub batches_for : ℕ → ℕ
batches_for records = (records + (batch_max_records - 1)) / batch_max_records

unfoldable pub wal_buffer_capacity_for_records : ℕ → ℕ
unfolding clamp_records
wal_buffer_capacity_for_records records =
    (clamp_records records + batches_for (clamp_records records)) * wal_record_size
