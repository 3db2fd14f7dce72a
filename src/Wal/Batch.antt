-- ===== src/Wal/Batch.antt =====
-- `crates/wal/src/format.rs`: the metadata page of a batch, with its count, its checksum and its entries,
-- and the header of a log file. A page is its bytes by offset. The checksum is the third-party CRC, the
-- parameter `crc`; the code cuts it off to 32 bits.
use pagebox.Base.{
  ℕ, ◌+◌, ◌-◌, ◌*◌, ◌%◌, ◌^◌, Option, none, some, List, [], ◌∷◌, ◌++◌, Bool, not, ltb, ◌==◌, ◌||◌,
  if◌then◌else◌, zero, suc,
}
use pagebox.Bytes.Memory.{Memory, read_bytes}
use pagebox.Bytes.Fields.{get_le, put_le}
use pagebox.Wal.Capacity.{
  wal_record_size, batch_meta_header_size, batch_entry_size, batch_max_records,
}
use pagebox.Wal.Records.{BatchEntry}

abbrev pub wal_magic : ℕ
wal_magic = 1113014604

abbrev pub wal_version : ℕ
wal_version = 4

abbrev pub hdr_magic_off : ℕ
hdr_magic_off = 0

abbrev pub hdr_version_off : ℕ
hdr_version_off = 4

abbrev pub hdr_flags_off : ℕ
hdr_flags_off = 6

abbrev pub hdr_record_size_off : ℕ
hdr_record_size_off = 8

-- `[0u8; WAL_HEADER_SIZE]` with the fields of the header
unfoldable pub build_wal_header : Bool → Memory
build_wal_header direct_io = put_le 8 hdr_record_size_off wal_record_size (
    put_le 2 hdr_flags_off (if direct_io then 1 else 0)
      (put_le 2 hdr_version_off wal_version (put_le 4 hdr_magic_off wal_magic (λ x. 0))))

pub data WalHeaderError : Type 0 where
  bad_magic unsupported_version incompatible_record_size : WalHeaderError

-- `none` is `Ok(())`.
unfoldable pub validate_wal_header : Memory → Option WalHeaderError
validate_wal_header hdr =
    if not (get_le 4 hdr_magic_off hdr == wal_magic)
    then some bad_magic
    else (if not (get_le 2 hdr_version_off hdr == wal_version)
        then some unsupported_version
        else (if not (get_le 8 hdr_record_size_off hdr == wal_record_size)
            then some incompatible_record_size
            else none))

abbrev pub batch_meta_magic : ℕ
batch_meta_magic = 1112360276

abbrev pub batch_meta_magic_off : ℕ
batch_meta_magic_off = 0

abbrev pub batch_meta_version_off : ℕ
batch_meta_version_off = 4

abbrev pub batch_meta_count_off : ℕ
batch_meta_count_off = 6

abbrev pub batch_meta_crc_off : ℕ
batch_meta_crc_off = 8

-- `buf.fill(0)`
abbrev pub zeroed : Memory → Memory
zeroed buf x = if ltb x wal_record_size then 0 else buf x

unfoldable pub init_batch_meta : Memory → Memory
init_batch_meta buf =
    put_le 2 batch_meta_version_off wal_version
      (put_le 4 batch_meta_magic_off batch_meta_magic (zeroed buf))

unfoldable pub batch_meta_count_unchecked : Memory → Option ℕ
batch_meta_count_unchecked buf =
    let count = get_le 2 batch_meta_count_off buf in
    if not (get_le 4 batch_meta_magic_off buf == batch_meta_magic)
    then none
    else (if not (get_le 2 batch_meta_version_off buf == wal_version)
        then none
        else (if count == 0 || ltb batch_max_records count then none else some count))

unfoldable pub set_batch_meta_count : Memory → ℕ → Memory
set_batch_meta_count buf count = put_le 2 batch_meta_count_off count buf

unfoldable pub batch_entry_offset : ℕ → ℕ
batch_entry_offset idx = batch_meta_header_size + idx * batch_entry_size

unfoldable pub write_batch_entry : Memory → ℕ → BatchEntry → Memory
write_batch_entry buf idx entry =
    let off = batch_entry_offset idx in
    put_le 1 (off + 25) entry.flags (
      put_le 1 (off + 24) entry.kind (
        put_le 4 (off + 20) entry.len (
          put_le 4 (off + 16) entry.crc
            (put_le 8 (off + 8) entry.arg (put_le 8 off entry.lsn buf)))))

unfoldable pub read_batch_entry : Memory → ℕ → BatchEntry
read_batch_entry buf idx =
    let off = batch_entry_offset idx in
    record {
      lsn = get_le 8 off buf;
      arg = get_le 8 (off + 8) buf;
      crc = get_le 4 (off + 16) buf;
      len = get_le 4 (off + 20) buf;
      kind = get_le 1 (off + 24) buf;
      flags = get_le 1 (off + 25) buf;
    }

unfoldable pub overwrite_batch_entry_lsn : Memory → ℕ → ℕ → Memory
overwrite_batch_entry_lsn buf idx lsn = put_le 8 (batch_entry_offset idx) lsn buf

unfoldable pub overwrite_batch_entry_crc : Memory → ℕ → ℕ → Memory
overwrite_batch_entry_crc buf idx crc = put_le 4 (batch_entry_offset idx + 16) crc buf

module _ (crc : List ℕ → ℕ) where
  -- The page, with zeros where the checksum stands.
  unfoldable pub batch_meta_crc : Memory → ℕ
  batch_meta_crc buf =
      crc (
        read_bytes buf 0 batch_meta_crc_off
        ++ ((0 ∷ 0 ∷ 0 ∷ 0 ∷ [])
            ++ read_bytes buf (batch_meta_crc_off + 4)
                (wal_record_size - (batch_meta_crc_off + 4))))
      % 2 ^ 32

  unfoldable pub batch_meta_count : Memory → Option ℕ
  unfolding batch_meta_count_unchecked batch_meta_crc
  batch_meta_count buf = elim (batch_meta_count_unchecked buf) [
    | none ↦ none
    | some count ↦
        if get_le 4 batch_meta_crc_off buf == batch_meta_crc buf then some count else none
  ]

  unfoldable pub finalize_batch_meta : Memory → Memory
  unfolding batch_meta_crc
  finalize_batch_meta buf = put_le 4 batch_meta_crc_off (batch_meta_crc buf) buf

-- The metadata page of a batch of entries: a fresh page, one entry after the other, the count and the
-- checksum.
unfoldable pub write_entries : ℕ → List BatchEntry → Memory → Memory
unfolding write_batch_entry
write_entries idx [] buf = buf
write_entries idx (e ∷ entries) buf = write_entries (idx + 1) entries (write_batch_entry buf idx e)

unfoldable pub read_entries : ℕ → ℕ → Memory → List BatchEntry
unfolding read_batch_entry
read_entries zero idx buf = []
read_entries (suc n) idx buf = read_batch_entry buf idx ∷ read_entries n (idx + 1) buf
