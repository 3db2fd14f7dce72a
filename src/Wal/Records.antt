-- ===== src/Wal/Records.antt =====
-- `crates/wal/src/format.rs` and `crates/wal/src/wal_impl.rs`: the entries of a batch, the data page
-- that goes with each, and the packed form of small logical records. The checksum is the third-party
-- CRC, the parameter `crc`.
use Prim.Native.Nat.{bit_and}
use pagebox.Base.{
  ℕ, zero, suc, ◌+◌, Option, none, some, List, [], ◌∷◌, ◌++◌, Bool, true, false, not, ltb, leb,
  ◌==◌, ◌||◌, if◌then◌else◌, length, take, drop, guard, ◌>>=◌, ◌>>◌,
}
use pagebox.Bytes.LittleEndian.{from_le_bytes, to_le_bytes}
use pagebox.Bytes.Slices.{get_range}
use pagebox.Wal.Capacity.{wal_record_size}
use pagebox.Wal.Patch.{u32_try_from}

abbrev pub record_kind_page_image : ℕ
record_kind_page_image = 1

abbrev pub record_kind_logical : ℕ
record_kind_logical = 2

abbrev pub record_kind_logical_packed : ℕ
record_kind_logical_packed = 3

abbrev pub logical_flag_first : ℕ
logical_flag_first = 1

abbrev pub logical_flag_last : ℕ
logical_flag_last = 2

-- `!(LOGICAL_FLAG_FIRST | LOGICAL_FLAG_LAST)` of a byte
abbrev pub unknown_flags : ℕ
unknown_flags = 252

abbrev pub logical_chunk_max_len : ℕ
logical_chunk_max_len = 65536

abbrev pub packed_logical_entry_header_len : ℕ
packed_logical_entry_header_len = 20

abbrev pub packed_logical_max_payload_len : ℕ
packed_logical_max_payload_len = 65516

pub record BatchEntry : Type 0 where
  pub lsn : ℕ
  pub arg : ℕ
  pub crc : ℕ
  pub len : ℕ
  pub kind : ℕ
  pub flags : ℕ

-- `BatchEntry::page_image`
abbrev pub page_image_entry : ℕ → ℕ → ℕ → BatchEntry
page_image_entry lsn pid crc = record {
  lsn = lsn;
  arg = pid;
  crc = crc;
  len = wal_record_size;
  kind = record_kind_page_image;
  flags = 0;
}

-- `BatchEntry::logical_chunk`
abbrev pub logical_chunk_entry : ℕ → ℕ → ℕ → ℕ → ℕ → BatchEntry
logical_chunk_entry lsn logical_kind crc flags len = record {
  lsn = lsn;
  arg = logical_kind;
  crc = crc;
  len = len;
  kind = record_kind_logical;
  flags = flags;
}

-- `BatchEntry::packed_logical`
abbrev pub packed_logical_entry : ℕ → ℕ → ℕ → BatchEntry
packed_logical_entry max_lsn crc len = record {
  lsn = max_lsn;
  arg = 0;
  crc = crc;
  len = len;
  kind = record_kind_logical_packed;
  flags = 0;
}

-- An entry and its data page.
pub record RecordSlot : Type 0 where
  pub entry : BatchEntry
  pub page : List ℕ

-- `packed_logical_entry_len`
abbrev pub packed_logical_entry_len : ℕ → ℕ
packed_logical_entry_len payload_len = packed_logical_entry_header_len + payload_len

-- The bytes that are written at the front of a slice of `room` bytes.
unfoldable pub encode_packed_logical_entry : ℕ → ℕ → ℕ → List ℕ → Option (List ℕ)
encode_packed_logical_entry room lsn kind payload = do
  len ← u32_try_from (length payload)
  guard (leb (packed_logical_entry_len (length payload)) room)
  some (to_le_bytes 8 lsn ++ (to_le_bytes 8 kind ++ (to_le_bytes 4 len ++ payload)))

-- A logical record: its LSN, its kind and its payload.
pub record LogicalRecord : Type 0 where
  pub lsn : ℕ
  pub kind : ℕ
  pub payload : List ℕ

abbrev pub keep_first : LogicalRecord → List LogicalRecord × Bool → List LogicalRecord × Bool
keep_first r (rs, whole) = (r ∷ rs, whole)

-- The loop of `for_each_packed_logical_record`: the records handed on, and what it returns. Each round
-- that does not return goes on by twenty bytes at least, so as much fuel as there are bytes is enough.
unfoldable pub packed_records_from : ℕ → List ℕ → ℕ → List LogicalRecord × Bool
packed_records_from zero payload offset = ([], true)
packed_records_from (suc fuel) payload offset =
    if ltb offset (length payload)
    then elim (get_range payload offset (offset + packed_logical_entry_header_len)) [
      | none ↦ ([], false)
      | some header ↦
          let lsn = from_le_bytes (take 8 header) in
          let kind = from_le_bytes (take 8 (drop 8 header)) in
          let len = from_le_bytes (take 4 (drop 16 header)) in
          let start = offset + packed_logical_entry_header_len in
          elim (get_range payload start (start + len)) [
            | none ↦ ([], false)
            | some record_payload ↦
                keep_first (record { lsn = lsn; kind = kind; payload = record_payload })
                  (packed_records_from fuel payload (start + len))
          ]
    ]
    else ([], true)

unfoldable pub for_each_packed_logical_record : List ℕ → List LogicalRecord × Bool
unfolding packed_records_from
for_each_packed_logical_record payload = packed_records_from (length payload) payload 0

module _ (crc : List ℕ → ℕ) where
  unfoldable pub validate_entry_data : BatchEntry → List ℕ → Option (List ℕ)
  validate_entry_data entry bytes =
      let payload = take entry.len bytes in
      let checked = if crc payload == entry.crc then some payload else none in
      if entry.kind == record_kind_page_image
      then (if not (entry.flags == 0) || not (length bytes == wal_record_size)
          then none
          else (if crc bytes == entry.crc then some bytes else none))
      else (if entry.kind == record_kind_logical
          then (if ltb logical_chunk_max_len entry.len || ltb (length bytes) entry.len
              then none
              else (if not (bit_and entry.flags unknown_flags == 0) then none else checked))
          else (if entry.kind == record_kind_logical_packed
              then (if not (entry.flags == 0) || ltb (length bytes) entry.len
                  then none
                  else checked)
              else none))

  -- The checksum that `finalize_buffer_records` puts into the entry of a slot; `none` is its panic.
  unfoldable pub finalize_slot : RecordSlot → Option RecordSlot
  finalize_slot slot =
      let whole = record (slot.entry) { crc = crc slot.page } in
      let part = record (slot.entry) { crc = crc (take slot.entry.len slot.page) } in
      if slot.entry.kind == record_kind_page_image
      then some (record { entry = whole; page = slot.page })
      else (if slot.entry.kind == record_kind_logical
            || slot.entry.kind == record_kind_logical_packed
          then some (record { entry = part; page = slot.page })
          else none)

  -- Over the slots of a buffer whose batch metadata is valid, which the code takes for granted with `expect`.
  unfoldable pub finalize_buffer_records : List RecordSlot → Option (List RecordSlot)
  unfolding finalize_slot
  finalize_buffer_records [] = some []
  finalize_buffer_records (slot ∷ slots) = do
    slot' ← finalize_slot slot
    slots' ← finalize_buffer_records slots
    some (slot' ∷ slots')
