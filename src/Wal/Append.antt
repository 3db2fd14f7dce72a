-- ===== src/Wal/Append.antt =====
-- The appends of `crates/wal/src/wal_impl.rs` to the active buffer of a shard, run one after the other
-- under its lock. The log is the list of its slots, oldest first; a slot that takes packed records is
-- the last one, and stands apart with the bytes it has so far. `none` is `ErrorKind::InvalidInput`.
use Prim.Native.Nat.{bit_or}
use pagebox.Base.{
  ℕ, zero, suc, ◌+◌, ◌-◌, ◌*◌, ◌/◌, max, min, Option, none, some, List, [], ◌∷◌, ◌++◌, Bool, not,
  ltb, leb, ◌==◌, ◌&&◌, ◌||◌, if◌then◌else◌, length, take, drop, guard, ◌>>=◌, ◌>>◌,
}
use pagebox.Bytes.BigEndian.{pad_to}
use pagebox.Bytes.LittleEndian.{from_le_bytes, to_le_bytes}
use pagebox.Wal.Capacity.{wal_record_size}
use pagebox.Wal.Records.{
  RecordSlot, page_image_entry, logical_chunk_entry, packed_logical_entry, logical_chunk_max_len,
  packed_logical_max_payload_len, packed_logical_entry_len, encode_packed_logical_entry,
  logical_flag_first, logical_flag_last,
}

-- `LOGICAL_KIND_PAGE_IMAGE_BYTES` and `LOGICAL_KIND_PAGE_PATCH`
abbrev pub logical_kind_page_image_bytes : ℕ
logical_kind_page_image_bytes = 4780659280213114881

abbrev pub logical_kind_page_patch : ℕ
logical_kind_page_patch = 4780659245970554881

abbrev pub page_image_bytes_header_len : ℕ
page_image_bytes_header_len = 16

-- The last slot, while records are packed into it: its bytes and its `max_lsn`.
pub record PackedLogicalSlot : Type 0 where
  pub bytes : List ℕ
  pub max_lsn : ℕ

pub record WalLog : Type 0 where
  pub closed : List RecordSlot
  pub packed_logical : Option PackedLogicalSlot

abbrev pub empty_log : WalLog
empty_log = record { closed = []; packed_logical = none }

-- A data page: the bytes, and zeros behind them.
abbrev pub data_page : List ℕ → List ℕ
data_page bytes = pad_to wal_record_size bytes

abbrev pub packed_slot : PackedLogicalSlot → RecordSlot
packed_slot slot = record {
  entry = packed_logical_entry slot.max_lsn 0 (length slot.bytes);
  page = data_page slot.bytes;
}

-- All slots of the log.
unfoldable pub slots : WalLog → List RecordSlot
slots log = elim log.packed_logical [
  | none ↦ log.closed
  | some slot ↦ log.closed ++ (packed_slot slot ∷ [])
]

-- `reserve_active_record_slot_locked`, and the reset of a new buffer too: no more records go into the
-- last slot.
unfoldable pub close : WalLog → WalLog
unfolding slots
close log = record { closed = slots log; packed_logical = none }

abbrev pub add_slot : WalLog → RecordSlot → WalLog
add_slot log slot = record { closed = log.closed ++ (slot ∷ []); packed_logical = none }

-- `append_page_image_with_lsn`
unfoldable pub append_page_image_with_lsn : WalLog → ℕ → ℕ → List ℕ → WalLog
unfolding close
append_page_image_with_lsn log lsn page_id page =
    add_slot (close log) (record { entry = page_image_entry lsn page_id 0; page = page })

-- `try_append_packed_logical_locked`
unfoldable pub try_append_packed_logical : WalLog → ℕ → ℕ → List ℕ → Option WalLog
unfolding encode_packed_logical_entry
try_append_packed_logical log lsn kind payload = do
  slot ← log.packed_logical
  let new_len = length slot.bytes + packed_logical_entry_len (length payload)
  guard (leb new_len wal_record_size)
  written ← encode_packed_logical_entry (wal_record_size - length slot.bytes) lsn kind payload
  some (record log {
    packed_logical =
        some (record { bytes = slot.bytes ++ written; max_lsn = max slot.max_lsn lsn });
  })

-- `append_packed_logical_with_lsn`
unfoldable pub append_packed_logical_with_lsn : WalLog → ℕ → ℕ → List ℕ → Option WalLog
unfolding try_append_packed_logical close
append_packed_logical_with_lsn log lsn kind payload = do
  guard (leb (packed_logical_entry_len (length payload)) wal_record_size)
  elim (try_append_packed_logical log lsn kind payload) [
    | some log' ↦ some log'
    | none ↦ do
      written ← encode_packed_logical_entry wal_record_size lsn kind payload
      some
          (record (close log) { packed_logical = some (record { bytes = written; max_lsn = lsn }) })
  ]

-- `payload_len.div_ceil(LOGICAL_CHUNK_MAX_LEN).max(1)`
unfoldable pub chunk_count : ℕ → ℕ
chunk_count payload_len =
    max ((payload_len + (logical_chunk_max_len - 1)) / logical_chunk_max_len) 1

-- `&payload[start..end]`, or `&[]`
unfoldable pub chunk_of : List ℕ → ℕ → List ℕ
chunk_of payload chunk_idx =
    let start = chunk_idx * logical_chunk_max_len in
    let end = min (start + logical_chunk_max_len) (length payload) in
    if ltb start (length payload) then take (end - start) (drop start payload) else []

abbrev pub chunk_flags : ℕ → ℕ → ℕ
chunk_flags chunk_idx chunks =
    let first = if chunk_idx == 0 then logical_flag_first else 0 in
    if chunk_idx + 1 == chunks then bit_or first logical_flag_last else first

-- The loop of `append_logical_record_with_lsn`, with `n` chunks left.
unfoldable pub chunk_slots : ℕ → ℕ → List ℕ → ℕ → ℕ → ℕ → List RecordSlot
unfolding chunk_of
chunk_slots lsn kind payload chunks zero chunk_idx = []
chunk_slots lsn kind payload chunks (suc n) chunk_idx =
    let chunk = chunk_of payload chunk_idx in
    record {
      entry = logical_chunk_entry lsn kind 0 (chunk_flags chunk_idx chunks) (length chunk);
      page = data_page chunk;
    }
    ∷ chunk_slots lsn kind payload chunks n (chunk_idx + 1)

unfoldable pub append_logical_record_with_lsn : WalLog → ℕ → ℕ → List ℕ → Option WalLog
unfolding append_packed_logical_with_lsn chunk_slots chunk_count close
append_logical_record_with_lsn log lsn kind payload =
    if not (kind == logical_kind_page_image_bytes)
      && leb (length payload) packed_logical_max_payload_len
    then append_packed_logical_with_lsn log lsn kind payload
    else (let chunks = chunk_count (length payload) in
        let added = chunk_slots lsn kind payload chunks chunks 0 in
        some (record { closed = (close log).closed ++ added; packed_logical = none }))

-- `is_internal_logical_kind`
abbrev pub is_internal_logical_kind : ℕ → Bool
is_internal_logical_kind kind =
    kind == logical_kind_page_image_bytes || kind == logical_kind_page_patch

-- `append_logical_with_lsn`, with `validate_caller_logical_kind`
unfoldable pub append_logical_with_lsn : WalLog → ℕ → ℕ → List ℕ → Option WalLog
unfolding append_logical_record_with_lsn
append_logical_with_lsn log lsn kind payload =
    if is_internal_logical_kind kind
    then none
    else append_logical_record_with_lsn log lsn kind payload

unfoldable pub encode_page_image_bytes_payload : ℕ → List ℕ → List ℕ
encode_page_image_bytes_payload page_id page =
    to_le_bytes 8 page_id ++ (to_le_bytes 8 (length page) ++ page)

-- `page_size(page_id)` is the page size for every id.
unfoldable pub decode_page_image_bytes_payload : List ℕ → Option (ℕ × List ℕ)
decode_page_image_bytes_payload payload = do
  guard (leb page_image_bytes_header_len (length payload))
  let page_id = from_le_bytes (take 8 payload)
  let page_len = from_le_bytes (take 8 (drop 8 payload))
  let page = drop page_image_bytes_header_len payload
  guard (length page == page_len && page_len == wal_record_size)
  some (page_id, page)

-- `append_page_image_bytes_with_lsn`; the assertion on the length is `none`.
unfoldable pub append_page_image_bytes_with_lsn : WalLog → ℕ → ℕ → List ℕ → Option WalLog
unfolding encode_page_image_bytes_payload append_logical_record_with_lsn
append_page_image_bytes_with_lsn log lsn page_id page = do
  guard (length page == wal_record_size)
  append_logical_record_with_lsn log lsn logical_kind_page_image_bytes
      (encode_page_image_bytes_payload page_id page)

-- `append_page_patch_with_lsn`, with the payload that `encode_page_patch_payload` gave
unfoldable pub append_page_patch_with_lsn : WalLog → ℕ → List ℕ → Option WalLog
unfolding append_logical_record_with_lsn
append_page_patch_with_lsn log lsn payload =
    append_logical_record_with_lsn log lsn logical_kind_page_patch payload
