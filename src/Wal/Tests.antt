-- ===== src/Wal/Tests.antt =====
-- Runs of `crates/wal/src/format.rs` and `crates/wal/src/wal_impl.rs`.
use pagebox.Base.{
  ℕ, ◌+◌, ◌*◌, ◌<◌, ◌≡◌, ◌≢◌, ◌≤◌, ◌⊎◌, ◌>>=◌, refl, none, some, List, [], ◌∷◌, length, ◌==◌,
  if◌then◌else◌, arith,
}
use pagebox.Bytes.Memory.{Memory, read_bytes}
use pagebox.Bytes.LittleEndian.{to_le_bytes}
use pagebox.Wal.Capacity.{
  wal_buf_records, wal_buffer_capacity_for_records, clamp_records, wal_buf_capacity,
  wal_record_size, default_buffer_records, max_buf_records,
}
use pagebox.Wal.RoundTrip.{wal_buf_records-capacity}
use pagebox.Wal.Patch.{
  PatchRange, patch_page_size, encode_page_patch_payload, encode_page_patch_ranges_payload,
  decode_page_patch_payload, apply_ranges,
}
use pagebox.Wal.PatchShape.{IsPatch, patch_bytes}
use pagebox.Wal.PatchCodec.{encode_page_patch_ranges_payload_lem}
use pagebox.Wal.PatchDiff.{patch_ranges, encode_page_patch_payload_lem}
use pagebox.Wal.Submitted.{new_writes, WriteEvent, pushed, finished, run}
use pagebox.Wal.Window.{view, history_run, run-view}
use pagebox.Wal.HighWater.{Rising, RunAnswer, open_after, newest, run-new_writes}
use pagebox.Wal.Lsn.{claim_all, encode_record_offset, decode_record_offset}
use pagebox.Wal.Handles.{encode_record_offset_lem, Claimed, claim_all-Claimed}
use pagebox.Wal.Records.{
  BatchEntry, RecordSlot, packed_records_from, finalize_buffer_records, page_image_entry,
}
use pagebox.Wal.Packed.{packed_records_from_settled}
use pagebox.Wal.Append.{WalLog, empty_log, slots}
use pagebox.Wal.Replay.{replay_records}
use pagebox.Wal.EndToEnd.{
  WalAppend, record_of, sealed, append_all, all_handed_on, append_all-replay_records,
}
use pagebox.Wal.Batch.{batch_meta_count, read_entries}
use pagebox.Wal.BatchPage.{batch_page, batch_page_lem}

default_is : default_buffer_records ≡ 256
unfolding default_buffer_records
default_is = refl

wal_buf_records-capacity_example :
    (wal_buf_records (wal_buffer_capacity_for_records 256) ≡ clamp_records 256)
    × (wal_buffer_capacity_for_records 256 ≤ wal_buf_capacity)
wal_buf_records-capacity_example = wal_buf_records-capacity 256

-- Two changed bytes next to each other, and one more.
abbrev blank : Memory
blank x = 0

abbrev edited : Memory
edited x = if x == 7 then 1 else (if x == 8 then 2 else (if x == 40 then 3 else 0))

abbrev two_ranges : List PatchRange
two_ranges = record { start = 7; bytes = 1 ∷ 2 ∷ [] } ∷ record { start = 40; bytes = 3 ∷ [] } ∷ []

two_ranges_payload :
    encode_page_patch_ranges_payload 5 two_ranges
    ≡ some (
        5 ∷ 0 ∷ 0 ∷ 0 ∷ 0 ∷ 0 ∷ 0 ∷ 0 ∷ 2 ∷ 0 ∷ 0 ∷ 0 ∷ 0 ∷ 0 ∷ 0 ∷ 0 ∷ 7 ∷ 0 ∷ 0 ∷ 0 ∷ 2 ∷ 0 ∷ 0
        ∷ 0 ∷ 1 ∷ 2 ∷ 40 ∷ 0 ∷ 0 ∷ 0 ∷ 1 ∷ 0 ∷ 0 ∷ 0 ∷ 3 ∷ [])
unfolding encode_page_patch_ranges_payload to_le_bytes
two_ranges_payload = refl

encode_page_patch_ranges_payload_lem_example :
    ((encode_page_patch_ranges_payload 5 two_ranges ≡ none) × (¬ IsPatch two_ranges))
    ⊎ (IsPatch two_ranges
        × (payload : List ℕ) × (encode_page_patch_ranges_payload 5 two_ranges ≡ some payload)
        × (length payload ≡ 16 + patch_bytes two_ranges)
        × (decode_page_patch_payload payload ≡ some (5, two_ranges)))
encode_page_patch_ranges_payload_lem_example =
    encode_page_patch_ranges_payload_lem 5 two_ranges (omega arith)

encode_page_patch_payload_lem_example :
    ((encode_page_patch_payload 5 blank edited ≡ none)
      × ((read_bytes blank 0 patch_page_size ≡ read_bytes edited 0 patch_page_size)
          ⊎ (patch_page_size ≤ 16 + patch_bytes (patch_ranges blank edited))))
    ⊎ ((payload : List ℕ) × (ranges : List PatchRange) × (encode_page_patch_payload 5 blank edited
          ≡ some payload)
        × (read_bytes blank 0 patch_page_size ≢ read_bytes edited 0 patch_page_size)
        × (length payload ≡ 16 + patch_bytes (patch_ranges blank edited))
        × (length payload < patch_page_size)
        × (decode_page_patch_payload payload ≡ some (5, ranges))
        × (read_bytes (apply_ranges blank ranges) 0 patch_page_size
            ≡ read_bytes edited 0 patch_page_size))
encode_page_patch_payload_lem_example = encode_page_patch_payload_lem 5 blank edited (omega arith)

-- Three writes, the last of which completes first.
abbrev three_writes : List WriteEvent
three_writes = pushed 4 ∷ pushed 9 ∷ pushed 12 ∷ finished 12 ∷ finished 4 ∷ finished 9 ∷ []

three_reports : (run (view 1 []) three_writes >>= λ out. some (out.1)) ≡ some (4 ∷ 12 ∷ [])
unfolding run view
three_reports = refl

run-view_example :
    run (view 1 []) three_writes
    ≡ (history_run 1 [] three_writes >>= λ out. some (view 1 (out.0), out.1))
run-view_example = run-view three_writes [] 1

three_writes-Rising : Rising 1 three_writes
unfolding Rising
three_writes-Rising = (omega arith, (omega arith, (omega arith, tt)))

run-new_writes_example :
    RunAnswer (run (new_writes 1) three_writes) (open_after [] three_writes) (newest 1 three_writes)
run-new_writes_example = run-new_writes three_writes 1 three_writes-Rising

slot_in_buffer : 300 < max_buf_records
unfolding max_buf_records
slot_in_buffer = omega arith

encode_record_offset_lem_example :
    (default_buffer_records ≤ 256)
    × (256 < max_buf_records)
    × (((300 < 256)
          × (decode_record_offset (encode_record_offset (2341 * wal_record_size) 300)
              ≡ (2341 * wal_record_size, 300)))
        ⊎ ((256 ≤ 300)
            × (decode_record_offset (encode_record_offset (2341 * wal_record_size) 300)
                ≢ (2341 * wal_record_size, 300))))
encode_record_offset_lem_example = encode_record_offset_lem 2341 300 (omega arith) slot_in_buffer

abbrev some_shards : List ℕ
some_shards = 1 ∷ 0 ∷ 2 ∷ 2 ∷ []

some_claims : claim_all 3 5 some_shards ≡ 5 ∷ 7 ∷ 9 ∷ 12 ∷ []
unfolding claim_all
some_claims = refl

claim_all-Claimed_example : Claimed 3 5 some_shards (claim_all 3 5 some_shards)
claim_all-Claimed_example =
    claim_all-Claimed some_shards 5 3 (omega arith) (omega arith)
      (omega arith, (omega arith, (omega arith, (omega arith, tt))))

packed_records_from_settled_example :
    packed_records_from 1 (9 ∷ []) 0 ≡ packed_records_from 70 (9 ∷ []) 0
packed_records_from_settled_example =
    packed_records_from_settled 1 70 (9 ∷ []) 0 (omega arith) (omega arith)

-- A checksum that is not the CRC, but can tell these slots apart.
abbrev sum : List ℕ → ℕ
sum [] = 0
sum (b ∷ bs) = b + 3 * sum bs

abbrev some_appends : List WalAppend
some_appends =
    record_of (record { lsn = 3; kind = 17; payload = 1 ∷ 2 ∷ [] })
    ∷ record_of (record { lsn = 4; kind = 18; payload = [] })
    ∷ sealed
    ∷ record_of (record { lsn = 6; kind = 17; payload = 5 ∷ [] })
    ∷ []

append_all-replay_records_example :
    (log : WalLog) × (final : List RecordSlot) × (append_all empty_log some_appends ≡ some log)
    × (finalize_buffer_records sum (slots log) ≡ some final)
    × (replay_records sum final ≡ all_handed_on some_appends)
append_all-replay_records_example = append_all-replay_records sum some_appends (
  ((omega arith, omega arith, omega arith), refl),
  (
    ((omega arith, omega arith, omega arith), refl),
    (tt, (((omega arith, omega arith, omega arith), refl), tt)),
  ),
)

abbrev two_entries : List BatchEntry
two_entries = page_image_entry 3 8 77 ∷ page_image_entry 4 9 78 ∷ []

batch_page_lem_example :
    (batch_meta_count sum (batch_page sum blank two_entries) ≡ some (length two_entries))
    × (read_entries (length two_entries) 0 (batch_page sum blank two_entries) ≡ two_entries)
batch_page_lem_example = batch_page_lem sum blank two_entries (omega arith) (omega arith) (
  (omega arith, omega arith, omega arith, omega arith, omega arith, omega arith),
  ((omega arith, omega arith, omega arith, omega arith, omega arith, omega arith), tt),
)
