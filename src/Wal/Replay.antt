-- ===== src/Wal/Replay.antt =====
-- `replay_records` of `crates/wal/src/wal_impl.rs`, over the slots of a log: what it hands on before it
-- stops at the end or at the first slot that is not right.
use Prim.Native.Nat.{bit_and}
use pagebox.Base.{ℕ, none, some, List, [], ◌∷◌, ◌++◌, not, ◌==◌, ◌||◌, if◌then◌else◌, map}
use pagebox.Wal.Patch.{is_empty}
use pagebox.Wal.Records.{
  BatchEntry, RecordSlot, LogicalRecord, record_kind_page_image, record_kind_logical,
  record_kind_logical_packed, logical_flag_first, logical_flag_last, validate_entry_data,
  for_each_packed_logical_record,
}
use pagebox.Wal.Append.{logical_kind_page_image_bytes, decode_page_image_bytes_payload}

pub data WalReplayRecord : Type 0 where
  page_image : ℕ → ℕ → List ℕ → WalReplayRecord
  logical : LogicalRecord → WalReplayRecord

-- The chunks of a logical record so far: `logical_lsn`, `logical_kind` and `logical_payload`.
abbrev pub no_chunks : LogicalRecord
no_chunks = record { lsn = 0; kind = 0; payload = [] }

-- A slot stops the replay, or it goes on with new chunks.
pub data Replayed : Type 0 where
  stopped : List WalReplayRecord → Replayed
  continued : List WalReplayRecord → LogicalRecord → Replayed

abbrev pub clear_chunks : LogicalRecord → LogicalRecord
clear_chunks pending = if is_empty pending.payload then pending else no_chunks

-- A logical record whose last chunk has come.
unfoldable pub deliver : LogicalRecord → Replayed
deliver r =
    if r.kind == logical_kind_page_image_bytes
    then elim (decode_page_image_bytes_payload r.payload) [
      | none ↦ stopped []
      | some image ↦ continued (page_image r.lsn (image.0) (image.1) ∷ []) no_chunks
    ]
    else continued (logical r ∷ []) no_chunks

-- One more chunk of a logical record.
unfoldable pub add_chunk : LogicalRecord → BatchEntry → List ℕ → Replayed
unfolding deliver
add_chunk pending entry payload =
    let first = bit_and entry.flags logical_flag_first == logical_flag_first in
    let last = bit_and entry.flags logical_flag_last == logical_flag_last in
    let begun : LogicalRecord = record { lsn = entry.lsn; kind = entry.arg; payload = payload } in
    let grown : LogicalRecord = record pending { payload = pending.payload ++ payload } in
    let lost =
      is_empty pending.payload
      || not (entry.lsn == pending.lsn)
      || not (entry.arg == pending.kind) in
    if first
    then (if last then deliver begun else continued [] begun)
    else (if lost then stopped [] else (if last then deliver grown else continued [] grown))

module _ (crc : List ℕ → ℕ) where
  unfoldable pub replay_slot : LogicalRecord → RecordSlot → Replayed
  unfolding add_chunk
  replay_slot pending slot = elim (validate_entry_data crc slot.entry slot.page) [
    | none ↦ stopped []
    | some payload ↦
        let records = for_each_packed_logical_record payload in
        if slot.entry.kind == record_kind_page_image
        then continued (page_image slot.entry.lsn slot.entry.arg payload ∷ [])
            (clear_chunks pending)
        else (if slot.entry.kind == record_kind_logical
            then add_chunk pending slot.entry payload
            else (if slot.entry.kind == record_kind_logical_packed
                then (if records.1
                    then continued (map logical (records.0)) (clear_chunks pending)
                    else stopped (map logical (records.0)))
                else stopped []))
  ]

  abbrev pub and_then : Replayed → (LogicalRecord → List WalReplayRecord) → List WalReplayRecord
  and_then (stopped records) next = records
  and_then (continued records pending) next = records ++ next pending

  unfoldable pub replay_from : LogicalRecord → List RecordSlot → List WalReplayRecord
  unfolding replay_slot
  replay_from pending [] = []
  replay_from pending (slot ∷ slots) =
      and_then (replay_slot pending slot) (λ pending'. replay_from pending' slots)

  unfoldable pub replay_records : List RecordSlot → List WalReplayRecord
  unfolding replay_from
  replay_records slots = replay_from no_chunks slots
