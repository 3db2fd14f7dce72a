-- ===== src/Wal/Reassembly.antt =====
-- `append_logical_record_with_lsn` and `replay_records` of `crates/wal/src/wal_impl.rs`: the chunks of a
-- payload, one after the other, come out as the one record.
use Prim.Native.Nat.{bit_and}
use pagebox.Base.{
  ℕ, zero, suc, ◌+◌, ◌*◌, ◌≤◌, ◌<◌, ◌≡◌, refl, ap, subst, ◌∙◌, some, List, [], ◌∷◌, ◌++◌, true,
  false, length, take, arith, ◌==◌, ==_iff, Bool-cases, inl, inr, if◌then◌else◌,
}
use pagebox.Wal.Records.{
  RecordSlot, LogicalRecord, logical_chunk_entry, finalize_slot, finalize_buffer_records,
  validate_entry_data, logical_chunk_max_len, unknown_flags,
}
use pagebox.Wal.Append.{data_page, chunk_of, chunk_flags, chunk_count, chunk_slots}
use pagebox.Wal.Replay.{
  WalReplayRecord, no_chunks, Replayed, continued, deliver, add_chunk, replay_slot, replay_from,
  and_then,
}
use pagebox.Wal.Slots.{validate_entry_data-chunk, finalize_one_more, Replays}
use pagebox.Wal.Chunks.{
  before_chunk, next_chunk, first_chunk, before_chunk-some, all_chunks, chunk_of-short, begun,
  begun_last, grown, grown_last,
}

flags_known : (i chunks : ℕ) → (bit_and (chunk_flags i chunks) unknown_flags == 0) ≡ true
flags_known i chunks = elim (Bool-cases (i == 0)) [
  | inl a ↦ elim (Bool-cases (i + 1 == chunks)) [ inl b ↦ rw (a, b) refl | inr b ↦ rw (a, b) refl ]
  | inr a ↦ elim (Bool-cases (i + 1 == chunks)) [ inl b ↦ rw (a, b) refl | inr b ↦ rw (a, b) refl ]
]

module _ (lsn kind : ℕ) (payload : List ℕ) where
  -- The record up to a chunk, and what is waiting when that chunk comes.
  part : List ℕ → LogicalRecord
  part bytes = record { lsn = lsn; kind = kind; payload = bytes }

  upto : ℕ → LogicalRecord
  unfolding part
  upto i = part (before_chunk payload i)

  waiting : ℕ → LogicalRecord
  waiting zero = no_chunks
  waiting (suc i) = upto (suc i)

  added :
      (i chunks x len : ℕ)
      → 0 < length payload
      → add_chunk
          (waiting i)
          (logical_chunk_entry lsn kind x (chunk_flags i chunks) len)
          (chunk_of payload i)
        ≡ (if i + 1 == chunks then deliver (upto (i + 1)) else continued [] (upto (i + 1)))
  unfolding part upto waiting
  added zero chunks x len bytes =
      let to = ap part (first_chunk payload) in
      elim (Bool-cases (0 + 1 == chunks)) [
        | inl e ↦ rw e (
            begun_last no_chunks (logical_chunk_entry lsn kind x 3 len) (chunk_of payload 0) refl
            ∙ ap deliver to)
        | inr e ↦ rw e (
            begun no_chunks (logical_chunk_entry lsn kind x 1 len) (chunk_of payload 0) refl
            ∙ ap (continued []) to)
      ]
  added (suc i) chunks x len bytes =
      let to = ap part (next_chunk payload (suc i)) in
      let z : (suc i == 0) ≡ false = ground arith in
      let full = before_chunk-some payload i bytes in
      elim (Bool-cases (suc i + 1 == chunks)) [
        | inl e ↦
            rw (z, e)
              (grown_last (upto (suc i)) (logical_chunk_entry lsn kind x 2 len)
                  (chunk_of payload (suc i)) full refl refl refl
                ∙ ap deliver to)
        | inr e ↦
            rw (z, e)
              (grown (upto (suc i)) (logical_chunk_entry lsn kind x 0 len)
                  (chunk_of payload (suc i)) full refl refl refl
                ∙ ap (continued []) to)
      ]

  module _ (crc : List ℕ → ℕ) where
    chunk_slot : ℕ → ℕ → ℕ → RecordSlot
    chunk_slot i chunks x = record {
      entry = logical_chunk_entry lsn kind x (chunk_flags i chunks) (length (chunk_of payload i));
      page = data_page (chunk_of payload i);
    }

    -- The checksum of a chunk.
    chunk_crc : ℕ → ℕ
    chunk_crc i = crc (take (length (chunk_of payload i)) (data_page (chunk_of payload i)))

    finalized :
        (i chunks : ℕ)
        → finalize_slot crc (chunk_slot i chunks 0) ≡ some (chunk_slot i chunks (chunk_crc i))
    unfolding finalize_slot chunk_slot chunk_crc
    finalized i chunks = refl

    replay-chunk :
        (pending : LogicalRecord) (slot : RecordSlot) (chunk : List ℕ)
        → slot.entry.kind ≡ 2
        → validate_entry_data crc slot.entry slot.page ≡ some chunk
        → replay_slot crc pending slot ≡ add_chunk pending slot.entry chunk
    unfolding replay_slot
    replay-chunk pending slot chunk k e = rw (e, k, replay_slot) refl

    replay_one :
        (i chunks : ℕ)
        → 0 < length payload
        → replay_slot crc (waiting i) (chunk_slot i chunks (chunk_crc i))
          ≡ (if i + 1 == chunks then deliver (upto (i + 1)) else continued [] (upto (i + 1)))
    unfolding chunk_slot chunk_crc
    replay_one i chunks bytes =
        replay-chunk (waiting i) (chunk_slot i chunks (chunk_crc i)) (chunk_of payload i) refl (
          validate_entry_data-chunk crc lsn kind (chunk_flags i chunks) (chunk_of payload i)
            (chunk_of-short payload i) (flags_known i chunks))
        ∙ added i chunks (chunk_crc i) (length (chunk_of payload i)) bytes

    nothing_more : finalize_buffer_records crc [] ≡ some []
    unfolding finalize_buffer_records
    nothing_more = refl

    waiting_next : (i : ℕ) → upto (i + 1) ≡ waiting (i + 1)
    unfolding waiting
    waiting_next i = let e : suc i ≡ i + 1 = omega arith in subst (λ k. upto k ≡ waiting k) e refl

    -- The chunks from `i` on.
    chunks_replayed :
        (n i chunks : ℕ)
        → i + suc n ≡ chunks
        → 0 < length payload
        → (final : List RecordSlot) × (finalize_buffer_records crc
              (chunk_slots lsn kind payload chunks (suc n) i)
            ≡ some final)
          × ((rest : List RecordSlot)
              → replay_from crc (waiting i) (final ++ rest)
                ≡ and_then crc (deliver (upto chunks)) (λ q. replay_from crc q rest))
    unfolding chunk_slots replay_from chunk_slot
    chunks_replayed zero i chunks e bytes =
        let last = (==_iff (i + 1) chunks).1 (omega (arith, e)) in
        (
          chunk_slot i chunks (chunk_crc i) ∷ [],
          finalize_one_more crc (chunk_slot i chunks 0) (chunk_slot i chunks (chunk_crc i)) [] []
              (finalized i chunks) nothing_more,
          λ rest.
              rw (replay_one i chunks bytes, last)
                (ap (λ (c : ℕ). and_then crc (deliver (upto c)) (λ q. replay_from crc q rest)) e),
        )
    chunks_replayed (suc n) i chunks e bytes =
        let more : (i + 1 == chunks) ≡ false = ground arith in
        let (finals, finalizes, goes_on) =
          chunks_replayed n (i + 1) chunks (omega (arith, e)) bytes in
        (
          chunk_slot i chunks (chunk_crc i) ∷ finals,
          finalize_one_more crc (chunk_slot i chunks 0) (chunk_slot i chunks (chunk_crc i))
              (chunk_slots lsn kind payload chunks (suc n) (i + 1)) finals (finalized i chunks)
              finalizes,
          λ rest. rw (replay_one i chunks bytes, more, waiting_next i) (goes_on rest),
        )

    enough_replayed :
        (chunks : ℕ) (out : List WalReplayRecord)
        → 0 < chunks
        → length payload ≤ chunks * logical_chunk_max_len
        → 0 < length payload
        → deliver (record { lsn = lsn; kind = kind; payload = payload }) ≡ continued out no_chunks
        → Replays crc (chunk_slots lsn kind payload chunks chunks 0) out
    unfolding part upto waiting
    enough_replayed zero out some_chunks enough bytes delivered = absurd (omega arith)
    enough_replayed (suc n) out some_chunks enough bytes delivered =
        let (finals, finalizes, goes_on) = chunks_replayed n 0 (suc n) (omega arith) bytes in
        let whole : deliver (upto (suc n)) ≡ continued out no_chunks =
          ap (λ b. deliver (part b)) (all_chunks payload (suc n) enough) ∙ delivered in
        (
          finals,
          finalizes,
          λ rest.
              goes_on rest
              ∙ ap (λ (d : Replayed). and_then crc d (λ q. replay_from crc q rest)) whole,
        )

    -- The chunks of a payload come out as the payload.
    pub chunks-Replays :
        (out : List WalReplayRecord)
        → 0 < length payload
        → deliver (record { lsn = lsn; kind = kind; payload = payload }) ≡ continued out no_chunks
        → Replays crc
            (chunk_slots lsn kind payload
              (chunk_count (length payload))
              (chunk_count (length payload))
              0)
            out
    unfolding chunk_count
    chunks-Replays out bytes delivered =
        enough_replayed (chunk_count (length payload)) out (omega arith) (omega arith) bytes
          delivered
