-- ===== src/Wal/Slots.antt =====
-- `crates/wal/src/wal_impl.rs`: what the replay makes of one finalized slot.
use mathlib.Core.List.{append_assoc}
use mathlib.Core.Option.{some-injective}
use pagebox.Base.{
  ℕ, zero, suc, ◌≤◌, ◌≡◌, refl, ap, sym, ◌∙◌, Option, none, some, List, [], ◌∷◌, ◌++◌, true, length,
  take, All, arith, map, ◌==◌, ==_iff, le→ltb, Option-cases, inl, inr,
}
use Prim.Native.Nat.{bit_and}
use pagebox.Bytes.BigEndian.{pad_to, length-pad_to}
use pagebox.Wal.Capacity.{wal_record_size}
use pagebox.Wal.Records.{
  BatchEntry, RecordSlot, LogicalRecord, page_image_entry, logical_chunk_entry,
  packed_logical_entry, validate_entry_data, for_each_packed_logical_record, finalize_slot,
  finalize_buffer_records, unknown_flags,
}
use pagebox.Wal.Packed.{packed, FitsRecord, for_each_packed_logical_record-packed}
use pagebox.Wal.Append.{PackedLogicalSlot, data_page, packed_slot}
use pagebox.Wal.Replay.{
  WalReplayRecord, page_image, logical, no_chunks, continued, replay_slot, replay_from,
}

take-pad_to : (n : ℕ) (bs : List ℕ) → length bs ≤ n → take (length bs) (pad_to n bs) ≡ bs
unfolding pad_to
take-pad_to n [] h = refl
take-pad_to zero (b ∷ bs) h = absurd (omega arith)
take-pad_to (suc n) (b ∷ bs) h = ap (◌∷◌ b) (take-pad_to n bs (omega arith))

pub ==_self : (n : ℕ) → (n == n) ≡ true
==_self n = (==_iff n n).1 refl

refused : {A : Type 0} {B : Type 0} {a : A} → ◌≡◌ {A = Option A} none (some a) → B
refused e = cc

module _ (crc : List ℕ → ℕ) where
  -- The slots are finalized without a panic, and where no chunks are waiting the replay hands on
  -- `out` for them and goes on behind them.
  abbrev pub Replays : List RecordSlot → List WalReplayRecord → Type 0
  Replays group out =
      (final : List RecordSlot) × (finalize_buffer_records crc group ≡ some final)
      × ((rest : List RecordSlot)
          → replay_from crc no_chunks (final ++ rest) ≡ out ++ replay_from crc no_chunks rest)

  pub Replays-nothing : Replays [] []
  unfolding finalize_buffer_records
  Replays-nothing = ([], refl, λ rest. refl)

  pub finalize_one_more :
      (slot final : RecordSlot) (slots finals : List RecordSlot)
      → finalize_slot crc slot ≡ some final
      → finalize_buffer_records crc slots ≡ some finals
      → finalize_buffer_records crc (slot ∷ slots) ≡ some (final ∷ finals)
  unfolding finalize_buffer_records
  finalize_one_more slot final slots finals e f = rw (e, f) refl

  finalize-append :
      (a b a' b' : List RecordSlot)
      → finalize_buffer_records crc a ≡ some a'
      → finalize_buffer_records crc b ≡ some b'
      → finalize_buffer_records crc (a ++ b) ≡ some (a' ++ b')
  unfolding finalize_buffer_records
  finalize-append [] b a' b' e f =
      f ∙ ap (λ (t : List RecordSlot). some (t ++ b')) (some-injective [] a' e)
  finalize-append (s ∷ a) b a' b' e f = elim (Option-cases (finalize_slot crc s)) [
    | inl none_s ↦ refused (rw none_s at e)
    | inr (s', some_s) ↦ elim (Option-cases (finalize_buffer_records crc a)) [
      | inl none_a ↦ refused (rw (some_s, none_a) at e)
      | inr (t, some_a) ↦
          let rest = finalize-append a b t b' some_a f in
          let same = some-injective (s' ∷ t) a' (rw (some_s, some_a) at e) in
          rw (some_s, rest) (ap (λ (u : List RecordSlot). some (u ++ b')) same)
    ]
  ]

  pub Replays-append :
      (a b : List RecordSlot) (out out' : List WalReplayRecord)
      → Replays a out
      → Replays b out'
      → Replays (a ++ b) (out ++ out')
  Replays-append a b out out' (fa, ea, ra) (fb, eb, rb) = (
    fa ++ fb,
    finalize-append a b fa fb ea eb,
    λ rest.
        ap (replay_from crc no_chunks) (append_assoc fa fb rest)
        ∙ ra (fb ++ rest)
        ∙ ap (◌++◌ out) (rb rest)
        ∙ sym (append_assoc out out' (replay_from crc no_chunks rest)),
  )

  one_slot :
      (slot final : RecordSlot) (out : List WalReplayRecord)
      → finalize_slot crc slot ≡ some final
      → replay_slot crc no_chunks final ≡ continued out no_chunks
      → Replays (slot ∷ []) out
  unfolding finalize_buffer_records replay_from
  one_slot slot final out e f = (final ∷ [], rw e refl, λ rest. rw f refl)

  validated-image :
      (entry : BatchEntry) (page : List ℕ)
      → entry.kind ≡ 1
      → entry.flags ≡ 0
      → crc page ≡ entry.crc
      → length page ≡ wal_record_size
      → validate_entry_data crc entry page ≡ some page
  unfolding validate_entry_data
  validated-image entry page k f c full = rw (k, f, c, full, ==_self (entry.crc)) refl

  replay-image :
      (slot : RecordSlot) (page : List ℕ)
      → slot.entry.kind ≡ 1
      → validate_entry_data crc slot.entry slot.page ≡ some page
      → replay_slot crc no_chunks slot
        ≡ continued (page_image slot.entry.lsn slot.entry.arg page ∷ []) no_chunks
  unfolding replay_slot
  replay-image slot page k e = rw (e, k, replay_slot) refl

  -- A page image.
  pub page_image-Replays :
      (lsn page_id : ℕ) (page : List ℕ)
      → length page ≡ wal_record_size
      → Replays
          (record { entry = page_image_entry lsn page_id 0; page = page } ∷ [])
          (page_image lsn page_id page ∷ [])
  unfolding finalize_slot
  page_image-Replays lsn page_id page full =
      one_slot (record { entry = page_image_entry lsn page_id 0; page = page })
        (record { entry = page_image_entry lsn page_id (crc page); page = page })
        (page_image lsn page_id page ∷ []) refl
        (replay-image (record { entry = page_image_entry lsn page_id (crc page); page = page }) page
          refl (validated-image (page_image_entry lsn page_id (crc page)) page refl refl refl full))

  validated-packed :
      (slot : PackedLogicalSlot)
      → length slot.bytes ≤ wal_record_size
      → validate_entry_data crc
          (packed_logical_entry slot.max_lsn
            (crc (take (length slot.bytes) (data_page slot.bytes)))
            (length slot.bytes))
          (data_page slot.bytes)
        ≡ some slot.bytes
  unfolding validate_entry_data
  validated-packed slot short =
      let size = length-pad_to wal_record_size slot.bytes in
      let room =
        le→ltb (length (data_page slot.bytes)) (length slot.bytes) (omega (arith, size, short)) in
      let same = take-pad_to wal_record_size slot.bytes short in
      rw (room, ==_self (crc (take (length slot.bytes) (data_page slot.bytes)))) (ap some same)

  replay-packed :
      (slot : RecordSlot) (payload : List ℕ) (rs : List LogicalRecord)
      → slot.entry.kind ≡ 3
      → validate_entry_data crc slot.entry slot.page ≡ some payload
      → for_each_packed_logical_record payload ≡ (rs, true)
      → replay_slot crc no_chunks slot ≡ continued (map logical rs) no_chunks
  unfolding replay_slot
  replay-packed slot payload rs k e f = rw (e, k, f, replay_slot) refl

  -- A slot of packed records.
  pub packed_slot-Replays :
      (slot : PackedLogicalSlot) (rs : List LogicalRecord)
      → slot.bytes ≡ packed rs
      → All FitsRecord rs
      → length slot.bytes ≤ wal_record_size
      → Replays (packed_slot slot ∷ []) (map logical rs)
  unfolding finalize_slot
  packed_slot-Replays slot rs e fits short =
      one_slot (packed_slot slot)
        (record {
          entry =
              packed_logical_entry slot.max_lsn
                (crc (take (length slot.bytes) (data_page slot.bytes))) (length slot.bytes);
          page = data_page slot.bytes;
        })
        (map logical rs) refl
        (replay-packed _ slot.bytes rs refl (validated-packed slot short)
          (rw e (for_each_packed_logical_record-packed rs fits)))

  -- A chunk is let through by its checksum.
  pub validate_entry_data-chunk :
      (lsn kind flags : ℕ) (chunk : List ℕ)
      → length chunk ≤ wal_record_size
      → (bit_and flags unknown_flags == 0) ≡ true
      → validate_entry_data crc
          (logical_chunk_entry lsn kind
            (crc (take (length chunk) (data_page chunk)))
            flags
            (length chunk))
          (data_page chunk)
        ≡ some chunk
  unfolding validate_entry_data
  validate_entry_data-chunk lsn kind flags chunk short known =
      let size = length-pad_to wal_record_size chunk in
      let below = le→ltb 65536 (length chunk) short in
      let room = le→ltb (length (data_page chunk)) (length chunk) (omega (arith, size, short)) in
      let same = take-pad_to wal_record_size chunk short in
      rw (below, room, known, ==_self (crc (take (length chunk) (data_page chunk)))) (ap some same)
