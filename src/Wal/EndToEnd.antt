-- ===== src/Wal/EndToEnd.antt =====
-- The log of `crates/wal/src/wal_impl.rs` from end to end: any appends, in any order, are handed on by the
-- replay as they were made.
use pagebox.Base.{
  ℕ, ◌^◌, ◌<◌, ◌≡◌, refl, ap, sym, subst, ◌∙◌, Option, some, List, [], ◌∷◌, ◌++◌, false, length,
  arith, All, ◌==◌, ==_iff, leb, leb→le, Bool-cases, inl, inr, ◌>>=◌,
}
use mathlib.Core.List.{append_assoc, append-nil}
use pagebox.Wal.Capacity.{wal_record_size}
use pagebox.Wal.Records.{
  RecordSlot, LogicalRecord, finalize_buffer_records, packed_logical_max_payload_len,
}
use pagebox.Wal.Packed.{FitsRecord}
use pagebox.Wal.Append.{
  WalLog, empty_log, slots, close, append_page_image_with_lsn, append_logical_with_lsn,
  append_logical_record_with_lsn, append_page_image_bytes_with_lsn, append_page_patch_with_lsn,
  logical_kind_page_image_bytes, logical_kind_page_patch, is_internal_logical_kind,
  encode_page_image_bytes_payload,
}
use pagebox.Wal.Replay.{
  WalReplayRecord, page_image, logical, no_chunks, replay_from, replay_records,
}
use pagebox.Wal.Slots.{Replays-nothing}
use pagebox.Wal.Reassembly.{chunks-Replays}
use pagebox.Wal.Delivery.{
  Holds, slots-Replays, close-Holds, add-Holds, append_page_image-Holds, append_packed-Holds,
}
use pagebox.Wal.ImageBytes.{
  deliver-logical, deliver-image, length-image_payload, decode-image_payload,
}

-- What can be done to the log: a page image, a caller's logical record, a page image as bytes, a page
-- patch, and the buffer handed to the writer.
pub data WalAppend : Type 0 where
  image : ℕ → ℕ → List ℕ → WalAppend
  record_of : LogicalRecord → WalAppend
  image_bytes : ℕ → ℕ → List ℕ → WalAppend
  patch : ℕ → List ℕ → WalAppend
  sealed : WalAppend

unfoldable pub append : WalLog → WalAppend → Option WalLog
unfolding append_page_image_with_lsn append_logical_with_lsn append_page_image_bytes_with_lsn
    append_page_patch_with_lsn close
append log (image lsn page_id page) = some (append_page_image_with_lsn log lsn page_id page)
append log (record_of r) = append_logical_with_lsn log r.lsn r.kind r.payload
append log (image_bytes lsn page_id page) = append_page_image_bytes_with_lsn log lsn page_id page
append log (patch lsn payload) = append_page_patch_with_lsn log lsn payload
append log sealed = some (close log)

unfoldable pub append_all : WalLog → List WalAppend → Option WalLog
unfolding append
append_all log [] = some log
append_all log (a ∷ appends) = do log' ← append log a; append_all log' appends

-- Pages of the page size, numbers of 64 bits, payloads of less than 4 GiB, and no reserved kind.
abbrev pub Appendable : WalAppend → Type 0
Appendable (image lsn page_id page) = length page ≡ wal_record_size
Appendable (record_of r) = FitsRecord r × (is_internal_logical_kind r.kind ≡ false)
Appendable (image_bytes lsn page_id page) = (page_id < 2 ^ 64) × (length page ≡ wal_record_size)
Appendable (patch lsn payload) = (lsn < 2 ^ 64) × (length payload < 2 ^ 32)
Appendable sealed = Unit

-- What the replay is to hand on for an append.
abbrev pub handed_on : WalAppend → List WalReplayRecord
handed_on (image lsn page_id page) = page_image lsn page_id page ∷ []
handed_on (record_of r) = logical r ∷ []
handed_on (image_bytes lsn page_id page) = page_image lsn page_id page ∷ []
handed_on (patch lsn payload) =
    logical (record { lsn = lsn; kind = logical_kind_page_patch; payload = payload }) ∷ []
handed_on sealed = []

abbrev pub all_handed_on : List WalAppend → List WalReplayRecord
all_handed_on [] = []
all_handed_on (a ∷ appends) = handed_on a ++ all_handed_on appends

module _ (crc : List ℕ → ℕ) where
  -- An append that succeeds, and what the log holds then.
  abbrev Succeeds : Option WalLog → List WalReplayRecord → Type 0
  Succeeds result out = (log' : WalLog) × (result ≡ some log') × Holds crc log' out

  append_logical_record-Holds :
      (log : WalLog) (out : List WalReplayRecord) (r : LogicalRecord)
      → FitsRecord r
      → (r.kind == logical_kind_page_image_bytes) ≡ false
      → Holds crc log out
      → Succeeds
          (append_logical_record_with_lsn log r.lsn r.kind r.payload)
          (out ++ (logical r ∷ []))
  unfolding append_logical_record_with_lsn
  append_logical_record-Holds log out r fits other h =
      elim (Bool-cases (leb (length r.payload) packed_logical_max_payload_len)) [
        | inl small ↦
            rw (other, small)
              (append_packed-Holds crc r log out fits
                (leb→le (length r.payload) packed_logical_max_payload_len small) h)
        | inr large ↦
            let big : 0 < length r.payload = ground arith in
            rw (other, large)
              (
                _,
                refl,
                add-Holds crc log out (logical r ∷ []) _ h (
                    chunks-Replays r.lsn r.kind r.payload crc (logical r ∷ []) big
                      (deliver-logical r other)),
              )
      ]

  append_logical-Holds :
      (log : WalLog) (out : List WalReplayRecord) (r : LogicalRecord)
      → FitsRecord r
      → is_internal_logical_kind r.kind ≡ false
      → Holds crc log out
      → Succeeds (append_logical_with_lsn log r.lsn r.kind r.payload) (out ++ (logical r ∷ []))
  unfolding append_logical_with_lsn
  append_logical-Holds log out r fits callers h =
      let other : (r.kind == logical_kind_page_image_bytes) ≡ false = ground (arith, callers) in
      rw callers (append_logical_record-Holds log out r fits other h)

  append_image_bytes-Holds :
      (log : WalLog) (out : List WalReplayRecord) (lsn page_id : ℕ) (page : List ℕ)
      → page_id < 2 ^ 64
      → length page ≡ wal_record_size
      → Holds crc log out
      → Succeeds
          (append_page_image_bytes_with_lsn log lsn page_id page)
          (out ++ (page_image lsn page_id page ∷ []))
  unfolding append_page_image_bytes_with_lsn append_logical_record_with_lsn
  append_image_bytes-Holds log out lsn page_id page fits full h =
      let payload = encode_page_image_bytes_payload page_id page in
      let size = length-image_payload page_id page in
      let whole = (==_iff (length page) wal_record_size).1 full in
      let given =
        deliver-image lsn page_id page payload (decode-image_payload page_id page fits full) in
      rw whole (
        _,
        refl,
        add-Holds crc log out (page_image lsn page_id page ∷ []) _ h (
            chunks-Replays lsn logical_kind_page_image_bytes payload crc
              (page_image lsn page_id page ∷ []) (omega (arith, size)) given),
      )

  append-Holds :
      (a : WalAppend) (log : WalLog) (out : List WalReplayRecord)
      → Appendable a
      → Holds crc log out
      → Succeeds (append log a) (out ++ handed_on a)
  unfolding append append_page_patch_with_lsn
  append-Holds (image lsn page_id page) log out full h =
      (_, refl, append_page_image-Holds crc log out lsn page_id page full h)
  append-Holds (record_of r) log out (fits, callers) h =
      append_logical-Holds log out r fits callers h
  append-Holds (image_bytes lsn page_id page) log out (fits, full) h =
      append_image_bytes-Holds log out lsn page_id page fits full h
  append-Holds (patch lsn payload) log out (fits, short) h =
      append_logical_record-Holds log out
        (record { lsn = lsn; kind = logical_kind_page_patch; payload = payload })
        (fits, omega arith, short) refl h
  append-Holds sealed log out ok h =
      (close log, refl, close-Holds crc log _ (subst (Holds crc log) (sym (append-nil out)) h))

  append_all-Holds :
      (appends : List WalAppend) (log : WalLog) (out : List WalReplayRecord)
      → All Appendable appends
      → Holds crc log out
      → Succeeds (append_all log appends) (out ++ all_handed_on appends)
  unfolding append_all
  append_all-Holds [] log out all h = (log, refl, subst (Holds crc log) (sym (append-nil out)) h)
  append_all-Holds (a ∷ appends) log out all h =
      let (log', e, h') = append-Holds a log out all.0 h in
      let (log'', e', h'') = append_all-Holds appends log' (out ++ handed_on a) all.1 h' in
      (
        log'',
        rw (e, e') refl,
        subst (Holds crc log'') (append_assoc out (handed_on a) (all_handed_on appends)) h'',
      )

-- Whatever checksum function is used, any sequence of appends to an empty log succeeds, its buffers are
-- finalized without a panic, and the replay of all its slots hands on just what was appended, in the
-- order of the appends: packed records one by one, and the chunks of large ones put together.
pub append_all-replay_records :
    (crc : List ℕ → ℕ) (appends : List WalAppend)
    → All Appendable appends
    → (log : WalLog) × (final : List RecordSlot) × (append_all empty_log appends ≡ some log)
      × (finalize_buffer_records crc (slots log) ≡ some final)
      × (replay_records crc final ≡ all_handed_on appends)
unfolding replay_records replay_from
append_all-replay_records crc appends all =
    let start : Holds crc empty_log [] = ([], [], Replays-nothing crc, refl, refl) in
    let (log, ran, h) = append_all-Holds crc appends empty_log [] all start in
    let (final, finalizes, goes_on) =
      slots-Replays crc log.closed log.packed_logical (all_handed_on appends) h in
    (
      log,
      final,
      ran,
      finalizes,
      ap (replay_from crc no_chunks) (sym (append-nil final))
          ∙ goes_on []
          ∙ append-nil (all_handed_on appends),
    )
