-- ===== src/Wal/Delivery.antt =====
-- The log of `crates/wal/src/wal_impl.rs` from end to end: what is appended is what the replay hands on.
use pagebox.Base.{
  ℕ, ◌+◌, ◌-◌, ◌≤◌, ◌≡◌, ◌⊎◌, refl, ap, sym, subst, ◌∙◌, max, Option, none, some, List, [], ◌∷◌,
  ◌++◌, length, length-append, arith, All, map, leb, leb→le, le→leb, Bool-cases, inl, inr,
}
use mathlib.Core.List.{append_assoc, append-nil}
use pagebox.Wal.Capacity.{wal_record_size}
use pagebox.Wal.Records.{RecordSlot, LogicalRecord, packed_logical_max_payload_len}
use pagebox.Wal.Packed.{
  packed, FitsRecord, encode_packed_logical_entry-packed, packed-append, length-packed_one,
}
use pagebox.Wal.Append.{
  PackedLogicalSlot, WalLog, slots, close, packed_slot, append_page_image_with_lsn,
  append_packed_logical_with_lsn, try_append_packed_logical,
}
use pagebox.Wal.Replay.{WalReplayRecord, page_image, logical}
use pagebox.Wal.Slots.{Replays, Replays-append, page_image-Replays, packed_slot-Replays}

-- The records that are packed into the last slot.
abbrev pub PackedIs : Option PackedLogicalSlot → List LogicalRecord → Type 0
PackedIs none rs = rs ≡ []
PackedIs (some slot) rs =
    (slot.bytes ≡ packed rs) × All FitsRecord rs × (length slot.bytes ≤ wal_record_size)

module _ (crc : List ℕ → ℕ) where
  -- A log that the replay hands on as `out`.
  abbrev pub Holds : WalLog → List WalReplayRecord → Type 0
  Holds log out =
      (before : List WalReplayRecord) × (rs : List LogicalRecord) × Replays crc log.closed before
      × PackedIs log.packed_logical rs
      × (out ≡ before ++ map logical rs)

  pub slots-Replays :
      (closed : List RecordSlot) (last : Option PackedLogicalSlot) (out : List WalReplayRecord)
      → Holds (record { closed = closed; packed_logical = last }) out
      → Replays crc (slots (record { closed = closed; packed_logical = last })) out
  unfolding slots
  slots-Replays closed none out (before, rs, ok, e, same) =
      subst (Replays crc closed)
        (sym
          (same ∙ ap (λ (r : List LogicalRecord). before ++ map logical r) e ∙ append-nil before))
        ok
  slots-Replays closed (some slot) out (before, rs, ok, (e, fits, short), same) =
      subst (Replays crc (closed ++ (packed_slot slot ∷ []))) (sym same) (
        Replays-append crc closed (packed_slot slot ∷ []) before (map logical rs) ok
          (packed_slot-Replays crc slot rs e fits short))

  pub close-Holds :
      (log : WalLog) (out : List WalReplayRecord) → Holds log out → Holds (close log) out
  unfolding close
  close-Holds log out h =
      (out, [], slots-Replays log.closed log.packed_logical out h, refl, sym (append-nil out))

  -- Slots behind a closed log.
  pub add-Holds :
      (log : WalLog) (out more : List WalReplayRecord) (added : List RecordSlot)
      → Holds log out
      → Replays crc added more
      → Holds (record { closed = (close log).closed ++ added; packed_logical = none }) (out ++ more)
  unfolding close
  add-Holds log out more added h ok = (
    out ++ more,
    [],
    Replays-append crc (close log).closed added out more
        (slots-Replays log.closed log.packed_logical out h) ok,
    refl,
    sym (append-nil (out ++ more)),
  )

  pub append_page_image-Holds :
      (log : WalLog) (out : List WalReplayRecord) (lsn page_id : ℕ) (page : List ℕ)
      → length page ≡ wal_record_size
      → Holds log out
      → Holds
          (append_page_image_with_lsn log lsn page_id page)
          (out ++ (page_image lsn page_id page ∷ []))
  unfolding append_page_image_with_lsn
  append_page_image-Holds log out lsn page_id page full h =
      add-Holds log out (page_image lsn page_id page ∷ []) _ h
        (page_image-Replays crc lsn page_id page full)

All-snoc :
    (rs : List LogicalRecord) (r : LogicalRecord)
    → All FitsRecord rs
    → FitsRecord r
    → All FitsRecord (rs ++ (r ∷ []))
All-snoc [] r all fits = (fits, tt)
All-snoc (q ∷ rs) r all fits = (all.0, All-snoc rs r all.1 fits)

map-snoc :
    (rs : List LogicalRecord) (r : LogicalRecord)
    → map logical (rs ++ (r ∷ [])) ≡ map logical rs ++ (logical r ∷ [])
map-snoc [] r = refl
map-snoc (q ∷ rs) r = ap (◌∷◌ (logical q)) (map-snoc rs r)

module _ (crc : List ℕ → ℕ) (r : LogicalRecord) where
  -- One record more in the last slot, if it fits.
  try_append-cases :
      (closed : List RecordSlot) (last : Option PackedLogicalSlot) (out : List WalReplayRecord)
      → FitsRecord r
      → Holds crc (record { closed = closed; packed_logical = last }) out
      → (try_append_packed_logical
            (record { closed = closed; packed_logical = last })
            r.lsn
            r.kind
            r.payload
          ≡ none)
        ⊎ ((log' : WalLog) × (try_append_packed_logical
                (record { closed = closed; packed_logical = last })
                r.lsn
                r.kind
                r.payload
              ≡ some log')
            × Holds crc log' (out ++ (logical r ∷ [])))
  unfolding try_append_packed_logical
  try_append-cases closed none out fits h = inl refl
  try_append-cases closed (some slot) out fits (before, rs, ok, (e, all, short), same) =
      elim (Bool-cases (leb (length slot.bytes + (20 + length r.payload)) 65536)) [
        | inr full ↦ inl (rw full refl)
        | inl room ↦
            let space = leb→le (length slot.bytes + (20 + length r.payload)) 65536 room in
            let wrote =
              encode_packed_logical_entry-packed (65536 - length slot.bytes) r fits.2
                (omega (arith, space)) in
            let grown : PackedLogicalSlot = record {
              bytes = slot.bytes ++ packed (r ∷ []);
              max_lsn = max slot.max_lsn r.lsn;
            } in
            let size = length-append slot.bytes (packed (r ∷ [])) in
            let one = length-packed_one r in
            inr (
              record { closed = closed; packed_logical = some grown },
              rw (room, wrote) refl,
              (
                before,
                rs ++ (r ∷ []),
                ok,
                (
                  ap (λ (b : List ℕ). b ++ packed (r ∷ [])) e ∙ sym (packed-append rs (r ∷ [])),
                  All-snoc rs r all fits,
                  omega (arith, size, one, space),
                ),
                ap (λ (t : List WalReplayRecord). t ++ (logical r ∷ [])) same
                    ∙ append_assoc before (map logical rs) (logical r ∷ [])
                    ∙ ap (◌++◌ before) (sym (map-snoc rs r)),
              ),
            )
      ]

  pub append_packed-Holds :
      (log : WalLog) (out : List WalReplayRecord)
      → FitsRecord r
      → length r.payload ≤ packed_logical_max_payload_len
      → Holds crc log out
      → (log' : WalLog) × (append_packed_logical_with_lsn log r.lsn r.kind r.payload ≡ some log')
        × Holds crc log' (out ++ (logical r ∷ []))
  unfolding append_packed_logical_with_lsn close
  append_packed-Holds log out fits small h =
      let short = le→leb (20 + length r.payload) 65536 (omega (arith, small)) in
      elim (try_append-cases log.closed log.packed_logical out fits h) [
        | inr (log', e, h') ↦ (log', rw (short, e) refl, h')
        | inl e ↦
            let wrote = encode_packed_logical_entry-packed 65536 r fits.2 (omega (arith, small)) in
            let fresh : PackedLogicalSlot = record { bytes = packed (r ∷ []); max_lsn = r.lsn } in
            (
              record (close log) { packed_logical = some fresh },
              rw (short, e, wrote) refl,
              (
                out,
                r ∷ [],
                slots-Replays crc log.closed log.packed_logical out h,
                (refl, (fits, tt), omega (arith, length-packed_one r, small)),
                refl,
              ),
            )
      ]
