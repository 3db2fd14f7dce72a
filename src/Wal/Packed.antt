-- ===== src/Wal/Packed.antt =====
-- `crates/wal/src/wal_impl.rs`: packed logical records are read back one by one.
use mathlib.Core.List.{append_assoc, append-nil}
use pagebox.Base.{
  ℕ, zero, suc, ◌+◌, ◌^◌, ◌≤◌, ◌<◌, ◌≡◌, refl, ap, sym, ◌∙◌, some, List, [], ◌∷◌, ◌++◌, true,
  le→leb, le→ltb, lt→ltb, length, length-append, take, drop, take_all, All, arith, inl, inr,
  Option-cases,
}
use pagebox.Bytes.LittleEndian.{
  from_le_bytes, to_le_bytes, length-to_le_bytes, from_le_bytes-to_le_bytes,
}
use pagebox.Bytes.Slices.{get_range, get_range-append, take-prefix, drop-prefix}
use pagebox.Wal.Records.{
  LogicalRecord, encode_packed_logical_entry, packed_records_from, for_each_packed_logical_record,
}

abbrev header_of : LogicalRecord → List ℕ
header_of r = to_le_bytes 8 r.lsn ++ (to_le_bytes 8 r.kind ++ to_le_bytes 4 (length r.payload))

-- The packed form of records, one after the other.
unfoldable pub packed : List LogicalRecord → List ℕ
packed [] = []
packed (r ∷ rs) = header_of r ++ (r.payload ++ packed rs)

-- LSNs and kinds of 64 bits, and a payload of 32 bits of bytes.
abbrev pub FitsRecord : LogicalRecord → Type 0
FitsRecord r = (r.lsn < 2 ^ 64) × (r.kind < 2 ^ 64) × (length r.payload < 2 ^ 32)

length-header_of : (r : LogicalRecord) → length (header_of r) ≡ 20
length-header_of r =
    let a =
      length-append (to_le_bytes 8 r.lsn)
        (to_le_bytes 8 r.kind ++ to_le_bytes 4 (length r.payload)) in
    let b = length-append (to_le_bytes 8 r.kind) (to_le_bytes 4 (length r.payload)) in
    omega (
      arith,
      a,
      b,
      length-to_le_bytes 8 r.lsn,
      length-to_le_bytes 8 r.kind,
      length-to_le_bytes 4 (length r.payload),
    )

-- The three fields of a header.
module _ (r : LogicalRecord) (fits : FitsRecord r) where
  lsn_read : from_le_bytes (take 8 (header_of r)) ≡ r.lsn
  lsn_read =
      ap from_le_bytes (take-prefix 8 (to_le_bytes 8 r.lsn) _ (length-to_le_bytes 8 r.lsn))
      ∙ from_le_bytes-to_le_bytes 8 r.lsn fits.0

  kind_read : from_le_bytes (take 8 (drop 8 (header_of r))) ≡ r.kind
  kind_read =
      ap (λ (t : List ℕ). from_le_bytes (take 8 t))
        (drop-prefix 8 (to_le_bytes 8 r.lsn) _ (length-to_le_bytes 8 r.lsn))
      ∙ ap from_le_bytes (take-prefix 8 (to_le_bytes 8 r.kind) _ (length-to_le_bytes 8 r.kind))
      ∙ from_le_bytes-to_le_bytes 8 r.kind fits.1

  len_read : from_le_bytes (take 4 (drop 16 (header_of r))) ≡ length r.payload
  len_read =
      let lk = to_le_bytes 8 r.lsn ++ to_le_bytes 8 r.kind in
      let size : length (to_le_bytes 8 r.lsn ++ to_le_bytes 8 r.kind) ≡ 16 = omega (
        arith,
        length-append (to_le_bytes 8 r.lsn) (to_le_bytes 8 r.kind),
        length-to_le_bytes 8 r.lsn,
        length-to_le_bytes 8 r.kind,
      ) in
      let tail = to_le_bytes 4 (length r.payload) in
      ap (λ (t : List ℕ). from_le_bytes (take 4 (drop 16 t)))
        (sym (append_assoc (to_le_bytes 8 r.lsn) (to_le_bytes 8 r.kind) tail))
      ∙ ap (λ (t : List ℕ). from_le_bytes (take 4 t)) (drop-prefix 16 lk tail size)
      ∙ ap from_le_bytes (take_all 4 tail (omega (arith, length-to_le_bytes 4 (length r.payload))))
      ∙ from_le_bytes-to_le_bytes 4 (length r.payload) fits.2

-- From the end of any front on, with as much fuel as there are bytes left.
packed_records_from-packed :
    (rs : List LogicalRecord) (fuel : ℕ) (pre payload : List ℕ) (offset : ℕ)
    → All FitsRecord rs
    → payload ≡ pre ++ packed rs
    → offset ≡ length pre
    → length payload ≤ offset + fuel
    → packed_records_from fuel payload offset ≡ (rs, true)
unfolding packed_records_from packed
packed_records_from-packed [] zero pre payload offset all e at_pre enough = refl
packed_records_from-packed [] (suc fuel) pre payload offset all e at_pre enough =
    let size = ap length e ∙ length-append pre [] in
    rw (le→ltb offset (length payload) (omega (arith, size))) refl
packed_records_from-packed (r ∷ rs) zero pre payload offset all e at_pre enough = absurd (
    omega (
      arith,
      ap length e,
      length-append pre (packed (r ∷ rs)),
      length-append (header_of r) (r.payload ++ packed rs),
      length-header_of r,
    ))
packed_records_from-packed (r ∷ rs) (suc fuel) pre payload offset all e at_pre enough =
    let whole = ap length e ∙ length-append pre (header_of r ++ (r.payload ++ packed rs)) in
    let rest_len = length-append (header_of r) (r.payload ++ packed rs) in
    let head = length-header_of r in
    let more = lt→ltb offset (length payload) (omega (arith, whole, rest_len, head)) in
    let got_header : get_range payload offset (offset + 20) ≡ some (header_of r) = rw e (
      get_range-append pre (header_of r) (r.payload ++ packed rs) offset (offset + 20) at_pre
        (omega (arith, head, at_pre))) in
    let moved : payload ≡ (pre ++ header_of r) ++ (r.payload ++ packed rs) =
      e ∙ sym (append_assoc pre (header_of r) (r.payload ++ packed rs)) in
    let front : length (pre ++ header_of r) ≡ offset + 20 =
      omega (arith, length-append pre (header_of r), head, at_pre) in
    let got_payload : get_range payload (offset + 20) (offset + 20 + length r.payload)
        ≡ some r.payload =
      rw moved (
        get_range-append (pre ++ header_of r) r.payload (packed rs) (offset + 20)
          (offset + 20 + length r.payload) (sym front) (omega (arith, front))) in
    let rest =
      packed_records_from-packed rs fuel ((pre ++ header_of r) ++ r.payload) payload
        (offset + 20 + length r.payload) all.1
        (moved ∙ sym (append_assoc (pre ++ header_of r) r.payload (packed rs)))
        (omega (arith, front, length-append (pre ++ header_of r) r.payload)) (omega arith) in
    rw
      (
        more,
        got_header,
        len_read r all.0,
        got_payload,
        lsn_read r all.0,
        kind_read r all.0,
        len_read r all.0,
        rest,
      )
      refl

-- Reading the packed form of records gives the records.
pub for_each_packed_logical_record-packed :
    (rs : List LogicalRecord)
    → All FitsRecord rs
    → for_each_packed_logical_record (packed rs) ≡ (rs, true)
unfolding for_each_packed_logical_record
for_each_packed_logical_record-packed rs all =
    packed_records_from-packed rs (length (packed rs)) [] (packed rs) 0 all refl refl (omega arith)

pub encode_packed_logical_entry-packed :
    (room : ℕ) (r : LogicalRecord)
    → length r.payload < 2 ^ 32
    → 20 + length r.payload ≤ room
    → encode_packed_logical_entry room r.lsn r.kind r.payload ≡ some (packed (r ∷ []))
unfolding encode_packed_logical_entry packed
encode_packed_logical_entry-packed room r small fits =
    let a = to_le_bytes 8 r.lsn in
    let b = to_le_bytes 8 r.kind in
    let c = to_le_bytes 4 (length r.payload) in
    rw (lt→ltb (length r.payload) 4294967296 small, le→leb (20 + length r.payload) room fits)
      (ap some (
        sym (
          ap (◌++◌ (header_of r)) (append-nil r.payload)
          ∙ append_assoc a (b ++ c) r.payload
          ∙ ap (◌++◌ a) (append_assoc b c r.payload))))

pub packed-append : (rs rs' : List LogicalRecord) → packed (rs ++ rs') ≡ packed rs ++ packed rs'
unfolding packed
packed-append [] rs' = refl
packed-append (r ∷ rs) rs' =
    ap (λ (t : List ℕ). header_of r ++ (r.payload ++ t)) (packed-append rs rs')
    ∙ ap (◌++◌ (header_of r)) (sym (append_assoc r.payload (packed rs) (packed rs')))
    ∙ sym (append_assoc (header_of r) (r.payload ++ packed rs) (packed rs'))

pub length-packed_one : (r : LogicalRecord) → length (packed (r ∷ [])) ≡ 20 + length r.payload
unfolding packed
length-packed_one r =
    let a = length-append (header_of r) (r.payload ++ []) in
    let b = length-append r.payload [] in omega (arith, a, b, length-header_of r)

-- The reading of any bytes ends: with any fuel from the number of the bytes left on it is the same.
pub packed_records_from_settled :
    (fuel fuel' : ℕ) (payload : List ℕ) (offset : ℕ)
    → length payload ≤ offset + fuel
    → length payload ≤ offset + fuel'
    → packed_records_from fuel payload offset ≡ packed_records_from fuel' payload offset
unfolding packed_records_from
packed_records_from_settled zero zero payload offset h h' = refl
packed_records_from_settled zero (suc fuel') payload offset h h' =
    rw (le→ltb offset (length payload) (omega arith)) refl
packed_records_from_settled (suc fuel) zero payload offset h h' =
    rw (le→ltb offset (length payload) (omega arith)) refl
packed_records_from_settled (suc fuel) (suc fuel') payload offset h h' =
    elim (Option-cases (get_range payload offset (offset + 20))) [
      | inl e ↦ rw e refl
      | inr (header, e) ↦
          let from = offset + 20 in
          let to = from + from_le_bytes (take 4 (drop 16 header)) in
          elim (Option-cases (get_range payload from to)) [
            | inl e' ↦ rw (e, e') refl
            | inr (bytes, e') ↦
                let rest =
                  packed_records_from_settled fuel fuel' payload to (omega arith) (omega arith) in
                rw (e, e', rest) refl
          ]
    ]
