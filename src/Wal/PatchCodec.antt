-- ===== src/Wal/PatchCodec.antt =====
-- `crates/wal/src/wal_impl.rs`: an encoded page patch decodes to its ranges.
use mathlib.Core.List.{append_assoc}
use pagebox.Base.{
  ℕ, ◌+◌, ◌^◌, ◌<◌, ◌≡◌, refl, sym, ap, ◌∙◌, none, some, List, [], ◌∷◌, ◌++◌, ◌⊎◌, ltb, length,
  length-append, take, drop, arith, inl, inr, le→leb, ltb→lt, ltb→le, Bool-cases, ==_iff,
}
use pagebox.Bytes.LittleEndian.{
  from_le_bytes, to_le_bytes, length-to_le_bytes, from_le_bytes-to_le_bytes,
}
use pagebox.Bytes.Slices.{take-prefix, drop-prefix}
use pagebox.Wal.Patch.{
  PatchRange, patch_page_size, encode_page_patch_ranges_payload, decode_page_patch_payload,
}
use pagebox.Wal.PatchShape.{
  spelled, in_u32, encode_ranges-spelled, decoded, decode_ranges-spelled, Ascending-InPage,
  length-spelled, few_ranges, patch_payload_len-cases, IsPatch, patch_bytes,
}

payload_of : ℕ → List PatchRange → List ℕ
payload_of page_id rs =
    to_le_bytes 8 page_id ++ (to_le_bytes 4 (length rs) ++ (to_le_bytes 4 0 ++ spelled rs))

length-payload_of :
    (page_id : ℕ) (rs : List PatchRange) → length (payload_of page_id rs) ≡ 16 + patch_bytes rs
unfolding payload_of
length-payload_of page_id rs =
    let tail = to_le_bytes 4 0 ++ spelled rs in
    let a = length-append (to_le_bytes 8 page_id) (to_le_bytes 4 (length rs) ++ tail) in
    let b = length-append (to_le_bytes 4 (length rs)) tail in
    let c = length-append (to_le_bytes 4 0) (spelled rs) in
    omega (
      arith,
      a,
      b,
      c,
      length-to_le_bytes 8 page_id,
      length-to_le_bytes 4 (length rs),
      length-to_le_bytes 4 0,
      length-spelled rs,
    )

decode-payload_of :
    (page_id : ℕ) (rs : List PatchRange)
    → page_id < 2 ^ 64
    → IsPatch rs
    → decode_page_patch_payload (payload_of page_id rs) ≡ some (page_id, rs)
unfolding decode_page_patch_payload payload_of
decode-payload_of page_id rs id_fits (some_ranges, up, short) =
    let few = few_ranges rs in
    let id = to_le_bytes 8 page_id in
    let count = to_le_bytes 4 (length rs) in
    let zeros = to_le_bytes 4 0 in
    let payload = payload_of page_id rs in
    let all = Ascending-InPage 0 rs up in
    let size = length-payload_of page_id rs in
    let long = le→leb 16 (length payload) (omega (arith, size)) in
    let id_read : from_le_bytes (take 8 payload) ≡ page_id =
      ap from_le_bytes
        (take-prefix 8 id (count ++ (zeros ++ spelled rs)) (length-to_le_bytes 8 page_id))
      ∙ from_le_bytes-to_le_bytes 8 page_id id_fits in
    let count_read : from_le_bytes (take 4 (drop 8 payload)) ≡ length rs =
      ap (λ (t : List ℕ). from_le_bytes (take 4 t))
        (drop-prefix 8 id (count ++ (zeros ++ spelled rs)) (length-to_le_bytes 8 page_id))
      ∙ ap from_le_bytes
          (take-prefix 4 count (zeros ++ spelled rs) (length-to_le_bytes 4 (length rs)))
      ∙ decoded (length rs) (omega arith) in
    let front : 16 ≡ length (id ++ (count ++ zeros)) = omega (
      arith,
      length-append id (count ++ zeros),
      length-append count zeros,
      length-to_le_bytes 8 page_id,
      length-to_le_bytes 4 (length rs),
      length-to_le_bytes 4 0,
    ) in
    let ranges =
      decode_ranges-spelled rs (id ++ (count ++ zeros)) payload 16 all
        (sym (
          append_assoc id (count ++ zeros) (spelled rs)
          ∙ ap (◌++◌ id) (append_assoc count zeros (spelled rs))))
        front in
    rw (long, id_read, count_read, ranges, (==_iff (length payload) (length payload)).1 refl) refl

-- A page id of 64 bits and ranges are refused just where the ranges are no patch: none at all, one
-- empty, out of order, overlapping or off the page, or the record as long as a page. Else the
-- payload decodes to the page id and the ranges.
pub encode_page_patch_ranges_payload_lem :
    (page_id : ℕ) (rs : List PatchRange)
    → page_id < 2 ^ 64
    → ((encode_page_patch_ranges_payload page_id rs ≡ none) × (¬ IsPatch rs))
      ⊎ (IsPatch rs
          × (payload : List ℕ) × (encode_page_patch_ranges_payload page_id rs ≡ some payload)
          × (length payload ≡ 16 + patch_bytes rs)
          × (decode_page_patch_payload payload ≡ some (page_id, rs)))
unfolding encode_page_patch_ranges_payload payload_of
encode_page_patch_ranges_payload_lem page_id [] id_fits = inl (refl, λ h. omega (arith, h.0))
encode_page_patch_ranges_payload_lem page_id (r ∷ rs) id_fits =
    elim (patch_payload_len-cases (r ∷ rs) 16 0) [
      | inl (refused, disordered) ↦ inl (rw refused refl, λ h. disordered h.1)
      | inr (up, counted) ↦ elim (Bool-cases (ltb (16 + patch_bytes (r ∷ rs)) patch_page_size)) [
        | inr long ↦ inl (
          rw (counted, long) refl,
          λ h. omega (arith, h.2, ltb→le (16 + patch_bytes (r ∷ rs)) patch_page_size long),
        )
        | inl short ↦
            let fits : 16 + patch_bytes (r ∷ rs) < 65536 =
              ltb→lt (16 + patch_bytes (r ∷ rs)) patch_page_size short in
            let ok : IsPatch (r ∷ rs) = (omega arith, up, fits) in
            let few = in_u32 (length (r ∷ rs)) (omega (arith, few_ranges (r ∷ rs))) in
            let body = encode_ranges-spelled (r ∷ rs) (Ascending-InPage 0 (r ∷ rs) up) in
            inr (
              ok,
              payload_of page_id (r ∷ rs),
              rw (counted, short, few, body) refl,
              length-payload_of page_id (r ∷ rs),
              decode-payload_of page_id (r ∷ rs) id_fits ok,
            )
      ]
    ]
