-- ===== src/Wal/ImageBytes.antt =====
-- `crates/wal/src/wal_impl.rs`: page images as bytes, and what a whole logical record is handed on as.
use pagebox.Base.{
  ℕ, ◌+◌, ◌^◌, ◌<◌, ◌≡◌, refl, ap, sym, ◌∙◌, some, List, [], ◌∷◌, ◌++◌, false, length,
  length-append, arith, take, drop, ◌==◌, le→leb,
}
use mathlib.Core.List.{append_assoc}
use pagebox.Bytes.LittleEndian.{
  from_le_bytes, to_le_bytes, length-to_le_bytes, from_le_bytes-to_le_bytes,
}
use pagebox.Bytes.Slices.{take-prefix, drop-prefix}
use pagebox.Wal.Capacity.{wal_record_size}
use pagebox.Wal.Records.{LogicalRecord}
use pagebox.Wal.Append.{
  logical_kind_page_image_bytes, encode_page_image_bytes_payload, decode_page_image_bytes_payload,
}
use pagebox.Wal.Replay.{page_image, logical, no_chunks, continued, deliver}

pub deliver-logical :
    (r : LogicalRecord)
    → (r.kind == logical_kind_page_image_bytes) ≡ false
    → deliver r ≡ continued (logical r ∷ []) no_chunks
unfolding deliver
deliver-logical r other = rw other refl

pub deliver-image :
    (lsn page_id : ℕ) (page payload : List ℕ)
    → decode_page_image_bytes_payload payload ≡ some (page_id, page)
    → deliver (record { lsn = lsn; kind = logical_kind_page_image_bytes; payload = payload })
      ≡ continued (page_image lsn page_id page ∷ []) no_chunks
unfolding deliver
deliver-image lsn page_id page payload e = rw e refl

pub length-image_payload :
    (page_id : ℕ) (page : List ℕ)
    → length (encode_page_image_bytes_payload page_id page) ≡ 16 + length page
unfolding encode_page_image_bytes_payload
length-image_payload page_id page =
    let id = to_le_bytes 8 page_id in
    let len = to_le_bytes 8 (length page) in
    let a = length-append id (len ++ page) in
    let b = length-append len page in
    omega (arith, a, b, length-to_le_bytes 8 page_id, length-to_le_bytes 8 (length page))

pub decode-image_payload :
    (page_id : ℕ) (page : List ℕ)
    → page_id < 2 ^ 64
    → length page ≡ wal_record_size
    → decode_page_image_bytes_payload (encode_page_image_bytes_payload page_id page)
      ≡ some (page_id, page)
unfolding encode_page_image_bytes_payload decode_page_image_bytes_payload
decode-image_payload page_id page fits full =
    let id = to_le_bytes 8 page_id in
    let len = to_le_bytes 8 (length page) in
    let payload = id ++ (len ++ page) in
    let id_len = length-to_le_bytes 8 page_id in
    let len_len = length-to_le_bytes 8 (length page) in
    let long =
      le→leb 16 (length payload)
        (omega (arith, length-append id (len ++ page), length-append len page, id_len, len_len)) in
    let id_read : from_le_bytes (take 8 payload) ≡ page_id =
      ap from_le_bytes (take-prefix 8 id (len ++ page) id_len)
      ∙ from_le_bytes-to_le_bytes 8 page_id fits in
    let len_read : from_le_bytes (take 8 (drop 8 payload)) ≡ length page =
      ap (λ (t : List ℕ). from_le_bytes (take 8 t)) (drop-prefix 8 id (len ++ page) id_len)
      ∙ ap from_le_bytes (take-prefix 8 len page len_len)
      ∙ from_le_bytes-to_le_bytes 8 (length page) (omega (arith, full)) in
    let front : length (id ++ len) ≡ 16 = omega (arith, length-append id len, id_len, len_len) in
    let page_read : drop 16 payload ≡ page =
      ap (drop 16) (sym (append_assoc id len page)) ∙ drop-prefix 16 (id ++ len) page front in
    rw (long, id_read, len_read, page_read, full) refl
