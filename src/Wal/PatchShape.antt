-- ===== src/Wal/PatchShape.antt =====
-- `crates/wal/src/wal_impl.rs`: which ranges a page patch takes, and what they look like in the
-- payload.
use mathlib.Core.List.{append_assoc}
use pagebox.Base.{
  ℕ, ◌+◌, ◌≤◌, ◌<◌, ◌≡◌, refl, sym, ap, ◌∙◌, none, some, List, [], ◌∷◌, ◌++◌, ◌⊎◌, false, length,
  length-append, All, take, drop, arith, inl, inr, le→leb, lt→ltb, take_all,
}
use pagebox.Bytes.LittleEndian.{
  from_le_bytes, to_le_bytes, length-to_le_bytes, from_le_bytes-to_le_bytes,
}
use pagebox.Bytes.Slices.{get_range, get_range-append, take-prefix, drop-prefix}
use pagebox.Wal.Patch.{
  PatchRange, patch_page_size, is_empty, patch_payload_len, encode_ranges, u32_try_from,
  decode_ranges,
}

abbrev pub InPage : PatchRange → Type 0
InPage r = r.start + length r.bytes ≤ patch_page_size

-- What `encode_ranges` writes for ranges on the page.
abbrev pub spelled : List PatchRange → List ℕ
spelled [] = []
spelled (r ∷ rs) =
    (to_le_bytes 4 r.start ++ to_le_bytes 4 (length r.bytes)) ++ (r.bytes ++ spelled rs)

pub in_u32 : (n : ℕ) → n < 4294967296 → u32_try_from n ≡ some n
in_u32 n h = rw (lt→ltb n 4294967296 h) refl

pub encode_ranges-spelled :
    (rs : List PatchRange) → All InPage rs → encode_ranges rs ≡ some (spelled rs)
unfolding encode_ranges
encode_ranges-spelled [] all = refl
encode_ranges-spelled (r ∷ rs) all =
    let start = in_u32 r.start (omega (arith, all.0)) in
    let len = in_u32 (length r.bytes) (omega (arith, all.0)) in
    rw (start, len, encode_ranges-spelled rs all.1)
      (ap some (
        sym (
          append_assoc (to_le_bytes 4 r.start) (to_le_bytes 4 (length r.bytes))
            (r.bytes ++ spelled rs))))

pub decoded : (n : ℕ) → n ≤ patch_page_size → from_le_bytes (to_le_bytes 4 n) ≡ n
decoded n h = from_le_bytes-to_le_bytes 4 n (omega arith)

header_len : (a b : ℕ) → length (to_le_bytes 4 a ++ to_le_bytes 4 b) ≡ 8
header_len a b =
    let whole = length-append (to_le_bytes 4 a) (to_le_bytes 4 b) in
    omega (arith, whole, length-to_le_bytes 4 a, length-to_le_bytes 4 b)

pub decode_ranges-spelled :
    (rs : List PatchRange) (pre payload : List ℕ) (offset : ℕ)
    → All InPage rs
    → payload ≡ pre ++ spelled rs
    → offset ≡ length pre
    → decode_ranges payload (length rs) offset ≡ some (rs, length payload)
unfolding decode_ranges
decode_ranges-spelled [] pre payload offset all e at_pre =
    let size = ap length e ∙ length-append pre [] in ap (λ n. some ([], n)) (omega (arith, size))
decode_ranges-spelled (r ∷ rs) pre payload offset all e at_pre =
    let s = to_le_bytes 4 r.start in
    let l = to_le_bytes 4 (length r.bytes) in
    let head : length (s ++ l) ≡ 8 = header_len r.start (length r.bytes) in
    let got_header : get_range payload offset (offset + 8) ≡ some (s ++ l) = rw e (
      get_range-append pre (s ++ l) (r.bytes ++ spelled rs) offset (offset + 8) at_pre
        (omega (arith, head, at_pre))) in
    let start : from_le_bytes (take 4 (s ++ l)) ≡ r.start =
      ap from_le_bytes (take-prefix 4 s l (length-to_le_bytes 4 r.start))
      ∙ decoded r.start (omega (arith, all.0)) in
    let len : from_le_bytes (take 4 (drop 4 (s ++ l))) ≡ length r.bytes =
      ap (λ (t : List ℕ). from_le_bytes (take 4 t))
        (drop-prefix 4 s l (length-to_le_bytes 4 r.start))
      ∙ ap from_le_bytes (take_all 4 l (omega (arith, length-to_le_bytes 4 (length r.bytes))))
      ∙ decoded (length r.bytes) (omega (arith, all.0)) in
    let moved : payload ≡ (pre ++ (s ++ l)) ++ (r.bytes ++ spelled rs) =
      e ∙ sym (append_assoc pre (s ++ l) (r.bytes ++ spelled rs)) in
    let front : length (pre ++ (s ++ l)) ≡ offset + 8 =
      omega (arith, length-append pre (s ++ l), head, at_pre) in
    let got_bytes : get_range payload (offset + 8) (offset + 8 + length r.bytes) ≡ some r.bytes =
      rw moved (
        get_range-append (pre ++ (s ++ l)) r.bytes (spelled rs) (offset + 8)
          (offset + 8 + length r.bytes) (sym front) (omega (arith, front))) in
    let rest =
      decode_ranges-spelled rs ((pre ++ (s ++ l)) ++ r.bytes) payload (offset + 8 + length r.bytes)
        all.1 (moved ∙ sym (append_assoc (pre ++ (s ++ l)) r.bytes (spelled rs)))
        (omega (arith, front, length-append (pre ++ (s ++ l)) r.bytes)) in
    rw
      (
        got_header,
        start,
        len,
        le→leb (r.start + length r.bytes) patch_page_size all.0,
        got_bytes,
        rest,
      )
      refl

-- The bytes that the ranges take in the payload.
unfoldable pub patch_bytes : List PatchRange → ℕ
patch_bytes [] = 0
patch_bytes (r ∷ rs) = 8 + length r.bytes + patch_bytes rs

-- Ranges with bytes, in order from `floor` on, apart from each other and on the page.
unfoldable pub Ascending : ℕ → List PatchRange → Type 0
Ascending floor [] = Unit
Ascending floor (r ∷ rs) =
    (0 < length r.bytes) × (floor ≤ r.start) × InPage r × Ascending (r.start + length r.bytes) rs

-- Ranges that fit into a patch record.
abbrev pub IsPatch : List PatchRange → Type 0
IsPatch rs = (0 < length rs) × Ascending 0 rs × (16 + patch_bytes rs < patch_page_size)

pub Ascending-InPage : (floor : ℕ) (rs : List PatchRange) → Ascending floor rs → All InPage rs
unfolding Ascending
Ascending-InPage floor [] up = tt
Ascending-InPage floor (r ∷ rs) (_, _, inside, up) =
    (inside, Ascending-InPage (r.start + length r.bytes) rs up)

pub length-spelled : (rs : List PatchRange) → length (spelled rs) ≡ patch_bytes rs
unfolding patch_bytes
length-spelled [] = refl
length-spelled (r ∷ rs) =
    let size =
      length-append (to_le_bytes 4 r.start ++ to_le_bytes 4 (length r.bytes))
        (r.bytes ++ spelled rs) in
    let size' = length-append r.bytes (spelled rs) in
    omega (arith, size, size', header_len r.start (length r.bytes), length-spelled rs)

pub few_ranges : (rs : List PatchRange) → length rs ≤ patch_bytes rs
unfolding patch_bytes
few_ranges [] = omega arith
few_ranges (r ∷ rs) = omega (arith, few_ranges rs)

pub is_empty-length : (bs : List ℕ) → 0 < length bs → is_empty bs ≡ false
is_empty-length [] h = absurd (omega arith)
is_empty-length (b ∷ bs) h = refl

-- The first loop lets through just what is in order and on the page, and adds the bytes up.
pub patch_payload_len-cases :
    (rs : List PatchRange) (n floor : ℕ)
    → ((patch_payload_len n floor rs ≡ none) × (¬ Ascending floor rs))
      ⊎ (Ascending floor rs × (patch_payload_len n floor rs ≡ some (n + patch_bytes rs)))
unfolding patch_payload_len Ascending patch_bytes
patch_payload_len-cases [] n floor = inr (tt, ap some (omega arith))
patch_payload_len-cases (r ∷ rs) n floor =
    elim (patch_payload_len-cases rs (n + 8 + length r.bytes) (r.start + length r.bytes)) [
      | inl (refused, disordered) ↦ ground arith
      | inr (ascending, counted) ↦ ground arith
    ]
