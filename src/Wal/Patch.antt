-- ===== src/Wal/Patch.antt =====
-- `crates/wal/src/wal_impl.rs`: page patches, the log records that hold only the changed bytes of a
-- page. A payload is a list of bytes and a page the function from offsets to bytes. `checked_add` on
-- `usize` fails only beyond the page size here, where the next test fails too.
use pagebox.Base.{
  ℕ, zero, suc, ◌+◌, ◌-◌, Option, none, some, List, [], ◌∷◌, ◌++◌, Bool, true, false, map, not, ltb,
  leb, ◌==◌, ◌||◌, if◌then◌else◌, length, take, drop, guard, ◌>>=◌, ◌>>◌,
}
use pagebox.Bytes.Memory.{Memory, read_bytes, write_bytes}
use pagebox.Bytes.LittleEndian.{from_le_bytes, to_le_bytes}
use pagebox.Bytes.Slices.{get_range}

-- One `(start, data)` of a patch.
pub record PatchRange : Type 0 where
  pub start : ℕ
  pub bytes : List ℕ

-- `PAGE_SIZE`
abbrev pub patch_page_size : ℕ
patch_page_size = 65536

abbrev pub page_patch_header_len : ℕ
page_patch_header_len = 16

abbrev pub page_patch_range_header_len : ℕ
page_patch_range_header_len = 8

abbrev pub is_empty {ℓ} : {A : Type ℓ} → List A → Bool
is_empty [] = true
is_empty (x ∷ xs) = false

-- `u32::try_from`
abbrev pub u32_try_from : ℕ → Option ℕ
u32_try_from n = if ltb n 4294967296 then some n else none

-- The scan of `encode_page_patch_payload`: `n` offsets from `off` on are left, and a run of changed
-- bytes is open since its start, while the inner loop runs, or none is.
unfoldable pub changed_ranges : Memory → Memory → ℕ → ℕ → Option ℕ → List (ℕ × ℕ)
changed_ranges before after zero off none = []
changed_ranges before after zero off (some start) = (start, off - start) ∷ []
changed_ranges before after (suc n) off none =
    let same = changed_ranges before after n (off + 1) none in
    let opened = changed_ranges before after n (off + 1) (some off) in
    if before off == after off then same else opened
changed_ranges before after (suc n) off (some start) =
    let closed = changed_ranges before after n (off + 1) none in
    let longer = changed_ranges before after n (off + 1) (some start) in
    if before off == after off then (start, off - start) ∷ closed else longer

-- `(start, &after[start..start + len])`
abbrev pub range_of : Memory → ℕ × ℕ → PatchRange
range_of after (start, len) = record { start = start; bytes = read_bytes after start len }

-- The first loop of `encode_page_patch_ranges_payload`: the payload's length, if the ranges are not
-- empty, ascend without overlap and lie on the page.
unfoldable pub patch_payload_len : ℕ → ℕ → List PatchRange → Option ℕ
patch_payload_len payload_len previous_end [] = some payload_len
patch_payload_len payload_len previous_end (r ∷ rs) =
    let end = r.start + length r.bytes in
    let rest =
      patch_payload_len (payload_len + page_patch_range_header_len + length r.bytes) end rs in
    if is_empty r.bytes || ltb r.start previous_end
    then none
    else (if ltb patch_page_size end then none else rest)

-- Its second loop.
unfoldable pub encode_ranges : List PatchRange → Option (List ℕ)
encode_ranges [] = some []
encode_ranges (r ∷ rs) = do
  start ← u32_try_from r.start
  len ← u32_try_from (length r.bytes)
  rest ← encode_ranges rs
  some (to_le_bytes 4 start ++ (to_le_bytes 4 len ++ (r.bytes ++ rest)))

-- `page_size(page_id)` is the page size for every id.
unfoldable pub encode_page_patch_ranges_payload : ℕ → List PatchRange → Option (List ℕ)
unfolding patch_payload_len encode_ranges
encode_page_patch_ranges_payload page_id ranges = do
  guard (not (is_empty ranges))
  payload_len ← patch_payload_len page_patch_header_len 0 ranges
  guard (ltb payload_len patch_page_size)
  range_count ← u32_try_from (length ranges)
  body ← encode_ranges ranges
  some (to_le_bytes 8 page_id ++ (to_le_bytes 4 range_count ++ (to_le_bytes 4 0 ++ body)))

unfoldable pub encode_page_patch_payload : ℕ → Memory → Memory → Option (List ℕ)
unfolding encode_page_patch_ranges_payload changed_ranges
encode_page_patch_payload page_id before after =
    encode_page_patch_ranges_payload page_id
      (map (range_of after) (changed_ranges before after patch_page_size 0 none))

-- The loop of `decode_page_patch_payload`: the ranges that are left, and the offset behind them.
unfoldable pub decode_ranges : List ℕ → ℕ → ℕ → Option (List PatchRange × ℕ)
decode_ranges payload zero offset = some ([], offset)
decode_ranges payload (suc range_count) offset = do
  header ← get_range payload offset (offset + page_patch_range_header_len)
  let start = from_le_bytes (take 4 header)
  let len = from_le_bytes (take 4 (drop 4 header))
  guard (leb (start + len) patch_page_size)
  let from = offset + page_patch_range_header_len
  bytes ← get_range payload from (from + len)
  (ranges, end) ← decode_ranges payload range_count (from + len)
  some (record { start = start; bytes = bytes } ∷ ranges, end)

unfoldable pub decode_page_patch_payload : List ℕ → Option (ℕ × List PatchRange)
unfolding decode_ranges
decode_page_patch_payload payload = do
  guard (leb page_patch_header_len (length payload))
  let page_id = from_le_bytes (take 8 payload)
  let range_count = from_le_bytes (take 4 (drop 8 payload))
  (ranges, offset) ← decode_ranges payload range_count page_patch_header_len
  guard (offset == length payload)
  some (page_id, ranges)

-- The loop of `recover_page_patch` that writes the ranges into the page.
unfoldable pub apply_ranges : Memory → List PatchRange → Memory
apply_ranges page [] = page
apply_ranges page (r ∷ rs) = apply_ranges (write_bytes page r.start r.bytes) rs
