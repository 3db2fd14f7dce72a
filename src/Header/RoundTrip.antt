-- ===== src/Header/RoundTrip.antt =====
-- `crates/storage/src/page_header.rs`: the page type that is written is the one read back.
use Prim.Native.Nat.{bit_and, bit_or}
use pagebox.Base.{ℕ, ◌+◌, ◌*◌, ◌/◌, ◌%◌, ◌≤◌, ◌<◌, ◌≡◌, refl, ap, ◌∙◌, le→leb, arith}
use pagebox.Base.Bits.{
  bit_and-split, bit_or-split, bit_and-ones, bit_and-zero, bit_or-zero, zero-bit_or,
}
use pagebox.Bytes.Memory.{Memory, read_bytes}
use pagebox.Header.PageType.{
  PageType, as_u16, type_from_u8, clear_page_type_mask, flags_off, type_bits, with_type,
  read_page_type, write_page_type, page_lsn_len, unknown, index, tuple, delta, meta, root_meta,
  be_tree_internal, be_tree_leaf,
}

type_from_u8-as_u16 : (pt : PageType) → type_from_u8 (as_u16 pt) ≡ pt
type_from_u8-as_u16 unknown = refl
type_from_u8-as_u16 index = refl
type_from_u8-as_u16 tuple = refl
type_from_u8-as_u16 delta = refl
type_from_u8-as_u16 meta = refl
type_from_u8-as_u16 root_meta = refl
type_from_u8-as_u16 be_tree_internal = refl
type_from_u8-as_u16 be_tree_leaf = refl

as_u16-small : (pt : PageType) → as_u16 pt < 16
as_u16-small unknown = omega arith
as_u16-small index = omega arith
as_u16-small tuple = omega arith
as_u16-small delta = omega arith
as_u16-small meta = omega arith
as_u16-small root_meta = omega arith
as_u16-small be_tree_internal = omega arith
as_u16-small be_tree_leaf = omega arith

-- The type bits of a flags word with the high nibble a, the type t and the low byte c.
type_bits-parts : (a t c : ℕ) → a < 16 → t < 16 → c < 256 → type_bits ((a * 16 + t) * 256 + c) ≡ t
type_bits-parts a t c p q r =
    let low = bit_and-split 8 (a * 16 + t) 15 c 0 r (omega arith) in
    let high = bit_and-split 4 a 0 t 15 q (omega arith) in
    omega (arith, low, high, bit_and-zero c, bit_and-zero a, bit_and-ones 4 t q)

cleared :
    (a t c : ℕ)
    → a < 16
    → t < 16
    → c < 256
    → bit_and ((a * 16 + t) * 256 + c) clear_page_type_mask ≡ (a * 16 + 0) * 256 + c
cleared a t c p q r =
    let low = bit_and-split 8 (a * 16 + t) 240 c 255 r (omega arith) in
    let high = bit_and-split 4 a 15 t 0 q (omega arith) in
    omega (arith, low, high, bit_and-ones 8 c r, bit_and-ones 4 a p, bit_and-zero t)

put :
    (a t c : ℕ)
    → a < 16
    → t < 16
    → c < 256
    → bit_or ((a * 16 + 0) * 256 + c) (t * 256) ≡ (a * 16 + t) * 256 + c
put a t c p q r =
    let shape : t * 256 ≡ (0 * 16 + t) * 256 + 0 = omega arith in
    let low = bit_or-split 8 (a * 16 + 0) (0 * 16 + t) c 0 r (omega arith) in
    let high = bit_or-split 4 a 0 0 t (omega arith) q in
    ap (bit_or ((a * 16 + 0) * 256 + c)) shape
    ∙ omega (arith, low, high, bit_or-zero c, bit_or-zero a, zero-bit_or t)

flags-parts : (low high : ℕ) → low + high * 256 ≡ ((high / 16) * 16 + high % 16) * 256 + low
flags-parts low high = omega arith

with_type-parts :
    (low high : ℕ) (pt : PageType)
    → low < 256
    → high < 256
    → with_type (low + high * 256) pt ≡ (high / 16 * 16 + as_u16 pt) * 256 + low
with_type-parts low high pt p q =
    let a = high / 16 in
    let t = high % 16 in
    ap (λ f. with_type f pt) (flags-parts low high)
    ∙ ap (λ f. bit_or f (as_u16 pt * 256)) (cleared a t low (omega arith) (omega arith) p)
    ∙ put a (as_u16 pt) low (omega arith) (as_u16-small pt) p

-- Writing a page type into a page of at least twenty bytes makes it the type read back; the low
-- byte of the flags and the high nibble of their high byte stay, and so do the bytes of the page LSN.
read_page_type-write_page_type :
    (page : Memory) (len : ℕ) (pt : PageType)
    → page 18 < 256
    → page 19 < 256
    → flags_off + 2 ≤ len
    → (read_page_type (write_page_type page len pt) len ≡ pt)
      × (write_page_type page len pt 18 ≡ page 18)
      × (write_page_type page len pt 19 ≡ page 19 / 16 * 16 + as_u16 pt)
      × (read_bytes (write_page_type page len pt) 0 page_lsn_len ≡ read_bytes page 0 page_lsn_len)
unfolding read_page_type write_page_type read_bytes
read_page_type-write_page_type page len pt p q long =
    let small : as_u16 pt < 16 = as_u16-small pt in
    let flags : with_type (page 18 + page 19 * 256) pt
        ≡ (page 19 / 16 * 16 + as_u16 pt) * 256 + page 18 =
      with_type-parts (page 18) (page 19) pt p q in
    let low : with_type (page 18 + page 19 * 256) pt % 256 ≡ page 18 = omega (arith, flags, p) in
    let high : with_type (page 18 + page 19 * 256) pt / 256 % 256 ≡ page 19 / 16 * 16 + as_u16 pt =
      omega (arith, flags, p, q, small) in
    let long' = le→leb (flags_off + 2) len long in
    (
      rw long' (
          ap (λ f. type_from_u8 (type_bits f))
            (ap (λ n. n + with_type (page 18 + page 19 * 256) pt / 256 % 256 * 256) low
              ∙ ap (λ n. page 18 + n * 256) high
              ∙ shape (page 18) (page 19 / 16) (as_u16 pt))
          ∙ ap type_from_u8
              (type_bits-parts (page 19 / 16) (as_u16 pt) (page 18) (omega arith) small p)
          ∙ type_from_u8-as_u16 pt),
      rw long' low,
      rw long' high,
      rw long' refl,
    )
  where
    shape : (c a t : ℕ) → c + (a * 16 + t) * 256 ≡ (a * 16 + t) * 256 + c
    shape c a t = omega arith
