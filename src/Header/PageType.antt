-- ===== src/Header/PageType.antt =====
-- `crates/storage/src/page_header.rs`: the page LSN in bytes 0 to 8, and the flags in bytes 18 and 19,
-- whose bits 8 to 11 are the page type. Native-endian reads are little-endian ones, as on the
-- targets of the build. A page is its bytes by address, and has the length `len`.
use Prim.Native.Nat.{bit_and, bit_or}
use pagebox.Base.{ℕ, ◌+◌, ◌*◌, ◌/◌, ◌%◌, Bool, true, false, ◌&&◌, leb, ◌==◌, if◌then◌else◌}
use pagebox.Bytes.Memory.{Memory, update}

pub data PageType : Type 0 where
  unknown index tuple delta meta root_meta be_tree_internal be_tree_leaf : PageType

-- `pt as u16`
abbrev pub as_u16 : PageType → ℕ
as_u16 unknown = 0
as_u16 index = 1
as_u16 tuple = 2
as_u16 delta = 3
as_u16 meta = 4
as_u16 root_meta = 5
as_u16 be_tree_internal = 6
as_u16 be_tree_leaf = 7

-- `PageType::from_u8`
abbrev pub type_from_u8 : ℕ → PageType
type_from_u8 v =
    if v == 1
    then index
    else (if v == 2
        then tuple
        else (if v == 3
            then delta
            else (if v == 4
                then meta
                else (if v == 5
                    then root_meta
                    else (if v == 6
                        then be_tree_internal
                        else (if v == 7 then be_tree_leaf else unknown))))))

abbrev pub flags_off : ℕ
flags_off = 18

abbrev pub page_lsn_len : ℕ
page_lsn_len = 8

abbrev pub page_type_mask : ℕ
page_type_mask = 3840

-- `!PAGE_TYPE_MASK`
abbrev pub clear_page_type_mask : ℕ
clear_page_type_mask = 61695

abbrev pub index_leaf_flag : ℕ
index_leaf_flag = 2

-- `u16::from_ne_bytes` of the flags, and its inverse
abbrev pub read_flags : Memory → ℕ
read_flags page = page 18 + page 19 * 256

abbrev pub write_flags : Memory → ℕ → Memory
write_flags page flags = update (update page 18 (flags % 256)) 19 (flags / 256 % 256)

-- `(flags & PAGE_TYPE_MASK) >> PAGE_TYPE_SHIFT`
abbrev pub type_bits : ℕ → ℕ
type_bits flags = bit_and flags page_type_mask / 256

unfoldable pub read_page_type : Memory → ℕ → PageType
read_page_type page len =
    if leb (flags_off + 2) len then type_from_u8 (type_bits (read_flags page)) else unknown

abbrev pub with_type : ℕ → PageType → ℕ
with_type flags pt = bit_or (bit_and flags clear_page_type_mask) (as_u16 pt * 256)

unfoldable pub write_page_type : Memory → ℕ → PageType → Memory
write_page_type page len pt =
    if leb (flags_off + 2) len then write_flags page (with_type (read_flags page) pt) else page

unfoldable pub is_inner_index_page : Memory → ℕ → Bool
is_inner_index_page page len =
    if leb (flags_off + 2) len
    then (type_bits (read_flags page) == as_u16 index
        && (bit_and (read_flags page) index_leaf_flag == 0))
    else false

abbrev pub is_meta : PageType → Bool
is_meta meta = true
is_meta root_meta = true
is_meta _ = false

unfoldable pub should_remain_resident : Memory → ℕ → Bool
unfolding read_page_type
should_remain_resident page len = is_meta (read_page_type page len)

unfoldable pub classify_loaded_page : Memory → ℕ → PageType
unfolding read_page_type
classify_loaded_page page len = read_page_type page len
