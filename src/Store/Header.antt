-- ===== src/Store/Header.antt =====
-- The header page of a page store file, in `crates/storage/src/page_store.rs`: how it is built, checked, and
-- read when a file is opened. A page is its bytes by offset.
use pagebox.Base.{ℕ, ◌*◌, not, ltb, ◌==◌, ◌⊎◌, inl, inr, if◌then◌else◌}
use pagebox.Bytes.Memory.{Memory}
use pagebox.Bytes.Fields.{get_le, put_le}
use pagebox.Slotted.Layout.{page_size}
use pagebox.Frame.PageId.{physical_page_number}

abbrev pub header_magic : ℕ
header_magic = 1112496212

abbrev pub header_version : ℕ
header_version = 2

abbrev pub header_bootstrap_size : ℕ
header_bootstrap_size = 4096

abbrev pub header_magic_off : ℕ
header_magic_off = 0

abbrev pub header_version_off : ℕ
header_version_off = 4

abbrev pub header_page_count_off : ℕ
header_page_count_off = 8

abbrev pub header_checkpoint_lsn_off : ℕ
header_checkpoint_lsn_off = 16

abbrev pub header_user_meta_0_off : ℕ
header_user_meta_0_off = 24

abbrev pub header_user_meta_1_off : ℕ
header_user_meta_1_off = 32

abbrev pub header_user_meta_2_off : ℕ
header_user_meta_2_off = 40

abbrev pub header_page_size_off : ℕ
header_page_size_off = 48

unfoldable pub build_header : ℕ → ℕ → ℕ → ℕ → ℕ → Memory
build_header page_count checkpoint_lsn user_meta_0 user_meta_1 user_meta_2 =
    put_le 4 header_page_size_off page_size (
      put_le 8 header_user_meta_2_off user_meta_2 (
        put_le 8 header_user_meta_1_off user_meta_1 (
          put_le 8 header_user_meta_0_off user_meta_0 (
            put_le 8 header_checkpoint_lsn_off checkpoint_lsn (
              put_le 8 header_page_count_off page_count (
                put_le 2 header_version_off header_version
                  (put_le 4 header_magic_off header_magic (λ x. 0))))))))

-- Why a file is not opened.
pub data OpenError : Type 0 where
  bad_magic unsupported_version page_size_mismatch truncated_header : OpenError

unfoldable pub validate_header : Memory → OpenError ⊎ (ℕ × ℕ × ℕ × ℕ × ℕ)
validate_header hdr =
    if not (get_le 4 header_magic_off hdr == header_magic)
    then inl bad_magic
    else (if not (get_le 2 header_version_off hdr == header_version)
        then inl unsupported_version
        else (if not (get_le 4 header_page_size_off hdr == page_size)
            then inl page_size_mismatch
            else inr (
              get_le 8 header_page_count_off hdr,
              get_le 8 header_checkpoint_lsn_off hdr,
              get_le 8 header_user_meta_0_off hdr,
              get_le 8 header_user_meta_1_off hdr,
              get_le 8 header_user_meta_2_off hdr,
            )))

-- The part of a file's bytes that `open` reads into a page of zeros.
abbrev pub bootstrap : Memory → Memory
bootstrap file x = if ltb x header_bootstrap_size then file x else 0

-- What `FilePageStore::open` takes from a file of a size: its header, or that of a fresh file.
unfoldable pub open_header : ℕ → Memory → OpenError ⊎ (ℕ × ℕ × ℕ × ℕ × ℕ)
unfolding validate_header
open_header file_size file =
    if ltb 0 file_size
    then (if ltb file_size header_bootstrap_size
        then inl truncated_header
        else validate_header (bootstrap file))
    else inr (0, 0, 0, 0, 0)

unfoldable pub page_offset : ℕ → ℕ
unfolding physical_page_number
page_offset pid = physical_page_number pid * page_size
