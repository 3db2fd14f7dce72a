-- ===== src/Header/Tests.antt =====
-- Runs of `crates/storage/src/page_header.rs`.
use pagebox.Base.{◌≡◌, refl, true, false}
use pagebox.Bytes.Memory.{Memory}
use pagebox.Header.PageType.{is_inner_index_page, should_remain_resident}

-- Every byte is 1: an inner index page.
abbrev ones : Memory
ones = λ a. 1

inner : is_inner_index_page ones 65536 ≡ true
unfolding is_inner_index_page
inner = refl

not_kept : should_remain_resident ones 65536 ≡ false
unfolding should_remain_resident
not_kept = refl
