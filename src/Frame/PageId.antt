-- ===== src/Frame/PageId.antt =====
-- `crates/frame-kernel/src/page_id.rs`: page 0 is reserved, and a page id is its page number. `none`
-- is a panic, or the `None` of `decode_page_id`.
use pagebox.Base.{ℕ, Option, none, some, ltb, ◌==◌, if◌then◌else◌, guard, ◌>>◌}

unfoldable pub decode_page_id : ℕ → Option ℕ
decode_page_id pid = if pid == 0 then none else some pid

unfoldable pub physical_page_number : ℕ → ℕ
physical_page_number pid = pid

unfoldable pub decoded_page_number : ℕ → Option ℕ
decoded_page_number pid = do guard (ltb 0 pid); some pid

unfoldable pub page_base_span : ℕ → ℕ
page_base_span pid = 1

unfoldable pub page_end_base_page : ℕ → ℕ
page_end_base_page pid = pid
