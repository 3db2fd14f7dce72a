-- ===== src/Freelist/Extent.antt =====
-- `FreeExtent` of `crates/storage/src/free_page_allocator.rs`. `none` is a failed `assert!` or
-- `expect`.
use pagebox.Base.{
  ℕ, ◌+◌, ◌-◌, Option, none, some, ◌&&◌, leb, ltb, if◌then◌else◌, guard, ◌>>=◌, ◌>>◌,
}

abbrev pub u64_max : ℕ
u64_max = 18446744073709551615

-- A sum of two `u64` that panics when it does not fit.
abbrev pub checked_add : ℕ → ℕ → Option ℕ
checked_add a b = if leb (a + b) u64_max then some (a + b) else none

pub record FreeExtent : Type 0 where
  pub start_page_number : ℕ
  pub len : ℕ

abbrev pub extent : ℕ → ℕ → FreeExtent
extent start len = record { start_page_number = start; len = len }

-- `FreeExtent::new`
unfoldable pub new_extent : ℕ → ℕ → Option FreeExtent
new_extent start len = do guard (ltb 0 start); guard (ltb 0 len); some (extent start len)

unfoldable pub end_page_number : FreeExtent → Option ℕ
end_page_number e = checked_add e.start_page_number e.len

-- The head that is taken, and what is left of the extent.
unfoldable pub split_head : FreeExtent → ℕ → Option (FreeExtent × FreeExtent)
unfolding new_extent
split_head e len = do
  guard (ltb 0 len && leb len e.len)
  allocated ← new_extent e.start_page_number len
  some (allocated, extent (e.start_page_number + len) (e.len - len))
