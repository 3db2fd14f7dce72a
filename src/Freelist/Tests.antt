-- ===== src/Freelist/Tests.antt =====
-- Runs of `crates/storage/src/free_page_allocator.rs`.
use pagebox.Base.{ℕ, ◌≡◌, refl, Option, some, [], ◌∷◌, arith, ◌>>=◌}
use pagebox.Freelist.Extent.{FreeExtent, extent, new_extent}
use pagebox.Freelist.Central.{CentralInner, empty_central, insert, allocate_best_fit}
use pagebox.Freelist.Allocator.{
  MonotonicRange, new_allocator, new_shard, promote_reusable_extent, allocate_page, try_allocate,
}
use pagebox.Freelist.Extents.{IsValid}
use pagebox.Freelist.Allocate.{Outcome, allocate_best_fit_lem}

abbrev two_extents : CentralInner
two_extents = record { by_start_page_number = extent 4 8 ∷ extent 20 3 ∷ []; free_base_pages = 11 }

two_extents-IsValid : IsValid two_extents
two_extents-IsValid = record {
  apart = (omega arith, omega arith, omega arith, (omega arith, omega arith, omega arith, tt));
  counted = refl;
}

allocate_best_fit_lem_example :
    (o : Option FreeExtent) × (c : CentralInner) × (allocate_best_fit two_extents 2 ≡ some (o, c))
    × Outcome two_extents 2 o c
allocate_best_fit_lem_example =
    allocate_best_fit_lem two_extents 2 two_extents-IsValid (omega arith)

-- The extents on both sides of a new one become one with it.
coalesced :
    insert two_extents (extent 12 8)
    ≡ some (record { by_start_page_number = extent 4 19 ∷ []; free_base_pages = 19 })
unfolding insert
coalesced = refl

-- Two shards; the first pages come from the reservations, and a promoted page is reused.
abbrev first_page : Option ℕ
first_page = new_allocator 1 2 >>= λ a. allocate_page a 0 >>= λ r. some r.0

first_page_is : first_page ≡ some 1
unfolding new_allocator allocate_page new_shard allocate_best_fit empty_central
first_page_is = refl

abbrev reused_page : Option ℕ
reused_page = new_allocator 1 2 >>= λ a.
    promote_reusable_extent a (extent 300 2) >>= λ b. allocate_page b 0 >>= λ r. some r.0

reused_page_is : reused_page ≡ some 300
unfolding new_allocator allocate_page promote_reusable_extent insert empty_central new_shard
    allocate_best_fit
reused_page_is = refl

-- Two threads on one shard whose range is used up, while a second shard owns the pages from 257 on:
-- the refill, after its own two failed tries, has stored the new end but not yet the new next page, and the other thread's
-- `fetch_add` is granted page 259, which the second shard hands out too.
abbrev mid_refill : MonotonicRange
mid_refill = record { next_page_number = 259; end_page_number = 769 }

granted_again : (try_allocate mid_refill 1 >>= λ r. some r.0) ≡ some (some (extent 259 1))
unfolding try_allocate new_extent
granted_again = refl

owner_grants :
    (try_allocate (record { next_page_number = 259; end_page_number = 513 }) 1 >>= λ r. some r.0)
    ≡ some (some (extent 259 1))
unfolding try_allocate new_extent
owner_grants = refl
