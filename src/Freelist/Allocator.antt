-- ===== src/Freelist/Allocator.antt =====
-- `FreePageShard`, `MonotonicRange` and `FreePageAllocator` of
-- `crates/storage/src/free_page_allocator.rs`, each call run to its end by one thread. `none` is a
-- panic.
use pagebox.Base.{
  ℕ, zero, suc, ◌+◌, ◌-◌, ◌*◌, ◌%◌, min, max, Option, none, some, List, [], ◌∷◌, ◌++◌, leb, ltb,
  ◌==◌, if◌then◌else◌, guard, ◌>>=◌, ◌>>◌, length, get_elem?, set, replicate,
}
use pagebox.Freelist.Extent.{FreeExtent, new_extent, split_head, checked_add}
use pagebox.Freelist.Central.{CentralInner, empty_central, insert, allocate_best_fit}

abbrev pub hot_bucket_limits : List ℕ
hot_bucket_limits = 1 ∷ 2 ∷ 4 ∷ 8 ∷ 16 ∷ 32 ∷ 64 ∷ 128 ∷ 256 ∷ []

abbrev pub hot_refill_batch : ℕ
hot_refill_batch = 8

abbrev pub monotonic_refill_base_pages : ℕ
monotonic_refill_base_pages = 256

unfoldable pub bucket_position : ℕ → List ℕ → Option ℕ
bucket_position len [] = none
bucket_position len (limit ∷ limits) =
    let later = bucket_position len limits in
    if leb len limit then some 0 else (later >>= λ i. some (suc i))

unfoldable pub hot_bucket_for_len : ℕ → Option ℕ
unfolding bucket_position
hot_bucket_for_len len = bucket_position len hot_bucket_limits

pub record MonotonicRange : Type 0 where
  pub next_page_number : ℕ
  pub end_page_number : ℕ

unfoldable pub new_range : MonotonicRange
new_range = record { next_page_number = 0; end_page_number = 0 }

-- `fetch_add`, which wraps around, and then the look at the end.
unfoldable pub try_allocate : MonotonicRange → ℕ → Option (Option FreeExtent × MonotonicRange)
try_allocate r len =
    let next = r.next_page_number in
    let bumped = record r { next_page_number = (next + len) % 18446744073709551616 } in
    if next == 0
    then some (none, bumped)
    else (checked_add next len >>= λ new_next.
        if leb new_next r.end_page_number
        then (new_extent next len >>= λ e. some (some e, bumped))
        else some (none, bumped))

unfoldable pub install_reserved_tail : MonotonicRange → ℕ → ℕ → MonotonicRange
install_reserved_tail r next end = record { next_page_number = next; end_page_number = end }

-- The queue of each bucket, its front first.
pub record FreePageShard : Type 0 where
  pub buckets : List (List FreeExtent)
  pub monotonic : MonotonicRange

unfoldable pub new_shard : FreePageShard
unfolding new_range
new_shard = record { buckets = replicate (length hot_bucket_limits) []; monotonic = new_range }

-- `inl` is `Err`: the extent is too long for the buckets.
unfoldable pub push : FreePageShard → FreeExtent → Option FreePageShard
unfolding hot_bucket_for_len
push shard e = do
  bucket ← hot_bucket_for_len e.len
  queue ← get_elem? shard.buckets bucket
  some (record shard { buckets = set shard.buckets bucket (queue ++ e ∷ []) })

-- The loop over the buckets from the first that fits: the front of the first that is not empty.
unfoldable pub pop_first : List (List FreeExtent) → Option (FreeExtent × List (List FreeExtent))
pop_first [] = none
pop_first ((e ∷ queue) ∷ buckets) = some (e, queue ∷ buckets)
pop_first ([] ∷ buckets) = pop_first buckets >>= λ r. some (r.0, [] ∷ r.1)

abbrev pub skip_buckets : ℕ → List (List FreeExtent) → Option (FreeExtent × List (List FreeExtent))
skip_buckets zero buckets = pop_first buckets
skip_buckets (suc n) [] = none
skip_buckets (suc n) (b ∷ buckets) = skip_buckets n buckets >>= λ r. some (r.0, b ∷ r.1)

unfoldable pub pop_at_least : FreePageShard → ℕ → Option (FreeExtent × FreePageShard)
unfolding hot_bucket_for_len pop_first
pop_at_least shard len = do
  start_bucket ← hot_bucket_for_len len
  r ← skip_buckets start_bucket shard.buckets
  some (r.0, record shard { buckets = r.1 })

pub record FreePageAllocator : Type 0 where
  pub global_next_page_number : ℕ
  pub shards : List FreePageShard
  pub central : CentralInner

-- A result, or the allocator's next state without one.
abbrev pub Attempt : Type 0
Attempt = Option (Option FreeExtent × FreePageAllocator)

-- `FreePageAllocator::new`
unfoldable pub new_allocator : ℕ → ℕ → Option FreePageAllocator
new_allocator next_page_number shard_count = do
  guard (ltb 0 next_page_number)
  some (record {
    global_next_page_number = next_page_number;
    shards = replicate (max shard_count 1) new_shard;
    central = empty_central;
  })

unfoldable pub promote_reusable_extent : FreePageAllocator → FreeExtent → Option FreePageAllocator
promote_reusable_extent a e = insert a.central e >>= λ c. some (record a { central = c })

unfoldable pub return_remainder : FreePageAllocator → ℕ → FreeExtent → Option FreePageAllocator
unfolding push
return_remainder a shard_idx e = do
  shard ← get_elem? a.shards shard_idx
  elim (push shard e) [
    | some pushed ↦ some (record a { shards = set a.shards shard_idx pushed })
    | none ↦ promote_reusable_extent a e
  ]

-- What is left of an extent, if anything is, goes back to the shard.
unfoldable pub allocate_popped :
    FreePageAllocator → ℕ → ℕ → Option (FreeExtent × FreePageShard) → Attempt
unfolding split_head return_remainder
allocate_popped a shard_idx len none = some (none, a)
allocate_popped a shard_idx len (some (e, popped)) = do
  s ← split_head e len
  let taken = record a { shards = set a.shards shard_idx popped }
  back ← (if ltb 0 (s.1).len then return_remainder taken shard_idx s.1 else some taken)
  some (some s.0, back)

unfoldable pub allocate_from_shard : FreePageAllocator → ℕ → ℕ → Attempt
unfolding pop_at_least allocate_popped
allocate_from_shard a shard_idx len = do
  shard ← get_elem? a.shards shard_idx
  allocate_popped a shard_idx len (pop_at_least shard len)

-- The central list, as the allocator calls it.
unfoldable pub allocate_central : FreePageAllocator → ℕ → Attempt
allocate_central a len =
    allocate_best_fit a.central len >>= λ r. some (r.0, record a { central = r.1 })

unfoldable pub refill_with :
    ℕ → ℕ → Option FreeExtent × FreePageAllocator → Option FreePageAllocator
unfolding allocate_central return_remainder
refill_with shard_idx len (some e, a) = return_remainder a shard_idx e
refill_with shard_idx len (none, a) = do
  r ← allocate_central a len
  elim r.0 [ none ↦ some r.1 | some e ↦ return_remainder r.1 shard_idx e ]

-- `saturating_mul` differs from the product only where `min` cuts it off.
unfoldable pub refill_shard : FreePageAllocator → ℕ → ℕ → Option FreePageAllocator
unfolding hot_bucket_for_len refill_with
refill_shard a shard_idx len = elim (hot_bucket_for_len len) [
  | none ↦ some a
  | some bucket ↦
      allocate_central a (min (len * hot_refill_batch) 256) >>= refill_with shard_idx len
]

abbrev pub or_else : Attempt → (FreePageAllocator → Attempt) → Attempt
or_else attempt next = attempt >>= λ r. elim r.0 [ some e ↦ some (some e, r.1) | none ↦ next r.1 ]

-- The loop over the other shards, from `offset` on.
unfoldable pub steal : ℕ → ℕ → ℕ → ℕ → FreePageAllocator → Attempt
unfolding allocate_from_shard
steal shard_idx len offset zero a = some (none, a)
steal shard_idx len offset (suc left) a =
    or_else (allocate_from_shard a ((shard_idx + offset) % length a.shards) len)
      (steal shard_idx len (suc offset) left)

unfoldable pub allocate_extent : FreePageAllocator → ℕ → ℕ → Attempt
unfolding allocate_from_shard refill_shard steal allocate_central
allocate_extent a len shard_hint =
    let shard_idx = shard_hint % length a.shards in
    or_else (allocate_from_shard a shard_idx len) (λ b. refill_shard b shard_idx len >>= λ c.
    or_else (allocate_from_shard c shard_idx len)
      (λ d. or_else (steal shard_idx len 1 (length d.shards - 1) d) (λ f. allocate_central f len)))

-- The reservation of a new range under the refill lock.
unfoldable pub reserve :
    FreePageAllocator → ℕ → FreePageShard → ℕ → Option (FreeExtent × FreePageAllocator)
unfolding install_reserved_tail
reserve a shard_idx shard len = do
  let reserve_len = max monotonic_refill_base_pages len
  let start = a.global_next_page_number
  allocated ← new_extent start len
  next ← checked_add start len
  end ← checked_add start reserve_len
  some (
    allocated,
    record a {
      global_next_page_number = (start + reserve_len) % 18446744073709551616;
      shards =
          set a.shards shard_idx
            (record shard { monotonic = install_reserved_tail shard.monotonic next end });
    },
  )

unfoldable pub allocate_monotonic_extent :
    FreePageAllocator → ℕ → ℕ → Option (FreeExtent × FreePageAllocator)
unfolding try_allocate reserve
allocate_monotonic_extent a len shard_hint = do
  let shard_idx = shard_hint % length a.shards
  shard ← get_elem? a.shards shard_idx
  first ← try_allocate shard.monotonic len
  elim first.0 [
    | some e ↦
        some
          (e, record a { shards = set a.shards shard_idx (record shard { monotonic = first.1 }) })
    | none ↦ try_allocate first.1 len >>= λ second. elim second.0 [
      | some e ↦
          some (
            e,
            record a { shards = set a.shards shard_idx (record shard { monotonic = second.1 }) },
          )
      | none ↦ reserve a shard_idx (record shard { monotonic = second.1 }) len
    ]
  ]

unfoldable pub allocate_page : FreePageAllocator → ℕ → Option (ℕ × FreePageAllocator)
unfolding allocate_extent allocate_monotonic_extent
allocate_page a shard_hint = do
  r ← allocate_extent a 1 shard_hint
  elim r.0 [
    | some e ↦ some (e.start_page_number, r.1)
    | none ↦ allocate_monotonic_extent r.1 1 shard_hint >>= λ m. some ((m.0).start_page_number, m.1)
  ]
