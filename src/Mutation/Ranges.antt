-- ===== src/Mutation/Ranges.antt =====
-- `PageMutation` of `crates/storage/src/buffer_pool.rs`: the list holds the `len` ranges in use, and
-- `none` is a failed `assert!`.
use pagebox.Base.{
  ℕ, suc, ◌+◌, min, max, Option, some, Bool, true, false, not, ◌&&◌, List, [], ◌∷◌, ◌++◌, leb, ltb,
  ◌==◌, if◌then◌else◌, guard, ◌>>◌, length, take, drop,
}

abbrev pub page_mutation_max_ranges : ℕ
page_mutation_max_ranges = 8

-- `PAGE_LSN_RANGE.end`
abbrev pub page_lsn_range_end : ℕ
page_lsn_range_end = 8

abbrev pub page_bytes : ℕ
page_bytes = 65536

pub record PageMutationRange : Type 0 where
  pub start : ℕ
  pub end : ℕ

pub record PageMutation : Type 0 where
  pub ranges : List PageMutationRange
  pub full_image : Bool

abbrev pub range : ℕ → ℕ → PageMutationRange
range start end = record { start = start; end = end }

unfoldable pub empty_mutation : PageMutation
empty_mutation = record { ranges = []; full_image = false }

abbrev pub in_place : List PageMutationRange → PageMutation
in_place ranges = record { ranges = ranges; full_image = false }

abbrev pub whole_page : PageMutation
whole_page = record { ranges = []; full_image = true }

-- `self.range(self.len - 1)` of a list that is not empty
abbrev pub last_range : PageMutationRange → List PageMutationRange → PageMutationRange
last_range r [] = r
last_range r (r' ∷ rs) = last_range r' rs

-- `self.set_range(self.len - 1, …)`
abbrev pub set_last : List PageMutationRange → PageMutationRange → List PageMutationRange
set_last [] x = []
set_last (r ∷ []) x = x ∷ []
set_last (r ∷ r' ∷ rs) x = r ∷ set_last (r' ∷ rs) x

-- The first loop: the ranges that end before the new one starts.
abbrev pub first_index : ℕ → List PageMutationRange → ℕ
first_index start [] = 0
first_index start (r ∷ rs) =
    let rest = first_index start rs in if ltb r.end start then suc rest else 0

pub record Absorbed : Type 0 where
  pub count : ℕ
  pub merged : PageMutationRange

-- The second loop: the ranges that the growing new one touches.
abbrev pub absorb : ℕ → ℕ → List PageMutationRange → Absorbed
absorb start end [] = record { count = 0; merged = range start end }
absorb start end (r ∷ rs) =
    let rest = absorb (min start r.start) (max end r.end) rs in
    if leb r.start end
    then record { count = suc rest.count; merged = rest.merged }
    else record { count = 0; merged = range start end }

-- What follows the loops: the absorbed ranges make room for one, or a new one is inserted.
abbrev pub replace_or_insert : ℕ → ℕ → List PageMutationRange → ℕ → Absorbed → PageMutation
replace_or_insert start end ranges first absorbed =
    let after = first + absorbed.count in
    if ltb first after
    then in_place (take first ranges ++ absorbed.merged ∷ drop after ranges)
    else (if length ranges == page_mutation_max_ranges
        then whole_page
        else in_place (take first ranges ++ range start end ∷ drop first ranges))

-- The fast path for ranges that arrive in order, and the loops for the others.
unfoldable pub add_to_ranges : List PageMutationRange → ℕ → ℕ → PageMutation
add_to_ranges [] start end = in_place (range start end ∷ [])
add_to_ranges (r ∷ rs) start end =
    let ranges = r ∷ rs in
    let last = last_range r rs in
    if leb last.start start
    then (if leb start last.end
        then in_place (set_last ranges (range last.start (max end last.end)))
        else (if length ranges == page_mutation_max_ranges
            then whole_page
            else in_place (ranges ++ range start end ∷ [])))
    else (let first = first_index start ranges in
        replace_or_insert start end ranges first (absorb start end (drop first ranges)))

unfoldable pub add_range : PageMutation → ℕ → ℕ → Option PageMutation
unfolding add_to_ranges
add_range m start end = do
  guard (ltb start end)
  guard (leb end page_bytes)
  guard (leb page_lsn_range_end start)
  some (if m.full_image then m else add_to_ranges m.ranges start end)

unfoldable pub is_empty : PageMutation → Bool
is_empty m = length m.ranges == 0 && not m.full_image
