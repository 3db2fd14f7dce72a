-- ===== src/Mutation/Tests.antt =====
-- Runs of `PageMutation` of `crates/storage/src/buffer_pool.rs`.
use pagebox.Base.{◌≡◌, refl, some, none, false, [], ◌∷◌, inr, arith, if◌then◌else◌}
use pagebox.Mutation.Ranges.{PageMutation, range, add_range}
use pagebox.Mutation.Merge.{fit, merge_ref}
use pagebox.Mutation.Add.{IsValid, Added, add_range_lem, add_range_fallback}

abbrev two_ranges : PageMutation
two_ranges = record { ranges = range 16 20 ∷ range 32 40 ∷ []; full_image = false }

two_ranges-IsValid : IsValid two_ranges
two_ranges-IsValid = inr (
  refl,
  (omega arith, omega arith, omega arith, (omega arith, omega arith, omega arith, tt)),
  omega arith,
)

-- A range that touches both makes them one.
bridged :
    add_range two_ranges 20 34 ≡ some (record { ranges = range 16 40 ∷ []; full_image = false })
unfolding add_range
bridged = refl

refused : add_range two_ranges 4 12 ≡ none
unfolding add_range
refused = refl

add_range_lem_example : (m : PageMutation) × Added two_ranges 20 34 m
add_range_lem_example =
    add_range_lem two_ranges 20 34 two_ranges-IsValid (omega arith) (omega arith) (omega arith)

add_range_fallback_example :
    add_range two_ranges 20 34
    ≡ some (if false then two_ranges else fit (merge_ref 20 34 (range 16 20 ∷ range 32 40 ∷ [])))
add_range_fallback_example =
    add_range_fallback two_ranges 20 34 two_ranges-IsValid (omega arith) (omega arith) (omega arith)
