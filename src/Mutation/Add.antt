-- ===== src/Mutation/Add.antt =====
-- `PageMutation::add_range` of `crates/storage/src/buffer_pool.rs`: what a mutation records.
use pagebox.Base.{
  ℕ, suc, ◌-◌, ◌≤◌, ◌<◌, ◌≡◌, refl, sym, ap, ◌∙◌, max, some, Bool, true, false, List, [], ◌∷◌, ◌++◌,
  leb, leb→le, le→leb, lt→ltb, Bool-cases, ◌||◌, if◌then◌else◌, length, arith, inl, inr, ◌⊎◌,
  length-append,
}
use pagebox.Mutation.Ranges.{
  PageMutationRange, PageMutation, range, last_range, set_last, in_place, page_mutation_max_ranges,
  page_bytes, page_lsn_range_end, add_to_ranges, add_range,
}
use pagebox.Mutation.Merge.{
  Above, merge_ref, fit, replaced_lem, merge_last, merge_past, inserted, fit_if,
}
use pagebox.Mutation.Coverage.{inside, covers, merge_ref-Above, merge_ref-covers, apart_lt}

length-set_last :
    (rs : List PageMutationRange) (x : PageMutationRange) → length (set_last rs x) ≡ length rs
length-set_last [] x = refl
length-set_last (r ∷ []) x = refl
length-set_last (r ∷ r' ∷ rs) x = ap suc (length-set_last (r' ∷ rs) x)

length-snoc :
    (rs : List PageMutationRange) (x : PageMutationRange) → length (rs ++ x ∷ []) ≡ suc (length rs)
length-snoc rs x = let size = length-append rs (x ∷ []) in omega (arith, size)

-- The code, with its fast path, its two loops and its fixed array, is the recursive merge where that
-- fits into the array, and asks for the whole page where it does not.
add_to_ranges_lem :
    (s e floor : ℕ) (rs : List PageMutationRange)
    → s < e
    → Above floor rs
    → length rs ≤ page_mutation_max_ranges
    → add_to_ranges rs s e ≡ fit (merge_ref s e rs)
unfolding add_to_ranges
add_to_ranges_lem s e floor [] some_bytes ok short = refl
add_to_ranges_lem s e floor (r ∷ rs) some_bytes ok short =
    let last = last_range r rs in
    elim (Bool-cases (leb last.start s)) [
      | inl late ↦ elim (Bool-cases (leb s last.end)) [
        | inl touch ↦
            let same =
              merge_last floor s e r rs ok (leb→le last.start s late) (leb→le s last.end touch)
                some_bytes in
            let size =
              ap length (sym same) ∙ length-set_last (r ∷ rs) (range last.start (max e last.end)) in
            rw (late, touch)
              (ap in_place same
                ∙ sym (fit_if (merge_ref s e (r ∷ rs)) (omega (arith, size, short))))
        | inr apart ↦
            rw (late, apart)
              (inserted (r ∷ rs) ((r ∷ rs) ++ range s e ∷ []) (merge_ref s e (r ∷ rs))
                (merge_past floor s e r rs ok (leb→le last.start s late)
                  (apart_lt s last.end apart))
                (length-snoc (r ∷ rs) (range s e)) short)
      ]
      | inr early ↦ rw early (replaced_lem s e (r ∷ rs) short)
    ]

-- Either the whole page is asked for, or at most eight ranges, ordered, apart and off the page LSN.
abbrev pub IsValid : PageMutation → Type 0
IsValid m =
    ((m.full_image ≡ true) × (m.ranges ≡ []))
    ⊎ ((m.full_image ≡ false)
        × Above (page_lsn_range_end - 1) m.ranges
        × (length m.ranges ≤ page_mutation_max_ranges))

-- Whether the mutation has the byte written to the log.
unfoldable pub records : PageMutation → ℕ → Bool
records m byte = m.full_image || covers m.ranges byte

add_range_in :
    (m : PageMutation) (s e : ℕ)
    → page_lsn_range_end ≤ s
    → s < e
    → e ≤ page_bytes
    → add_range m s e ≡ some (if m.full_image then m else add_to_ranges m.ranges s e)
unfolding add_range
add_range_in m s e low some_bytes high =
    rw (lt→ltb s e some_bytes, le→leb e page_bytes high, le→leb page_lsn_range_end s low) refl

fit-IsValid : (rs : List PageMutationRange) → Above (page_lsn_range_end - 1) rs → IsValid (fit rs)
fit-IsValid rs ok = elim (Bool-cases (leb (length rs) 8)) [
  | inl small ↦ rw small (inr (refl, ok, leb→le (length rs) 8 small))
  | inr large ↦ rw large (inl (refl, refl))
]

fit-records :
    (rs : List PageMutationRange) (byte : ℕ)
    → records (fit rs) byte ≡ ((fit rs).full_image || covers rs byte)
unfolding records
fit-records rs byte = elim (Bool-cases (leb (length rs) 8)) [
  | inl small ↦ rw small refl
  | inr large ↦ rw large refl
]

-- What adding the range [s, e) to the mutation m comes to.
abbrev pub Added : PageMutation → ℕ → ℕ → PageMutation → Type 0
Added m s e m' =
    (add_range m s e ≡ some m')
    × IsValid m'
    × ((byte : ℕ) → records m' byte ≡ (m'.full_image || (inside s e byte || records m byte)))

-- Adding a range of the page that is not empty and keeps off the page LSN does not panic, leaves at
-- most eight ranges that are ordered, not empty and at least a byte apart, or the whole page, and
-- records exactly the bytes recorded before and those of the range, or the whole page.
pub add_range_lem :
    (m : PageMutation) (s e : ℕ)
    → IsValid m
    → page_lsn_range_end ≤ s
    → s < e
    → e ≤ page_bytes
    → (m' : PageMutation) × Added m s e m'
unfolding records
add_range_lem m s e (inl (full, nothing)) low some_bytes high = (
  m,
  (
    add_range_in m s e low some_bytes high ∙ rw full refl,
    inl (full, nothing),
    λ byte. rw full refl,
  ),
)
add_range_lem m s e (inr (live, ok, short)) low some_bytes high =
    let merged = merge_ref s e m.ranges in
    (
      fit merged,
      (
        add_range_in m s e low some_bytes high
            ∙ rw live (ap some (add_to_ranges_lem s e 7 m.ranges some_bytes ok short)),
        fit-IsValid merged (merge_ref-Above 7 s e m.ranges (omega (arith, low)) some_bytes high ok),
        λ byte.
            fit-records merged byte
            ∙ ap (λ x. (fit merged).full_image || x)
                (merge_ref-covers s e byte 7 m.ranges some_bytes ok)
            ∙ rw live refl,
      ),
    )

-- The whole page is asked for only where the merged ranges do not fit into the array of eight, and
-- where it has been asked for already; the array holds the merge as it is else.
pub add_range_fallback :
    (m : PageMutation) (s e : ℕ)
    → IsValid m
    → page_lsn_range_end ≤ s
    → s < e
    → e ≤ page_bytes
    → add_range m s e ≡ some (if m.full_image then m else fit (merge_ref s e m.ranges))
add_range_fallback m s e (inl (full, nothing)) low some_bytes high =
    add_range_in m s e low some_bytes high ∙ rw full refl
add_range_fallback m s e (inr (live, ok, short)) low some_bytes high =
    add_range_in m s e low some_bytes high
    ∙ rw live (ap some (add_to_ranges_lem s e 7 m.ranges some_bytes ok short))
