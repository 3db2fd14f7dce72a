-- ===== src/Freelist/Allocate.antt =====
-- `CentralInner::allocate_best_fit` of `crates/storage/src/free_page_allocator.rs`: it hands out the
-- head of a best fit, once.
use pagebox.Base.{
  ℕ, ◌+◌, ◌-◌, ◌≤◌, ◌<◌, ◌≡◌, refl, subst, Option, none, some, false, List, [], ◌∷◌, leb, leb→le,
  le→leb, lt→ltb, Bool-cases, Option-cases, if◌then◌else◌, checked_sub-some, arith, ◌⊎◌, inl, inr,
  All, All-map,
}
use pagebox.Freelist.Extent.{FreeExtent, extent, new_extent, split_head}
use pagebox.Freelist.Central.{CentralInner, best_fit, allocate_best_fit}
use pagebox.Freelist.Extents.{IsValid, At, first, later, At-floor, left_over}
use pagebox.Freelist.BestFit.{Taken, taken}

leb-false : (a b : ℕ) → leb a b ≡ false → b < a
leb-false a b h = ground arith

-- An extent that is too short, or no shorter than the one chosen.
abbrev pub NoBetter : ℕ → FreeExtent → FreeExtent → Type 0
NoBetter len e y = (y.len < len) ⊎ (e.len ≤ y.len)

some_inv : (e x : FreeExtent) → some e ≡ some x → e ≡ x
some_inv e x h = cc

abbrev Best : ℕ → List FreeExtent → Option FreeExtent → Type 0
Best len xs none = All (λ y. y.len < len) xs
Best len xs (some e) = At e xs × (len ≤ e.len) × All (NoBetter len e) xs

best_fit_lem : (len : ℕ) (xs : List FreeExtent) → Best len xs (best_fit len xs)
unfolding best_fit
best_fit_lem len [] = tt
best_fit_lem len (x ∷ xs) = elim (Bool-cases (leb len x.len)) [
  | inr short ↦ rw short (skip (leb-false len x.len short) (best_fit len xs) (best_fit_lem len xs))
  | inl fits ↦ rw fits (choose (leb→le len x.len fits) (best_fit len xs) (best_fit_lem len xs))
]
  where
    skip : x.len < len → (o : Option FreeExtent) → Best len xs o → Best len (x ∷ xs) o
    skip short none all_short = (short, all_short)
    skip short (some e) (at, long, least) = (later at, long, (inl short, least))

    choose :
        len ≤ x.len
        → (o : Option FreeExtent) → Best len xs o
        → Best len
            (x ∷ xs)
            (elim o [ none ↦ some x | some y ↦ if leb x.len y.len then some x else some y ])
    choose fits none all_short =
        (first, fits, (inr (omega arith), All-map xs (λ y short. inl short) all_short))
    choose fits (some e) (at, long, least) = elim (Bool-cases (leb x.len e.len)) [
      | inl shorter ↦
          let less : x.len ≤ e.len = leb→le x.len e.len shorter in
          rw shorter (first, fits, (inr (omega arith), All-map xs (λ y no. still less y no) least))
      | inr longer ↦
          let more : e.len < x.len = leb-false x.len e.len longer in
          rw longer (later at, long, (inr (omega (arith, more)), least))
    ]
      where
        still : x.len ≤ e.len → (y : FreeExtent) → NoBetter len e y → NoBetter len x y
        still less y (inl short) = inl short
        still less y (inr no_less) = inr (omega (arith, less, no_less))

-- What `allocate_best_fit` hands out, and what it leaves: nothing if every extent is too short; else
-- the head of an extent of the list that no long enough one is shorter than.
abbrev pub Outcome : CentralInner → ℕ → Option FreeExtent → CentralInner → Type 0
Outcome c len none c' = (c' ≡ c) × All (λ y. y.len < len) c.by_start_page_number
Outcome c len (some a) c' =
    (a.len ≡ len)
    × Taken 0 a.start_page_number len c.by_start_page_number c'.by_start_page_number
    × IsValid c'
    × (e : FreeExtent) × At e c.by_start_page_number
    × (e.start_page_number ≡ a.start_page_number)
    × (len ≤ e.len)
    × All (NoBetter len e) c.by_start_page_number

split_head-fits :
    (e : FreeExtent) (len : ℕ)
    → 0 < e.start_page_number
    → 0 < len
    → len ≤ e.len
    → split_head e len
      ≡ some (extent e.start_page_number len, extent (e.start_page_number + len) (e.len - len))
unfolding split_head new_extent
split_head-fits e len page some_pages fits =
    rw (lt→ltb 0 len some_pages, le→leb len e.len fits, lt→ltb 0 e.start_page_number page) refl

-- `allocate_best_fit` on a valid free list never panics. It gives nothing, and leaves the list, just
-- where every extent is too short; else it gives the first pages of a best fitting extent: they were
-- free, are not free afterwards, every other page is free just if it was, the count of free pages
-- falls by as many, and the list is valid.
pub allocate_best_fit_lem :
    (c : CentralInner) (len : ℕ)
    → IsValid c
    → 0 < len
    → (o : Option FreeExtent) × (c' : CentralInner) × (allocate_best_fit c len ≡ some (o, c'))
      × Outcome c len o c'
unfolding allocate_best_fit
allocate_best_fit_lem c len v some_pages =
    let xs = c.by_start_page_number in
    elim (Option-cases (best_fit len xs)) [
      | inl nothing ↦ (
        none,
        c,
        rw (nothing, allocate_best_fit) refl,
        (refl, subst (Best len xs) nothing (best_fit_lem len xs)),
      )
      | inr (e, found) ↦
          let (at, fits, least) = subst (Best len xs) found (best_fit_lem len xs) in
          let (page, _, _, counted) = At-floor e 0 at v.apart in
          let t = taken len e 0 at some_pages fits v.apart in
          let room : len ≤ c.free_base_pages = omega (arith, v.counted, counted, fits) in
          (
            some (extent e.start_page_number len),
            record {
              by_start_page_number = left_over e len xs;
              free_base_pages = c.free_base_pages - len;
            },
            rw
                (
                  found,
                  allocate_best_fit,
                  checked_sub-some c.free_base_pages len room,
                  split_head-fits e len page some_pages fits,
                )
                refl,
            (
              refl,
              t,
              record {
                apart = t.still_apart;
                counted = let f = t.fewer in let g = v.counted in omega (arith, f, g);
              },
              e,
              at,
              refl,
              fits,
              least,
            ),
          )
    ]
