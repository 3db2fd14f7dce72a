-- ===== src/Freelist/Extents.antt =====
-- Lists of free extents of `crates/storage/src/free_page_allocator.rs`, and what is left of one when
-- the head of an extent is taken away.
use pagebox.Base.{
  ℕ, ◌+◌, ◌-◌, ◌≤◌, ◌<◌, ◌≡◌, refl, Bool, true, false, ◌&&◌, ◌||◌, List, [], ◌∷◌, leb, ltb, ltb→lt,
  lt→ltb, ◌==◌, ==_iff, Bool-cases, if◌then◌else◌, arith, inl, inr,
}
use pagebox.Freelist.Extent.{FreeExtent, extent, u64_max}
use pagebox.Freelist.Central.{CentralInner, remove_key, insert_key, put_remainder}

-- The extents are ordered, not empty and a page or more apart, past `floor`.
abbrev pub Apart : ℕ → List FreeExtent → Type 0
Apart floor [] = Unit
Apart floor (x ∷ xs) =
    (floor < x.start_page_number)
    × (0 < x.len)
    × (x.start_page_number + x.len ≤ u64_max)
    × Apart (x.start_page_number + x.len) xs

abbrev pub total_pages : List FreeExtent → ℕ
total_pages [] = 0
total_pages (x ∷ xs) = x.len + total_pages xs

-- Whether the page is among the `len` pages from `start`, or in one of the extents.
unfoldable pub spans : ℕ → ℕ → ℕ → Bool
spans start len page = leb start page && ltb page (start + len)

abbrev pub holds : List FreeExtent → ℕ → Bool
holds [] page = false
holds (x ∷ xs) page = spans x.start_page_number x.len page || holds xs page

pub record IsValid (c : CentralInner) : Type 0 where
  pub apart : Apart 0 c.by_start_page_number
  pub counted : c.free_base_pages ≡ total_pages c.by_start_page_number

pub data At (e : FreeExtent) : List FreeExtent → Type 0 where
  first : {xs : List FreeExtent} → At e (e ∷ xs)
  later : {x : FreeExtent} {xs : List FreeExtent} → At e xs → At e (x ∷ xs)

pub At-floor :
    (e : FreeExtent) (floor : ℕ) {xs : List FreeExtent}
    → At e xs
    → Apart floor xs
    → (floor < e.start_page_number)
      × (0 < e.len)
      × (e.start_page_number + e.len ≤ u64_max)
      × (e.len ≤ total_pages xs)
At-floor e floor first (a, b, c, d) = (a, b, c, omega arith)
At-floor e floor (later {x} at) (a, b, c, d) =
    let (low, some_pages, high, counted) = At-floor e (x.start_page_number + x.len) at d in
    (omega (arith, low, a), some_pages, high, omega (arith, counted))

pub Apart-lower :
    (floor floor' : ℕ) (xs : List FreeExtent) → floor ≤ floor' → Apart floor' xs → Apart floor xs
Apart-lower floor floor' [] le ok = tt
Apart-lower floor floor' (x ∷ xs) le (a, b, c, d) = (omega (arith, le, a), b, c, d)

insert_key-front :
    (e : FreeExtent) (floor : ℕ) (xs : List FreeExtent)
    → e.start_page_number ≤ floor
    → Apart floor xs
    → insert_key e xs ≡ e ∷ xs
unfolding insert_key
insert_key-front e floor [] le ok = refl
insert_key-front e floor (x ∷ xs) le (a, b, c, d) = ground (arith, le, a)

same_key : (n : ℕ) → (n == n) ≡ true
same_key n = (==_iff n n).1 refl

other_key : (a b : ℕ) → a < b → (a == b) ≡ false
other_key a b h = ground arith

-- The list of extents with the head of `e` taken away.
abbrev pub left_over : FreeExtent → ℕ → List FreeExtent → List FreeExtent
left_over e len xs =
    put_remainder (extent (e.start_page_number + len) (e.len - len))
      (remove_key e.start_page_number xs)

pub left_over-later :
    (e x : FreeExtent) (len : ℕ) (xs : List FreeExtent)
    → x.start_page_number < e.start_page_number
    → left_over e len (x ∷ xs) ≡ x ∷ left_over e len xs
unfolding put_remainder remove_key insert_key
left_over-later e x len xs before = elim (Bool-cases (ltb 0 (e.len - len))) [
  | inl more ↦
      rw (other_key x.start_page_number e.start_page_number before, more)
        (rw (lt→ltb x.start_page_number (e.start_page_number + len) (omega (arith, before))) refl)
  | inr all ↦ rw (other_key x.start_page_number e.start_page_number before, all) refl
]

pub left_over-first :
    (e : FreeExtent) (len : ℕ) (xs : List FreeExtent)
    → len ≤ e.len
    → Apart (e.start_page_number + e.len) xs
    → left_over e len (e ∷ xs)
      ≡ (if ltb 0 (e.len - len) then extent (e.start_page_number + len) (e.len - len) ∷ xs else xs)
unfolding put_remainder remove_key
left_over-first e len xs fits ok = elim (Bool-cases (ltb 0 (e.len - len))) [
  | inl more ↦
      rw (same_key e.start_page_number, more)
        (insert_key-front (extent (e.start_page_number + len) (e.len - len))
          (e.start_page_number + e.len) xs
          (let p = ltb→lt 0 (e.len - len) more in omega (arith, p, fits)) ok)
  | inr all ↦ rw (same_key e.start_page_number, all) refl
]

pub below_floor :
    (floor page : ℕ) (xs : List FreeExtent) → Apart floor xs → page ≤ floor → holds xs page ≡ false
unfolding spans
below_floor floor page [] ok low = refl
below_floor floor page (x ∷ xs) (a, b, c, d) low =
    let rest = below_floor (x.start_page_number + x.len) page xs d (omega (arith, low, a)) in
    rw rest (ground (arith, low, a))
