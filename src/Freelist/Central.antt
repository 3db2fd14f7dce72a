-- ===== src/Freelist/Central.antt =====
-- `CentralInner` of `crates/storage/src/free_page_allocator.rs`: the `BTreeMap` is the list of its
-- extents in ascending order of their keys, which are their start pages.
use pagebox.Base.{
  ℕ, ◌-◌, Option, none, some, List, [], ◌∷◌, leb, ltb, ◌==◌, if◌then◌else◌, guard, ◌>>=◌, ◌>>◌,
  checked_sub, length,
}
use pagebox.Freelist.Extent.{FreeExtent, extent, end_page_number, split_head, checked_add}

pub record CentralInner : Type 0 where
  pub by_start_page_number : List FreeExtent
  pub free_base_pages : ℕ

unfoldable pub empty_central : CentralInner
empty_central = record { by_start_page_number = []; free_base_pages = 0 }

-- `range(..=key).next_back()`
unfoldable pub last_up_to : ℕ → List FreeExtent → Option FreeExtent
last_up_to key [] = none
last_up_to key (x ∷ xs) =
    let later = last_up_to key xs in
    if leb x.start_page_number key then (elim later [ none ↦ some x | some y ↦ some y ]) else none

-- `range(key..).next()`
unfoldable pub first_from : ℕ → List FreeExtent → Option FreeExtent
first_from key [] = none
first_from key (x ∷ xs) =
    let later = first_from key xs in if leb key x.start_page_number then some x else later

-- `remove(&key)`
unfoldable pub remove_key : ℕ → List FreeExtent → List FreeExtent
remove_key key [] = []
remove_key key (x ∷ xs) =
    let rest = remove_key key xs in if x.start_page_number == key then xs else x ∷ rest

-- `insert(key, extent)`, which replaces an extent of the same key
unfoldable pub insert_key : FreeExtent → List FreeExtent → List FreeExtent
insert_key e [] = e ∷ []
insert_key e (x ∷ xs) =
    let rest = insert_key e xs in
    if ltb x.start_page_number e.start_page_number
    then x ∷ rest
    else (if x.start_page_number == e.start_page_number then e ∷ xs else e ∷ x ∷ xs)

-- The map and the extent so far, while `insert` coalesces.
pub record Merging : Type 0 where
  pub map_left : List FreeExtent
  pub first : ℕ
  pub size : ℕ

-- The extent in front: it must end where the new one starts or before.
unfoldable pub merge_previous : List FreeExtent → ℕ → ℕ → Option FreeExtent → Option Merging
merge_previous map start len none = some (record { map_left = map; first = start; size = len })
merge_previous map start len (some prev) = do
  prev_end ← end_page_number prev
  guard (leb prev_end start)
  total ← (if prev_end == start then checked_add len prev.len else some len)
  some (
      if prev_end == start
      then record {
        map_left = remove_key prev.start_page_number map;
        first = prev.start_page_number;
        size = total;
      }
      else record { map_left = map; first = start; size = len })

-- The extent behind: the new one must end where it starts or before.
unfoldable pub merge_next : ℕ → Merging → Option FreeExtent → Option Merging
merge_next end m none = some m
merge_next end m (some next) = do
  guard (leb end next.start_page_number)
  new_end ← (if end == next.start_page_number then end_page_number next else some end)
  some (
      if end == next.start_page_number
      then record {
        map_left = remove_key next.start_page_number m.map_left;
        first = m.first;
        size = new_end - m.first;
      }
      else m)

unfoldable pub insert : CentralInner → FreeExtent → Option CentralInner
unfolding last_up_to first_from remove_key insert_key merge_previous merge_next end_page_number
insert c e = do
  end ← end_page_number e
  m ←
      merge_previous c.by_start_page_number e.start_page_number e.len
        (last_up_to e.start_page_number c.by_start_page_number)
  n ← merge_next end m (first_from m.first m.map_left)
  total ← checked_add c.free_base_pages e.len
  some (record {
    by_start_page_number = insert_key (extent n.first n.size) n.map_left;
    free_base_pages = total;
  })

-- `filter(len fits).min_by_key(len)`, the first of the smallest
unfoldable pub best_fit : ℕ → List FreeExtent → Option FreeExtent
best_fit len [] = none
best_fit len (x ∷ xs) =
    let later = best_fit len xs in
    if leb len x.len
    then (elim later [ none ↦ some x | some y ↦ if leb x.len y.len then some x else some y ])
    else later

-- What is left of a split extent goes back, if anything is.
unfoldable pub put_remainder : FreeExtent → List FreeExtent → List FreeExtent
put_remainder e map = if ltb 0 e.len then insert_key e map else map

-- The inner `none` is that no extent is long enough.
unfoldable pub allocate_best_fit : CentralInner → ℕ → Option (Option FreeExtent × CentralInner)
unfolding best_fit remove_key put_remainder split_head insert_key
allocate_best_fit c len = elim (best_fit len c.by_start_page_number) [
  | none ↦ some (none, c)
  | some e ↦ checked_sub c.free_base_pages len >>= λ pages. split_head e len >>= λ s. some (
    some s.0,
    record {
      by_start_page_number =
          put_remainder s.1 (remove_key e.start_page_number c.by_start_page_number);
      free_base_pages = pages;
    },
  )
]

unfoldable pub extent_count : CentralInner → ℕ
extent_count c = length c.by_start_page_number
