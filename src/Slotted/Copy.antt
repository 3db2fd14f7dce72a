-- ===== src/Slotted/Copy.antt =====
-- `copy_key_value_range` of `crates/storage/src/slotted_page.rs`: a run of entries is appended to another page.
use pagebox.Base.{
  ℕ, zero, suc, ◌+◌, ◌≤◌, ◌≡◌, refl, sym, ap, ◌∙◌, subst, List, [], ◌∷◌, some, true, arith,
  get_elem?, get_elem?-some, take, drop, All, All-get_elem?, ◌==◌, map,
}
use mathlib.Core.Option
use pagebox.Bytes.Memory.{read_bytes-IsByte}
use pagebox.Slotted.Layout.{
  SlottedPage, Slot, IsValid, entries, num_slots, free_space, payload, get_key, get_value,
}
use pagebox.Slotted.Ops.{copy_range, copy_key_value_range}
use pagebox.Slotted.Edit.{get_lem}
use pagebox.Slotted.Append.{
  cost, IsTight, IsEntry, Appended, Appended-refl, Appended-trans, free_space-Appended, append_lem,
  length-entries,
}

-- The entries of a page are bytes.
pub entries-IsEntry : (p : SlottedPage) → IsValid p → All IsEntry (entries p)
unfolding entries
entries-IsEntry p v = go p.slots
  where
    go : (ss : List Slot) → All IsEntry (map (payload p.bytes) ss)
    go [] = tt
    go (s ∷ ss) = (
      (
        read_bytes-IsByte p.bytes s.offset s.key_len v.is_bytes,
        read_bytes-IsByte p.bytes (s.offset + s.key_len) s.val_len v.is_bytes,
      ),
      go ss,
    )

-- A run of entries from a slot on.
abbrev pub entry_range : SlottedPage → ℕ → ℕ → List (List ℕ × List ℕ)
entry_range p slot count = take count (drop slot (entries p))

pub take-drop {ℓ} :
    {A : Type ℓ} (xs : List A) (i n : ℕ) {x : A}
    → get_elem? xs i ≡ some x
    → take (suc n) (drop i xs) ≡ x ∷ take n (drop (i + 1) xs)
take-drop {A} xs i n {x} e =
    let next : suc i ≡ i + 1 = omega arith in
    subst (λ j. take (suc n) (drop i xs) ≡ x ∷ take n (drop j xs)) next (go xs i e)
  where
    go :
        (ys : List A) (j : ℕ)
        → get_elem? ys j ≡ some x
        → take (suc n) (drop j ys) ≡ x ∷ take n (drop (suc j) ys)
    go [] j e' = cc
    go (y ∷ ys) zero e' = cc
    go (y ∷ ys) (suc j) e' = go ys j e'

module _ (src : SlottedPage) (v : IsValid src) where
  pub copy_range_lem :
      (dst : SlottedPage) (slot count : ℕ)
      → IsValid dst
      → IsTight dst
      → slot + count ≤ num_slots src
      → cost (entry_range src slot count) ≤ free_space dst
      → (q : SlottedPage) × (copy_range src dst slot count ≡ some q)
        × Appended dst q (entry_range src slot count)
  unfolding copy_range
  copy_range_lem dst slot zero w tight inside fits = (dst, refl, Appended-refl tight w)
  copy_range_lem dst slot (suc count) w tight inside fits =
      let size = length-entries src in
      let (e, here) = get_elem?-some (entries src) slot (omega (arith, size, inside)) in
      let bytes = All-get_elem? IsEntry (entries src) slot (entries-IsEntry src v) here in
      let (key, value) = get_lem src slot v in
      let key_is : get_key src slot ≡ some (e.0) = key ∙ ap (λ o. Option.map (λ q. q.0) o) here in
      let value_is : get_value src slot ≡ some (e.1) =
        value ∙ ap (λ o. Option.map (λ q. q.1) o) here in
      let shape = take-drop (entries src) slot count here in
      let cost_is = ap cost shape in
      let (q, inserted, one) =
        append_lem dst (e.0) (e.1) w tight (bytes.0) (bytes.1) (omega (arith, cost_is, fits)) in
      let rest = entry_range src (slot + 1) count in
      let left = free_space-Appended (e ∷ []) tight one in
      let (r, copied, more) =
        copy_range_lem q (slot + 1) count one.valid one.tight (omega arith)
          (omega (arith, cost_is, fits, left)) in
      (
        r,
        rw (key_is, value_is, inserted) copied,
        subst (Appended dst r) (sym shape) (Appended-trans {r = r} (e ∷ []) rest one more),
      )

  pub copy_key_value_range_lem :
      (dst : SlottedPage) (at slot count : ℕ)
      → IsValid dst
      → IsTight dst
      → num_slots dst ≡ at
      → slot + count ≤ num_slots src
      → cost (entry_range src slot count) ≤ free_space dst
      → (q : SlottedPage) × (copy_key_value_range src dst at slot count ≡ some q)
        × Appended dst q (entry_range src slot count)
  unfolding copy_key_value_range
  copy_key_value_range_lem dst at slot count w tight behind inside fits =
      let (q, copied, all) = copy_range_lem dst slot count w tight inside fits in
      let same : (at == num_slots dst) ≡ true = ground arith in (q, rw same copied, all)
