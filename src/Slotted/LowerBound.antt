-- ===== src/Slotted/LowerBound.antt =====
-- `lower_bound` of `crates/storage/src/slotted_page.rs` on a valid page with ascending keys, through
-- the heads, through the keys, and through keys of eight bytes read as integers.
use Prim.Native.Nat.{compare, Ordering}
use mathlib.Core.Option.{some-injective}
use pagebox.Base.{
  ℕ, suc, ◌+◌, ◌≤◌, ◌<◌, ◌≡◌, refl, sym, ap, subst, ◌∙◌, ◌⊎◌, inl, inr, List, [], ◌∷◌, map, none,
  some, false, arith, length, get_elem?, get_elem?-some, get_elem?-none, All, All-get_elem?, le→leb,
  leb, ◌==◌, ==_iff, Bool-cases,
}
use pagebox.Bytes.Memory.{IsByte, read_bytes, read_bytes-IsByte, length-read_bytes}
use pagebox.Bytes.BigEndian.{
  from_be_bytes, to_be_bytes, cmp_keys, cmp_keys-eq, cmp_keys_flip, from_be_bytes-pad_to_lt,
  from_be_bytes_lt, from_be_bytes_injective, to_be_bytes-from_be_bytes,
}
use pagebox.Slotted.Layout.{
  SlottedPage, Slot, IsValid, page_size, entries, num_slots, heap_end, InHeap, HeadFits, make_head,
  get_key,
}
use pagebox.Slotted.Search.{
  Probe, less, greater, probe_of, probe_key, probe_generic, bisect, lower_bound_generic, key_u64,
  slot_key_u64, probe_u64, lower_bound_u64_be, lower_bound,
}
use pagebox.Slotted.Bisect.{Precedes, IsSorted, Above, IsTrue, Finds, bisect_lem}
use pagebox.Slotted.Accounts.{get_elem?-map}

-- The keys of a page, in slot order.
unfoldable pub keys : SlottedPage → List (List ℕ)
unfolding entries
keys p = map (λ s. read_bytes p.bytes s.offset s.key_len) p.slots

pub length-map {ℓ κ} :
    {A : Type ℓ} {B : Type κ} (f : A → B) (xs : List A) → length (map f xs) ≡ length xs
length-map f [] = refl
length-map f (x ∷ xs) = ap suc (length-map f xs)

pub length-keys : (p : SlottedPage) → length (keys p) ≡ num_slots p
unfolding keys
length-keys p = length-map _ p.slots

none-Above : (ks : List (List ℕ)) (key : List ℕ) (r : ℕ) → length ks ≤ r → Above ks key r
none-Above ks key r h i k le e = cc (get_elem?-none ks i (omega arith))

-- The comparison of a stored key with the key searched for, told as a look at its slot.
module _ (ks : List (List ℕ)) (key : List ℕ) (mid : ℕ) (k : List ℕ)
    (here : get_elem? ks mid ≡ some k) where
  same_key : {k' : List ℕ} → get_elem? ks mid ≡ some k' → k ≡ k'
  same_key e = some-injective _ _ (sym here ∙ e)

  less-IsTrue : Precedes k key → IsTrue ks key mid less
  less-IsTrue lt k' e = subst (λ x. Precedes x key) (same_key e) lt

  greater-IsTrue : Precedes key k → IsTrue ks key mid greater
  greater-IsTrue gt k' e = subst (Precedes key) (same_key e) gt

  probe_of-IsTrue : IsTrue ks key mid (probe_of (cmp_keys k key))
  probe_of-IsTrue =
      (elim (cmp_keys k key) as (λ o. cmp_keys k key ≡ o → IsTrue ks key mid (probe_of o)) [
        | Ordering.lt ↦ λ e. less-IsTrue e
        | Ordering.eq ↦ λ e. here ∙ ap some (cmp_keys-eq k key e)
        | Ordering.gt ↦ λ e. greater-IsTrue (cmp_keys_flip k key e)
      ])
        refl

  -- An integer comparison that implies the one of the keys.
  compare-IsTrue :
      (a b : ℕ) (pr : Probe)
      → (a < b → Precedes k key)
      → (b < a → Precedes key k)
      → (a ≡ b → IsTrue ks key mid pr)
      → IsTrue ks key mid
          (elim (compare a b) [ Ordering.lt ↦ less | Ordering.gt ↦ greater | Ordering.eq ↦ pr ])
  compare-IsTrue a b pr lt gt eq =
      (elim (compare a b)
          as (λ o.
            compare a b ≡ o
            → IsTrue ks key mid
                (elim o [ Ordering.lt ↦ less | Ordering.gt ↦ greater | Ordering.eq ↦ pr ])) [
                  | Ordering.lt ↦ λ e. less-IsTrue (lt (ground arith))
                  | Ordering.eq ↦ λ e. eq (ground arith)
                  | Ordering.gt ↦ λ e. greater-IsTrue (gt (ground arith))
                ])
        refl

  probe_compare-IsTrue :
      (a b : ℕ)
      → (a < b → Precedes k key)
      → (b < a → Precedes key k)
      → (a ≡ b → k ≡ key)
      → IsTrue ks key mid (probe_of (compare a b))
  probe_compare-IsTrue a b lt gt eq =
      (elim (compare a b) as (λ o. compare a b ≡ o → IsTrue ks key mid (probe_of o)) [
        | Ordering.lt ↦ λ e. less-IsTrue (lt (ground arith))
        | Ordering.eq ↦ λ e. here ∙ ap some (eq (ground arith))
        | Ordering.gt ↦ λ e. greater-IsTrue (gt (ground arith))
      ])
        refl

module _ (p : SlottedPage) (v : IsValid p) (sorted : IsSorted (keys p)) (key : List ℕ)
    (key_bytes : All IsByte key) where
  -- What a valid page says of the slot in the middle.
  module _ (mid : ℕ) (s : Slot) (e : get_elem? p.slots mid ≡ some s) where
    stored : List ℕ
    stored = read_bytes p.bytes s.offset s.key_len

    stored_here : get_elem? (keys p) mid ≡ some stored
    unfolding keys stored
    stored_here = get_elem?-map _ p.slots mid e

    stored_bytes : All IsByte stored
    unfolding stored
    stored_bytes = read_bytes-IsByte p.bytes s.offset s.key_len v.is_bytes

    stored-length : length stored ≡ s.key_len
    unfolding stored
    stored-length = length-read_bytes p.bytes s.offset s.key_len

    head_right : s.head ≡ make_head stored
    unfolding stored
    head_right = All-get_elem? (HeadFits p.bytes) p.slots mid v.heads e

    inside : InHeap p.data_offset (heap_end p) s
    inside = All-get_elem? (InHeap p.data_offset (heap_end p)) p.slots mid v.in_heap e

    key_read : get_key p mid ≡ some stored
    unfolding get_key stored
    key_read = rw (e, le→leb (s.offset + s.key_len) page_size (omega (arith, inside)))

    generic-IsTrue : IsTrue (keys p) key mid (probe_generic p key mid)
    unfolding probe_generic make_head
    generic-IsTrue = rw e (
        compare-IsTrue (keys p) key mid stored stored_here s.head (make_head key)
          (probe_key key (get_key p mid))
          (λ h. from_be_bytes-pad_to_lt 4 stored key stored_bytes key_bytes (rw head_right at h))
          (λ h. from_be_bytes-pad_to_lt 4 key stored key_bytes stored_bytes (rw head_right at h))
          (λ _.
            subst (λ o. IsTrue (keys p) key mid (probe_key key o)) (sym key_read)
              (probe_of-IsTrue (keys p) key mid stored stored_here)))

  slot_there : (mid : ℕ) → mid < length (keys p) → (s : Slot) × (get_elem? p.slots mid ≡ some s)
  slot_there mid h = get_elem?-some p.slots mid (omega (arith, length-keys p))

  -- An empty page has nothing to look at.
  nothing_found : num_slots p ≡ 0 → Finds (keys p) key (some (0, false))
  nothing_found e = (
    (0, false),
    refl,
    (
      omega arith,
      λ i k h. absurd (omega arith),
      none-Above (keys p) key 0 (omega (arith, length-keys p)),
    ),
  )

  search_all :
      (probe : ℕ → Probe)
      → ((mid : ℕ) → mid < length (keys p) → IsTrue (keys p) key mid (probe mid))
      → Finds (keys p) key (bisect probe (suc (num_slots p)) 0 (num_slots p))
  search_all probe look =
      bisect_lem (keys p) key sorted probe look (suc (num_slots p)) 0 (num_slots p) (omega arith)
        (omega arith) (omega (arith, length-keys p)) (λ i k h. absurd (omega arith))
        (none-Above (keys p) key (num_slots p) (omega (arith, length-keys p)))

  pub lower_bound_generic_lem : Finds (keys p) key (lower_bound_generic p key)
  unfolding lower_bound_generic
  lower_bound_generic_lem = elim (Bool-cases (num_slots p == 0)) [
    | inl e ↦ rw e (nothing_found ((==_iff _ _).0 e))
    | inr e ↦ rw e (
        search_all (probe_generic p key)
          (λ mid h. let (s, here) = slot_there mid h in generic-IsTrue mid s here))
  ]

  -- The same through integers, for keys of eight bytes.
  module _ (eight : length key ≡ 8) where
    spelled : to_be_bytes 8 (from_be_bytes key) ≡ key
    spelled =
        subst (λ n. to_be_bytes n (from_be_bytes key) ≡ key) eight
          (to_be_bytes-from_be_bytes key key_bytes)

    fall_back : Finds (keys p) key (lower_bound_generic p (to_be_bytes 8 (from_be_bytes key)))
    fall_back = rw spelled lower_bound_generic_lem

    key_u64_cases :
        (s : Slot)
        → (key_u64 p s ≡ none)
          ⊎ ((s.key_len ≡ 8)
              × (key_u64 p s ≡ some (from_be_bytes (read_bytes p.bytes s.offset s.key_len))))
    key_u64_cases s = elim (Bool-cases (s.key_len == 8)) [
      | inr e ↦ inl (rw e)
      | inl e ↦ elim (Bool-cases (leb (s.offset + 8) page_size)) [
        | inr far ↦ inl (rw (e, far))
        | inl near ↦
            let len = (==_iff _ _).0 e in
            inr (
              len,
              rw (e, near)
                  (ap (λ n. some (from_be_bytes (read_bytes p.bytes s.offset n))) (sym len)),
            )
      ]
    ]

    u64-IsTrue :
        (mid : ℕ) (s : Slot)
        → get_elem? p.slots mid ≡ some s
        → IsTrue (keys p) key mid (probe_u64 p (from_be_bytes key) (slot_key_u64 p mid))
    unfolding slot_key_u64 stored
    u64-IsTrue mid s e = elim (key_u64_cases s) [
      | inl other ↦ rw (e, other) fall_back
      | inr (len, same) ↦
          let k = stored mid s e in
          let k_bytes = stored_bytes mid s e in
          let as_long : length k ≡ length key = stored-length mid s e ∙ len ∙ sym eight in
          rw (e, same)
            (probe_compare-IsTrue (keys p) key mid k (stored_here mid s e) (from_be_bytes k)
              (from_be_bytes key) (from_be_bytes_lt k key as_long k_bytes key_bytes)
              (from_be_bytes_lt key k (sym as_long) key_bytes k_bytes)
              (from_be_bytes_injective k key as_long k_bytes key_bytes))
    ]

  -- `lower_bound` on a valid page with ascending keys does not panic, and finds the first key that is
  -- not less than the one searched for.
  pub lower_bound_lem : Finds (keys p) key (lower_bound p key)
  unfolding lower_bound lower_bound_u64_be
  lower_bound_lem = elim (Bool-cases (length key == 8)) [
    | inr e ↦ rw e lower_bound_generic_lem
    | inl e ↦
        let eight = (==_iff _ _).0 e in
        elim (Bool-cases (num_slots p == 0)) [
          | inl z ↦ rw (e, z) (nothing_found ((==_iff _ _).0 z))
          | inr z ↦
              rw (e, z)
                (search_all (λ mid. probe_u64 p (from_be_bytes key) (slot_key_u64 p mid))
                  (λ mid h. let (s, here) = slot_there mid h in u64-IsTrue eight mid s here))
        ]
  ]
