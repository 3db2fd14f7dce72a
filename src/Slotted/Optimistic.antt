-- ===== src/Slotted/Optimistic.antt =====
-- The `try_` variants of `crates/storage/src/slotted_page.rs` against the plain ones.
use pagebox.Base.{
  ℕ, zero, suc, ◌+◌, ◌-◌, ◌*◌, ◌/◌, ◌≤◌, ◌<◌, ◌≡◌, refl, ap, inl, inr, List, Option, none, some,
  Bool, true, false, arith, length, get_elem?, get_elem?-some, le→leb, le→ltb, ltb→lt, ltb, ◌==◌,
  Bool-cases,
}
use pagebox.Bytes.BigEndian.{from_be_bytes, to_be_bytes}
use pagebox.Slotted.Layout.{
  SlottedPage, Slot, IsValid, page_size, header_size, slot_size, num_slots, slice, get_key,
  get_value,
}
use pagebox.Slotted.Search.{
  Probe, less, greater, equal, stop, midpoint, bisect, probe_slot, probe_generic,
  lower_bound_generic, key_u64, slot_key_u64, probe_u64, lower_bound_u64_be, lower_bound,
  try_slot_copy, try_slice, try_get_key, try_get_value, try_probe_slot, try_lower_bound_generic,
  try_slot_key_u64, try_probe_u64, try_lower_bound_u64_be, try_lower_bound,
}

-- The loop looks at slots in front of `hi` only.
bisect_cong :
    (f g : ℕ → Probe) (n : ℕ)
    → ((mid : ℕ) → mid < n → f mid ≡ g mid)
    → (fuel lo hi : ℕ) → hi ≤ n
    → bisect f fuel lo hi ≡ bisect g fuel lo hi
unfolding bisect
bisect_cong f g n same zero lo hi h = refl
bisect_cong f g n same (suc fuel) lo hi h = elim (Bool-cases (ltb lo hi)) [
  | inr done ↦ rw (done, bisect)
  | inl more ↦
      let lt = ltb→lt lo hi more in
      let mid = midpoint lo hi in
      let up = bisect_cong f g n same fuel (mid + 1) hi h in
      let down = bisect_cong f g n same fuel lo mid (omega arith) in
      rw (more, bisect, same mid (omega arith))
        (elim (g mid)
          as (λ pr.
            ◌≡◌ {A = Option (ℕ × Bool)}
              (elim pr [
                | less ↦ bisect f fuel (mid + 1) hi
                | greater ↦ bisect f fuel lo mid
                | equal ↦ some (mid, true)
                | stop r ↦ r
              ])
              (elim pr [
                | less ↦ bisect g fuel (mid + 1) hi
                | greater ↦ bisect g fuel lo mid
                | equal ↦ some (mid, true)
                | stop r ↦ r
              ])) [ less ↦ up | greater ↦ down | equal ↦ refl | stop r ↦ refl ])
]

try_slice-slice :
    (p : SlottedPage) (start len : ℕ) → try_slice p start (start + len) ≡ slice p start len
try_slice-slice p start len =
    let exact : start + len - start ≡ len = omega arith in rw exact (ground arith)

module _ (p : SlottedPage) (v : IsValid p) where
  copy_found : (id : ℕ) → id < num_slots p → try_slot_copy p id ≡ get_elem? p.slots id
  unfolding try_slot_copy
  copy_found id h =
      rw (
        le→leb (header_size + id * slot_size + slot_size) page_size
          (omega (arith, v.apart, v.room)))

  -- On a valid page the checked accessors read what the plain ones do.
  pub try_get_lem :
      (id : ℕ)
      → id < num_slots p
      → (try_get_key p id ≡ get_key p id) × (try_get_value p id ≡ get_value p id)
  unfolding try_get_key try_get_value get_key get_value
  try_get_lem id h =
      let (s, e) = get_elem?-some p.slots id h in
      (
        rw (copy_found id h, e) (try_slice-slice p s.offset s.key_len),
        rw (copy_found id h, e) (try_slice-slice p (s.offset + s.key_len) s.val_len),
      )

  same_look :
      (key : List ℕ) (mid : ℕ) (s : Slot)
      → try_get_key p mid ≡ get_key p mid
      → try_probe_slot p key mid (some s) ≡ probe_slot p key mid (some s)
  same_look key mid s e = ground arith

  generic_probes :
      (key : List ℕ) (mid : ℕ)
      → mid < num_slots p
      → try_probe_slot p key mid (try_slot_copy p mid) ≡ probe_generic p key mid
  unfolding probe_generic
  generic_probes key mid h =
      let (s, e) = get_elem?-some p.slots mid h in
      rw (copy_found mid h, e) (same_look key mid s (try_get_lem mid h).0)

  not_too_many : ltb (page_size / 12) (num_slots p) ≡ false
  not_too_many = le→ltb _ _ (omega (arith, v.apart, v.room))

  try_generic_lem : (key : List ℕ) → try_lower_bound_generic p key ≡ lower_bound_generic p key
  unfolding try_lower_bound_generic lower_bound_generic
  try_generic_lem key = elim (Bool-cases (num_slots p == 0)) [
    | inl e ↦ rw e
    | inr e ↦
        rw (e, not_too_many)
          (bisect_cong _ _ (num_slots p) (generic_probes key) (suc (num_slots p)) 0 (num_slots p)
            (omega arith))
  ]

  u64_probes :
      (search_key : ℕ) (mid : ℕ)
      → mid < num_slots p
      → try_probe_u64 p search_key (try_slot_key_u64 p mid)
        ≡ probe_u64 p search_key (slot_key_u64 p mid)
  unfolding try_slot_key_u64 slot_key_u64
  u64_probes search_key mid h =
      let (s, e) = get_elem?-some p.slots mid h in rw (copy_found mid h, e) (same_key (key_u64 p s))
    where
      same_key : (o : Option ℕ) → try_probe_u64 p search_key o ≡ probe_u64 p search_key (some o)
      same_key none = ap stop (try_generic_lem (to_be_bytes 8 search_key))
      same_key (some k) = refl

  try_u64_lem :
      (search_key : ℕ) → try_lower_bound_u64_be p search_key ≡ lower_bound_u64_be p search_key
  unfolding try_lower_bound_u64_be lower_bound_u64_be
  try_u64_lem search_key = elim (Bool-cases (num_slots p == 0)) [
    | inl e ↦ rw e
    | inr e ↦
        rw (e, not_too_many)
          (bisect_cong _ _ (num_slots p) (u64_probes search_key) (suc (num_slots p)) 0 (num_slots p)
            (omega arith))
  ]

  -- On a valid page the optimistic search gives the answer of the plain one, sorted keys or not.
  pub try_lower_bound_lem : (key : List ℕ) → try_lower_bound p key ≡ lower_bound p key
  unfolding try_lower_bound lower_bound
  try_lower_bound_lem key = elim (Bool-cases (length key == 8)) [
    | inl e ↦ rw e (try_u64_lem (from_be_bytes key))
    | inr e ↦ rw e (try_generic_lem key)
  ]
