-- ===== src/Slotted/Update.antt =====
-- `update_value_if_same_length` of `crates/storage/src/slotted_page.rs` writes a value in place.
use native.Mathlib.Nat.{eq-zero-or-pos}
use mathlib.Core.Option.{some-injective}
use pagebox.Base.{
  ℕ, zero, suc, ◌+◌, ◌≤◌, ◌<◌, ◌≡◌, ◌≢◌, Option-cases, none, refl, sym, ap, subst, ◌∙◌, ◌⊎◌, inl,
  inr, List, [], ◌∷◌, map, some, true, false, arith, length, length-eq-zero, get_elem?, set, All,
  All-get_elem?, le→leb, ◌==◌, ==_iff,
}
use pagebox.Bytes.Memory.{
  Memory, IsByte, read_bytes, length-read_bytes, write_bytes, write_bytes_outside, read_back,
  read_bytes_outside, write_bytes-IsByte,
}
use pagebox.Slotted.Layout.{
  SlottedPage, Slot, IsValid, page_size, entries, heap_end, data_len, InHeap, Separate, Disjoint,
  HeadFits, make_head, payload,
}
use pagebox.Slotted.Ops.{update_value_if_same_length}
use pagebox.Slotted.Accounts.{Separate-symm, get_elem?-map, get_elem?-map-none}

-- A value of the same length, written over the one in slot `s`.
module _ (m : Memory) (s : Slot) (value : List ℕ) (same_length : length value ≡ s.val_len) where
  overwritten : Memory
  overwritten = write_bytes m (s.offset + s.key_len) value

  key_kept : read_bytes overwritten s.offset s.key_len ≡ read_bytes m s.offset s.key_len
  unfolding overwritten
  key_kept =
      read_bytes_outside m (s.offset + s.key_len) value s.offset s.key_len (inl (omega arith))

  value_set : read_bytes overwritten (s.offset + s.key_len) s.val_len ≡ value
  unfolding overwritten
  value_set = read_back m (s.offset + s.key_len) value same_length

  -- Nothing that lies beside the slot's bytes changes.
  beside :
      (from n : ℕ)
      → (n ≡ 0) ⊎ ((from + n ≤ s.offset) ⊎ (s.offset + data_len s ≤ from) ⊎ (data_len s ≡ 0))
      → read_bytes overwritten from n ≡ read_bytes m from n
  unfolding overwritten read_bytes write_bytes
  beside from n (inl e) = rw e
  beside from n (inr (inl h)) =
      read_bytes_outside m (s.offset + s.key_len) value from n (inl (omega arith))
  beside from n (inr (inr (inl h))) =
      read_bytes_outside m (s.offset + s.key_len) value from n (inr (omega arith))
  beside from n (inr (inr (inr e))) = rw (length-eq-zero value (omega arith))

  -- A slot that shares no byte with `s` keeps its entry.
  payload_kept : (u : Slot) → Separate s u → payload overwritten u ≡ payload m u
  payload_kept u apart =
      let key = beside u.offset u.key_len (omega arith) in
      let val = beside (u.offset + u.key_len) u.val_len (omega arith) in λ i. (key i, val i)

  payload_set : payload overwritten s ≡ (read_bytes m s.offset s.key_len, value)
  payload_set = λ i. (key_kept i, value_set i)

  HeadFits-set : HeadFits m s → HeadFits overwritten s
  HeadFits-set h = h ∙ ap make_head (sym key_kept)

  others_kept :
      (ss : List Slot) → All (Separate s) ss → map (payload overwritten) ss ≡ map (payload m) ss
  others_kept [] apart = refl
  others_kept (u ∷ ss) apart =
      let first = payload_kept u apart.0 in
      let rest = others_kept ss apart.1 in λ i. first i ∷ rest i

  other_heads :
      (ss : List Slot) → All (Separate s) ss → All (HeadFits m) ss → All (HeadFits overwritten) ss
  other_heads [] apart heads = tt
  other_heads (u ∷ ss) apart heads = (
    heads.0 ∙ ap (λ q. make_head q.0) (sym (payload_kept u apart.0)),
    other_heads ss apart.1 heads.1,
  )

-- In a list of disjoint slots exactly the one entry changes.
entries_set :
    (m : Memory) (s : Slot) (value : List ℕ) (e : length value ≡ s.val_len) (ss : List Slot) (i : ℕ)
    → get_elem? ss i ≡ some s
    → Disjoint ss
    → All (HeadFits m) ss
    → (map (payload (overwritten m s value e)) ss
        ≡ set (map (payload m) ss) i (read_bytes m s.offset s.key_len, value))
      × All (HeadFits (overwritten m s value e)) ss
entries_set m s value e [] i here apart heads = cc
entries_set m s value e (u ∷ ss) zero here apart heads =
    let same : s ≡ u = sym (some-injective u s here) in
    let apart' : All (Separate s) ss = subst (λ w. All (Separate w) ss) (sym same) apart.0 in
    let first =
      subst (λ w. payload (overwritten m s value e) w ≡ (read_bytes m s.offset s.key_len, value))
        same (payload_set m s value e) in
    let rest = others_kept m s value e ss apart' in
    (
      λ i. first i ∷ rest i,
      (
        subst (HeadFits (overwritten m s value e)) same
            (HeadFits-set m s value e (subst (HeadFits m) (sym same) heads.0)),
        other_heads m s value e ss apart' heads.1,
      ),
    )
entries_set m s value e (u ∷ ss) (suc i) here apart heads =
    let ih = entries_set m s value e ss i here apart.1 heads.1 in
    let clear = Separate-symm u s (All-get_elem? (Separate u) ss i apart.0 here) in
    let first = payload_kept m s value e u clear in
    (λ j. first j ∷ ih.0 j, (heads.0 ∙ ap (λ q. make_head q.0) (sym first), ih.1))

module _ (p : SlottedPage) (v : IsValid p) (i : ℕ) (s : Slot) (here : get_elem? p.slots i ≡ some s)
    (value : List ℕ) (value_bytes : All IsByte value) (e : length value ≡ s.val_len) where
  updated : SlottedPage
  updated = record p { bytes = overwritten p.bytes s value e }

  inside : InHeap p.data_offset (heap_end p) s
  inside = All-get_elem? (InHeap p.data_offset (heap_end p)) p.slots i v.in_heap here

  updated-entries :
      entries updated ≡ set (entries p) i (read_bytes p.bytes s.offset s.key_len, value)
  unfolding updated entries
  updated-entries = (entries_set p.bytes s value e p.slots i here v.disjoint v.heads).0

  updated_suffix : (x : ℕ) → heap_end p ≤ x → updated.bytes x ≡ p.bytes x
  unfolding updated overwritten write_bytes
  updated_suffix x h = elim (eq-zero-or-pos (length value)) [
    | inl empty ↦ rw (length-eq-zero value empty)
    | inr some_bytes ↦
        write_bytes_outside p.bytes (s.offset + s.key_len) value x (inr (omega (arith, inside)))
  ]

  updated-IsValid : IsValid updated
  unfolding updated overwritten
  updated-IsValid = record {
    apart = v.apart;
    room = v.room;
    counted = v.counted;
    in_heap = v.in_heap;
    disjoint = v.disjoint;
    heads = (entries_set p.bytes s value e p.slots i here v.disjoint v.heads).1;
    is_bytes = write_bytes-IsByte p.bytes (s.offset + s.key_len) value value_bytes v.is_bytes;
  }

  update_runs : update_value_if_same_length p i value ≡ some (updated, true)
  unfolding update_value_if_same_length updated overwritten
  update_runs = rw (
    here,
    (==_iff (length value) s.val_len).1 e,
    le→leb (s.offset + s.key_len + length value) page_size (omega (arith, inside)),
  )

-- The slot behind an entry.
pub slot_of :
    (p : SlottedPage) (i : ℕ) (key old : List ℕ)
    → get_elem? (entries p) i ≡ some (key, old)
    → (s : Slot) × (get_elem? p.slots i ≡ some s)
      × (read_bytes p.bytes s.offset s.key_len ≡ key)
      × (length old ≡ s.val_len)
unfolding entries
slot_of p i key old e = elim (Option-cases (get_elem? p.slots i)) [
  | inl missing ↦ absurd (none_there missing)
  | inr (s, here) ↦
      let found = some-injective _ _ (sym (get_elem?-map (payload p.bytes) p.slots i here) ∙ e) in
      (
        s,
        here,
        ap (λ q. q.0) found,
        sym (ap (λ q. length q.1) found)
            ∙ length-read_bytes p.bytes (s.offset + s.key_len) s.val_len,
      )
]
  where
    none_there : get_elem? p.slots i ≡ none → ⊥
    none_there missing = cc (get_elem?-map-none (payload p.bytes) p.slots i missing)

-- A value of the old length is written in place: this entry gets it, and every other entry and the
-- reserved suffix stay.
pub update_lem :
    (p : SlottedPage) (i : ℕ) (value key old : List ℕ)
    → IsValid p
    → All IsByte value
    → get_elem? (entries p) i ≡ some (key, old)
    → length value ≡ length old
    → (q : SlottedPage) × (update_value_if_same_length p i value ≡ some (q, true))
      × (entries q ≡ set (entries p) i (key, value))
      × ((x : ℕ) → q.bytes (heap_end p + x) ≡ p.bytes (heap_end p + x))
      × IsValid q
update_lem p i value key old v vb e len =
    let (s, here, key_read, val_len) = slot_of p i key old e in
    let same : length value ≡ s.val_len = len ∙ val_len in
    (
      updated p v i s here value vb same,
      update_runs p v i s here value vb same,
      updated-entries p v i s here value vb same ∙ ap (λ k. set (entries p) i (k, value)) key_read,
      λ x. updated_suffix p v i s here value vb same (heap_end p + x) (omega arith),
      updated-IsValid p v i s here value vb same,
    )

-- The slots and the accounts are as they were.
pub update-accounts :
    (p q : SlottedPage) (i : ℕ) (value key old : List ℕ)
    → IsValid p
    → All IsByte value
    → get_elem? (entries p) i ≡ some (key, old)
    → length value ≡ length old
    → update_value_if_same_length p i value ≡ some (q, true)
    → (heap_end q ≡ heap_end p)
      × (q.slots ≡ p.slots)
      × (q.space_used ≡ p.space_used)
      × (q.data_offset ≡ p.data_offset)
unfolding updated
update-accounts p q i value key old v vb e len runs =
    let (s, here, key_read, val_len) = slot_of p i key old e in
    let same : length value ≡ s.val_len = len ∙ val_len in
    let is = some-injective _ _ (sym (update_runs p v i s here value vb same) ∙ runs) in
    (
      ap (λ r. heap_end (r.0)) (sym is),
      ap (λ r. (r.0).slots) (sym is),
      ap (λ r. (r.0).space_used) (sym is),
      ap (λ r. (r.0).data_offset) (sym is),
    )

-- The flags are as they were, and so is each byte outside the value.
pub update-bytes :
    (p q : SlottedPage) (i : ℕ) (value : List ℕ) (s : Slot)
    → IsValid p
    → All IsByte value
    → get_elem? p.slots i ≡ some s
    → length value ≡ s.val_len
    → update_value_if_same_length p i value ≡ some (q, true)
    → (q.flags ≡ p.flags)
      × ((x : ℕ)
          → (x < s.offset + s.key_len) ⊎ (s.offset + s.key_len + s.val_len ≤ x)
          → q.bytes x ≡ p.bytes x)
unfolding updated overwritten
update-bytes p q i value s v vb here same runs =
    let is = some-injective _ _ (sym (update_runs p v i s here value vb same) ∙ runs) in
    (
      ap (λ r. (r.0).flags) (sym is),
      λ x outside.
          ap (λ r. (r.0).bytes x) (sym is)
          ∙ write_bytes_outside p.bytes (s.offset + s.key_len) value x (apart x outside),
    )
  where
    apart :
        (x : ℕ)
        → (x < s.offset + s.key_len) ⊎ (s.offset + s.key_len + s.val_len ≤ x)
        → (x < s.offset + s.key_len) ⊎ (s.offset + s.key_len + length value ≤ x)
    apart x (inl below) = inl below
    apart x (inr above) = inr (omega (arith, above, same))

-- A value of any other length is refused, and the page stays.
pub update_refused :
    (p : SlottedPage) (i : ℕ) (value key old : List ℕ)
    → get_elem? (entries p) i ≡ some (key, old)
    → length value ≢ length old
    → update_value_if_same_length p i value ≡ some (p, false)
unfolding update_value_if_same_length
update_refused p i value key old e differs =
    let (s, here, key_read, val_len) = slot_of p i key old e in
    rw (here, not_same s.val_len val_len)
  where
    not_same : (n : ℕ) → length old ≡ n → (length value == n) ≡ false
    not_same n h = ground arith
