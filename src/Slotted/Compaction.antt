-- ===== src/Slotted/Compaction.antt =====
-- `compactify` of `crates/storage/src/slotted_page.rs`, loop by loop.
use native.Mathlib.Nat.{eq-zero-or-pos, mod-eq_of_lt}
use pagebox.Base.{
  ℕ, suc, ◌+◌, ◌-◌, ◌%◌, ◌≤◌, ◌<◌, ◌≡◌, refl, sym, ap, subst, ◌∙◌, inl, inr, List, [], ◌∷◌, map,
  some, arith, length, All, All-map, checked_sub-some, le→leb,
}
use pagebox.Bytes.Memory.{
  Memory, read_bytes, write_bytes, write_bytes_outside, read_bytes_cong, read_back,
  length-read_bytes, write_bytes-IsByte, read_bytes-IsByte, IsByte,
}
use pagebox.Slotted.Layout.{
  Slot, page_size, payload, data_len, live_data, InHeap, HeadFits, Separate, Disjoint,
}
use pagebox.Slotted.Ops.{sum_live, gather, write_back, Packed}
use pagebox.Slotted.Payload.{payload_moved, HeadFits-cong}

-- The first loop passes on slots that end inside the page, and sums their bytes.
pub sum_live_lem :
    (d e : ℕ) (ss : List Slot) (live : ℕ)
    → All (InHeap d e) ss
    → sum_live ss live ≡ some (live + live_data ss)
unfolding sum_live
sum_live_lem d e [] live all = ground arith
sum_live_lem d e (s ∷ ss) live all =
    rw (le→leb _ _ all.0.0) (sum_live_lem d e ss (live + data_len s) all.1 ∙ ap some (omega arith))

-- What packing the slots `ss` downwards from `top` leaves, in `q`: the same entries, in one block of
-- the live bytes that ends at `top`, and nothing changed from there on.
pub record Repacked (src m : Memory) (top : ℕ) (ss : List Slot) (q : Packed) : Type 0 where
  pub block : q.packed_offset + live_data ss ≡ top
  pub kept : (x : ℕ) → top ≤ x → q.packed_bytes x ≡ m x
  pub same : map (payload q.packed_bytes) q.packed_slots ≡ map (payload src) ss
  pub in_block : All (InHeap q.packed_offset top) q.packed_slots
  pub disjoint : Disjoint q.packed_slots
  pub heads : All (HeadFits src) ss → All (HeadFits q.packed_bytes) q.packed_slots
  pub live : live_data q.packed_slots ≡ live_data ss
  pub count : length q.packed_slots ≡ length ss
  pub are_bytes : ((x : ℕ) → IsByte (m x)) → (x : ℕ) → IsByte (q.packed_bytes x)

-- `gather` and then `write_back`, from one offset: neither panics.
abbrev pub Repacks : Memory → Memory → ℕ → List Slot → Type 0
Repacks src tmp top ss =
    (t : Memory) × (gather src tmp top ss ≡ some t)
    × ((x : ℕ) → top ≤ x → t x ≡ tmp x)
    × (((x : ℕ) → IsByte (src x))
        → (m : Memory) → (q : Packed) × (write_back t m top ss ≡ some q) × Repacked src m top ss q)

-- One slot in front of slots that are packed already.
module _ (src tmp m : Memory) (top : ℕ) (s : Slot) (ss : List Slot) (top-le : top ≤ page_size)
    (fits : data_len s + live_data ss ≤ top) (small : data_len s + live_data ss < 65536) where
  at : ℕ
  at = top - data_len s

  block_of : List ℕ
  block_of = read_bytes src s.offset (data_len s)

  moved : Slot
  moved = record s { offset = at % 65536 }

  module _ (t : Memory) (q : Packed)
      (filled : (x : ℕ) → at ≤ x → t x ≡ write_bytes tmp at block_of x)
      (ok : (x : ℕ) → IsByte (src x))
      (r : Repacked src (write_bytes m at (read_bytes t at (data_len s))) at ss q) where
    gathered : read_bytes t at (data_len s) ≡ block_of
    unfolding block_of
    gathered =
        read_bytes_cong t _ at (data_len s) (λ x p h. filled x p)
        ∙ read_back tmp at block_of (length-read_bytes src s.offset (data_len s))

    landed : read_bytes q.packed_bytes at (data_len s) ≡ block_of
    landed =
        read_bytes_cong q.packed_bytes _ at (data_len s) (λ x p h. r.kept x p)
        ∙ read_back m at _ (length-read_bytes t at (data_len s))
        ∙ gathered

    entry : payload q.packed_bytes moved ≡ payload src s
    unfolding moved block_of at
    entry =
        let parts =
          payload_moved q.packed_bytes src at s.offset s.key_len s.val_len (omega arith) landed in
        λ i. (parts.0 i, parts.1 i)

    below_moved : (u : Slot) → InHeap q.packed_offset at u → Separate moved u
    unfolding moved at
    below_moved u (inside, inl nothing) = inr (inl nothing)
    below_moved u (inside, inr range) = elim (eq-zero-or-pos (data_len s)) [
      | inl e ↦ inl e
      | inr h ↦ inr (inr (inr (omega arith)))
    ]

    Repacked-cons : Repacked src m top (s ∷ ss) (record q { packed_slots = moved ∷ q.packed_slots })
    unfolding at moved block_of
    Repacked-cons = record {
      block = omega (arith, r.block);
      kept = λ x h.
          r.kept x (omega arith)
          ∙ write_bytes_outside m at _ x (inr (omega (arith, length-read_bytes t at (data_len s))));
      same = λ i. entry i ∷ r.same i;
      in_block = (
        (
          omega arith,
          elim (eq-zero-or-pos (data_len s)) [
            | inl e ↦ inl e
            | inr h ↦ inr (omega (arith, r.block), omega arith)
          ],
        ),
        All-map q.packed_slots (λ u h. omega (arith, h)) r.in_block,
      );
      disjoint = (All-map q.packed_slots (λ u h. below_moved u h) r.in_block, r.disjoint);
      heads = λ h. (HeadFits-cong src q.packed_bytes s moved refl (sym entry) h.0, r.heads h.1);
      live = omega (arith, r.live);
      count = ap suc r.count;
      are_bytes = λ h. r.are_bytes (
          write_bytes-IsByte m at _
            (subst (All IsByte) (sym gathered) (read_bytes-IsByte src s.offset (data_len s) ok)) h);
    }

Repacked-nil :
    (src m : Memory) (top : ℕ)
    → Repacked src m top [] (record { packed_slots = []; packed_bytes = m; packed_offset = top })
Repacked-nil src m top = record {
  block = omega arith;
  kept = λ x h. refl;
  same = refl;
  in_block = tt;
  disjoint = tt;
  heads = λ h. tt;
  live = refl;
  count = refl;
  are_bytes = λ h. h;
}

write_back_cons :
    (t m : Memory) (top : ℕ) (s : Slot) (ss : List Slot) (q : Packed)
    → data_len s ≤ top
    → data_len s < 65536
    → write_back t
        (write_bytes m (top - data_len s) (read_bytes t (top - data_len s) (data_len s)))
        (top - data_len s)
        ss
      ≡ some q
    → write_back t m top (s ∷ ss)
      ≡ some (record q {
        packed_slots = record s { offset = (top - data_len s) % 65536 } ∷ q.packed_slots;
      })
unfolding write_back
write_back_cons t m top s ss q fits small e =
    rw (mod-eq_of_lt small, checked_sub-some top (data_len s) fits, e)

-- The loops of `compactify`, run one after the other on the same slots.
pub repack :
    (src tmp : Memory) (top : ℕ) (ss : List Slot)
    → top ≤ page_size
    → live_data ss ≤ top
    → live_data ss < 65536
    → Repacks src tmp top ss
unfolding gather write_back at moved block_of
repack src tmp top [] a b c = (tmp, refl, λ x h. refl, λ ok m. (_, refl, Repacked-nil src m top))
repack src tmp top (s ∷ ss) a b c =
    let low = top - data_len s in
    let block = read_bytes src s.offset (data_len s) in
    let ih =
      repack src (write_bytes tmp low block) low ss (omega arith) (omega arith) (omega arith) in
    (
      ih.0,
      rw (checked_sub-some top (data_len s) (omega arith)) ih.1,
      λ x h.
          ih.2 x (omega arith)
          ∙ write_bytes_outside tmp low block x
              (inr (omega (arith, length-read_bytes src s.offset (data_len s)))),
      λ ok m.
          let rest = ih.3 ok (write_bytes m low (read_bytes ih.0 low (data_len s))) in
          (
            record rest.0 { packed_slots = moved src tmp m top s ss a b c ∷ rest.0.packed_slots },
            write_back_cons ih.0 m top s ss rest.0 (omega arith) (omega arith) rest.1,
            Repacked-cons src tmp m top s ss a b c ih.0 rest.0 ih.2 ok rest.2,
          ),
    )
