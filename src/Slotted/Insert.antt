-- ===== src/Slotted/Insert.antt =====
-- What `insert` of `crates/storage/src/slotted_page.rs` does to a page.
use mathlib.Core.Option.{some-injective}
use pagebox.Base.{
  ℕ, ◌+◌, ◌≤◌, ◌<◌, sym, get_elem?, ◌≡◌, refl, ap, ◌∙◌, ◌⊎◌, inl, inr, List, some, none, true,
  false, arith, length, insert_at, All, ltb, le→leb, ltb→lt, ltb→le, Bool-cases,
}
use pagebox.Bytes.Memory.{IsByte}
use pagebox.Slotted.Layout.{
  SlottedPage, IsValid, slot_size, entries, num_slots, free_space, free_space_after_compaction,
  heap_end,
}
use pagebox.Slotted.Ops.{insert, ensure_space, can_insert}
use pagebox.Slotted.Compactify.{Compacted, compactify_lem}
use pagebox.Slotted.Place.{
  Inserted, placed, placed-Inserted, placed-slots, placed-bytes, placed-data_offset, place_lem,
}

-- Making room keeps the entries, and succeeds if there is room in all.
abbrev Roomy : SlottedPage → ℕ → SlottedPage → Type 0
Roomy p needed q =
    (entries q ≡ entries p)
    × (num_slots q ≡ num_slots p)
    × (q.space_used ≡ p.space_used)
    × (q.page_lsn ≡ p.page_lsn)
    × (heap_end q ≡ heap_end p)
    × ((x : ℕ) → heap_end p ≤ x → q.bytes x ≡ p.bytes x)
    × (needed ≤ free_space q)
    × IsValid q

Compacted-heap_end : {p q : SlottedPage} → Compacted p q → heap_end q ≡ heap_end p
Compacted-heap_end c = omega (arith, c.same_used, c.same_live)

ensure_space_lem :
    (p : SlottedPage) (needed : ℕ)
    → IsValid p
    → (needed ≤ free_space p) ⊎ (needed ≤ free_space_after_compaction p)
    → (q : SlottedPage) × (ensure_space p needed ≡ some q) × Roomy p needed q
unfolding ensure_space
ensure_space_lem p needed v room = elim (Bool-cases (ltb (free_space p) needed)) [
  | inl short ↦
      let enough : needed ≤ free_space_after_compaction p = omega (arith, ltb→lt _ _ short) in
      let r = compactify_lem p v in
      let c = r.2 in
      (
        r.0,
        rw (short, le→leb _ _ enough) r.1,
        (
          c.same_entries,
          c.same_count,
          c.same_used,
          c.same_lsn,
          Compacted-heap_end c,
          c.suffix,
          omega (arith, c.same_count, c.same_used, c.tight),
          c.valid,
        ),
      )
  | inr enough ↦ (p, rw enough, (refl, refl, refl, refl, refl, λ x h. refl, ltb→le _ _ enough, v))
]

room_found :
    (p : SlottedPage) (k w : ℕ)
    → can_insert p k w ≡ true
    → (slot_size + (k + w) ≤ free_space p) ⊎ (slot_size + (k + w) ≤ free_space_after_compaction p)
unfolding can_insert
room_found p k w h = ground arith

Inserted-after :
    (p q r : SlottedPage) (i needed : ℕ) (key value : List ℕ)
    → Roomy p needed q
    → Inserted q r i key value
    → Inserted p r i key value
Inserted-after p q r i needed key value ok ins = record {
  new_entries = ins.new_entries ∙ ap (λ es. insert_at es i (key, value)) ok.0;
  more_used = omega (arith, ins.more_used, ok.2);
  same_lsn = ins.same_lsn ∙ ok.3;
  same_end = ins.same_end ∙ ok.4;
  suffix = λ x h. ins.suffix x (omega (arith, ok.4)) ∙ ok.5 x h;
  valid = ins.valid;
}

-- `insert` does not panic on a valid page where `can_insert` holds: the page gets the entry at the
-- given place and is valid again.
pub insert_lem :
    (p : SlottedPage) (i : ℕ) (key value : List ℕ)
    → IsValid p
    → All IsByte key
    → All IsByte value
    → i ≤ num_slots p
    → can_insert p (length key) (length value) ≡ true
    → (q : SlottedPage) × (insert p i key value ≡ some q) × Inserted p q i key value
unfolding insert
insert_lem p i key value v kb vb in_range room =
    let needed = slot_size + (length key + length value) in
    let made = ensure_space_lem p needed v (room_found p (length key) (length value) room) in
    let ok = made.2 in
    let here : i ≤ num_slots made.0 = omega (arith, ok.1) in
    (
      placed made.0 ok.7 i key value kb vb here ok.6,
      rw made.1 (place_lem made.0 ok.7 i key value kb vb here ok.6),
      Inserted-after p made.0 _ i needed key value ok
          (placed-Inserted made.0 ok.7 i key value kb vb here ok.6),
    )

-- Where the entry fits without a compaction, nothing that was there moves.
pub insert_unmoved :
    (p q : SlottedPage) (i : ℕ) (key value : List ℕ)
    → IsValid p
    → All IsByte key
    → All IsByte value
    → i ≤ num_slots p
    → ltb (free_space p) (slot_size + (length key + length value)) ≡ false
    → insert p i key value ≡ some q
    → ((j : ℕ) → j < i → get_elem? q.slots j ≡ get_elem? p.slots j)
      × ((x : ℕ) → p.data_offset ≤ x → q.bytes x ≡ p.bytes x)
      × (q.data_offset + (length key + length value) ≡ p.data_offset)
unfolding insert ensure_space
insert_unmoved p q i key value v kb vb in_range roomy runs =
    let fits = ltb→le _ _ roomy in
    let placed_runs : insert p i key value ≡ some (placed p v i key value kb vb in_range fits) =
      rw roomy (place_lem p v i key value kb vb in_range fits) in
    let same : placed p v i key value kb vb in_range fits ≡ q =
      some-injective _ _ (sym placed_runs ∙ runs) in
    (
      λ j low.
          ap (λ r. get_elem? r.slots j) (sym same)
          ∙ placed-slots p v i key value kb vb in_range fits j low,
      λ x high.
          ap (λ r. r.bytes x) (sym same) ∙ placed-bytes p v i key value kb vb in_range fits x high,
      omega (
        arith,
        ap (λ r. r.data_offset) same,
        placed-data_offset p v i key value kb vb in_range fits,
      ),
    )

-- Where `can_insert` does not hold, `insert` panics with "slotted page full".
pub insert_full :
    (p : SlottedPage) (i : ℕ) (key value : List ℕ)
    → can_insert p (length key) (length value) ≡ false
    → insert p i key value ≡ none
unfolding insert can_insert ensure_space
insert_full p i key value full = ground arith
