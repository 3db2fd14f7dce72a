-- ===== src/Slotted/Append.antt =====
-- Entries appended to a fresh page, by the `insert` of `crates/storage/src/slotted_page.rs`.
use pagebox.Base.{
  ℕ, zero, suc, ◌+◌, ◌-◌, ◌*◌, ◌≤◌, ◌≡◌, refl, sym, ap, ◌∙◌, List, [], ◌∷◌, ◌++◌, some, false,
  arith, length, insert_at, All, ltb, length-append,
}
use pagebox.Bytes.Memory.{IsByte}
use pagebox.Slotted.Layout.{
  SlottedPage, IsValid, page_size, slot_size, entries, num_slots, free_space, heap_end,
}
use pagebox.Slotted.Ops.{insert, ensure_space}
use pagebox.Slotted.Place.{
  placed, placed-Inserted, placed-flags, placed-data_offset, placed-num_slots, place_lem,
}
use pagebox.Slotted.LowerBound.{length-map}

-- The room that entries take.
abbrev pub cost : List (List ℕ × List ℕ) → ℕ
cost [] = 0
cost (e ∷ es) = slot_size + (length (e.0) + length (e.1)) + cost es

abbrev pub entry_bytes : List (List ℕ × List ℕ) → ℕ
entry_bytes [] = 0
entry_bytes (e ∷ es) = length (e.0) + length (e.1) + entry_bytes es

-- No gap in the heap, as in a page that was built by inserts.
abbrev pub IsTight : SlottedPage → Type 0
IsTight p = p.data_offset + p.space_used ≡ page_size

abbrev pub IsEntry : List ℕ × List ℕ → Type 0
IsEntry e = All IsByte (e.0) × All IsByte (e.1)

-- A page with entries appended.
pub record Appended (p q : SlottedPage) (es : List (List ℕ × List ℕ)) : Type 0 where
  pub new_entries : entries q ≡ entries p ++ es
  pub more_slots : num_slots q ≡ num_slots p + length es
  pub more_used : q.space_used ≡ p.space_used + entry_bytes es
  pub same_flags : q.flags ≡ p.flags
  pub same_lsn : q.page_lsn ≡ p.page_lsn
  pub same_end : heap_end q ≡ heap_end p
  pub suffix : (x : ℕ) → heap_end p ≤ x → q.bytes x ≡ p.bytes x
  pub tight : IsTight q
  pub valid : IsValid q

insert_at-length {ℓ} :
    {A : Type ℓ} (xs : List A) (x : A) (n : ℕ) → length xs ≡ n → insert_at xs n x ≡ xs ++ (x ∷ [])
insert_at-length [] x zero e = refl
insert_at-length [] x (suc n) e = absurd (omega arith)
insert_at-length (y ∷ ys) x zero e = absurd (omega arith)
insert_at-length (y ∷ ys) x (suc n) e = ap (◌∷◌ y) (insert_at-length ys x n (omega arith))

pub append_assoc {ℓ} : {A : Type ℓ} (xs ys zs : List A) → (xs ++ ys) ++ zs ≡ xs ++ (ys ++ zs)
append_assoc [] ys zs = refl
append_assoc (x ∷ xs) ys zs = ap (◌∷◌ x) (append_assoc xs ys zs)

pub append_none {ℓ} : {A : Type ℓ} (xs : List A) → xs ++ [] ≡ xs
append_none [] = refl
append_none (x ∷ xs) = ap (◌∷◌ x) (append_none xs)

entry_bytes-append :
    (es fs : List (List ℕ × List ℕ)) → entry_bytes (es ++ fs) ≡ entry_bytes es + entry_bytes fs
entry_bytes-append [] fs = omega arith
entry_bytes-append (e ∷ es) fs = omega (arith, entry_bytes-append es fs)

pub cost-append : (es fs : List (List ℕ × List ℕ)) → cost (es ++ fs) ≡ cost es + cost fs
cost-append [] fs = omega arith
cost-append (e ∷ es) fs = omega (arith, cost-append es fs)

pub cost_lem : (es : List (List ℕ × List ℕ)) → cost es ≡ slot_size * length es + entry_bytes es
cost_lem [] = refl
cost_lem (e ∷ es) = omega (arith, cost_lem es)

-- The room that is left.
pub free_space-Appended :
    {p q : SlottedPage} (es : List (List ℕ × List ℕ))
    → IsTight p
    → Appended p q es
    → free_space q ≡ free_space p - cost es
free_space-Appended es tight a =
    omega (arith, cost_lem es, a.more_slots, a.more_used, a.tight, tight)

pub Appended-refl : {p : SlottedPage} → IsTight p → IsValid p → Appended p p []
Appended-refl {p} tight valid = record {
  new_entries = sym (append_none (entries p));
  more_slots = omega arith;
  more_used = omega arith;
  same_flags = refl;
  same_lsn = refl;
  same_end = refl;
  suffix = λ x h. refl;
  tight = tight;
  valid = valid;
}

pub Appended-trans :
    {p q r : SlottedPage} (es fs : List (List ℕ × List ℕ))
    → Appended p q es
    → Appended q r fs
    → Appended p r (es ++ fs)
Appended-trans {p} es fs a b = record {
  new_entries = b.new_entries ∙ ap (λ xs. xs ++ fs) a.new_entries ∙ append_assoc (entries p) es fs;
  more_slots = omega (arith, a.more_slots, b.more_slots, length-append es fs);
  more_used = omega (arith, a.more_used, b.more_used, entry_bytes-append es fs);
  same_flags = b.same_flags ∙ a.same_flags;
  same_lsn = b.same_lsn ∙ a.same_lsn;
  same_end = b.same_end ∙ a.same_end;
  suffix = λ x h. b.suffix x (omega (arith, h, a.same_end)) ∙ a.suffix x h;
  tight = b.tight;
  valid = b.valid;
}

pub length-entries : (p : SlottedPage) → length (entries p) ≡ num_slots p
unfolding entries
length-entries p = length-map _ p.slots

-- An entry appended to a page without gaps, with room for it: no compaction is called for.
pub append_lem :
    (p : SlottedPage) (key value : List ℕ)
    → IsValid p
    → IsTight p
    → All IsByte key
    → All IsByte value
    → slot_size + (length key + length value) ≤ free_space p
    → (q : SlottedPage) × (insert p (num_slots p) key value ≡ some q)
      × Appended p q ((key, value) ∷ [])
unfolding insert ensure_space
append_lem p key value v tight kb vb fits =
    let at : num_slots p ≤ num_slots p = omega arith in
    let q = placed p v (num_slots p) key value kb vb at fits in
    let ins = placed-Inserted p v (num_slots p) key value kb vb at fits in
    let roomy : ltb (free_space p) (slot_size + (length key + length value)) ≡ false =
      ground arith in
    let moved = placed-data_offset p v (num_slots p) key value kb vb at fits in
    (
      q,
      rw roomy (place_lem p v (num_slots p) key value kb vb at fits),
      record {
        new_entries =
            ins.new_entries
            ∙ insert_at-length (entries p) (key, value) (num_slots p) (length-entries p);
        more_slots = omega (arith, placed-num_slots p v (num_slots p) key value kb vb at fits);
        more_used = omega (arith, ins.more_used);
        same_flags = placed-flags p v (num_slots p) key value kb vb at fits;
        same_lsn = ins.same_lsn;
        same_end = ins.same_end;
        suffix = ins.suffix;
        tight = omega (arith, ins.more_used, moved, tight);
        valid = ins.valid;
      },
    )
