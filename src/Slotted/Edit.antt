-- ===== src/Slotted/Edit.antt =====
-- The other operations on a page in `crates/storage/src/slotted_page.rs`: reads, `remove`,
-- `truncate`, and the page that `init` and `reserve_suffix` give.
use Prim.Native.Nat.{bit_and}
use mathlib.Core.Option
use native.Mathlib.Decide.{dec_lt}
use pagebox.Base.{
  ℕ, suc, ◌+◌, ◌-◌, ◌≤◌, ◌<◌, ◌≡◌, refl, sym, subst, ◌∙◌, inl, inr, List, [], some, length, none,
  true, arith, length-remove_at, get_elem?, get_elem?-some, get_elem?-none, remove_at, All,
  All-remove_at, All-get_elem?, checked_sub-some, le→leb, Option-cases,
}
use pagebox.Bytes.Memory.{read_bytes, length-read_bytes}
use pagebox.Base.Bits.{bit_and-one, bit_or-one}
use pagebox.Slotted.Layout.{
  SlottedPage, Slot, IsValid, page_size, header_size, entries, num_slots, heap_end, live_data,
  data_len, InHeap, HeadFits, payload, init, reserve_suffix, get_key, get_value, has_garbage,
}
use pagebox.Slotted.Ops.{remove, mark_garbage}
use pagebox.Slotted.Accounts.{
  map-remove_at, get_elem?-map, get_elem?-map-none, live_data-remove_at, Disjoint-remove_at,
}

-- A fresh page with a reserved suffix is valid and empty.
init-IsValid :
    (n : ℕ)
    → n + header_size ≤ page_size
    → (p : SlottedPage) × (reserve_suffix init n ≡ some p) × (entries p ≡ []) × IsValid p
unfolding init reserve_suffix entries
init-IsValid n h = (
  record init { data_offset = page_size - n; space_used = n },
  rw (le→leb n page_size (omega arith)) (ground arith),
  refl,
  record {
    apart = omega arith;
    room = omega arith;
    counted = omega arith;
    in_heap = tt;
    disjoint = tt;
    heads = tt;
    is_bytes = λ a. omega arith;
  },
)

-- On a valid page the accessors read the entry, and panic where there is none.
pub get_lem :
    (p : SlottedPage) (i : ℕ)
    → IsValid p
    → (get_key p i ≡ Option.map (λ q. q.0) (get_elem? (entries p) i))
      × (get_value p i ≡ Option.map (λ q. q.1) (get_elem? (entries p) i))
unfolding get_key get_value entries
get_lem p i v = elim (Option-cases (get_elem? p.slots i)) [
  | inl e ↦
      let missing = get_elem?-map-none (payload p.bytes) p.slots i e in
      (rw (e, missing), rw (e, missing))
  | inr (s, e) ↦
      let inside = All-get_elem? (InHeap p.data_offset (heap_end p)) p.slots i v.in_heap e in
      let here = get_elem?-map (payload p.bytes) p.slots i e in
      (
        rw (e, here, le→leb (s.offset + s.key_len) page_size (omega arith)),
        rw (e, here, le→leb (s.offset + s.key_len + s.val_len) page_size (omega arith)),
      )
]

marked_flags : (flags : ℕ) → bit_and (mark_garbage flags) 1 ≡ 1
marked_flags flags = bit_and-one (mark_garbage flags) ∙ omega (arith, bit_or-one flags)

-- The page `q` is `p` without the entry `i`; its bytes stay as garbage.
pub record Removed (p q : SlottedPage) (i : ℕ) : Type 0 where
  pub fewer_entries : entries q ≡ remove_at (entries p) i
  pub freed :
      (e : List ℕ × List ℕ) × (get_elem? (entries p) i ≡ some e)
      × (q.space_used + (length (e.0) + length (e.1)) ≡ p.space_used)
  pub one_less : suc (num_slots q) ≡ num_slots p
  pub slots_are : q.slots ≡ remove_at p.slots i
  pub same_bytes : q.bytes ≡ p.bytes
  pub same_end : heap_end q ≡ heap_end p
  pub dirty : has_garbage q ≡ true
  pub valid : IsValid q

module _ (p : SlottedPage) (v : IsValid p) (i : ℕ) (s : Slot)
    (e : get_elem? p.slots i ≡ some s) where
  less_live : live_data p.slots ≡ data_len s + live_data (remove_at p.slots i)
  less_live = live_data-remove_at p.slots i e

  in_range : i < num_slots p
  in_range = elim (dec_lt i (num_slots p)) [
    | yes h ↦ h
    | no h ↦ absurd (none_there (get_elem?-none p.slots i (omega arith)))
  ]
    where
      none_there : get_elem? p.slots i ≡ none → ⊥
      none_there e' = cc

  removed : SlottedPage
  removed = record p {
    space_used = p.space_used - data_len s;
    slots = remove_at p.slots i;
    flags = mark_garbage p.flags;
  }

  removed_end : heap_end removed ≡ heap_end p
  unfolding removed
  removed_end = omega (arith, less_live, v.counted)

  frees :
      removed.space_used
        + (length (read_bytes p.bytes s.offset s.key_len)
            + length (read_bytes p.bytes (s.offset + s.key_len) s.val_len))
      ≡ p.space_used
  unfolding removed
  frees = omega (
    arith,
    length-read_bytes p.bytes s.offset s.key_len,
    length-read_bytes p.bytes (s.offset + s.key_len) s.val_len,
    less_live,
    v.counted,
  )

  removed-Removed : Removed p removed i
  unfolding removed entries has_garbage
  removed-Removed = record {
    fewer_entries = map-remove_at (payload p.bytes) p.slots i;
    freed = (payload p.bytes s, get_elem?-map (payload p.bytes) p.slots i e, frees);
    one_less = length-remove_at p.slots i in_range;
    slots_are = refl;
    same_bytes = refl;
    same_end = removed_end;
    dirty = rw (marked_flags p.flags);
    valid = record {
      apart = omega (arith, length-remove_at p.slots i in_range, v.apart);
      room = omega (arith, v.room);
      counted = omega (arith, less_live, v.counted);
      in_heap =
          subst (λ t. All (InHeap p.data_offset t) (remove_at p.slots i)) (sym removed_end)
            (All-remove_at (InHeap p.data_offset (heap_end p)) p.slots i v.in_heap);
      disjoint = Disjoint-remove_at p.slots i v.disjoint;
      heads = All-remove_at (HeadFits p.bytes) p.slots i v.heads;
      is_bytes = v.is_bytes;
    };
  }

  remove_found : remove p i ≡ some removed
  unfolding remove removed
  remove_found =
      rw (e, checked_sub-some p.space_used (data_len s) (omega (arith, less_live, v.counted)))

-- `remove` takes one entry out of a valid page, which stays valid.
pub remove_lem :
    (p : SlottedPage) (i : ℕ)
    → IsValid p
    → i < num_slots p
    → (q : SlottedPage) × (remove p i ≡ some q) × Removed p q i
remove_lem p i v h =
    let (s, e) = get_elem?-some p.slots i h in
    (removed p v i s e, remove_found p v i s e, removed-Removed p v i s e)
