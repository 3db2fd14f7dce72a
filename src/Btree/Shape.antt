-- ===== src/Btree/Shape.antt =====
-- The pages of leaves and inner nodes in `crates/btree/src/btree/node.rs`: blank ones, and the links and the
-- upper swip in their suffix.
use pagebox.Base.{
  ℕ, ◌+◌, ◌-◌, ◌^◌, ◌≤◌, ◌<◌, ◌≡◌, refl, ◌∙◌, subst, inr, List, [], ◌∷◌, some, true, false, arith,
  length, All,
}
use native.Mathlib.Nat.{pow-succ'}
use pagebox.Bytes.Memory.{Memory, IsByte, read_bytes, read_bytes-IsByte, length-read_bytes}
use pagebox.Bytes.LittleEndian.{from_le_bytes}
use pagebox.Bytes.Fields.{get_le, put_le, put_le-IsByte, get_le-put_le, get_le-put_le_apart}
use pagebox.Slotted.Layout.{
  SlottedPage, IsValid, page_size, header_size, entries, num_slots, free_space, heap_end, init,
  reserve_suffix,
}
use pagebox.Slotted.Suffix.{Kept, Kept-trans, put_le-Kept}
use pagebox.Slotted.Append.{IsTight}
use pagebox.Btree.Node.{
  upper_offset, left_sibling_offset, right_sibling_offset, init_node, upper_swip, set_upper,
  leaf_right_pid, set_leaf_right_pid, leaf_left_pid, set_leaf_left_pid,
}
use pagebox.Btree.Split.{link_leaf}

-- A page as `init` and `reserve_suffix` leave it.
pub record Blank (suffix flags : ℕ) (p : SlottedPage) : Type 0 where
  pub no_entries : entries p ≡ []
  pub no_slots : num_slots p ≡ 0
  pub flags_are : p.flags ≡ flags
  pub ends_at : heap_end p ≡ page_size - suffix
  pub all_free : free_space p ≡ page_size - (header_size + suffix)
  pub tight : IsTight p
  pub valid : IsValid p

Blank-Kept :
    {p q : SlottedPage} {n flags flags' : ℕ}
    → Blank n flags p
    → Kept p q
    → q.flags ≡ flags'
    → Blank n flags' q
Blank-Kept b k f = record {
  no_entries = k.same_entries ∙ b.no_entries;
  no_slots = k.same_count ∙ b.no_slots;
  flags_are = f;
  ends_at = k.same_end ∙ b.ends_at;
  all_free = omega (arith, k.same_offset, k.same_count, b.all_free);
  tight = omega (arith, k.same_offset, k.same_used, b.tight);
  valid = k.valid;
}

abbrev pub leaf_flags : ℕ
leaf_flags = 258

abbrev pub inner_flags : ℕ
inner_flags = 256

blank_page : ℕ → ℕ → Memory → SlottedPage
unfolding init
blank_page n flags m = record init {
  data_offset = page_size - n;
  space_used = n;
  flags = flags;
  bytes = m;
}

blank_page-Blank :
    (n flags : ℕ) (m : Memory)
    → n ≤ 16
    → ((a : ℕ) → IsByte (m a))
    → Blank n flags (blank_page n flags m)
unfolding blank_page init entries
blank_page-Blank n flags m small bytes = record {
  no_entries = refl;
  no_slots = refl;
  flags_are = refl;
  ends_at = omega arith;
  all_free = omega arith;
  tight = omega arith;
  valid = record {
    apart = omega arith;
    room = omega arith;
    counted = omega arith;
    in_heap = tt;
    disjoint = tt;
    heads = tt;
    is_bytes = bytes;
  };
}

zeros-IsByte : (a : ℕ) → IsByte 0
zeros-IsByte a = omega arith

pub reserve_suffix-Blank :
    (n : ℕ) → n ≤ 16 → (p : SlottedPage) × (reserve_suffix init n ≡ some p) × Blank n 0 p
unfolding reserve_suffix blank_page
reserve_suffix-Blank n small =
    (blank_page n 0 (λ a. 0), ground arith, blank_page-Blank n 0 (λ a. 0) small zeros-IsByte)

-- The zeros that `BTreeNode::init` writes once more.
cleared : Memory
cleared = put_le 8 right_sibling_offset 0 (put_le 8 upper_offset 0 (λ a. 0))

cleared-IsByte : (a : ℕ) → IsByte (cleared a)
unfolding cleared
cleared-IsByte =
    put_le-IsByte 8 right_sibling_offset 0 (put_le 8 upper_offset 0 (λ a. 0))
      (put_le-IsByte 8 upper_offset 0 (λ a. 0) zeros-IsByte)

pub init_node_leaf : (p : SlottedPage) × (init_node true ≡ some p) × Blank 16 leaf_flags p
unfolding init_node blank_page cleared
init_node_leaf = (
  blank_page 16 leaf_flags cleared,
  refl,
  blank_page-Blank 16 leaf_flags cleared (omega arith) cleared-IsByte,
)

pub init_node_inner : (p : SlottedPage) × (init_node false ≡ some p) × Blank 8 inner_flags p
unfolding init_node blank_page cleared
init_node_inner = (
  blank_page 8 inner_flags cleared,
  refl,
  blank_page-Blank 8 inner_flags cleared (omega arith) cleared-IsByte,
)

-- The links of a leaf are in its suffix.
module _ (p : SlottedPage) (v : IsValid p) (ends : heap_end p ≡ page_size - 16) (l r : ℕ) where
  pub link_leaf-Kept : Kept p (link_leaf p l r)
  unfolding set_leaf_left_pid set_leaf_right_pid
  link_leaf-Kept =
      let first = put_le-Kept p v 8 left_sibling_offset l (omega (arith, ends)) in
      Kept-trans first
        (put_le-Kept _ first.valid 8 right_sibling_offset r (omega (arith, ends, first.same_end)))

  pub link_leaf-links :
      l < 2 ^ 64
      → r < 2 ^ 64
      → (leaf_left_pid (link_leaf p l r) ≡ l) × (leaf_right_pid (link_leaf p l r) ≡ r)
  unfolding set_leaf_left_pid set_leaf_right_pid leaf_left_pid leaf_right_pid
  link_leaf-links l_fits r_fits =
      let m = put_le 8 left_sibling_offset l p.bytes in
      (
        get_le-put_le_apart 8 left_sibling_offset 8 right_sibling_offset r m (inr (omega arith))
            ∙ get_le-put_le 8 left_sibling_offset l p.bytes l_fits,
        get_le-put_le 8 right_sibling_offset r m r_fits,
      )

  pub link_leaf-flags : (link_leaf p l r).flags ≡ p.flags
  unfolding set_leaf_left_pid set_leaf_right_pid
  link_leaf-flags = refl

-- The upper swip is in the suffix.
module _ (p : SlottedPage) (v : IsValid p) (ends : heap_end p ≤ page_size - 8) (swip : ℕ) where
  pub set_upper-Kept : Kept p (set_upper p swip)
  unfolding set_upper
  set_upper-Kept = put_le-Kept p v 8 upper_offset swip (omega (arith, ends))

  pub upper_swip-set_upper : swip < 2 ^ 64 → upper_swip (set_upper p swip) ≡ swip
  unfolding set_upper upper_swip
  upper_swip-set_upper fits = get_le-put_le 8 upper_offset swip p.bytes fits

  pub set_upper-flags : (set_upper p swip).flags ≡ p.flags
  unfolding set_upper
  set_upper-flags = refl

-- A stored field of eight bytes fits into 64 bits.
pub from_le_bytes_fits : (bs : List ℕ) → All IsByte bs → from_le_bytes bs < 256 ^ length bs
unfolding from_le_bytes
from_le_bytes_fits [] all = omega arith
from_le_bytes_fits (b ∷ bs) (byte, all) =
    let rest = from_le_bytes_fits bs all in
    rw (pow-succ' 256 (length bs)) (omega (arith, rest, byte))

pub get_le_fits : (m : Memory) (at : ℕ) → ((a : ℕ) → IsByte (m a)) → get_le 8 at m < 2 ^ 64
unfolding get_le
get_le_fits m at bytes =
    let size = length-read_bytes m at 8 in
    subst (λ n. from_le_bytes (read_bytes m at 8) < 256 ^ n) size
      (from_le_bytes_fits (read_bytes m at 8) (read_bytes-IsByte m at 8 bytes))
