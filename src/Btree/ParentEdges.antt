-- ===== src/Btree/ParentEdges.antt =====
-- The edges of an inner node set one by one (`set_child_edge_swip` of `crates/btree/src/btree/node.rs`).
use pagebox.Base.{
  ℕ, ◌+◌, ◌-◌, ◌^◌, ◌≤◌, ◌<◌, ◌≡◌, inl, inr, refl, sym, ap, ◌∙◌, subst, List, some, true, length,
  set, get_elem?, All-get_elem?, arith, Bool-cases,
}
use pagebox.Bytes.Fields.{get_le_cong}
use pagebox.Bytes.LittleEndian.{to_le_bytes, length-to_le_bytes, to_le_bytes-IsByte}
use pagebox.Mutation.Add
use pagebox.Slotted.Layout.{SlottedPage, IsValid, InHeap, page_size, heap_end, entries, num_slots}
use pagebox.Slotted.Ops.{can_insert}
use pagebox.Slotted.Update.{update_lem, update-accounts, slot_of}
use pagebox.Slotted.Covered.{adds}
use pagebox.Slotted.Logged.{value_range}
use pagebox.Btree.Edge.{slot, upper}
use pagebox.Btree.Node.{upper_offset, upper_swip, set_upper, set_child_swip_at}
use pagebox.Btree.Shape.{set_upper-Kept, upper_swip-set_upper}
use pagebox.Btree.Leaf.{ExclusiveNode}
use pagebox.Btree.Publish.{set_child_edge_swip}

-- A page with the accounts of another.
pub record SameRoom (p q : SlottedPage) : Type 0 where
  pub same_end : heap_end q ≡ heap_end p
  pub same_count : num_slots q ≡ num_slots p
  pub same_used : q.space_used ≡ p.space_used
  pub same_offset : q.data_offset ≡ p.data_offset
  pub valid : IsValid q

pub SameRoom-refl : (p : SlottedPage) → IsValid p → SameRoom p p
SameRoom-refl p v = record {
  same_end = refl;
  same_count = refl;
  same_used = refl;
  same_offset = refl;
  valid = v;
}

pub can_insert-SameRoom :
    (p q : SlottedPage) (k w : ℕ) → SameRoom p q → can_insert p k w ≡ true → can_insert q k w ≡ true
unfolding can_insert
can_insert-SameRoom p q k w s room =
    let count = s.same_count in let used = s.same_used in let offset = s.same_offset in ground arith

module _ (p : SlottedPage) (v : IsValid p) (pos : ℕ) (key old : List ℕ)
    (here : get_elem? (entries p) pos ≡ some (key, old)) (eight : length old ≡ 8)
    (ends : heap_end p ≡ page_size - 8) (swip : ℕ) where
  set_child_swip_at_lem :
      (q : SlottedPage) × (set_child_swip_at p pos swip ≡ some q)
      × (entries q ≡ set (entries p) pos (key, to_le_bytes 8 swip))
      × (upper_swip q ≡ upper_swip p)
      × SameRoom p q
  unfolding set_child_swip_at upper_swip
  set_child_swip_at_lem =
      let value = to_le_bytes 8 swip in
      let vb = to_le_bytes-IsByte 8 swip in
      let same : length value ≡ length old = length-to_le_bytes 8 swip ∙ sym eight in
      let (q, runs, is, kept, vq) = update_lem p pos value key old v vb here same in
      let (end, slots, used, offset) = update-accounts p q pos value key old v vb here same runs in
      (
        q,
        rw runs refl,
        is,
        get_le_cong 8 65528 q.bytes p.bytes (λ x low high.
            let from : heap_end p + (x - heap_end p) ≡ x = omega (arith, low, ends) in
            subst (λ y. q.bytes y ≡ p.bytes y) from (kept (x - heap_end p))),
        record {
          same_end = end;
          same_count = ap length slots;
          same_used = used;
          same_offset = offset;
          valid = vq;
        },
      )

module _ (n : ExclusiveNode) (v : IsValid n.page) (vm : Add.IsValid n.mutation)
    (ends : heap_end n.page ≡ page_size - 8) (swip : ℕ) where
  pub set_slot_lem :
      (pos : ℕ) (key old : List ℕ)
      → get_elem? (entries n.page) pos ≡ some (key, old)
      → length old ≡ 8
      → (n' : ExclusiveNode) × (set_child_edge_swip n (slot pos) swip ≡ some n')
        × (entries n'.page ≡ set (entries n.page) pos (key, to_le_bytes 8 swip))
        × (upper_swip n'.page ≡ upper_swip n.page)
        × SameRoom n.page n'.page
        × Add.IsValid n'.mutation
  unfolding set_child_edge_swip value_range
  set_slot_lem pos key old here eight =
      let (q, runs, is, up, room) =
        set_child_swip_at_lem n.page v pos key old here eight ends swip in
      let (s, found, key_is, len) = slot_of n.page pos key old here in
      let (inside, heap) =
        All-get_elem? (InHeap (n.page.data_offset) (heap_end n.page)) n.page.slots pos v.in_heap
          found in
      let low = v.apart in
      let start = s.offset + s.key_len in
      elim (Bool-cases n.logs_dirty_ranges) [
        | inr plain ↦ (record n { page = q }, rw (plain, runs) refl, is, up, room, vm)
        | inl logs ↦
            let (m, recorded, (vm', _, _)) =
              adds n.mutation start (start + s.val_len) vm (omega (arith, heap, low, len, eight))
                (omega (arith, len, eight)) (omega (arith, inside)) in
            (
              record n { page = q; mutation = m },
              rw (logs, found, runs, recorded) refl,
              is,
              up,
              room,
              vm',
            )
      ]

  pub set_upper_lem :
      swip < 2 ^ 64
      → (n' : ExclusiveNode) × (set_child_edge_swip n upper swip ≡ some n')
        × (entries n'.page ≡ entries n.page)
        × (upper_swip n'.page ≡ swip)
        × SameRoom n.page n'.page
        × Add.IsValid n'.mutation
  unfolding set_child_edge_swip
  set_upper_lem fits =
      let low : heap_end n.page ≤ page_size - 8 = omega (arith, ends) in
      let kept = set_upper-Kept n.page v low swip in
      let up = upper_swip-set_upper n.page v low swip fits in
      let room : SameRoom n.page (set_upper n.page swip) = record {
        same_end = kept.same_end;
        same_count = kept.same_count;
        same_used = kept.same_used;
        same_offset = kept.same_offset;
        valid = kept.valid;
      } in
      elim (Bool-cases n.logs_dirty_ranges) [
        | inr plain ↦ (
          record n { page = set_upper n.page swip },
          rw plain refl,
          kept.same_entries,
          up,
          room,
          vm,
        )
        | inl logs ↦
            let (m, recorded, (vm', _, _)) =
              adds n.mutation upper_offset page_size vm (omega arith) (omega arith) (omega arith) in
            (
              record n { page = set_upper n.page swip; mutation = m },
              rw (logs, recorded) refl,
              kept.same_entries,
              up,
              room,
              vm',
            )
      ]
