-- ===== src/Slotted/Payload.antt =====
-- The entry behind a slot, when bytes move: `crates/storage/src/slotted_page.rs` stores offsets as
-- `u16`, and an offset of 65536 belongs to an empty entry only.
use native.Mathlib.Nat.{eq-zero-or-pos}
use pagebox.Base.{ℕ, ◌+◌, ◌%◌, ◌≤◌, ◌<◌, ◌≡◌, refl, sym, ap, ◌∙◌, inl, inr, List, arith}
use pagebox.Bytes.Memory.{Memory, read_bytes, read_bytes_parts, read_bytes_cong}
use pagebox.Slotted.Layout.{Slot, make_head, payload, InHeap, HeadFits}

-- Bytes that were moved as one block give the same key and the same value.
pub payload_moved :
    (m src : Memory) (at o k v : ℕ)
    → at + (k + v) ≤ 65536
    → read_bytes m at (k + v) ≡ read_bytes src o (k + v)
    → (read_bytes m (at % 65536) k ≡ read_bytes src o k)
      × (read_bytes m (at % 65536 + k) v ≡ read_bytes src (o + k) v)
unfolding read_bytes
payload_moved m src at o k v fits e = elim (eq-zero-or-pos (k + v)) [
  | inl none_left ↦
      let ek : k ≡ 0 = omega arith in let ev : v ≡ 0 = omega arith in rw (ek, ev) (refl, refl)
  | inr some_left ↦
      let same : at % 65536 ≡ at = omega arith in rw same (read_bytes_parts m src at o k v e)
]

-- Memories that agree on a slot's bytes agree on its entry.
pub payload_cong :
    (m m' : Memory) (d e : ℕ) (s : Slot)
    → InHeap d e s
    → ((x : ℕ) → d ≤ x → x < e → m x ≡ m' x)
    → payload m s ≡ payload m' s
unfolding read_bytes
payload_cong m m' d e s (fits, inl nothing) agree =
    let ek : s.key_len ≡ 0 = omega arith in
    let ev : s.val_len ≡ 0 = omega arith in empty_payload m m' s.offset s.key_len s.val_len ek ev
  where
    empty_payload :
        (m m' : Memory) (o k v : ℕ)
        → k ≡ 0
        → v ≡ 0
        → ◌≡◌ {A = List ℕ × List ℕ}
            (read_bytes m o k, read_bytes m (o + k) v)
            (read_bytes m' o k, read_bytes m' (o + k) v)
    empty_payload m m' o k v ek ev = rw (ek, ev) refl
payload_cong m m' d e s (fits, inr (above, below)) agree =
    let key =
      read_bytes_cong m m' s.offset s.key_len (λ x p q. agree x (omega arith) (omega arith)) in
    let value =
      read_bytes_cong m m' (s.offset + s.key_len) s.val_len
        (λ x p q. agree x (omega arith) (omega arith)) in
    λ i. (key i, value i)

-- A head stays right as long as the entry stays the same.
pub HeadFits-cong :
    (m m' : Memory) (s t : Slot)
    → s.head ≡ t.head
    → payload m s ≡ payload m' t
    → HeadFits m s
    → HeadFits m' t
HeadFits-cong m m' s t h e fits = sym h ∙ fits ∙ ap (λ q. make_head q.0) e
