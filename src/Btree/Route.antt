-- ===== src/Btree/Route.antt =====
-- `crates/btree/src/btree/node.rs`: a key is routed to the child whose range it lies in.
use mathlib.Core.Option
use native.Mathlib.Decide.{dec_lt}
use pagebox.Base.{
  ℕ, ◌≤◌, ◌<◌, ◌≡◌, ◌⊎◌, inl, inr, refl, sym, ap, ◌∙◌, List, some, Bool, true, false, length,
  get_elem?-some, get_elem?-none, take_all, All, All-get_elem?, arith, ◌==◌, ==_iff, le→ltb,
}
use pagebox.Bytes.Memory.{IsByte}
use pagebox.Bytes.LittleEndian.{from_le_bytes}
use pagebox.Slotted.Layout.{SlottedPage, IsValid, num_slots, entries, get_value}
use pagebox.Slotted.Search.{try_lower_bound, try_get_value}
use pagebox.Slotted.Bisect.{IsSorted, IsLowerBound}
use pagebox.Slotted.LowerBound.{keys, length-map, length-keys, lower_bound_lem}
use pagebox.Slotted.Optimistic.{try_lower_bound_lem, try_get_lem}
use pagebox.Slotted.Edit.{get_lem}
use pagebox.Btree.Edge.{
  slot, upper, parent_edge_is_upper, parent_edge_pos, parent_edge_from_pos,
  parent_edge_round_trip_pos,
}
use pagebox.Btree.Node.{
  RoutedChildRef, into_publication, try_route_to_child, route_through, upper_swip, swip_of,
}

-- The position that an edge stands for is the one it was made of.
pub round_trip_lem : (pos count : ℕ) → parent_edge_round_trip_pos pos count ≡ pos
unfolding parent_edge_round_trip_pos parent_edge_pos parent_edge_from_pos
round_trip_lem pos count = ground arith

bound_inside :
    (ks : List (List ℕ)) (key : List ℕ) (pos : ℕ) (found : Bool)
    → IsLowerBound ks key (pos, found)
    → pos ≤ length ks
bound_inside ks key pos false h = h.0
bound_inside ks key pos true h = elim (dec_lt pos (length ks)) [
  | yes inside ↦ omega arith
  | no out ↦ let missing = get_elem?-none ks pos (omega arith) in cc (h.1, missing)
]

from_pos_last : (count : ℕ) → parent_edge_from_pos count count ≡ upper
unfolding parent_edge_from_pos
from_pos_last count = rw ((==_iff count count).1 refl) refl

from_pos_other : (pos count : ℕ) → pos < count → parent_edge_from_pos pos count ≡ slot pos
unfolding parent_edge_from_pos
from_pos_other pos count below = let other : (pos == count) ≡ false = ground arith in rw other refl

-- Every value of an inner node is a swip.
abbrev pub IsInner : SlottedPage → Type 0
IsInner p = All (λ e. length (e.1) ≡ 8) (entries p)

-- The route through the edge at a position: to the right of all separators, or through the swip in the
-- value of a slot.
abbrev pub LeadsTo : SlottedPage → ℕ → RoutedChildRef → Type 0
LeadsTo p pos route =
    ((pos ≡ num_slots p) × (route ≡ record { swip = upper_swip p; edge = upper }))
    ⊎ ((pos < num_slots p)
        × (val : List ℕ) × (get_value p pos ≡ some val)
        × (route ≡ record { swip = from_le_bytes val; edge = slot pos }))

length-entries : (p : SlottedPage) → length (entries p) ≡ num_slots p
unfolding entries
length-entries p = length-map _ p.slots

module _ (p : SlottedPage) (v : IsValid p) where
  value_there :
      (pos : ℕ)
      → IsInner p
      → pos < num_slots p
      → (val : List ℕ) × (try_get_value p pos ≡ some val)
        × (get_value p pos ≡ some val)
        × (swip_of val ≡ some (from_le_bytes val))
  value_there pos inner inside =
      let size = length-entries p in
      let (e, here) = get_elem?-some (entries p) pos (omega (arith, size, inside)) in
      let eight = All-get_elem? (λ e'. length (e'.1) ≡ 8) (entries p) pos inner here in
      let got : get_value p pos ≡ some (e.1) =
        (get_lem p pos v).1 ∙ ap (λ o. Option.map (λ q. q.1) o) here in
      let long = le→ltb (length (e.1)) 8 (omega (arith, eight)) in
      (
        e.1,
        (try_get_lem p v pos inside).1 ∙ got,
        got,
        rw long (ap (λ b. some (from_le_bytes b)) (take_all 8 (e.1) (omega (arith, eight)))),
      )

  -- What the routing gives, with the position that the search found.
  abbrev pub Routed : List ℕ → ℕ × Bool → Type 0
  Routed key r =
      (route : RoutedChildRef) × (try_route_to_child p key ≡ some route)
      × IsLowerBound (keys p) key r
      × LeadsTo p (r.0) route
      × ((into_publication route (num_slots p)).slot_index ≡ r.0)
      × ((into_publication route (num_slots p)).is_upper ≡ (r.0 == num_slots p))

  route_found :
      (key : List ℕ) (pos : ℕ) (found : Bool)
      → try_lower_bound p key ≡ some (pos, found)
      → try_route_to_child p key ≡ route_through p (parent_edge_from_pos pos (num_slots p)) pos
  unfolding try_route_to_child
  route_found key pos found tried = rw tried (
      ap (route_through p (parent_edge_from_pos pos (num_slots p)))
        (round_trip_lem pos (num_slots p)))

  route_upper :
      (at : ℕ) → route_through p upper at ≡ some (record { swip = upper_swip p; edge = upper })
  unfolding route_through
  route_upper at = refl

  route_slot :
      (pos : ℕ) (val : List ℕ)
      → try_get_value p pos ≡ some val
      → swip_of val ≡ some (from_le_bytes val)
      → route_through p (slot pos) pos ≡ some (record { swip = from_le_bytes val; edge = slot pos })
  unfolding route_through
  route_slot pos val got read = rw (got, read) refl

  routed :
      (key : List ℕ) (pos : ℕ) (found : Bool)
      → IsInner p
      → try_lower_bound p key ≡ some (pos, found)
      → IsLowerBound (keys p) key (pos, found)
      → Routed key (pos, found)
  unfolding into_publication parent_edge_pos parent_edge_is_upper
  routed key pos found inner tried bound =
      let size = length-keys p in
      let inside = bound_inside (keys p) key pos found bound in
      elim (dec_lt pos (num_slots p)) [
        | no out ↦
            let e : pos ≡ num_slots p = omega (arith, inside, size) in
            (
              record { swip = upper_swip p; edge = upper },
              route_found key pos found tried
                  ∙ ap (λ n. route_through p (parent_edge_from_pos n (num_slots p)) pos) e
                  ∙ ap (λ d. route_through p d pos) (from_pos_last (num_slots p))
                  ∙ route_upper pos,
              bound,
              inl (e, refl),
              sym e,
              sym ((==_iff pos (num_slots p)).1 e),
            )
        | yes below ↦
            let (val, got, plain, read) = value_there pos inner below in
            let other : (pos == num_slots p) ≡ false = ground arith in
            (
              record { swip = from_le_bytes val; edge = slot pos },
              route_found key pos found tried
                  ∙ ap (λ d. route_through p d pos) (from_pos_other pos (num_slots p) below)
                  ∙ route_slot pos val got read,
              bound,
              inr (below, val, plain, refl),
              refl,
              sym other,
            )
      ]

  -- On a valid inner node with ascending separators the optimistic routing of a key never gives up: it
  -- takes the first separator that is not less than the key, all in front of it being less, and leads
  -- through the swip in its value, or through the upper swip where all separators are less; and the
  -- coordinates for publishing the child there are that position and whether it is the upper edge.
  pub try_route_to_child_lem :
      (key : List ℕ)
      → IsSorted (keys p)
      → IsInner p
      → All IsByte key
      → (r : ℕ × Bool) × Routed key r
  try_route_to_child_lem key sorted inner key_bytes =
      let (r, ran, bound) = lower_bound_lem p v sorted key key_bytes in
      (r, routed key (r.0) (r.1) inner (try_lower_bound_lem p v key ∙ ran) bound)
