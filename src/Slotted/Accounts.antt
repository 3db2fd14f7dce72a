-- ===== src/Slotted/Accounts.antt =====
-- How the slot array of a page changes, for the accounts that its header keeps
-- (`crates/storage/src/slotted_page.rs`).
use pagebox.Base.{
  ℕ, zero, suc, ◌+◌, ◌≤◌, ◌<◌, ◌≡◌, refl, ap, inl, inr, List, [], ◌∷◌, map, some, none, arith,
  get_elem?, insert_at, remove_at, take, drop, All, All-insert_at, All-remove_at, All-take,
}
use pagebox.Slotted.Layout.{
  Slot, data_len, live_data, Separate, Disjoint, InHeap, HeadFits, payload,
}
use pagebox.Bytes.Memory.{Memory}
use pagebox.Slotted.Payload.{payload_cong, HeadFits-cong}

module _ {ℓ κ} {A : Type ℓ} {B : Type κ} (f : A → B) where
  pub map-insert_at :
      (xs : List A) (i : ℕ) (x : A) → map f (insert_at xs i x) ≡ insert_at (map f xs) i (f x)
  map-insert_at xs zero x = refl
  map-insert_at [] (suc i) x = refl
  map-insert_at (y ∷ ys) (suc i) x = ap (◌∷◌ (f y)) (map-insert_at ys i x)

  pub map-remove_at : (xs : List A) (i : ℕ) → map f (remove_at xs i) ≡ remove_at (map f xs) i
  map-remove_at [] i = refl
  map-remove_at (y ∷ ys) zero = refl
  map-remove_at (y ∷ ys) (suc i) = ap (◌∷◌ (f y)) (map-remove_at ys i)

  pub map-take : (n : ℕ) (xs : List A) → map f (take n xs) ≡ take n (map f xs)
  map-take zero xs = refl
  map-take (suc n) [] = refl
  map-take (suc n) (y ∷ ys) = ap (◌∷◌ (f y)) (map-take n ys)

  pub get_elem?-map :
      (xs : List A) (i : ℕ) {x : A} → get_elem? xs i ≡ some x → get_elem? (map f xs) i ≡ some (f x)
  get_elem?-map [] i e = cc
  get_elem?-map (y ∷ ys) zero e = cc
  get_elem?-map (y ∷ ys) (suc i) e = get_elem?-map ys i e

  pub get_elem?-map-none :
      (xs : List A) (i : ℕ) → get_elem? xs i ≡ none → get_elem? (map f xs) i ≡ none
  get_elem?-map-none [] i e = refl
  get_elem?-map-none (y ∷ ys) zero e = cc
  get_elem?-map-none (y ∷ ys) (suc i) e = get_elem?-map-none ys i e

pub live_data-insert_at :
    (ss : List Slot) (i : ℕ) (s : Slot) → live_data (insert_at ss i s) ≡ data_len s + live_data ss
live_data-insert_at ss zero s = refl
live_data-insert_at [] (suc i) s = refl
live_data-insert_at (t ∷ ss) (suc i) s = omega (arith, live_data-insert_at ss i s)

pub live_data-remove_at :
    (ss : List Slot) (i : ℕ) {s : Slot}
    → get_elem? ss i ≡ some s
    → live_data ss ≡ data_len s + live_data (remove_at ss i)
live_data-remove_at [] i e = cc
live_data-remove_at (t ∷ ss) zero e = ground arith
live_data-remove_at (t ∷ ss) (suc i) {s} e = omega (arith, live_data-remove_at ss i {s = s} e)

pub live_data-take :
    (n : ℕ) (ss : List Slot) → live_data ss ≡ live_data (take n ss) + live_data (drop n ss)
live_data-take zero ss = omega arith
live_data-take (suc n) [] = omega arith
live_data-take (suc n) (t ∷ ss) = omega (arith, live_data-take n ss)

pub Separate-symm : (s t : Slot) → Separate s t → Separate t s
Separate-symm s t (inl e) = inr (inl e)
Separate-symm s t (inr (inl e)) = inl e
Separate-symm s t (inr (inr (inl h))) = inr (inr (inr h))
Separate-symm s t (inr (inr (inr h))) = inr (inr (inl h))

pub Disjoint-insert_at :
    (ss : List Slot) (i : ℕ) (s : Slot)
    → All (Separate s) ss
    → Disjoint ss
    → Disjoint (insert_at ss i s)
Disjoint-insert_at ss zero s new old = (new, old)
Disjoint-insert_at [] (suc i) s new old = (tt, tt)
Disjoint-insert_at (t ∷ ss) (suc i) s new old = (
  All-insert_at (Separate t) ss i s (Separate-symm s t new.0) old.0,
  Disjoint-insert_at ss i s new.1 old.1,
)

pub Disjoint-remove_at : (ss : List Slot) (i : ℕ) → Disjoint ss → Disjoint (remove_at ss i)
Disjoint-remove_at [] i old = tt
Disjoint-remove_at (t ∷ ss) zero old = old.1
Disjoint-remove_at (t ∷ ss) (suc i) old =
    (All-remove_at (Separate t) ss i old.0, Disjoint-remove_at ss i old.1)

pub Disjoint-take : (n : ℕ) (ss : List Slot) → Disjoint ss → Disjoint (take n ss)
Disjoint-take zero ss old = tt
Disjoint-take (suc n) [] old = tt
Disjoint-take (suc n) (t ∷ ss) old = (All-take (Separate t) n ss old.0, Disjoint-take n ss old.1)

-- A change of the bytes outside the heap does not show in the entries.
pub payloads_cong :
    (m m' : Memory) (d e : ℕ) (ss : List Slot)
    → All (InHeap d e) ss
    → ((x : ℕ) → d ≤ x → x < e → m x ≡ m' x)
    → map (payload m) ss ≡ map (payload m') ss
payloads_cong m m' d e [] all agree = refl
payloads_cong m m' d e (s ∷ ss) all agree =
    let first = payload_cong m m' d e s all.0 agree in
    let rest = payloads_cong m m' d e ss all.1 agree in λ i. first i ∷ rest i

pub heads_cong :
    (m m' : Memory) (d e : ℕ) (ss : List Slot)
    → All (InHeap d e) ss
    → ((x : ℕ) → d ≤ x → x < e → m x ≡ m' x)
    → All (HeadFits m) ss
    → All (HeadFits m') ss
heads_cong m m' d e [] all agree heads = tt
heads_cong m m' d e (s ∷ ss) all agree heads = (
  HeadFits-cong m m' s s refl (payload_cong m m' d e s all.0 agree) heads.0,
  heads_cong m m' d e ss all.1 agree heads.1,
)
