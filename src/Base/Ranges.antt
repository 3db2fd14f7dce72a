-- ===== src/Base/Ranges.antt =====
-- Front and back of a list, by index.
use Prim.Native.Nat.{ℕ, zero, suc, ◌+◌, ◌-◌, ◌<◌, ◌≤◌}
use mathlib.Core.Path.{◌≡◌, refl, ap, ◌∙◌, subst}
use mathlib.Core.List.{List, [], ◌∷◌, ◌++◌, map}
use mathlib.Core.Option.{some}
use native.Mathlib.Omega.{arith}
use pagebox.Base.Lists.{insert_at, remove_at, length, get_elem?, take, drop, set, All, take_all}

module _ {ℓ} {A : Type ℓ} where
  pub take-++-drop : (n : ℕ) (xs : List A) → take n xs ++ drop n xs ≡ xs
  take-++-drop zero xs = refl
  take-++-drop (suc n) [] = refl
  take-++-drop (suc n) (x ∷ xs) = ap (◌∷◌ x) (take-++-drop n xs)

  pub length-drop : (n : ℕ) (xs : List A) → length (drop n xs) ≡ length xs - n
  length-drop zero xs = omega arith
  length-drop (suc n) [] = omega arith
  length-drop (suc n) (x ∷ xs) = omega (arith, length-drop n xs)

  pub take-drop_rest : (n m : ℕ) (xs : List A) → length xs ≤ n + m → take m (drop n xs) ≡ drop n xs
  take-drop_rest n m xs h = take_all m (drop n xs) (omega (arith, length-drop n xs))

  pub get_elem?-take :
      (n i : ℕ) (xs : List A) {x : A} → get_elem? (take n xs) i ≡ some x → get_elem? xs i ≡ some x
  get_elem?-take zero i xs e = cc
  get_elem?-take (suc n) i [] e = cc
  get_elem?-take (suc n) zero (y ∷ xs) e = e
  get_elem?-take (suc n) (suc i) (y ∷ xs) e = get_elem?-take n i xs e

  pub get_elem?-take_below :
      (n i : ℕ) (xs : List A) {x : A} → get_elem? (take n xs) i ≡ some x → i < n
  get_elem?-take_below zero i xs e = cc
  get_elem?-take_below (suc n) i [] e = cc
  get_elem?-take_below (suc n) zero (y ∷ xs) e = omega arith
  get_elem?-take_below (suc n) (suc i) (y ∷ xs) e =
      let below = get_elem?-take_below n i xs e in omega (arith, below)

  pub get_elem?-drop : (n i : ℕ) (xs : List A) → get_elem? (drop n xs) i ≡ get_elem? xs (n + i)
  get_elem?-drop zero i xs = let same : i ≡ 0 + i = omega arith in ap (get_elem? xs) same
  get_elem?-drop (suc n) i [] = refl
  get_elem?-drop (suc n) i (x ∷ xs) =
      let next : suc (n + i) ≡ suc n + i = omega arith in
      get_elem?-drop n i xs ∙ ap (get_elem? (x ∷ xs)) next

  pub get_elem?-All {κ} :
      (P : A → Type κ) (xs : List A) → ((i : ℕ) (x : A) → get_elem? xs i ≡ some x → P x) → All P xs
  get_elem?-All P [] each = tt
  get_elem?-All P (x ∷ xs) each = (each 0 x refl, get_elem?-All P xs (λ i. each (suc i)))

  pub map-drop {κ} :
      {B : Type κ} (f : A → B) (n : ℕ) (xs : List A) → map f (drop n xs) ≡ drop n (map f xs)
  map-drop f zero xs = refl
  map-drop f (suc n) [] = refl
  map-drop f (suc n) (x ∷ xs) = map-drop f n xs

  pub All-drop {κ} : (P : A → Type κ) (n : ℕ) (xs : List A) → All P xs → All P (drop n xs)
  All-drop P zero xs all = all
  All-drop P (suc n) [] all = all
  All-drop P (suc n) (x ∷ xs) all = All-drop P n xs all.1

-- A list around one of its elements.
pub take-around {ℓ} :
    {A : Type ℓ} (xs : List A) (n : ℕ) {x : A}
    → get_elem? xs n ≡ some x
    → take n xs ++ (x ∷ drop (n + 1) xs) ≡ xs
take-around {A = A} xs n {x} e =
    let next : suc n ≡ n + 1 = omega arith in
    subst (λ m. take n xs ++ (x ∷ drop m xs) ≡ xs) next (go xs n e)
  where
    go : (ys : List A) (m : ℕ) → get_elem? ys m ≡ some x → take m ys ++ (x ∷ drop (suc m) ys) ≡ ys
    go [] m e' = cc
    go (y ∷ ys) zero e' = cc
    go (y ∷ ys) (suc m) e' = ap (◌∷◌ y) (go ys m e')

pub map-append {ℓ κ} :
    {A : Type ℓ} {B : Type κ} (f : A → B) (xs ys : List A) → map f (xs ++ ys) ≡ map f xs ++ map f ys
map-append f [] ys = refl
map-append f (x ∷ xs) ys = ap (◌∷◌ (f x)) (map-append f xs ys)

pub All-append {ℓ κ} :
    {A : Type ℓ} (P : A → Type κ) (xs ys : List A) → All P xs → All P ys → All P (xs ++ ys)
All-append P [] ys all more = more
All-append P (x ∷ xs) ys all more = (all.0, All-append P xs ys all.1 more)

-- An element set in a list, and in one that goes on.
module _ {ℓ} {A : Type ℓ} where
  pub set_before :
      (xs ys : List A) (i : ℕ) (x : A) → i < length xs → set xs i x ++ ys ≡ set (xs ++ ys) i x
  set_before [] ys i x h = absurd (omega arith)
  set_before (y ∷ xs) ys zero x h = refl
  set_before (y ∷ xs) ys (suc i) x h = ap (◌∷◌ y) (set_before xs ys i x (omega arith))

  pub set_last_one :
      (xs : List A) (u x : A) (n : ℕ) → length xs ≡ n → set (xs ++ (u ∷ [])) n x ≡ xs ++ (x ∷ [])
  set_last_one [] u x zero h = refl
  set_last_one [] u x (suc n) h = absurd (omega arith)
  set_last_one (y ∷ xs) u x zero h = absurd (omega arith)
  set_last_one (y ∷ xs) u x (suc n) h = ap (◌∷◌ y) (set_last_one xs u x n (omega arith))

  pub map-set {κ} :
      {B : Type κ} (f : A → B) (xs : List A) (i : ℕ) (x : A)
      → map f (set xs i x) ≡ set (map f xs) i (f x)
  map-set f [] i x = refl
  map-set f (y ∷ xs) zero x = refl
  map-set f (y ∷ xs) (suc i) x = ap (◌∷◌ (f y)) (map-set f xs i x)

  pub All-set : (P : A → Type 0) (xs : List A) (i : ℕ) (x : A) → P x → All P xs → All P (set xs i x)
  All-set P [] i x p all = tt
  All-set P (y ∷ xs) zero x p all = (p, all.1)
  All-set P (y ∷ xs) (suc i) x p all = (all.0, All-set P xs i x p all.1)

pub get_elem?-insert_at_lt {ℓ} :
    {A : Type ℓ} (x : A) (xs : List A) (r i : ℕ)
    → i < r
    → r ≤ length xs
    → get_elem? (insert_at xs r x) i ≡ get_elem? xs i
get_elem?-insert_at_lt x xs zero i h b = absurd (omega arith)
get_elem?-insert_at_lt x [] (suc r) i h b = absurd (omega arith)
get_elem?-insert_at_lt x (y ∷ ys) (suc r) zero h b = refl
get_elem?-insert_at_lt x (y ∷ ys) (suc r) (suc i) h b =
    get_elem?-insert_at_lt x ys r i (omega arith) (omega arith)

pub get_elem?-remove_at_lt {ℓ} :
    {A : Type ℓ} (xs : List A) (r i : ℕ) → i < r → get_elem? (remove_at xs r) i ≡ get_elem? xs i
get_elem?-remove_at_lt [] r i h = refl
get_elem?-remove_at_lt (y ∷ ys) zero i h = absurd (omega arith)
get_elem?-remove_at_lt (y ∷ ys) (suc r) zero h = refl
get_elem?-remove_at_lt (y ∷ ys) (suc r) (suc i) h = get_elem?-remove_at_lt ys r i (omega arith)
