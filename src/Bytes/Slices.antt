-- ===== src/Bytes/Slices.antt =====
-- Slices of byte vectors: `get(a..b)`, and what a slice of a concatenation is.
use pagebox.Base.{
  ℕ, ◌+◌, ◌-◌, ◌≤◌, ◌≡◌, refl, ap, subst, Option, none, some, List, [], ◌∷◌, ◌++◌, leb, le→leb,
  arith, length, length-append, take, drop, ◌&&◌, if◌then◌else◌,
}

module _ {ℓ} {A : Type ℓ} where
  -- `xs.get(a..b)`
  unfoldable pub get_range : List A → ℕ → ℕ → Option (List A)
  get_range xs a b = if leb a b && leb b (length xs) then some (take (b - a) (drop a xs)) else none

  pub take-append : (xs ys : List A) → take (length xs) (xs ++ ys) ≡ xs
  take-append [] ys = refl
  take-append (x ∷ xs) ys = ap (◌∷◌ x) (take-append xs ys)

  pub drop-append : (xs ys : List A) → drop (length xs) (xs ++ ys) ≡ ys
  drop-append [] ys = refl
  drop-append (x ∷ xs) ys = drop-append xs ys

  -- The middle of a concatenation.
  pub get_range-append :
      (pre xs post : List A) (a b : ℕ)
      → a ≡ length pre
      → b ≡ length pre + length xs
      → get_range (pre ++ (xs ++ post)) a b ≡ some xs
  unfolding get_range
  get_range-append pre xs post a b ea eb =
      let size = length-append pre (xs ++ post) in
      let size' = length-append xs post in
      let span : length pre + length xs - length pre ≡ length xs = omega arith in
      let low : length pre ≤ length pre + length xs = omega arith in
      let high : length pre + length xs ≤ length (pre ++ (xs ++ post)) =
        omega (arith, size, size') in
      rw (
        ea,
        eb,
        le→leb _ _ low,
        le→leb _ _ high,
        span,
        drop-append pre (xs ++ post),
        take-append xs post,
      )

  -- The same with the lengths given.
  pub take-prefix : (n : ℕ) (xs ys : List A) → length xs ≡ n → take n (xs ++ ys) ≡ xs
  take-prefix n xs ys e = subst (λ k. take k (xs ++ ys) ≡ xs) e (take-append xs ys)

  pub drop-prefix : (n : ℕ) (xs ys : List A) → length xs ≡ n → drop n (xs ++ ys) ≡ ys
  drop-prefix n xs ys e = subst (λ k. drop k (xs ++ ys) ≡ ys) e (drop-append xs ys)
