-- ===== src/Mutation/Coverage.antt =====
-- `PageMutation::add_range` of `crates/storage/src/buffer_pool.rs`: its ranges stay normalized, and
-- say which bytes changed.
use pagebox.Base.{
  ℕ, ◌≤◌, ◌<◌, ◌≡◌, refl, ap, ◌∙◌, min, max, Bool, true, false, List, [], ◌∷◌, leb, ltb, leb→le,
  ltb→lt, ltb→le, Bool-cases, ◌&&◌, ◌||◌, arith, inl, inr,
}
use pagebox.Mutation.Ranges.{PageMutationRange, page_bytes}
use pagebox.Mutation.Merge.{Above, absorb_ref, merge_ref}

-- Whether the byte is in the range, or in one of the ranges.
unfoldable pub inside : ℕ → ℕ → ℕ → Bool
inside start end byte = leb start byte && ltb byte end

abbrev pub covers : List PageMutationRange → ℕ → Bool
covers [] byte = false
covers (r ∷ rs) byte = inside r.start r.end byte || covers rs byte

pub apart_lt : (a e : ℕ) → leb a e ≡ false → e < a
apart_lt a e h = ground arith

-- What the recursive merge keeps.
absorb_ref-Above :
    (floor floor' s e : ℕ) (rs : List PageMutationRange)
    → floor < s
    → s < e
    → e ≤ page_bytes
    → floor ≤ floor'
    → Above floor' rs
    → Above floor (absorb_ref s e rs)
absorb_ref-Above floor floor' s e [] low some_bytes high le ok = (low, some_bytes, high, tt)
absorb_ref-Above floor floor' s e (r ∷ rs) low some_bytes high le (a, b, c, d) =
    elim (Bool-cases (leb r.start e)) [
      | inl touch ↦ rw touch (
          absorb_ref-Above floor r.end (min s r.start) (max e r.end) rs (omega arith) (omega arith)
            (omega arith) (omega arith) d)
      | inr apart ↦
          rw apart (low, some_bytes, high, (let past = apart_lt r.start e apart in past, b, c, d))
    ]

pub merge_ref-Above :
    (floor s e : ℕ) (rs : List PageMutationRange)
    → floor < s
    → s < e
    → e ≤ page_bytes
    → Above floor rs
    → Above floor (merge_ref s e rs)
merge_ref-Above floor s e [] low some_bytes high ok = (low, some_bytes, high, tt)
merge_ref-Above floor s e (r ∷ rs) low some_bytes high (a, b, c, d) =
    elim (Bool-cases (ltb r.end s)) [
      | inl before ↦
          rw before
            (a, b, c, merge_ref-Above r.end s e rs (ltb→lt r.end s before) some_bytes high d)
      | inr reached ↦
          rw reached (
            absorb_ref-Above floor floor s e (r ∷ rs) low some_bytes high (omega arith)
              (a, b, c, d))
    ]

joined :
    (s e a z byte : ℕ)
    → s < e
    → a < z
    → a ≤ e
    → s ≤ z
    → inside (min s a) (max e z) byte ≡ (inside s e byte || inside a z byte)
unfolding inside
joined s e a z byte p q touch touch' = ground arith

or_assoc : (a b c : Bool) → ((a || b) || c) ≡ (a || (b || c))
or_assoc true b c = refl
or_assoc false b c = refl

or_swap : (a b c : Bool) → (a || (b || c)) ≡ (b || (a || c))
or_swap true true c = refl
or_swap true false c = refl
or_swap false b c = refl

-- The new range does not start past the first range.
Near : ℕ → List PageMutationRange → Type 0
Near s [] = Unit
Near s (r ∷ rs) = s ≤ r.end

Above-Near : (s floor : ℕ) (rs : List PageMutationRange) → s ≤ floor → Above floor rs → Near s rs
unfolding Near
Above-Near s floor [] le ok = tt
Above-Near s floor (r ∷ rs) le (a, b, c, d) = omega (arith, le, a, b)

absorb_ref-covers :
    (s e byte floor : ℕ) (rs : List PageMutationRange)
    → s < e
    → Near s rs
    → Above floor rs
    → covers (absorb_ref s e rs) byte ≡ (inside s e byte || covers rs byte)
unfolding Near
absorb_ref-covers s e byte floor [] some_bytes near ok = refl
absorb_ref-covers s e byte floor (r ∷ rs) some_bytes near (a, b, c, d) =
    elim (Bool-cases (leb r.start e)) [
      | inl touch ↦
          let meets : r.start ≤ e = leb→le r.start e touch in
          let near' : Near (min s r.start) rs =
            Above-Near (min s r.start) r.end rs (omega (arith, b)) d in
          let rest =
            absorb_ref-covers (min s r.start) (max e r.end) byte r.end rs
              (omega (arith, some_bytes, b)) near' d in
          rw touch (
            rest
            ∙ ap (λ x. x || covers rs byte) (joined s e r.start r.end byte some_bytes b meets near)
            ∙ or_assoc (inside s e byte) (inside r.start r.end byte) (covers rs byte))
      | inr apart ↦ rw apart refl
    ]

pub merge_ref-covers :
    (s e byte floor : ℕ) (rs : List PageMutationRange)
    → s < e
    → Above floor rs
    → covers (merge_ref s e rs) byte ≡ (inside s e byte || covers rs byte)
unfolding Near
merge_ref-covers s e byte floor [] some_bytes ok = refl
merge_ref-covers s e byte floor (r ∷ rs) some_bytes (a, b, c, d) = elim (Bool-cases (ltb r.end s)) [
  | inl before ↦ rw before (
      ap (λ x. inside r.start r.end byte || x) (merge_ref-covers s e byte r.end rs some_bytes d)
      ∙ or_swap (inside r.start r.end byte) (inside s e byte) (covers rs byte))
  | inr reached ↦
      rw reached
        (absorb_ref-covers s e byte floor (r ∷ rs) some_bytes (ltb→le r.end s reached) (a, b, c, d))
]
