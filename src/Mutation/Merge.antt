-- ===== src/Mutation/Merge.antt =====
-- `PageMutation::add_range` of `crates/storage/src/buffer_pool.rs` against a recursive merge.
use pagebox.Base.{
  ℕ, zero, suc, ◌+◌, ◌≤◌, ◌<◌, ◌≡◌, refl, sym, ap, ◌∙◌, min, max, List, [], ◌∷◌, ◌++◌, leb, ltb,
  leb→le, le→leb, ltb→lt, ltb→le, lt→ltb, le→ltb, Bool-cases, ◌==◌, if◌then◌else◌, length, take,
  drop, ◌≢◌, length-append, ==_iff, arith, inl, inr,
}
use pagebox.Mutation.Ranges.{
  PageMutationRange, range, last_range, set_last, first_index, absorb, in_place, whole_page,
  page_mutation_max_ranges, page_bytes, replace_or_insert, PageMutation,
}

-- The ranges are ordered, not empty, at least one byte apart and inside the page, past `floor`.
abbrev pub Above : ℕ → List PageMutationRange → Type 0
Above floor [] = Unit
Above floor (r ∷ rs) = (floor < r.start) × (r.start < r.end) × (r.end ≤ page_bytes) × Above r.end rs

abbrev pub absorb_ref : ℕ → ℕ → List PageMutationRange → List PageMutationRange
absorb_ref start end [] = range start end ∷ []
absorb_ref start end (r ∷ rs) =
    let rest = absorb_ref (min start r.start) (max end r.end) rs in
    if leb r.start end then rest else range start end ∷ r ∷ rs

-- The new range is put among the ranges, and the ranges that it touches become one with it.
abbrev pub merge_ref : ℕ → ℕ → List PageMutationRange → List PageMutationRange
merge_ref start end [] = range start end ∷ []
merge_ref start end (r ∷ rs) =
    let rest = merge_ref start end rs in
    if ltb r.end start then r ∷ rest else absorb_ref start end (r ∷ rs)

absorb-ref :
    (s e : ℕ) (rs : List PageMutationRange)
    → (absorb s e rs).merged ∷ drop (absorb s e rs).count rs ≡ absorb_ref s e rs
absorb-ref s e [] = refl
absorb-ref s e (r ∷ rs) = elim (Bool-cases (leb r.start e)) [
  | inl touch ↦ rw touch (absorb-ref (min s r.start) (max e r.end) rs)
  | inr apart ↦ rw apart refl
]

absorb_none :
    (s e : ℕ) (rs : List PageMutationRange)
    → (absorb s e rs).count ≡ 0
    → (absorb s e rs).merged ≡ range s e
absorb_none s e [] = λ h. refl
absorb_none s e (r ∷ rs) = elim (Bool-cases (leb r.start e)) [
  | inl touch ↦ rw touch (λ h. absurd (omega (arith, h)))
  | inr apart ↦ rw apart (λ h. refl)
]

drop_nil {ℓ} : {A : Type ℓ} (n : ℕ) → drop {A = A} n [] ≡ []
drop_nil zero = refl
drop_nil (suc n) = refl

drop-add {ℓ} : {A : Type ℓ} (a b : ℕ) (xs : List A) → drop (a + b) xs ≡ drop b (drop a xs)
drop-add zero b xs = let e : 0 + b ≡ b = omega arith in ap (λ n. drop n xs) e
drop-add (suc a) b [] = drop_nil (suc a + b) ∙ sym (drop_nil b)
drop-add (suc a) b (x ∷ xs) =
    let e : suc a + b ≡ suc (a + b) = omega arith in ap (λ n. drop n (x ∷ xs)) e ∙ drop-add a b xs

take-absorb :
    (s e : ℕ) (rs : List PageMutationRange)
    → take (first_index s rs) rs ++ absorb_ref s e (drop (first_index s rs) rs) ≡ merge_ref s e rs
take-absorb s e [] = refl
take-absorb s e (r ∷ rs) = elim (Bool-cases (ltb r.end s)) [
  | inl before ↦ rw before (ap (λ xs. r ∷ xs) (take-absorb s e rs))
  | inr reached ↦ rw reached refl
]

pub last-Above :
    (floor : ℕ) (r : PageMutationRange) (rs : List PageMutationRange)
    → Above floor (r ∷ rs)
    → floor < (last_range r rs).start
last-Above floor r [] (a, b, c, d) = a
last-Above floor r (r' ∷ rs) (a, b, c, d) = let up = last-Above r.end r' rs d in omega (arith, up)

-- A range that starts in or at the end of the last one grows the last one.
pub merge_last :
    (floor s e : ℕ) (r : PageMutationRange) (rs : List PageMutationRange)
    → Above floor (r ∷ rs)
    → (last_range r rs).start ≤ s
    → s ≤ (last_range r rs).end
    → s < e
    → set_last (r ∷ rs) (range (last_range r rs).start (max e (last_range r rs).end))
      ≡ merge_ref s e (r ∷ rs)
merge_last floor s e r [] ok from to some_bytes =
    rw (le→ltb r.end s to, le→leb r.start e (omega arith))
      (let e' : r.start ≡ min s r.start = omega arith in ap (λ n. range n (max e r.end) ∷ []) e')
merge_last floor s e r (r' ∷ rs) (a, b, c, d) from to some_bytes =
    let up : r.end < (last_range r' rs).start = last-Above r.end r' rs d in
    rw (lt→ltb r.end s (omega (arith, up)))
      (ap (λ xs. r ∷ xs) (merge_last r.end s e r' rs d from to some_bytes))

-- A range that starts past the last one is put behind it.
pub merge_past :
    (floor s e : ℕ) (r : PageMutationRange) (rs : List PageMutationRange)
    → Above floor (r ∷ rs)
    → (last_range r rs).start ≤ s
    → (last_range r rs).end < s
    → (r ∷ rs) ++ range s e ∷ [] ≡ merge_ref s e (r ∷ rs)
merge_past floor s e r [] ok from past = rw (lt→ltb r.end s past) refl
merge_past floor s e r (r' ∷ rs) (a, b, c, d) from past =
    let up : r.end < (last_range r' rs).start = last-Above r.end r' rs d in
    rw (lt→ltb r.end s (omega (arith, up)))
      (ap (λ xs. r ∷ xs) (merge_past r.end s e r' rs d from past))

length-drop : (n : ℕ) (xs : List PageMutationRange) → length (drop n xs) ≤ length xs
length-drop zero xs = omega arith
length-drop (suc n) [] = omega arith
length-drop (suc n) (x ∷ xs) = let shorter = length-drop n xs in omega (arith, shorter)

length-absorbed :
    (s e : ℕ) (ys : List PageMutationRange)
    → 0 < (absorb s e ys).count
    → length (drop (absorb s e ys).count ys) < length ys
length-absorbed s e [] = λ some_touch. absurd (omega (arith, some_touch))
length-absorbed s e (y ∷ ys) = elim (Bool-cases (leb y.start e)) [
  | inl touch ↦ rw touch (λ some_touch.
      let rest = (absorb (min s y.start) (max e y.end) ys).count in
      let shorter : length (drop rest ys) ≤ length ys = length-drop rest ys in
      omega (arith, shorter))
  | inr apart ↦ rw apart (λ some_touch. absurd (omega (arith, some_touch)))
]

length-take-drop :
    (n : ℕ) (xs : List PageMutationRange) → length (take n xs) + length (drop n xs) ≡ length xs
length-take-drop zero xs = omega arith
length-take-drop (suc n) [] = refl
length-take-drop (suc n) (x ∷ xs) = let rest = length-take-drop n xs in omega (arith, rest)

-- The merge if it fits into the fixed array, the whole page else.
abbrev pub fit : List PageMutationRange → PageMutation
fit rs = if leb (length rs) page_mutation_max_ranges then in_place rs else whole_page

pub fit_if :
    (rs : List PageMutationRange) → length rs ≤ page_mutation_max_ranges → fit rs ≡ in_place rs
fit_if rs h = rw (le→leb (length rs) 8 h) refl

pub fit_else :
    (rs : List PageMutationRange) → page_mutation_max_ranges < length rs → fit rs ≡ whole_page
fit_else rs h = elim (Bool-cases (leb (length rs) 8)) [
  | inl e ↦ absurd (let small = leb→le (length rs) 8 e in omega (arith, h, small))
  | inr e ↦ rw e refl
]

pub inserted :
    (rs xs merged : List PageMutationRange)
    → xs ≡ merged
    → length xs ≡ suc (length rs)
    → length rs ≤ page_mutation_max_ranges
    → (if length rs == page_mutation_max_ranges then whole_page else in_place xs) ≡ fit merged
inserted rs xs merged same longer short =
    let size : length merged ≡ suc (length rs) = ap length (sym same) ∙ longer in
    elim (Bool-cases (length rs == 8)) [
      | inl full ↦
          let eight : length rs ≡ 8 = (==_iff (length rs) 8).0 full in
          rw full (sym (fit_else merged (omega (arith, size, eight))))
      | inr room ↦
          let below : length rs ≢ 8 = λ e. ground (arith, room, e) in
          rw room (ap in_place same ∙ sym (fit_if merged (omega (arith, size, below, short))))
    ]

length_around :
    (n : ℕ) (x : PageMutationRange) (xs ys : List PageMutationRange)
    → length (take n xs ++ x ∷ ys) + length (drop n xs) ≡ suc (length xs + length ys)
length_around n x xs ys =
    let whole = length-take-drop n xs in
    let parts = length-append (take n xs) (x ∷ ys) in omega (arith, whole, parts)

pub replaced_lem :
    (s e : ℕ) (rs : List PageMutationRange)
    → length rs ≤ page_mutation_max_ranges
    → let first = first_index s rs in
      replace_or_insert s e rs first (absorb s e (drop first rs)) ≡ fit (merge_ref s e rs)
replaced_lem s e rs short =
    let f = first_index s rs in
    let ys = drop f rs in
    let c = (absorb s e ys).count in
    let m = (absorb s e ys).merged in
    let whole : take f rs ++ m ∷ drop c ys ≡ merge_ref s e rs =
      ap (λ zs. take f rs ++ zs) (absorb-ref s e ys) ∙ take-absorb s e rs in
    elim (Bool-cases (ltb f (f + c))) [
      | inl touch ↦
          let some_touch : f < f + c = ltb→lt f (f + c) touch in
          let fewer = length-absorbed s e ys (omega (arith, some_touch)) in
          let size = length_around f m rs (drop c ys) in
          let same : length (take f rs ++ m ∷ drop c ys) ≡ length (merge_ref s e rs) =
            ap length whole in
          rw touch (
            ap (λ zs. in_place (take f rs ++ m ∷ zs)) (drop-add f c rs)
            ∙ ap in_place whole
            ∙ sym (fit_if (merge_ref s e rs) (omega (arith, fewer, size, same, short))))
      | inr apart ↦
          let nothing : c ≡ 0 = let h = ltb→le f (f + c) apart in omega (arith, h) in
          let same : take f rs ++ range s e ∷ ys ≡ merge_ref s e rs =
            ap (λ x. take f rs ++ x ∷ ys) (sym (absorb_none s e ys nothing))
            ∙ ap (λ n. take f rs ++ m ∷ drop n ys) (sym nothing)
            ∙ whole in
          let size = length_around f (range s e) rs ys in
          rw apart (
            inserted rs (take f rs ++ range s e ∷ ys) (merge_ref s e rs) same (omega (arith, size))
              short)
    ]
