-- ===== src/Slotted/Covered.antt =====
-- What adding ranges to the page mutation of an operation of `crates/storage/src/slotted_page.rs`
-- keeps and adds.
use pagebox.Base.{
  ℕ, ◌≤◌, ◌<◌, ◌≡◌, refl, sym, ap, ◌∙◌, some, Bool, true, false, ◌&&◌, ◌||◌, ltb, ltb→lt, ltb→le,
  Bool-cases, inl, inr, arith,
}
use pagebox.Mutation.Ranges.{PageMutation, page_lsn_range_end, page_bytes, add_range}
use pagebox.Mutation.Coverage.{inside}
use pagebox.Mutation.Add.{records, add_range_lem}
use pagebox.Mutation.Add
use pagebox.Slotted.Logged.{add_if_some}

-- What one mutation records, the other records too.
abbrev pub Grows : PageMutation → PageMutation → Type 0
Grows m m' = (byte : ℕ) → records m byte ≡ (records m byte && records m' byte)

-- The mutation records the bytes from `start` to `end`.
abbrev pub Has : PageMutation → ℕ → ℕ → Type 0
Has m start end = (byte : ℕ) → inside start end byte ≡ (inside start end byte && records m byte)

and_trans : (a b c : Bool) → a ≡ (a && b) → b ≡ (b && c) → a ≡ (a && c)
and_trans true b c e f = e ∙ f ∙ ap (λ x. x && c) (sym e)
and_trans false b c e f = refl

absorbs : (f x y : Bool) → (x ≡ (x && (f || (x || y)))) × (y ≡ (y && (f || (x || y))))
absorbs true true true = (refl, refl)
absorbs true true false = (refl, refl)
absorbs true false true = (refl, refl)
absorbs true false false = (refl, refl)
absorbs false true true = (refl, refl)
absorbs false true false = (refl, refl)
absorbs false false true = (refl, refl)
absorbs false false false = (refl, refl)

abbrev pub Adds : PageMutation → ℕ → ℕ → PageMutation → Type 0
Adds m s e m' = Add.IsValid m' × Grows m m' × Has m' s e

pub adds :
    (m : PageMutation) (s e : ℕ)
    → Add.IsValid m
    → page_lsn_range_end ≤ s
    → s < e
    → e ≤ page_bytes
    → (m' : PageMutation) × (add_range m s e ≡ some m') × Adds m s e m'
adds m s e v low some_bytes high =
    let (m', (runs, ok, exact)) = add_range_lem m s e v low some_bytes high in
    (
      m',
      runs,
      (
        ok,
        λ byte.
            (absorbs m'.full_image (inside s e byte) (records m byte)).1
            ∙ ap (λ x. records m byte && x) (sym (exact byte)),
        λ byte.
            (absorbs m'.full_image (inside s e byte) (records m byte)).0
            ∙ ap (λ x. inside s e byte && x) (sym (exact byte)),
      ),
    )

Grows-self : (m : PageMutation) → Grows m m
Grows-self m byte = both (records m byte)
  where
    both : (b : Bool) → b ≡ (b && b)
    both true = refl
    both false = refl

inside_nothing : (s e byte : ℕ) → e ≤ s → inside s e byte ≡ false
unfolding inside
inside_nothing s e byte h = ground (arith, h)

pub Adds-if_some :
    (m : PageMutation) (s e : ℕ)
    → Add.IsValid m
    → page_lsn_range_end ≤ s
    → e ≤ page_bytes
    → (m' : PageMutation) × (add_if_some m s e ≡ some m') × Adds m s e m'
unfolding add_if_some
Adds-if_some m s e v low high = elim (Bool-cases (ltb s e)) [
  | inl some_bytes ↦
      let (m', runs, ok) = adds m s e v low (ltb→lt s e some_bytes) high in
      (m', rw some_bytes runs, ok)
  | inr empty ↦ (
    m,
    rw empty refl,
    (v, Grows-self m, λ byte. rw (inside_nothing s e byte (ltb→le s e empty)) refl),
  )
]

-- An empty range adds nothing, wherever it is.
pub Adds-nothing :
    (m : PageMutation) (s e : ℕ)
    → Add.IsValid m
    → ltb s e ≡ false
    → (add_if_some m s e ≡ some m) × Adds m s e m
unfolding add_if_some
Adds-nothing m s e v empty =
    (rw empty refl, (v, Grows-self m, λ byte. rw (inside_nothing s e byte (ltb→le s e empty)) refl))

pub Grows-trans : (m m' m'' : PageMutation) → Grows m m' → Grows m' m'' → Grows m m''
Grows-trans m m' m'' g h byte =
    and_trans (records m byte) (records m' byte) (records m'' byte) (g byte) (h byte)

pub Has-Grows : (m m' : PageMutation) (s e : ℕ) → Has m s e → Grows m m' → Has m' s e
Has-Grows m m' s e g h byte =
    and_trans (inside s e byte) (records m byte) (records m' byte) (g byte) (h byte)

and_true : (a b : Bool) → a ≡ true → a ≡ (a && b) → b ≡ true
and_true true b e f = sym f
and_true false b e f = cc

-- A recorded range has each of its bytes, and each of its parts.
pub Has-byte : (m : PageMutation) (s e x : ℕ) → Has m s e → s ≤ x → x < e → records m x ≡ true
unfolding inside
Has-byte m s e x has low high =
    and_true (inside s e x) (records m x) (ground (arith, low, high)) (has x)

inside-bounds : (s e x : ℕ) → inside s e x ≡ true → (s ≤ x) × (x < e)
unfolding inside
inside-bounds s e x here = ground (arith, here)

pub Has-part : (m : PageMutation) (s e s' e' : ℕ) → Has m s e → s ≤ s' → e' ≤ e → Has m s' e'
Has-part m s e s' e' has low high x = elim (Bool-cases (inside s' e' x)) [
  | inl here ↦
      let (above, below) = inside-bounds s' e' x here in
      rw (here, Has-byte m s e x has (omega (arith, low, above)) (omega (arith, high, below))) refl
  | inr out ↦ rw out refl
]
