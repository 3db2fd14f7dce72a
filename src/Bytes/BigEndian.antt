-- ===== src/Bytes/BigEndian.antt =====
-- Big-endian integers and the lexicographic order of byte sequences.
use Prim.Native.Nat.{compare, Ordering}
use pagebox.Base.{
  ℕ, zero, suc, ◌+◌, ◌*◌, ◌/◌, ◌%◌, ◌^◌, ◌<◌, ◌≡◌, refl, sym, ap, ◌∙◌, ◌⊎◌, inl, inr, List, [], ◌∷◌,
  arith, length, All,
}
use native.Mathlib.Decide.{dec_lt}
use native.Mathlib.Nat.{
  mul-le-mul_right, pow-succ', mul-add-div_right, div-eq_of_lt, div-add-mod', add-zero,
  mod-eq_of_lt,
}
use pagebox.Bytes.Memory.{IsByte}

-- `uN::from_be_bytes`
unfoldable pub from_be_bytes : List ℕ → ℕ
from_be_bytes [] = 0
from_be_bytes (b ∷ bs) = b * 256 ^ length bs + from_be_bytes bs

-- `to_be_bytes` of an integer of `n` bytes
unfoldable pub to_be_bytes : ℕ → ℕ → List ℕ
to_be_bytes zero v = []
to_be_bytes (suc n) v = (v / 256 ^ n % 256) ∷ to_be_bytes n (v % 256 ^ n)

-- `let mut buf = [0u8; n]; buf[..m].copy_from_slice(&key[..m])` with `m = key.len().min(n)`
unfoldable pub pad_to : ℕ → List ℕ → List ℕ
pad_to zero key = []
pad_to (suc n) [] = 0 ∷ pad_to n []
pad_to (suc n) (b ∷ key) = b ∷ pad_to n key

-- `a.cmp(b)` on slices of bytes
unfoldable pub cmp_keys : List ℕ → List ℕ → Ordering
cmp_keys [] [] = Ordering.eq
cmp_keys [] (y ∷ ys) = Ordering.lt
cmp_keys (x ∷ xs) [] = Ordering.gt
cmp_keys (x ∷ xs) (y ∷ ys) =
    let rest = cmp_keys xs ys in
    elim (compare x y) [
      | Ordering.lt ↦ Ordering.lt
      | Ordering.eq ↦ rest
      | Ordering.gt ↦ Ordering.gt
    ]

pub cmp_keys_self : (a : List ℕ) → cmp_keys a a ≡ Ordering.eq
unfolding cmp_keys
cmp_keys_self [] = refl
cmp_keys_self (x ∷ xs) = ground (arith, cmp_keys_self xs)

pub cmp_keys-eq : (a b : List ℕ) → cmp_keys a b ≡ Ordering.eq → a ≡ b
unfolding cmp_keys
cmp_keys-eq [] [] e = refl
cmp_keys-eq [] (y ∷ ys) e = cc
cmp_keys-eq (x ∷ xs) [] e = cc
cmp_keys-eq (x ∷ xs) (y ∷ ys) e = ground (arith, cmp_keys-eq xs ys)

-- The two directions of a strict comparison.
pub cmp_keys_flip : (a b : List ℕ) → cmp_keys a b ≡ Ordering.gt → cmp_keys b a ≡ Ordering.lt
unfolding cmp_keys
cmp_keys_flip [] [] e = cc
cmp_keys_flip [] (y ∷ ys) e = cc
cmp_keys_flip (x ∷ xs) [] e = refl
cmp_keys_flip (x ∷ xs) (y ∷ ys) e = ground (arith, cmp_keys_flip xs ys)

pub cmp_keys_trans :
    (a b c : List ℕ)
    → cmp_keys a b ≡ Ordering.lt
    → cmp_keys b c ≡ Ordering.lt
    → cmp_keys a c ≡ Ordering.lt
unfolding cmp_keys
cmp_keys_trans [] [] c p q = cc
cmp_keys_trans [] (y ∷ ys) [] p q = cc
cmp_keys_trans [] (y ∷ ys) (z ∷ zs) p q = refl
cmp_keys_trans (x ∷ xs) [] c p q = cc
cmp_keys_trans (x ∷ xs) (y ∷ ys) [] p q = cc
cmp_keys_trans (x ∷ xs) (y ∷ ys) (z ∷ zs) p q = ground (arith, cmp_keys_trans xs ys zs)

pub length-pad_to : (n : ℕ) (key : List ℕ) → length (pad_to n key) ≡ n
unfolding pad_to
length-pad_to zero key = refl
length-pad_to (suc n) [] = ap suc (length-pad_to n [])
length-pad_to (suc n) (b ∷ key) = ap suc (length-pad_to n key)

pub pad_to_all : (key : List ℕ) → pad_to (length key) key ≡ key
unfolding pad_to
pad_to_all [] = refl
pad_to_all (b ∷ key) = ap (◌∷◌ b) (pad_to_all key)

pub pad_to-IsByte : (n : ℕ) (key : List ℕ) → All IsByte key → All IsByte (pad_to n key)
unfolding pad_to
pad_to-IsByte zero key all = tt
pad_to-IsByte (suc n) [] all = (omega arith, pad_to-IsByte n [] tt)
pad_to-IsByte (suc n) (b ∷ key) all = (all.0, pad_to-IsByte n key all.1)

digit_bound : (b r p : ℕ) → b < 256 → r < p → b * p + r < 256 * p
digit_bound b r p h k = grind arith

pub from_be_bytes-lt : (bs : List ℕ) → All IsByte bs → from_be_bytes bs < 256 ^ length bs
unfolding from_be_bytes
from_be_bytes-lt [] all = omega arith
from_be_bytes-lt (b ∷ bs) all =
    rw (pow-succ' 256 (length bs))
      (digit_bound b (from_be_bytes bs) (256 ^ length bs) all.0 (from_be_bytes-lt bs all.1))

-- Of two byte strings of one length the smaller integer is the lexicographically smaller string;
-- with `pad_to` on both sides the strings may have any length.
digits_lt : (x y r s p : ℕ) → r < p → s < p → x * p + r < y * p + s → (x < y) ⊎ ((x ≡ y) × (r < s))
digits_lt x y r s p hr hs h = elim (dec_lt x y) [
  | yes l ↦ inl l
  | no n ↦ elim (dec_lt y x) [
    | yes g ↦ absurd (omega (arith, mul-le-mul_right p g))
    | no m ↦ let e : x ≡ y = omega arith in inr (e, omega (arith, ap (λ (t : ℕ). t * p) e))
  ]
]

padded_lt : (n : ℕ) (key : List ℕ) → All IsByte key → from_be_bytes (pad_to n key) < 256 ^ n
padded_lt n key all =
    rw (length-pad_to n key) at (from_be_bytes-lt (pad_to n key) (pad_to-IsByte n key all))

padded_cons :
    (n x : ℕ) (xs : List ℕ)
    → from_be_bytes (pad_to (suc n) (x ∷ xs)) ≡ x * 256 ^ n + from_be_bytes (pad_to n xs)
unfolding pad_to from_be_bytes
padded_cons n x xs = rw (length-pad_to n xs)

padded_nil : (n : ℕ) → from_be_bytes (pad_to n []) ≡ 0
unfolding pad_to from_be_bytes
padded_nil zero = refl
padded_nil (suc n) = omega (arith, padded_nil n)

pub from_be_bytes-pad_to_lt :
    (n : ℕ) (a b : List ℕ)
    → All IsByte a
    → All IsByte b
    → from_be_bytes (pad_to n a) < from_be_bytes (pad_to n b)
    → cmp_keys a b ≡ Ordering.lt
unfolding cmp_keys
from_be_bytes-pad_to_lt zero a b p q h = absurd (omega (arith, padded_lt 0 b q))
from_be_bytes-pad_to_lt (suc n) a [] p q h = absurd (omega (arith, padded_nil (suc n)))
from_be_bytes-pad_to_lt (suc n) [] (y ∷ ys) p q h = refl
from_be_bytes-pad_to_lt (suc n) (x ∷ xs) (y ∷ ys) p q h = ground (
  arith,
  digits_lt x y (from_be_bytes (pad_to n xs)) (from_be_bytes (pad_to n ys)) (256 ^ n)
      (padded_lt n xs p.1) (padded_lt n ys q.1) (rw (padded_cons n x xs, padded_cons n y ys) at h),
  from_be_bytes-pad_to_lt n xs ys p.1 q.1,
)

-- For byte strings of one length the two orders agree.
pub from_be_bytes_lt :
    (a b : List ℕ)
    → length a ≡ length b
    → All IsByte a
    → All IsByte b
    → from_be_bytes a < from_be_bytes b
    → cmp_keys a b ≡ Ordering.lt
from_be_bytes_lt a b e p q h =
    from_be_bytes-pad_to_lt (length b) a b p q (rw (← e, pad_to_all a, e, pad_to_all b) h)

quotient : (b r p : ℕ) → r < p → (b * p + r) / p ≡ b
quotient b r p k = mul-add-div_right (omega arith) b r ∙ rw (div-eq_of_lt k) (add-zero b)

remainder : (b r p : ℕ) → r < p → (b * p + r) % p ≡ r
remainder b r p k =
    omega (arith, div-add-mod' (b * p + r) p, ap (λ (t : ℕ). t * p) (quotient b r p k))

digit_parts : (b r p : ℕ) → b < 256 → r < p → ((b * p + r) / p % 256 ≡ b) × ((b * p + r) % p ≡ r)
digit_parts b r p h k =
    let high : (b * p + r) / p ≡ b = quotient b r p k in
    (rw high (mod-eq_of_lt h), remainder b r p k)

-- Reading back what was spelled out: decoding loses nothing.
pub to_be_bytes-from_be_bytes :
    (bs : List ℕ) → All IsByte bs → to_be_bytes (length bs) (from_be_bytes bs) ≡ bs
unfolding to_be_bytes from_be_bytes
to_be_bytes-from_be_bytes [] all = refl
to_be_bytes-from_be_bytes (b ∷ bs) all =
    let small = from_be_bytes-lt bs all.1 in
    let parts = digit_parts b (from_be_bytes bs) (256 ^ length bs) all.0 small in
    rw (parts.0, parts.1, to_be_bytes-from_be_bytes bs all.1)

-- So equal integers of one length are equal strings.
pub from_be_bytes_injective :
    (a b : List ℕ)
    → length a ≡ length b
    → All IsByte a
    → All IsByte b
    → from_be_bytes a ≡ from_be_bytes b
    → a ≡ b
from_be_bytes_injective a b e p q h =
    sym (to_be_bytes-from_be_bytes a p) ∙ (rw (e, h) (to_be_bytes-from_be_bytes b q))
