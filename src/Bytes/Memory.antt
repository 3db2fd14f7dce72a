-- ===== src/Bytes/Memory.antt =====
-- A byte array as the function from addresses to bytes; `copy_from_slice` and slice reads.
use native.Mathlib.Decide.{ℕ_discrete}
use native.Mathlib.Nat.{add-zero, zero-add, suc-add}
use pagebox.Base.{
  ℕ, zero, suc, ◌+◌, ◌≤◌, ◌<◌, ◌≡◌, refl, ap, subst, ◌∙◌, List, [], ◌∷◌, arith, length, ◌==◌,
  if◌then◌else◌, All, ◌⊎◌, inl,
}

abbrev pub Memory : Type 0
Memory = ℕ → ℕ

abbrev pub update : Memory → ℕ → ℕ → Memory
update m a b x = if x == a then b else m x

-- `&m[start..start + n]`
unfoldable pub read_bytes : Memory → ℕ → ℕ → List ℕ
read_bytes m start zero = []
read_bytes m start (suc n) = m start ∷ read_bytes m (start + 1) n

-- `m[start..start + bs.len()].copy_from_slice(bs)`
unfoldable pub write_bytes : Memory → ℕ → List ℕ → Memory
write_bytes m start [] = m
write_bytes m start (b ∷ bs) = write_bytes (update m start b) (start + 1) bs

abbrev pub IsByte : ℕ → Type 0
IsByte b = b < 256

pub length-read_bytes : (m : Memory) (start n : ℕ) → length (read_bytes m start n) ≡ n
unfolding read_bytes
length-read_bytes m start zero = refl
length-read_bytes m start (suc n) = ap suc (length-read_bytes m (start + 1) n)

pub read_bytes-IsByte :
    (m : Memory) (start n : ℕ) → ((a : ℕ) → IsByte (m a)) → All IsByte (read_bytes m start n)
unfolding read_bytes
read_bytes-IsByte m start zero h = tt
read_bytes-IsByte m start (suc n) h = (h start, read_bytes-IsByte m (start + 1) n h)

-- A read depends on the bytes that it reads only.
pub read_bytes_cong :
    (m m' : Memory) (start n : ℕ)
    → ((x : ℕ) → start ≤ x → x < start + n → m x ≡ m' x)
    → read_bytes m start n ≡ read_bytes m' start n
unfolding read_bytes
read_bytes_cong m m' start zero h = refl
read_bytes_cong m m' start (suc n) h = cc (
  h start (omega arith) (omega arith),
  read_bytes_cong m m' (start + 1) n (λ x p q. h x (omega arith) (omega arith)),
)

-- A write leaves the bytes below and above it alone.
pub write_bytes_outside :
    (m : Memory) (start : ℕ) (bs : List ℕ) (x : ℕ)
    → (x < start) ⊎ (start + length bs ≤ x)
    → write_bytes m start bs x ≡ m x
unfolding write_bytes
write_bytes_outside m start [] x h = refl
write_bytes_outside m start (b ∷ bs) x h =
    write_bytes_outside (update m start b) (start + 1) bs x (omega arith) ∙ ground arith

pub write_bytes-IsByte :
    (m : Memory) (start : ℕ) (bs : List ℕ)
    → All IsByte bs
    → ((a : ℕ) → IsByte (m a))
    → (a : ℕ) → IsByte (write_bytes m start bs a)
unfolding write_bytes
write_bytes-IsByte m start [] all h = h
write_bytes-IsByte m start (b ∷ bs) all h =
    write_bytes-IsByte (update m start b) (start + 1) bs all.1 (λ a. ground (arith, h a))

update_self : (m : Memory) (a b : ℕ) → update m a b a ≡ b
update_self m a b = ground arith

-- What was written is read back.
pub read_bytes-write_bytes :
    (m : Memory) (start : ℕ) (bs : List ℕ)
    → read_bytes (write_bytes m start bs) start (length bs) ≡ bs
unfolding read_bytes write_bytes
read_bytes-write_bytes m start [] = refl
read_bytes-write_bytes m start (b ∷ bs) = cc (
  write_bytes_outside (update m start b) (start + 1) bs start (inl (omega arith)),
  update_self m start b,
  read_bytes-write_bytes (update m start b) (start + 1) bs,
)

pub read_back :
    (m : Memory) (start : ℕ) (bs : List ℕ) {n : ℕ}
    → length bs ≡ n
    → read_bytes (write_bytes m start bs) start n ≡ bs
read_back m start bs e =
    subst (λ k. read_bytes (write_bytes m start bs) start k ≡ bs) e
      (read_bytes-write_bytes m start bs)

-- A write does not show in a read that it does not touch.
pub read_bytes_outside :
    (m : Memory) (start : ℕ) (bs : List ℕ) (from n : ℕ)
    → (from + n ≤ start) ⊎ (start + length bs ≤ from)
    → read_bytes (write_bytes m start bs) from n ≡ read_bytes m from n
read_bytes_outside m start bs from n h =
    read_bytes_cong _ m from n (λ x p q. write_bytes_outside m start bs x (omega arith))

-- Two reads that agree on `k + n` bytes agree on the first `k` and on the rest.
pub read_bytes_parts :
    (m m' : Memory) (a b k n : ℕ)
    → read_bytes m a (k + n) ≡ read_bytes m' b (k + n)
    → (read_bytes m a k ≡ read_bytes m' b k) × (read_bytes m (a + k) n ≡ read_bytes m' (b + k) n)
unfolding read_bytes
read_bytes_parts m m' a b zero n e = (refl, rw (add-zero a, add-zero b) (rw zero-add at e))
read_bytes_parts m m' a b (suc k) n e =
    let e' : read_bytes m a (suc (k + n)) ≡ read_bytes m' b (suc (k + n)) = rw suc-add at e in
    let rest = read_bytes_parts m m' (a + 1) (b + 1) k n (cc) in
    let shift : (x : ℕ) → x + suc k ≡ x + 1 + k = λ x. omega arith in
    (cc (rest.0), rw (shift a, shift b) rest.1)

-- Copying a slice to where it stood elsewhere makes the bytes the same.
pub write_bytes-read_bytes :
    (n : ℕ) (m m' : Memory) (start x : ℕ)
    → start ≤ x
    → x < start + n
    → write_bytes m start (read_bytes m' start n) x ≡ m' x
unfolding read_bytes write_bytes
write_bytes-read_bytes zero m m' start x low high = absurd (omega arith)
write_bytes-read_bytes (suc n) m m' start x low high = elim (ℕ_discrete start x) [
  | yes here ↦
      write_bytes_outside (update m start (m' start)) (start + 1) (read_bytes m' (start + 1) n) x
        (inl (omega arith))
      ∙ subst (λ y. update m start (m' start) y ≡ m' y) here (update_self m start (m' start))
  | no later ↦
      write_bytes-read_bytes n (update m start (m' start)) m' (start + 1) x (omega arith)
        (omega arith)
]
