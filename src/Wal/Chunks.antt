-- ===== src/Wal/Chunks.antt =====
-- `append_logical_record_with_lsn` of `crates/wal/src/wal_impl.rs`: a payload that is cut into chunks is
-- put together again by the replay.
use native.Mathlib.Nat.{zero-add}
use native.Mathlib.Decide.{dec_le}
use pagebox.Base.{
  ℕ, zero, suc, ◌+◌, ◌-◌, ◌*◌, ◌≤◌, ◌<◌, ◌≡◌, refl, ap, sym, ◌∙◌, min, List, [], ◌∷◌, ◌++◌, false,
  length, take, drop, take_all, length-take, length-eq-zero, arith, ltb, ltb→le, Bool-cases, inl,
  inr, if◌then◌else◌,
}
use pagebox.Wal.Patch.{is_empty}
use pagebox.Wal.PatchShape.{is_empty-length}
use pagebox.Wal.Records.{BatchEntry, LogicalRecord, logical_chunk_max_len}
use pagebox.Wal.Append.{chunk_of}
use pagebox.Wal.Replay.{continued, deliver, add_chunk}
use pagebox.Wal.Slots.{==_self}

take-nil : {A : Type 0} (n : ℕ) → take {A = A} n [] ≡ []
take-nil zero = refl
take-nil (suc n) = refl

-- Two slices next to each other.
take-drop : {A : Type 0} (a b : ℕ) (xs : List A) → take a xs ++ take b (drop a xs) ≡ take (a + b) xs
take-drop zero b xs = ap (λ n. take n xs) (sym (zero-add b))
take-drop (suc a) b [] = take-nil b ∙ sym (take-nil (suc a + b))
take-drop (suc a) b (x ∷ xs) =
    let e : suc (a + b) ≡ suc a + b = omega arith in
    ap (◌∷◌ x) (take-drop a b xs) ∙ ap (λ n. take n (x ∷ xs)) e

length-drop : {A : Type 0} (n : ℕ) (xs : List A) → length (drop n xs) ≡ length xs - n
length-drop zero xs = omega arith
length-drop (suc n) [] = omega arith
length-drop (suc n) (x ∷ xs) = omega (arith, length-drop n xs)

-- A slice that is cut off at the end is the slice of the full length, where there are so many bytes.
slice_lem :
    (m start : ℕ) (xs : List ℕ)
    → (if ltb start (length xs)
        then take (min (start + m) (length xs) - start) (drop start xs)
        else [])
      ≡ take m (drop start xs)
slice_lem m start xs =
    let size = length-drop start xs in
    elim (Bool-cases (ltb start (length xs))) [
      | inr out ↦
          let past = ltb→le start (length xs) out in
          rw (out, length-eq-zero (drop start xs) (omega (arith, size, past))) (sym (take-nil m))
      | inl inside ↦ elim (dec_le (start + m) (length xs)) [
        | yes whole ↦
            let e : min (start + m) (length xs) - start ≡ m = omega arith in rw (inside, e) refl
        | no cut ↦
            let e : min (start + m) (length xs) - start ≡ length xs - start = omega arith in
            rw (inside, e)
              (take_all (length xs - start) (drop start xs) (omega (arith, size))
                ∙ sym (take_all m (drop start xs) (omega (arith, size, cut))))
      ]
    ]

chunk_of-take :
    (payload : List ℕ) (i : ℕ)
    → chunk_of payload i ≡ take logical_chunk_max_len (drop (i * logical_chunk_max_len) payload)
unfolding chunk_of
chunk_of-take payload i = slice_lem logical_chunk_max_len (i * logical_chunk_max_len) payload

-- The payload up to a chunk.
unfoldable pub before_chunk : List ℕ → ℕ → List ℕ
before_chunk payload i = take (i * logical_chunk_max_len) payload

pub next_chunk :
    (payload : List ℕ) (i : ℕ)
    → before_chunk payload i ++ chunk_of payload i ≡ before_chunk payload (i + 1)
unfolding before_chunk
next_chunk payload i =
    let e : i * logical_chunk_max_len + logical_chunk_max_len ≡ (i + 1) * logical_chunk_max_len =
      omega arith in
    ap (◌++◌ (take (i * logical_chunk_max_len) payload)) (chunk_of-take payload i)
    ∙ take-drop (i * logical_chunk_max_len) logical_chunk_max_len payload
    ∙ ap (λ n. take n payload) e

pub chunk_of-short :
    (payload : List ℕ) (i : ℕ) → length (chunk_of payload i) ≤ logical_chunk_max_len
chunk_of-short payload i =
    let e = ap length (chunk_of-take payload i) in
    let size = length-take logical_chunk_max_len (drop (i * logical_chunk_max_len) payload) in
    omega (arith, e, size)

pub first_chunk : (payload : List ℕ) → chunk_of payload 0 ≡ before_chunk payload 1
unfolding before_chunk
first_chunk payload = next_chunk payload 0

pub before_chunk-some :
    (payload : List ℕ) (i : ℕ)
    → 0 < length payload
    → is_empty (before_chunk payload (suc i)) ≡ false
unfolding before_chunk
before_chunk-some payload i bytes =
    let size = length-take (suc i * logical_chunk_max_len) payload in
    is_empty-length (take (suc i * logical_chunk_max_len) payload) (omega (arith, size))

-- Enough chunks are the payload.
pub all_chunks :
    (payload : List ℕ) (chunks : ℕ)
    → length payload ≤ chunks * logical_chunk_max_len
    → before_chunk payload chunks ≡ payload
unfolding before_chunk
all_chunks payload chunks enough = take_all (chunks * logical_chunk_max_len) payload enough

-- How a chunk is added, by its flags.
pub begun :
    (pending : LogicalRecord) (entry : BatchEntry) (chunk : List ℕ)
    → entry.flags ≡ 1
    → add_chunk pending entry chunk
      ≡ continued [] (record { lsn = entry.lsn; kind = entry.arg; payload = chunk })
unfolding add_chunk
begun pending entry chunk f = rw (f, add_chunk) refl

pub begun_last :
    (pending : LogicalRecord) (entry : BatchEntry) (chunk : List ℕ)
    → entry.flags ≡ 3
    → add_chunk pending entry chunk
      ≡ deliver (record { lsn = entry.lsn; kind = entry.arg; payload = chunk })
unfolding add_chunk deliver
begun_last pending entry chunk f = rw (f, add_chunk) refl

module _ (pending : LogicalRecord) (entry : BatchEntry) (chunk : List ℕ)
    (some_bytes : is_empty pending.payload ≡ false) (same_lsn : entry.lsn ≡ pending.lsn)
    (same_kind : entry.arg ≡ pending.kind) where
  pub grown :
      entry.flags ≡ 0
      → add_chunk pending entry chunk
        ≡ continued [] (record pending { payload = pending.payload ++ chunk })
  unfolding add_chunk
  grown f =
      rw (f, add_chunk, some_bytes, same_lsn, same_kind, ==_self pending.lsn, ==_self pending.kind)
        refl

  pub grown_last :
      entry.flags ≡ 2
      → add_chunk pending entry chunk
        ≡ deliver (record pending { payload = pending.payload ++ chunk })
  unfolding add_chunk deliver
  grown_last f =
      rw (f, add_chunk, some_bytes, same_lsn, same_kind, ==_self pending.lsn, ==_self pending.kind)
        refl
