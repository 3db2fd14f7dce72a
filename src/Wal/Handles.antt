-- ===== src/Wal/Handles.antt =====
-- `crates/wal/src/wal_impl.rs`: claimed LSNs are of their shard, and which record handles are right.
use Prim.Native.Nat.{bit_and, bit_or}
use native.Mathlib.Nat.{div-add-mod', mod-eq_of_lt, mod-lt, add-mod-mod, mul-add-mod_self_right}
use native.Mathlib.Decide.{dec_lt}
use pagebox.Base.{
  ℕ, ◌+◌, ◌-◌, ◌*◌, ◌/◌, ◌%◌, ◌^◌, ◌≤◌, ◌<◌, ◌≡◌, ◌≢◌, ◌⊎◌, inl, inr, ap, sym, ◌∙◌, List, [], ◌∷◌,
  length, max, ◌==◌, All, arith, Bool-cases, ==_iff,
}
use pagebox.Base.Bits.{
  bit_and-split, bit_or-split, bit_and-ones, bit_and-zero, bit_or-zero, zero-bit_or,
}
use pagebox.Wal.Capacity.{wal_record_size, default_buffer_records, max_buf_records}
use pagebox.Wal.Lsn.{
  align_lsn_to_shard, shard_idx_for_lsn, claim_lsn, claim_all, encode_record_offset,
  decode_record_offset,
}

-- A meta page below 2 ^ 24 and any slot below 2 ^ 16.
encoded :
    (meta_page high low : ℕ)
    → meta_page < 2 ^ 24
    → high < 256
    → low < 256
    → encode_record_offset (meta_page * wal_record_size) (high * 256 + low)
      ≡ bit_or meta_page high * 256 + low
unfolding encode_record_offset
encoded meta_page high low p q r =
    let page : meta_page * wal_record_size / wal_record_size ≡ meta_page = omega arith in
    let shifted : meta_page % 2 ^ 32 * 256 % 2 ^ 32 ≡ meta_page * 256 + 0 = omega arith in
    let slot : (high * 256 + low) % 2 ^ 32 ≡ high * 256 + low = omega arith in
    let joined = bit_or-split 8 meta_page high 0 low (omega arith) r in
    ap (λ (m : ℕ). bit_or (m % 2 ^ 32 * 256 % 2 ^ 32) ((high * 256 + low) % 2 ^ 32)) page
    ∙ ap (λ (m : ℕ). bit_or m ((high * 256 + low) % 2 ^ 32)) shifted
    ∙ ap (bit_or (meta_page * 256 + 0)) slot
    ∙ joined
    ∙ ap (λ (l : ℕ). bit_or meta_page high * 256 + l) (zero-bit_or low)

decoded_handle :
    (meta_page low : ℕ)
    → low < 256
    → decode_record_offset (meta_page * 256 + low) ≡ (meta_page * wal_record_size, low)
unfolding decode_record_offset
decoded_handle meta_page low r =
    let masked = bit_and-split 8 meta_page 0 low 255 r (omega arith) in
    let slot : bit_and (meta_page * 256 + low) 255 ≡ low =
      omega (arith, masked, bit_and-zero meta_page, bit_and-ones 8 low r) in
    let page : (meta_page * 256 + low) / 256 ≡ meta_page = omega arith in cc (slot, page)

-- The handle of the record in a slot of the batch whose entries are on a meta page below 2 ^ 24, and
-- that is any slot an append buffer may have, leads back to the record if the slot is below 256, as
-- in a buffer of the default size all are; from slot 256 on it leads elsewhere, and the largest
-- buffer has such slots.
pub encode_record_offset_lem :
    (meta_page slot_idx : ℕ)
    → meta_page < 2 ^ 24
    → slot_idx < max_buf_records
    → (default_buffer_records ≤ 256)
      × (256 < max_buf_records)
      × (((slot_idx < 256)
            × (decode_record_offset (encode_record_offset (meta_page * wal_record_size) slot_idx)
                ≡ (meta_page * wal_record_size, slot_idx)))
          ⊎ ((256 ≤ slot_idx)
              × (decode_record_offset (encode_record_offset (meta_page * wal_record_size) slot_idx)
                  ≢ (meta_page * wal_record_size, slot_idx))))
unfolding max_buf_records default_buffer_records
encode_record_offset_lem meta_page slot_idx p q =
    let high = slot_idx / 256 in
    let low = slot_idx % 256 in
    let parts : slot_idx ≡ high * 256 + low = omega arith in
    let code = encoded meta_page high low p (omega (arith, q)) (omega arith) in
    let back = decoded_handle (bit_or meta_page high) low (omega arith) in
    let both : decode_record_offset (encode_record_offset (meta_page * wal_record_size) slot_idx)
        ≡ (bit_or meta_page high * wal_record_size, low) =
      ap (λ (n : ℕ). decode_record_offset (encode_record_offset (meta_page * wal_record_size) n))
        parts
      ∙ ap decode_record_offset code
      ∙ back in
    (
      omega arith,
      omega arith,
      elim (dec_lt slot_idx 256) [
        | yes small ↦
            let top : high ≡ 0 = omega arith in
            let bottom : low ≡ slot_idx = omega arith in
            inl (small, both ∙ cc (top, bottom, bit_or-zero meta_page))
        | no large ↦
            let wrong : low ≡ slot_idx → ⊥ = λ e. omega (arith, e) in
            inr (omega arith, λ e. wrong (ap (λ (t : ℕ × ℕ). t.1) (sym both ∙ e)))
      ],
    )

module _ (shard_idx shard_count : ℕ) (shard : shard_idx < shard_count) where
  shard_of_sum :
      (x : ℕ)
      → (x + (shard_idx + shard_count - x % shard_count) % shard_count) % shard_count ≡ shard_idx
  shard_of_sum x =
      let below = mod-lt x {m = shard_count} (omega arith) in
      let parts = div-add-mod' x shard_count in
      let whole : x + (shard_idx + shard_count - x % shard_count)
          ≡ (x / shard_count + 1) * shard_count + shard_idx =
        grind (arith, below, parts, shard) in
      add-mod-mod x (shard_idx + shard_count - x % shard_count) shard_count
      ∙ ap (λ (n : ℕ). n % shard_count) whole
      ∙ mul-add-mod_self_right (x / shard_count + 1) shard_count shard_idx
      ∙ mod-eq_of_lt shard

  aligned :
      (lsn : ℕ)
      → max lsn 1 + shard_count < 2 ^ 64
      → (max lsn 1 ≤ align_lsn_to_shard lsn shard_idx shard_count)
        × (align_lsn_to_shard lsn shard_idx shard_count < max lsn 1 + shard_count)
        × ((align_lsn_to_shard lsn shard_idx shard_count - 1) % shard_count ≡ shard_idx)
  unfolding align_lsn_to_shard
  aligned lsn below =
      let x = max lsn 1 - 1 in
      let delta = (shard_idx + shard_count - x % shard_count) % shard_count in
      let small =
        mod-lt (shard_idx + shard_count - x % shard_count) {m = shard_count} (omega arith) in
      let whole : (max lsn 1 + delta) % 2 ^ 64 ≡ max lsn 1 + delta = omega (arith, small, below) in
      let shift : (max lsn 1 + delta) % 2 ^ 64 - 1 ≡ x + delta = omega (arith, whole) in
      (
        omega (arith, whole),
        omega (arith, whole, small),
        ap (λ (n : ℕ). n % shard_count) shift ∙ shard_of_sum x,
      )

  -- A claim takes the first LSN of its shard from the counter on.
  claim_lsn_lem :
      (next_lsn : ℕ)
      → 1 ≤ next_lsn
      → next_lsn + shard_count < 2 ^ 64
      → (next_lsn ≤ (claim_lsn next_lsn shard_idx shard_count).0)
        × ((claim_lsn next_lsn shard_idx shard_count).0 < next_lsn + shard_count)
        × (shard_idx_for_lsn (claim_lsn next_lsn shard_idx shard_count).0 shard_count ≡ shard_idx)
        × ((claim_lsn next_lsn shard_idx shard_count).1
            ≡ (claim_lsn next_lsn shard_idx shard_count).0 + 1)
  unfolding claim_lsn shard_idx_for_lsn
  claim_lsn_lem next_lsn started below =
      let ok = aligned next_lsn (omega arith) in
      elim (Bool-cases (shard_count == 1)) [
        | inl one ↦
            let e = (==_iff shard_count 1).0 one in
            rw one (omega arith, omega (arith, e), omega (arith, e), omega (arith, below, e))
        | inr more ↦
            rw more (omega (arith, ok.0), omega (arith, ok.1), ok.2, omega (arith, ok.1, below))
      ]

-- Claims of the threads of some shards, from `floor` on: ascending, and each of its thread's shard,
-- less than the number of shards behind the one before.
unfoldable pub Claimed : ℕ → ℕ → List ℕ → List ℕ → Type 0
unfolding shard_idx_for_lsn
Claimed shard_count floor [] [] = Unit
Claimed shard_count floor [] (lsn ∷ lsns) = ⊥
Claimed shard_count floor (shard_idx ∷ shards) [] = ⊥
Claimed shard_count floor (shard_idx ∷ shards) (lsn ∷ lsns) =
    (floor ≤ lsn)
    × (lsn < floor + shard_count)
    × (shard_idx_for_lsn lsn shard_count ≡ shard_idx)
    × Claimed shard_count (lsn + 1) shards lsns

-- However the claims of threads follow each other, as long as the LSNs of a round for each of them are left
-- below 2 ^ 64, the LSNs ascend strictly, so that no two are the same, each belongs to the shard of its
-- thread, and none skips a whole round of shards.
pub claim_all-Claimed :
    (shards : List ℕ) (next_lsn shard_count : ℕ)
    → 1 ≤ next_lsn
    → next_lsn + length shards * shard_count < 2 ^ 64
    → All (λ shard_idx. shard_idx < shard_count) shards
    → Claimed shard_count next_lsn shards (claim_all shard_count next_lsn shards)
unfolding claim_all Claimed
claim_all-Claimed [] next_lsn shard_count started left all = tt
claim_all-Claimed (shard_idx ∷ shards) next_lsn shard_count started left all =
    let round : length (shard_idx ∷ shards) * shard_count
        ≡ shard_count + length shards * shard_count =
      grind arith in
    let (low, high, own, next) =
      claim_lsn_lem shard_idx shard_count all.0 next_lsn started (omega (arith, left, round)) in
    let lsn = (claim_lsn next_lsn shard_idx shard_count).0 in
    let rest =
      claim_all-Claimed shards (lsn + 1) shard_count (omega (arith, low))
        (omega (arith, left, round, high)) all.1 in
    (low, high, own, rw next rest)
