-- ===== src/Wal/Lsn.antt =====
-- `crates/wal/src/wal_impl.rs`: the log sequence numbers of a shard, and the handle by which a buffered
-- record is found again. The casts to `u32` cut off, and so does the shift. LSNs are of 64 bits: `fetch_add`
-- wraps around, and so does `+` in a release build.
use Prim.Native.Nat.{bit_and, bit_or}
use pagebox.Base.{ℕ, ◌+◌, ◌-◌, ◌*◌, ◌/◌, ◌%◌, ◌^◌, List, [], ◌∷◌, max, ◌==◌, if◌then◌else◌}
use pagebox.Wal.Capacity.{wal_record_size}

unfoldable pub align_lsn_to_shard : ℕ → ℕ → ℕ → ℕ
align_lsn_to_shard lsn shard_idx shard_count =
    let from = max lsn 1 in
    let current_shard = (from - 1) % shard_count in
    let delta = (shard_idx + shard_count - current_shard) % shard_count in (from + delta) % 2 ^ 64

unfoldable pub shard_idx_for_lsn : ℕ → ℕ → ℕ
shard_idx_for_lsn lsn shard_count = if shard_count == 1 then 0 else (lsn - 1) % shard_count

-- `Wal::claim_lsn` with the counter `next_lsn`: what is claimed, and the new counter. A thread that
-- loses the exchange starts again with the counter that the winner left.
unfoldable pub claim_lsn : ℕ → ℕ → ℕ → ℕ × ℕ
unfolding align_lsn_to_shard
claim_lsn next_lsn shard_idx shard_count =
    if shard_count == 1
    then (next_lsn, (next_lsn + 1) % 2 ^ 64)
    else (let lsn = align_lsn_to_shard next_lsn shard_idx shard_count in (lsn, (lsn + 1) % 2 ^ 64))

-- The claims of threads of the given shards, in the order in which their exchanges succeed.
unfoldable pub claim_all : ℕ → ℕ → List ℕ → List ℕ
unfolding claim_lsn
claim_all shard_count next_lsn [] = []
claim_all shard_count next_lsn (shard_idx ∷ shards) =
    let claimed = claim_lsn next_lsn shard_idx shard_count in
    claimed.0 ∷ claim_all shard_count (claimed.1) shards

-- The `debug_assert!` on the slot, that it lies in a batch, is not checked.
unfoldable pub encode_record_offset : ℕ → ℕ → ℕ
encode_record_offset meta_offset slot_idx =
    let meta_page = meta_offset / wal_record_size in
    bit_or (meta_page % 2 ^ 32 * 256 % 2 ^ 32) (slot_idx % 2 ^ 32)

unfoldable pub decode_record_offset : ℕ → ℕ × ℕ
decode_record_offset offset =
    let slot_idx = bit_and offset 255 in
    let meta_page = offset / 256 in (meta_page * wal_record_size, slot_idx)
