-- ===== src/Wal/BatchCodec.antt =====
-- `crates/wal/src/format.rs`: an entry of a metadata page is read back.
use pagebox.Base.{ℕ, ◌+◌, ◌^◌, ◌≤◌, ◌<◌, ◌≡◌, ◌∙◌, ◌⊎◌, inl, arith}
use pagebox.Bytes.Memory.{Memory}
use pagebox.Bytes.Fields.{
  get_le, put_le, get_le-put_le, get_le-put_le_apart, put_le_outside, get_le_cong,
}
use pagebox.Wal.Records.{BatchEntry}
use pagebox.Wal.Batch.{batch_entry_offset, write_batch_entry, read_batch_entry}

-- Every field fits.
abbrev pub FitsEntry : BatchEntry → Type 0
FitsEntry e =
    (e.lsn < 2 ^ 64)
    × (e.arg < 2 ^ 64)
    × (e.crc < 2 ^ 32)
    × (e.len < 2 ^ 32)
    × (e.kind < 256)
    × (e.flags < 256)

-- An entry is written between its offset and its end only.
pub write_batch_entry_outside :
    (buf : Memory) (idx : ℕ) (e : BatchEntry) (x : ℕ)
    → (x < batch_entry_offset idx) ⊎ (batch_entry_offset idx + 26 ≤ x)
    → write_batch_entry buf idx e x ≡ buf x
unfolding write_batch_entry
write_batch_entry_outside buf idx e x apart =
    put_le_outside 1 _ e.flags _ x (omega arith)
    ∙ put_le_outside 1 _ e.kind _ x (omega arith)
    ∙ put_le_outside 4 _ e.len _ x (omega arith)
    ∙ put_le_outside 4 _ e.crc _ x (omega arith)
    ∙ put_le_outside 8 _ e.arg _ x (omega arith)
    ∙ put_le_outside 8 _ e.lsn _ x (omega arith)

-- A write above the end of an entry leaves it.
pub read_batch_entry_cong :
    (m m' : Memory) (idx : ℕ)
    → ((x : ℕ) → batch_entry_offset idx ≤ x → x < batch_entry_offset idx + 26 → m x ≡ m' x)
    → read_batch_entry m idx ≡ read_batch_entry m' idx
unfolding read_batch_entry
read_batch_entry_cong m m' idx same =
    let off = batch_entry_offset idx in
    cc (
      get_le_cong 8 off m m' (λ x p q. same x (omega arith) (omega arith)),
      get_le_cong 8 (off + 8) m m' (λ x p q. same x (omega arith) (omega arith)),
      get_le_cong 4 (off + 16) m m' (λ x p q. same x (omega arith) (omega arith)),
      get_le_cong 4 (off + 20) m m' (λ x p q. same x (omega arith) (omega arith)),
      get_le_cong 1 (off + 24) m m' (λ x p q. same x (omega arith) (omega arith)),
      get_le_cong 1 (off + 25) m m' (λ x p q. same x (omega arith) (omega arith)),
    )

pub read_batch_entry-write_batch_entry :
    (buf : Memory) (idx : ℕ) (e : BatchEntry)
    → FitsEntry e
    → read_batch_entry (write_batch_entry buf idx e) idx ≡ e
unfolding read_batch_entry write_batch_entry
read_batch_entry-write_batch_entry buf idx e (lsn, arg, crc, len, kind, flags) =
    let off = batch_entry_offset idx in
    let m1 = put_le 8 off e.lsn buf in
    let m2 = put_le 8 (off + 8) e.arg m1 in
    let m3 = put_le 4 (off + 16) e.crc m2 in
    let m4 = put_le 4 (off + 20) e.len m3 in
    let m5 = put_le 1 (off + 24) e.kind m4 in
    let m6 = put_le 1 (off + 25) e.flags m5 in
    let top : (n at : ℕ) → at + n ≤ off + 24 → get_le n at m6 ≡ get_le n at m4 = λ n at below.
      get_le-put_le_apart n at 1 (off + 25) e.flags m5 (inl (omega arith))
      ∙ get_le-put_le_apart n at 1 (off + 24) e.kind m4 (inl below) in
    let low : (n at : ℕ) → at + n ≤ off + 16 → get_le n at m6 ≡ get_le n at m2 = λ n at below.
      top n at (omega arith)
      ∙ get_le-put_le_apart n at 4 (off + 20) e.len m3 (inl (omega arith))
      ∙ get_le-put_le_apart n at 4 (off + 16) e.crc m2 (inl below) in
    cc (
      low 8 off (omega arith)
          ∙ get_le-put_le_apart 8 off 8 (off + 8) e.arg m1 (inl (omega arith))
          ∙ get_le-put_le 8 off e.lsn buf lsn,
      low 8 (off + 8) (omega arith) ∙ get_le-put_le 8 (off + 8) e.arg m1 arg,
      top 4 (off + 16) (omega arith)
          ∙ get_le-put_le_apart 4 (off + 16) 4 (off + 20) e.len m3 (inl (omega arith))
          ∙ get_le-put_le 4 (off + 16) e.crc m2 crc,
      top 4 (off + 20) (omega arith) ∙ get_le-put_le 4 (off + 20) e.len m3 len,
      get_le-put_le_apart 1 (off + 24) 1 (off + 25) e.flags m5 (inl (omega arith))
          ∙ get_le-put_le 1 (off + 24) e.kind m4 kind,
      get_le-put_le 1 (off + 25) e.flags m5 flags,
    )
