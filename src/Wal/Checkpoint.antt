-- ===== src/Wal/Checkpoint.antt =====
-- Recovery in `crates/wal/src/wal_impl.rs` of the records at or below the checkpoint.
use pagebox.Base.{
  ℕ, suc, ◌+◌, ◌≤◌, ◌≡◌, ◌⊎◌, inl, inr, refl, ◌∙◌, ap, sym, max, Option, some, List, [], ◌∷◌, ◌++◌,
  length, Bool, true, false, le→leb, ◌==◌, All, arith,
}
use mathlib.Core.List.{append-nil}
use pagebox.Wal.Patch.{PatchRange, decode_page_patch_payload}
use pagebox.Wal.Records.{LogicalRecord}
use pagebox.Wal.Append.{
  logical_kind_page_image_bytes, logical_kind_page_patch, decode_page_image_bytes_payload,
}
use pagebox.Wal.Replay.{WalReplayRecord, page_image, logical}
use pagebox.Wal.Recovery.{
  RecoveryPageStore, RecoveryReport, Recovering, empty_report, count_checkpoint, count_scanned,
  recover_page_image, recover_page_patch, recover_logical_payload, recover_record, recover_records,
  recover_merged,
}

-- A page image or patch that decodes, or a record of the caller's own kind.
abbrev pub IsWhole : LogicalRecord → Type 0
IsWhole r =
    ((r.kind ≡ logical_kind_page_image_bytes)
      × (pid : ℕ) × (page : List ℕ) × (decode_page_image_bytes_payload r.payload
          ≡ some (pid, page)))
    ⊎ ((r.kind ≡ logical_kind_page_patch)
        × (pid : ℕ) × (ranges : List PatchRange) × (decode_page_patch_payload r.payload
            ≡ some (pid, ranges)))
    ⊎ (((r.kind == logical_kind_page_image_bytes) ≡ false)
        × ((r.kind == logical_kind_page_patch) ≡ false))

-- A whole record at or below the checkpoint.
abbrev pub IsOld : ℕ → WalReplayRecord → Type 0
IsOld checkpoint_lsn (page_image lsn pid page) = lsn ≤ checkpoint_lsn
IsOld checkpoint_lsn (logical r) = (r.lsn ≤ checkpoint_lsn) × IsWhole r

abbrev lsn_of : WalReplayRecord → ℕ
lsn_of (page_image lsn pid page) = lsn
lsn_of (logical r) = r.lsn

unfoldable pub last_lsn : ℕ → List WalReplayRecord → ℕ
last_lsn lsn [] = lsn
last_lsn lsn (r ∷ rs) = last_lsn (max lsn (lsn_of r)) rs

-- The report of that many more records, all of them skipped for the checkpoint.
abbrev pub passed : RecoveryReport → List WalReplayRecord → RecoveryReport
passed report rs = record report {
  records_scanned = report.records_scanned + length rs;
  skipped_checkpoint = report.skipped_checkpoint + length rs;
  max_lsn = last_lsn report.max_lsn rs;
}

passed_one :
    (report : RecoveryReport) (r : WalReplayRecord) (rs : List WalReplayRecord)
    → passed (count_checkpoint (count_scanned (lsn_of r) report)) rs ≡ passed report (r ∷ rs)
unfolding last_lsn
passed_one report r rs =
    let scanned : report.records_scanned + 1 + length rs
        ≡ report.records_scanned + suc (length rs) =
      omega arith in
    let skipped : report.skipped_checkpoint + 1 + length rs
        ≡ report.skipped_checkpoint + suc (length rs) =
      omega arith in
    λ i. record report {
      records_scanned = scanned i;
      skipped_checkpoint = skipped i;
      max_lsn = last_lsn (max report.max_lsn (lsn_of r)) rs;
    }

passed_none : (report : RecoveryReport) → passed report [] ≡ report
unfolding last_lsn
passed_none report =
    let scanned : report.records_scanned + 0 ≡ report.records_scanned = omega arith in
    let skipped : report.skipped_checkpoint + 0 ≡ report.skipped_checkpoint = omega arith in
    λ i. record report { records_scanned = scanned i; skipped_checkpoint = skipped i }

module _ {S A : Type 0} (io : RecoveryPageStore S) (checkpoint_lsn : ℕ) (read_page_lsn : List ℕ → ℕ)
    (apply_logical : ℕ → ℕ → List ℕ → A → Option A) where
  abbrev after_records : Recovering S A → List WalReplayRecord → Option (Bool × Recovering S A)
  after_records st rs = recover_records io checkpoint_lsn read_page_lsn apply_logical st rs

  old_record :
      (st : Recovering S A) (r : WalReplayRecord)
      → IsOld checkpoint_lsn r
      → recover_record io checkpoint_lsn read_page_lsn apply_logical st r
        ≡ some (true, record st { report = count_checkpoint (count_scanned (lsn_of r) st.report) })
  unfolding recover_record recover_page_image recover_page_patch recover_logical_payload
  old_record st (page_image lsn pid page) old = rw (le→leb lsn checkpoint_lsn old) refl
  old_record st (logical r) (old, inl (kind, pid, page, decoded)) =
      rw (kind, decoded, le→leb r.lsn checkpoint_lsn old) refl
  old_record st (logical r) (old, inr (inl (kind, pid, ranges, decoded))) =
      rw (kind, decoded, le→leb r.lsn checkpoint_lsn old) refl
  old_record st (logical r) (old, inr (inr (no_image, no_patch))) =
      rw (no_image, no_patch, le→leb r.lsn checkpoint_lsn old) refl

  old_records :
      (rs rs' : List WalReplayRecord) (st : Recovering S A)
      → All (IsOld checkpoint_lsn) rs
      → after_records st (rs ++ rs')
        ≡ after_records (record st { report = passed st.report rs }) rs'
  unfolding recover_records
  old_records [] rs' st old =
      λ i. after_records (record st { report = (sym (passed_none st.report)) i }) rs'
  old_records (r ∷ rs) rs' st (old, olds) =
      let st' = record st { report = count_checkpoint (count_scanned (lsn_of r) st.report) } in
      rw (old_record st r old) (
        old_records rs rs' st' olds ∙ λ i.
        after_records (record st { report = passed_one st.report r rs i }) rs')

  -- Records at or below the checkpoint in front of others, each of them whole, are only counted, whatever the
  -- store and the caller are: the recovery goes on with the others from the same store, page buffer and caller.
  -- A recovery of such records alone ends with the store and the caller of its start, and without a sync.
  pub recover_merged-IsOld :
      (rs rs' : List WalReplayRecord) (st : Recovering S A)
      → All (IsOld checkpoint_lsn) rs
      → (recover_records io checkpoint_lsn read_page_lsn apply_logical st (rs ++ rs')
          ≡ recover_records io checkpoint_lsn read_page_lsn apply_logical
              (record st { report = passed st.report rs })
              rs')
        × (recover_merged io checkpoint_lsn read_page_lsn apply_logical st.store st.caller rs
            ≡ some (record {
              store = st.store;
              report = passed empty_report rs;
              current_next = io.next_page_id st.store;
              page_buf = [];
              caller = st.caller;
            }))
  unfolding recover_merged recover_records
  recover_merged-IsOld rs rs' st old =
      let start : Recovering S A = record {
        store = st.store;
        report = empty_report;
        current_next = io.next_page_id st.store;
        page_buf = [];
        caller = st.caller;
      } in
      let alone : after_records start rs
          ≡ some (true, record start { report = passed empty_report rs }) =
        ap (after_records start) (sym (append-nil rs)) ∙ old_records rs [] start old in
      (old_records rs rs' st old, rw alone refl)
