-- ===== src/Wal/Recovery.antt =====
-- `crates/wal/src/wal_impl.rs`: the records of a log are recovered into a page store (`recover_page_image`,
-- `recover_page_patch`, `recover_logical_payload` and the loop of `recover_merged`). The store is behind the
-- trait `RecoveryPageStore`; `none` is the error of a call. The reading of a page's LSN, the callback for
-- caller-defined records and its state are what the caller hands in. The ranges of a decoded patch lie on
-- the page, so no copy panics.
use pagebox.Base.{
  ℕ, ◌+◌, Option, none, some, List, [], ◌∷◌, Bool, true, false, not, leb, ◌==◌, ◌&&◌, ◌||◌, length,
  max, if◌then◌else◌, ◌>>=◌,
}
use pagebox.Bytes.Memory.{read_bytes, write_bytes}
use pagebox.Wal.Patch.{PatchRange, patch_page_size, apply_ranges, decode_page_patch_payload}
use pagebox.Wal.Records.{LogicalRecord}
use pagebox.Wal.Append.{
  logical_kind_page_image_bytes, logical_kind_page_patch, decode_page_image_bytes_payload,
}
use pagebox.Wal.Replay.{WalReplayRecord, page_image, logical}

-- The trait. `read_page` is given a buffer and hands it back, with whether the page was there.
pub record RecoveryPageStore (S : Type 0) : Type 0 where
  pub read_page : S → ℕ → List ℕ → Option (Bool × List ℕ)
  pub write_page : S → ℕ → List ℕ → Option S
  pub allocate : S → ℕ → Option S
  pub sync : S → Option S
  pub next_page_id : S → ℕ

pub record RecoveryReport : Type 0 where
  pub records_scanned : ℕ
  pub records_applied : ℕ
  pub logical_records_delivered : ℕ
  pub skipped_checkpoint : ℕ
  pub skipped_page_lsn : ℕ
  pub max_lsn : ℕ

abbrev pub empty_report : RecoveryReport
empty_report = record {
  records_scanned = 0;
  records_applied = 0;
  logical_records_delivered = 0;
  skipped_checkpoint = 0;
  skipped_page_lsn = 0;
  max_lsn = 0;
}

abbrev pub count_applied : RecoveryReport → RecoveryReport
count_applied report = record report { records_applied = report.records_applied + 1 }

abbrev pub count_checkpoint : RecoveryReport → RecoveryReport
count_checkpoint report = record report { skipped_checkpoint = report.skipped_checkpoint + 1 }

abbrev pub count_page_lsn : RecoveryReport → RecoveryReport
count_page_lsn report = record report { skipped_page_lsn = report.skipped_page_lsn + 1 }

abbrev pub count_scanned : ℕ → RecoveryReport → RecoveryReport
count_scanned lsn report = record report {
  records_scanned = report.records_scanned + 1;
  max_lsn = max report.max_lsn lsn;
}

-- `buf.resize(n, 0)`
abbrev pub resize : ℕ → List ℕ → List ℕ
resize n buf = read_bytes (write_bytes (λ x. 0) 0 buf) 0 n

-- The page buffer with the ranges of a patch copied into it.
abbrev pub patched_page : List ℕ → List PatchRange → List ℕ
patched_page page ranges =
    read_bytes (apply_ranges (write_bytes (λ x. 0) 0 page) ranges) 0 patch_page_size

-- The variables of a recovery.
pub record Recovering (S A : Type 0) : Type 0 where
  pub store : S
  pub report : RecoveryReport
  pub current_next : ℕ
  pub page_buf : List ℕ
  pub caller : A

module _ {S A : Type 0} (io : RecoveryPageStore S) (checkpoint_lsn : ℕ) (read_page_lsn : List ℕ → ℕ)
    (apply_logical : ℕ → ℕ → List ℕ → A → Option A) where
  -- `allocate` with the new bound, for a page at or above it
  unfoldable pub grow_store : Recovering S A → ℕ → Option (Recovering S A)
  grow_store st pid = do
    store ← io.allocate st.store pid
    some (record st { store = store; current_next = io.next_page_id store })

  unfoldable pub apply_page : Recovering S A → ℕ → List ℕ → Option (Recovering S A)
  apply_page st pid page = do
    store ← io.write_page st.store pid page
    some (record st { store = store; report = count_applied st.report })

  -- What is done with a page that was read: nothing, where it is as new as the record.
  unfoldable pub unless_newer :
      Bool
      → ℕ
      → Recovering S A
      → (Recovering S A → Option (Recovering S A))
      → Option (Recovering S A)
  unless_newer found lsn st next =
      if found && leb lsn (read_page_lsn st.page_buf)
      then some (record st { report = count_page_lsn st.report })
      else next st

  unfoldable pub recover_page_image : Recovering S A → ℕ → ℕ → List ℕ → Option (Recovering S A)
  unfolding grow_store apply_page unless_newer
  recover_page_image st lsn pid page =
      if leb lsn checkpoint_lsn
      then some (record st { report = count_checkpoint st.report })
      else (if not (length page == patch_page_size)
          then some st
          else (if leb st.current_next pid
              then (do st' ← grow_store st pid; apply_page st' pid page)
              else (do
                (found, buf) ← io.read_page st.store pid (resize patch_page_size st.page_buf)
                unless_newer found lsn (record st { page_buf = buf })
                    (λ st'. apply_page st' pid page))))

  -- The part of `recover_page_patch` behind the allocation.
  unfoldable pub patch_page : Recovering S A → ℕ → ℕ → List PatchRange → Option (Recovering S A)
  unfolding apply_page unless_newer
  patch_page st lsn pid ranges = do
    (found, buf) ← io.read_page st.store pid (resize patch_page_size st.page_buf)
    unless_newer found lsn (record st { page_buf = buf })
        (λ st'.
          let page = patched_page st'.page_buf ranges in
          apply_page (record st' { page_buf = page }) pid page)

  unfoldable pub recover_page_patch :
      Recovering S A → ℕ → ℕ → List PatchRange → Option (Recovering S A)
  unfolding grow_store patch_page
  recover_page_patch st lsn pid ranges =
      if leb lsn checkpoint_lsn
      then some (record st { report = count_checkpoint st.report })
      else (if leb st.current_next pid
          then (do st' ← grow_store st pid; patch_page st' lsn pid ranges)
          else patch_page st lsn pid ranges)

  -- The record is done, or it is torn and the recovery stops.
  unfoldable pub recover_logical_payload :
      Recovering S A → LogicalRecord → Option (Bool × Recovering S A)
  unfolding recover_page_image recover_page_patch
  recover_logical_payload st r =
      if r.kind == logical_kind_page_image_bytes
      then elim (decode_page_image_bytes_payload r.payload) [
        | none ↦ some (false, st)
        | some (pid, page) ↦ do st' ← recover_page_image st r.lsn pid page; some (true, st')
      ]
      else (if r.kind == logical_kind_page_patch
          then elim (decode_page_patch_payload r.payload) [
            | none ↦ some (false, st)
            | some (pid, ranges) ↦ do st' ← recover_page_patch st r.lsn pid ranges; some (true, st')
          ]
          else (if leb r.lsn checkpoint_lsn
              then some (true, record st { report = count_checkpoint st.report })
              else (do
                caller ← apply_logical r.lsn r.kind r.payload st.caller
                some (
                  true,
                  record st {
                    caller = caller;
                    report = record st.report {
                      logical_records_delivered = st.report.logical_records_delivered + 1;
                    };
                  },
                ))))

  unfoldable pub recover_record : Recovering S A → WalReplayRecord → Option (Bool × Recovering S A)
  unfolding recover_page_image recover_logical_payload
  recover_record st (page_image lsn pid page) = do
    st' ← recover_page_image (record st { report = count_scanned lsn st.report }) lsn pid page
    some (true, st')
  recover_record st (logical r) =
      recover_logical_payload (record st { report = count_scanned r.lsn st.report }) r

  -- The loop of `recover_merged`, over the records in the order of their LSNs. A torn record leaves it
  -- for good, without the `sync` behind it.
  unfoldable pub recover_records :
      Recovering S A → List WalReplayRecord → Option (Bool × Recovering S A)
  unfolding recover_record
  recover_records st [] = some (true, st)
  recover_records st (r ∷ rs) = do
    (more, st') ← recover_record st r
    if more then recover_records st' rs else some (false, st')

  unfoldable pub recover_merged : S → A → List WalReplayRecord → Option (Recovering S A)
  unfolding recover_records
  recover_merged store caller records = do
    (finished, st) ←
        recover_records
          (record {
            store = store;
            report = empty_report;
            current_next = io.next_page_id store;
            page_buf = [];
            caller = caller;
          })
          records
    if not finished || (st.report.records_applied == 0)
        then some st
        else (do store' ← io.sync st.store; some (record st { store = store' }))
