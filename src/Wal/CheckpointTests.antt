-- ===== src/Wal/CheckpointTests.antt =====
-- Recoveries of `crates/wal/src/wal_impl.rs` with records below the checkpoint.
use pagebox.Base.{ℕ, ◌+◌, ◌≡◌, refl, Option, some, List, [], ◌∷◌, ◌++◌, false, All, arith, inr}
use pagebox.Wal.Records.{LogicalRecord}
use pagebox.Wal.Replay.{WalReplayRecord, page_image, logical}
use pagebox.Wal.Recovery.{
  RecoveryPageStore, Recovering, empty_report, recover_records, recover_merged,
}
use pagebox.Wal.Checkpoint.{IsOld, passed, recover_merged-IsOld}

-- A store without pages that counts its calls.
abbrev counting_io : RecoveryPageStore ℕ
counting_io = record {
  read_page = λ calls pid buf. some (false, buf);
  write_page = λ calls pid page. some (calls + 1);
  allocate = λ calls pid. some (calls + 1);
  sync = λ calls. some (calls + 1);
  next_page_id = λ calls. 1;
}

abbrev calls_caller : ℕ → ℕ → List ℕ → ℕ → Option ℕ
calls_caller lsn kind payload delivered = some (delivered + 1)

abbrev no_lsn : List ℕ → ℕ
no_lsn page = 0

abbrev caller_record : LogicalRecord
caller_record = record { lsn = 5; kind = 7; payload = 1 ∷ [] }

abbrev old_log : List WalReplayRecord
old_log = page_image 3 1 (9 ∷ []) ∷ logical caller_record ∷ []

abbrev later_record : LogicalRecord
later_record = record { lsn = 8; kind = 7; payload = 2 ∷ [] }

abbrev starting : Recovering ℕ ℕ
starting = record { store = 0; report = empty_report; current_next = 1; page_buf = []; caller = 0 }

old_log-IsOld : All (IsOld 6) old_log
old_log-IsOld = (omega arith, ((omega arith, inr (inr (refl, refl))), tt))

recover_merged-IsOld_example :
    (recover_records counting_io 6 no_lsn calls_caller starting
        (old_log ++ (logical later_record ∷ []))
      ≡ recover_records counting_io 6 no_lsn calls_caller
          (record starting { report = passed empty_report old_log })
          (logical later_record ∷ []))
    × (recover_merged counting_io 6 no_lsn calls_caller 0 0 old_log
        ≡ some (record {
          store = 0;
          report = passed empty_report old_log;
          current_next = 1;
          page_buf = [];
          caller = 0;
        }))
recover_merged-IsOld_example =
    recover_merged-IsOld counting_io 6 no_lsn calls_caller old_log (logical later_record ∷ [])
      starting old_log-IsOld
