-- ===== src/Store/Tests.antt =====
-- A header of `crates/storage/src/page_store.rs`, written and read.
use pagebox.Base.{◌≡◌, inr, refl, arith}
use pagebox.Store.Header.{build_header, open_header}
use pagebox.Store.Reopen.{open_header-build_header}

open_header-build_header_example :
    open_header 65536 (build_header 3 70000 1 2 0) ≡ inr (3, 70000, 1, 2, 0)
open_header-build_header_example =
    open_header-build_header 3 70000 1 2 0 65536 (build_header 3 70000 1 2 0) (omega arith)
      (omega arith) (omega arith) (omega arith) (omega arith) (omega arith) (λ x inside. refl)
