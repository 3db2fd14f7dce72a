-- ===== src/Store/Reopen.antt =====
-- A file of `crates/storage/src/page_store.rs` that was synced is opened again.
use pagebox.Base.{ℕ, ◌+◌, ◌^◌, ◌≤◌, ◌<◌, ◌≡◌, ◌∙◌, inl, inr, refl, arith, true, false, ltb}
use pagebox.Bytes.Memory.{Memory}
use pagebox.Bytes.Fields.{get_le, put_le, get_le-put_le, get_le-put_le_apart, get_le_cong}
use pagebox.Slotted.Layout.{page_size}
use pagebox.Store.Header.{
  header_magic, header_version, header_bootstrap_size, build_header, validate_header, bootstrap,
  open_header,
}

-- The fields of a header that was built.
abbrev Fields : Memory → ℕ → ℕ → ℕ → ℕ → ℕ → Type 0
Fields hdr page_count checkpoint_lsn user_meta_0 user_meta_1 user_meta_2 =
    (get_le 4 0 hdr ≡ header_magic)
    × (get_le 2 4 hdr ≡ header_version)
    × (get_le 4 48 hdr ≡ page_size)
    × (get_le 8 8 hdr ≡ page_count)
    × (get_le 8 16 hdr ≡ checkpoint_lsn)
    × (get_le 8 24 hdr ≡ user_meta_0)
    × (get_le 8 32 hdr ≡ user_meta_1)
    × (get_le 8 40 hdr ≡ user_meta_2)

build_header-Fields :
    (pc cl m0 m1 m2 : ℕ)
    → pc < 2 ^ 64
    → cl < 2 ^ 64
    → m0 < 2 ^ 64
    → m1 < 2 ^ 64
    → m2 < 2 ^ 64
    → Fields (build_header pc cl m0 m1 m2) pc cl m0 m1 m2
unfolding build_header
build_header-Fields pc cl m0 m1 m2 pc_fits cl_fits m0_fits m1_fits m2_fits =
    let h0 : Memory = put_le 4 0 header_magic (λ x. 0) in
    let h1 = put_le 2 4 header_version h0 in
    let h2 = put_le 8 8 pc h1 in
    let h3 = put_le 8 16 cl h2 in
    let h4 = put_le 8 24 m0 h3 in
    let h5 = put_le 8 32 m1 h4 in
    let h6 = put_le 8 40 m2 h5 in
    let h7 = put_le 4 48 page_size h6 in
    let to_6 : (n at : ℕ) → at + n ≤ 48 → get_le n at h7 ≡ get_le n at h6 =
      λ n at below. get_le-put_le_apart n at 4 48 page_size h6 (inl below) in
    let to_5 : (n at : ℕ) → at + n ≤ 40 → get_le n at h7 ≡ get_le n at h5 =
      λ n at below. to_6 n at (omega arith) ∙ get_le-put_le_apart n at 8 40 m2 h5 (inl below) in
    let to_4 : (n at : ℕ) → at + n ≤ 32 → get_le n at h7 ≡ get_le n at h4 =
      λ n at below. to_5 n at (omega arith) ∙ get_le-put_le_apart n at 8 32 m1 h4 (inl below) in
    let to_3 : (n at : ℕ) → at + n ≤ 24 → get_le n at h7 ≡ get_le n at h3 =
      λ n at below. to_4 n at (omega arith) ∙ get_le-put_le_apart n at 8 24 m0 h3 (inl below) in
    let to_2 : (n at : ℕ) → at + n ≤ 16 → get_le n at h7 ≡ get_le n at h2 =
      λ n at below. to_3 n at (omega arith) ∙ get_le-put_le_apart n at 8 16 cl h2 (inl below) in
    let to_1 : (n at : ℕ) → at + n ≤ 8 → get_le n at h7 ≡ get_le n at h1 =
      λ n at below. to_2 n at (omega arith) ∙ get_le-put_le_apart n at 8 8 pc h1 (inl below) in
    (
      to_1 4 0 (omega arith)
          ∙ get_le-put_le_apart 4 0 2 4 header_version h0 (inl (omega arith))
          ∙ get_le-put_le 4 0 header_magic (λ x. 0) (omega arith),
      to_1 2 4 (omega arith) ∙ get_le-put_le 2 4 header_version h0 (omega arith),
      get_le-put_le 4 48 page_size h6 (omega arith),
      to_2 8 8 (omega arith) ∙ get_le-put_le 8 8 pc h1 pc_fits,
      to_3 8 16 (omega arith) ∙ get_le-put_le 8 16 cl h2 cl_fits,
      to_4 8 24 (omega arith) ∙ get_le-put_le 8 24 m0 h3 m0_fits,
      to_5 8 32 (omega arith) ∙ get_le-put_le 8 32 m1 h4 m1_fits,
      to_6 8 40 (omega arith) ∙ get_le-put_le 8 40 m2 h5 m2_fits,
    )

validate-Fields :
    (hdr : Memory) (pc cl m0 m1 m2 : ℕ)
    → Fields hdr pc cl m0 m1 m2
    → validate_header hdr ≡ inr (pc, cl, m0, m1, m2)
unfolding validate_header
validate-Fields hdr pc cl m0 m1 m2 (magic, version, size, e0, e1, e2, e3, e4) =
    rw (magic, version, size, e0, e1, e2, e3, e4) refl

-- A file whose first 4096 bytes are those of a built header, and that is at least as long, is opened
-- with the five numbers that the header was built of, as long as they fit into 64 bits.
pub open_header-build_header :
    (pc cl m0 m1 m2 : ℕ) (file_size : ℕ) (file : Memory)
    → pc < 2 ^ 64
    → cl < 2 ^ 64
    → m0 < 2 ^ 64
    → m1 < 2 ^ 64
    → m2 < 2 ^ 64
    → header_bootstrap_size ≤ file_size
    → ((x : ℕ) → x < header_bootstrap_size → file x ≡ build_header pc cl m0 m1 m2 x)
    → open_header file_size file ≡ inr (pc, cl, m0, m1, m2)
unfolding open_header
open_header-build_header pc cl m0 m1 m2 file_size file pc_fits cl_fits m0_fits m1_fits m2_fits long
      same =
    let some_bytes : ltb 0 file_size ≡ true = ground arith in
    let whole : ltb file_size header_bootstrap_size ≡ false = ground arith in
    let first : (x : ℕ)
        → x < header_bootstrap_size
        → bootstrap file x ≡ build_header pc cl m0 m1 m2 x =
      λ x inside.
        let e : ltb x header_bootstrap_size ≡ true = ground arith in rw e (same x inside) in
    let field : (n at : ℕ)
        → at + n ≤ header_bootstrap_size
        → get_le n at (bootstrap file) ≡ get_le n at (build_header pc cl m0 m1 m2) =
      λ n at inside. get_le_cong n at _ _ (λ x low high. first x (omega arith)) in
    let (magic, version, size, e0, e1, e2, e3, e4) =
      build_header-Fields pc cl m0 m1 m2 pc_fits cl_fits m0_fits m1_fits m2_fits in
    rw (some_bytes, whole)
      (validate-Fields (bootstrap file) pc cl m0 m1 m2 (
        field 4 0 (omega arith) ∙ magic,
        field 2 4 (omega arith) ∙ version,
        field 4 48 (omega arith) ∙ size,
        field 8 8 (omega arith) ∙ e0,
        field 8 16 (omega arith) ∙ e1,
        field 8 24 (omega arith) ∙ e2,
        field 8 32 (omega arith) ∙ e3,
        field 8 40 (omega arith) ∙ e4,
      ))
