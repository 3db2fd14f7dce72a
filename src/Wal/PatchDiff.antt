-- ===== src/Wal/PatchDiff.antt =====
-- `crates/wal/src/wal_impl.rs`: the patch between two page images turns the one into the other.
use native.Mathlib.Decide.{dec_lt, ℕ_discrete}
use pagebox.Base.{
  ℕ, zero, suc, ◌+◌, ◌-◌, ◌^◌, ◌≤◌, ◌<◌, ◌≡◌, ◌≢◌, refl, sym, ap, subst, Option, none, some, List,
  [], ◌∷◌, ◌⊎◌, ◌==◌, length, arith, inl, inr, map, Bool-cases, ==_iff,
}
use pagebox.Bytes.Memory.{
  Memory, read_bytes, write_bytes, length-read_bytes, write_bytes_outside, write_bytes-read_bytes,
  read_bytes_cong,
}
use pagebox.Wal.Patch.{
  PatchRange, patch_page_size, changed_ranges, range_of, encode_page_patch_payload,
  decode_page_patch_payload, apply_ranges,
}
use pagebox.Wal.PatchShape.{Ascending, IsPatch, patch_bytes}
use pagebox.Wal.PatchCodec.{encode_page_patch_ranges_payload_lem}

-- Where a run of changed bytes is open, it starts at or above `floor` and below the offset.
abbrev Opens : ℕ → ℕ → Option ℕ → Type 0
Opens floor off none = floor ≤ off
Opens floor off (some start) = (floor ≤ start) × (start < off)

-- Changed up to `k`, not yet from there on.
abbrev Patched : Memory → Memory → ℕ → Memory → Type 0
Patched before after k page =
    (y : ℕ) → ((y < k) × (page y ≡ after y)) ⊎ ((k ≤ y) × (page y ≡ before y))

-- Below which offset a page is changed when the scan is at `off`.
abbrev changed_to : ℕ → Option ℕ → ℕ
changed_to off none = off
changed_to off (some start) = start

module _ (before after : Memory) where
  ranges_from : ℕ → ℕ → Option ℕ → List PatchRange
  ranges_from n off run = map (range_of after) (changed_ranges before after n off run)

  -- The scan finds ranges in order, apart and below its end.
  ranges_from-Ascending :
      (n floor off : ℕ) (run : Option ℕ)
      → Opens floor off run
      → off + n ≤ patch_page_size
      → Ascending floor (ranges_from n off run)
  unfolding ranges_from changed_ranges Ascending
  ranges_from-Ascending zero floor off none low fits = tt
  ranges_from-Ascending zero floor off (some start) (low, longer) fits =
      let size = length-read_bytes after start (off - start) in
      (omega (arith, size), low, omega (arith, size), tt)
  ranges_from-Ascending (suc n) floor off none low fits =
      let same = ranges_from-Ascending n floor (off + 1) none (omega arith) (omega arith) in
      let opened =
        ranges_from-Ascending n floor (off + 1) (some off) (low, omega arith) (omega arith) in
      elim (Bool-cases (before off == after off)) [ inl e ↦ rw e same | inr e ↦ rw e opened ]
  ranges_from-Ascending (suc n) floor off (some start) (low, longer) fits =
      let size = length-read_bytes after start (off - start) in
      let closed =
        ranges_from-Ascending n (start + length (read_bytes after start (off - start))) (off + 1)
          none (omega (arith, size)) (omega arith) in
      let more =
        ranges_from-Ascending n floor (off + 1) (some start) (low, omega arith) (omega arith) in
      elim (Bool-cases (before off == after off)) [
        | inl e ↦ rw e (omega (arith, size), low, omega (arith, size), closed)
        | inr e ↦ rw e more
      ]

  -- One range written makes the page right up to its end.
  write-Patched :
      (page : Memory) (start off : ℕ)
      → start < off
      → Patched before after start page
      → Patched before after off (write_bytes page start (read_bytes after start (off - start)))
  write-Patched page start off longer partly y =
      let size = length-read_bytes after start (off - start) in
      elim (dec_lt y start) [
        | yes below ↦
            let out =
              write_bytes_outside page start (read_bytes after start (off - start)) y (inl below) in
            ground (arith, out, partly y)
        | no above ↦ elim (dec_lt y off) [
          | yes inside ↦ inl (
            inside,
            write_bytes-read_bytes (off - start) page after start y (omega arith) (omega arith),
          )
          | no past ↦
              let out =
                write_bytes_outside page start (read_bytes after start (off - start)) y
                  (inr (omega (arith, size))) in
              ground (arith, out, partly y)
        ]
      ]

  -- One equal byte more.
  same-Patched :
      (page : Memory) (off : ℕ)
      → before off ≡ after off
      → Patched before after off page
      → Patched before after (off + 1) page
  same-Patched page off same partly y = elim (ℕ_discrete y off) [
    | yes here ↦
        let there : page off ≡ after off = ground (arith, partly off) in
        inl (omega arith, subst (λ z. page z ≡ after z) (sym here) there)
    | no away ↦ ground (arith, partly y)
  ]

  -- Applying what the scan finds changes all the bytes it went through.
  apply_ranges-Patched :
      (n off : ℕ) (run : Option ℕ) (page : Memory)
      → Opens 0 off run
      → Patched before after (changed_to off run) page
      → Patched before after (off + n) (apply_ranges page (ranges_from n off run))
  unfolding ranges_from changed_ranges apply_ranges
  apply_ranges-Patched zero off none page opens partly y = ground (arith, partly y)
  apply_ranges-Patched zero off (some start) page opens partly y =
      ground (arith, write-Patched page start off opens.1 partly y)
  apply_ranges-Patched (suc n) off none page opens partly y =
      elim (Bool-cases (before off == after off)) [
        | inl e ↦
            let same = (==_iff (before off) (after off)).0 e in
            let rest =
              apply_ranges-Patched n (off + 1) none page (omega arith)
                (same-Patched page off same partly) y in
            rw e (ground (arith, rest))
        | inr e ↦
            let rest =
              apply_ranges-Patched n (off + 1) (some off) page (omega arith, omega arith) partly
                y in
            rw e (ground (arith, rest))
      ]
  apply_ranges-Patched (suc n) off (some start) page opens partly y =
      elim (Bool-cases (before off == after off)) [
        | inl e ↦
            let same = (==_iff (before off) (after off)).0 e in
            let page' = write_bytes page start (read_bytes after start (off - start)) in
            let partly' =
              same-Patched page' off same (write-Patched page start off opens.1 partly) in
            let rest = apply_ranges-Patched n (off + 1) none page' (omega arith) partly' y in
            rw e (ground (arith, rest))
        | inr e ↦
            let rest =
              apply_ranges-Patched n (off + 1) (some start) page (opens.0, omega arith) partly y in
            rw e (ground (arith, rest))
      ]

  -- The changed ranges of the whole page.
  unfoldable pub patch_ranges : List PatchRange
  patch_ranges = map (range_of after) (changed_ranges before after patch_page_size 0 none)

  apply_ranges-patch_ranges :
      read_bytes (apply_ranges before patch_ranges) 0 patch_page_size
      ≡ read_bytes after 0 patch_page_size
  unfolding ranges_from patch_ranges
  apply_ranges-patch_ranges =
      let start : Patched before after 0 before = λ y. inr (omega arith, refl) in
      let done = apply_ranges-Patched patch_page_size 0 none before (omega arith) start in
      read_bytes_cong _ after 0 patch_page_size (λ x p q. ground (arith, done x))

-- Equal slices hold equal bytes.
same_bytes :
    (m m' : Memory) (start n x : ℕ)
    → read_bytes m start n ≡ read_bytes m' start n
    → start ≤ x
    → x < start + n
    → m x ≡ m' x
unfolding read_bytes
same_bytes m m' start zero x e low high = absurd (omega arith)
same_bytes m m' start (suc n) x e low high = elim (ℕ_discrete x start) [
  | yes here ↦ let first : m start ≡ m' start = cc in cc (here, first)
  | no there ↦
      let rest : read_bytes m (start + 1) n ≡ read_bytes m' (start + 1) n = cc in
      same_bytes m m' (start + 1) n x rest (omega arith) (omega arith)
]

-- The scan of equal pages finds nothing.
nothing_changed :
    (before after : Memory) (n off : ℕ)
    → ((x : ℕ) → off ≤ x → x < off + n → before x ≡ after x)
    → changed_ranges before after n off none ≡ []
unfolding changed_ranges
nothing_changed before after zero off same = refl
nothing_changed before after (suc n) off same =
    let e = (==_iff (before off) (after off)).1 (same off (omega arith) (omega arith)) in
    rw e
      (nothing_changed before after n (off + 1) (λ x low high. same x (omega arith) (omega arith)))

no_patch_of_same :
    (before after : Memory)
    → read_bytes before 0 patch_page_size ≡ read_bytes after 0 patch_page_size
    → IsPatch (patch_ranges before after)
    → ⊥
unfolding patch_ranges
no_patch_of_same before after same ok =
    let nothing =
      nothing_changed before after patch_page_size 0
        (λ x low high. same_bytes before after 0 patch_page_size x same low high) in
    omega (arith, ok.0, ap (λ rs. length (map (range_of after) rs)) nothing)

nothing_or_long :
    (before : Memory) (rs : List PatchRange) (target : List ℕ)
    → Ascending 0 rs
    → ¬ IsPatch rs
    → read_bytes (apply_ranges before rs) 0 patch_page_size ≡ target
    → (read_bytes before 0 patch_page_size ≡ target) ⊎ (patch_page_size ≤ 16 + patch_bytes rs)
unfolding apply_ranges
nothing_or_long before [] target up refused e = inl e
nothing_or_long before (r ∷ rs) target up refused e =
    elim (dec_lt (16 + patch_bytes (r ∷ rs)) patch_page_size) [
      | yes short ↦ absurd (refused (omega arith, up, short))
      | no long ↦ inr (omega arith)
    ]

-- The patch between two page images is left out just where the pages are the same or the patch would
-- be as long as a page. Else the pages differ, and it is shorter than a page and decodes to the page id and
-- to ranges that turn the page before into the page after.
pub encode_page_patch_payload_lem :
    (page_id : ℕ) (before after : Memory)
    → page_id < 2 ^ 64
    → ((encode_page_patch_payload page_id before after ≡ none)
        × ((read_bytes before 0 patch_page_size ≡ read_bytes after 0 patch_page_size)
            ⊎ (patch_page_size ≤ 16 + patch_bytes (patch_ranges before after))))
      ⊎ ((payload : List ℕ) × (ranges : List PatchRange) × (encode_page_patch_payload page_id before
              after
            ≡ some payload)
          × (read_bytes before 0 patch_page_size ≢ read_bytes after 0 patch_page_size)
          × (length payload ≡ 16 + patch_bytes (patch_ranges before after))
          × (length payload < patch_page_size)
          × (decode_page_patch_payload payload ≡ some (page_id, ranges))
          × (read_bytes (apply_ranges before ranges) 0 patch_page_size
              ≡ read_bytes after 0 patch_page_size))
unfolding encode_page_patch_payload patch_ranges ranges_from
encode_page_patch_payload_lem page_id before after id_fits =
    let rs = patch_ranges before after in
    let up =
      ranges_from-Ascending before after patch_page_size 0 0 none (omega arith) (omega arith) in
    let done = apply_ranges-patch_ranges before after in
    elim (encode_page_patch_ranges_payload_lem page_id rs id_fits) [
      | inl (none_given, no_patch) ↦ inl (none_given, nothing_or_long before rs _ up no_patch done)
      | inr (ok, payload, given, size, back) ↦ inr (
        payload,
        rs,
        given,
        λ same. no_patch_of_same before after same ok,
        size,
        omega (arith, size, ok.2),
        back,
        done,
      )
    ]
