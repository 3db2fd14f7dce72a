-- ===== src/Freelist/BestFit.antt =====
-- Taking the head of an extent in `crates/storage/src/free_page_allocator.rs` hands out its pages once.
use pagebox.Base.{
  ℕ, ◌+◌, ◌-◌, ◌≤◌, ◌<◌, ◌≡◌, refl, sym, ap, subst, ◌∙◌, Bool, true, false, ◌&&◌, ◌||◌, List, ◌∷◌,
  ltb, ltb→lt, ltb→le, Bool-cases, if◌then◌else◌, arith, inl, inr,
}
use pagebox.Freelist.Extent.{FreeExtent, extent}
use pagebox.Freelist.Extents.{
  Apart, total_pages, spans, holds, At, first, later, At-floor, Apart-lower, left_over,
  left_over-first, left_over-later, below_floor,
}

-- Taking `len` pages off the head of `e` takes `xs` to `ys`.
pub record Taken (floor start len : ℕ) (xs ys : List FreeExtent) : Type 0 where
  pub still_apart : Apart floor ys
  pub parted : (page : ℕ) → holds xs page ≡ (spans start len page || holds ys page)
  pub handed_out : (page : ℕ) → (spans start len page && holds ys page) ≡ false
  pub fewer : len + total_pages ys ≡ total_pages xs

and_none : (a b : Bool) → (a ≡ true → b ≡ false) → (a && b) ≡ false
and_none true b h = h refl
and_none false b h = refl

head_parts :
    (start len size page : ℕ)
    → len ≤ size
    → spans start size page ≡ (spans start len page || spans (start + len) (size - len) page)
unfolding spans
head_parts start len size page fits = ground arith

spans_before :
    (start len page bound : ℕ) → spans start len page ≡ true → start + len ≤ bound → page < bound
unfolding spans
spans_before start len page bound e h = ground arith

spans_after : (start len page : ℕ) → page < start → spans start len page ≡ false
unfolding spans
spans_after start len page h = ground arith

spans_from : (start len page : ℕ) → spans start len page ≡ true → start ≤ page
unfolding spans
spans_from start len page e = ground arith

spans_past : (start len page : ℕ) → start + len ≤ page → spans start len page ≡ false
unfolding spans
spans_past start len page h = ground arith

or_assoc : (a b c : Bool) → ((a || b) || c) ≡ (a || (b || c))
or_assoc true b c = refl
or_assoc false b c = refl

or_swap : (a b c : Bool) → (a || (b || c)) ≡ (b || (a || c))
or_swap true true c = refl
or_swap true false c = refl
or_swap false b c = refl

first-Taken :
    (floor len : ℕ) (e : FreeExtent) (xs : List FreeExtent)
    → 0 < len
    → len ≤ e.len
    → Apart floor (e ∷ xs)
    → Taken floor e.start_page_number len
        (e ∷ xs)
        (if ltb 0 (e.len - len) then extent (e.start_page_number + len) (e.len - len) ∷ xs else xs)
first-Taken floor len e xs some_pages fits (a, b, c, d) =
    let start = e.start_page_number in
    elim (Bool-cases (ltb 0 (e.len - len))) [
      | inl more ↦
          let left : 0 < e.len - len = ltb→lt 0 (e.len - len) more in
          rw more (record {
            still_apart = (
              omega (arith, a),
              left,
              omega (arith, c, fits),
              Apart-lower (start + len + (e.len - len)) (start + e.len) xs (omega (arith, fits)) d,
            );
            parted = λ page.
                ap (λ x. x || holds xs page) (head_parts start len e.len page fits)
                ∙ or_assoc (spans start len page) (spans (start + len) (e.len - len) page)
                    (holds xs page);
            handed_out = λ page.
                and_none (spans start len page)
                  (spans (start + len) (e.len - len) page || holds xs page)
                  (λ h.
                    let in_head = spans_before start len page (start + len) h (omega arith) in
                    rw
                      (
                        spans_after (start + len) (e.len - len) page in_head,
                        below_floor (start + e.len) page xs d (omega (arith, in_head, fits)),
                      )
                      refl);
            fewer = omega (arith, fits);
          })
      | inr all ↦
          let none_left : e.len ≡ len =
            let h = ltb→le 0 (e.len - len) all in omega (arith, h, fits) in
          rw all (record {
            still_apart = Apart-lower floor (start + e.len) xs (omega (arith, a)) d;
            parted = λ page. ap (λ n. spans start n page || holds xs page) none_left;
            handed_out = λ page. and_none (spans start len page) (holds xs page) (λ h.
                let in_head = spans_before start len page (start + len) h (omega arith) in
                below_floor (start + e.len) page xs d (omega (arith, in_head, fits)));
            fewer = omega (arith, none_left);
          })
    ]

pub taken :
    (len : ℕ) (e : FreeExtent) (floor : ℕ) {xs : List FreeExtent}
    → At e xs
    → 0 < len
    → len ≤ e.len
    → Apart floor xs
    → Taken floor e.start_page_number len xs (left_over e len xs)
taken len e floor (first {xs}) some_pages fits (a, b, c, d) =
    subst (Taken floor e.start_page_number len (e ∷ xs)) (sym (left_over-first e len xs fits d))
      (first-Taken floor len e xs some_pages fits (a, b, c, d))
taken len e floor (later {x} {xs} at) some_pages fits (a, b, c, d) =
    let start = e.start_page_number in
    let (past, _, _, _) = At-floor e (x.start_page_number + x.len) at d in
    let t = taken len e (x.start_page_number + x.len) at some_pages fits d in
    let ys = left_over e len xs in
    subst (Taken floor start len (x ∷ xs))
      (sym (left_over-later e x len xs (omega (arith, past, b))))
      (record {
        still_apart = (a, b, c, t.still_apart);
        parted = λ page.
            ap (λ r. spans x.start_page_number x.len page || r) (t.parted page)
            ∙ or_swap (spans x.start_page_number x.len page) (spans start len page) (holds ys page);
        handed_out = λ page.
            and_none (spans start len page) (spans x.start_page_number x.len page || holds ys page)
              (λ h.
                let from = spans_from start len page h in
                let none_else : holds ys page ≡ false =
                  sym (ap (λ q. q && holds ys page) h) ∙ t.handed_out page in
                rw
                  (spans_past x.start_page_number x.len page (omega (arith, from, past)), none_else)
                  refl);
        fewer = let f = t.fewer in omega (arith, f);
      })
