-- ===== src/Swip/Lifecycle.antt =====
-- `crates/swip-kernel`: what the methods of a swip word do to its state and its payload.
use Prim.Native.Nat.{bit_and, bit_or}
use pagebox.Base.{
  ℕ, ◌+◌, ◌*◌, ◌/◌, ◌%◌, ◌<◌, ◌≡◌, refl, sym, ap, subst, ◌∙◌, guard, ◌>>◌, some, Bool, true, false,
  arith, ◌==◌, leb, le→leb, ==_iff, ◌≤◌, ◌⊎◌, inl, inr,
}
use pagebox.Base.Bits.{
  bit_and_step, bit_and-one, bit_and-split, bit_or-split, bit_and-ones, bit_and-zero, bit_or-zero,
  zero-bit_or,
}
use pagebox.Swip.State.{
  SwipState, hot, cool_bit, evicted_bit, state_bits, ptr_mask, clear_evicted_bit, clear_cool_bit,
  classify_raw, raw_is_evicted, raw_is_cool, raw_is_hot, state_mask,
}
use pagebox.Swip.Word.{
  pointer_bits_of, page_id_of, hot_ptr, evicted_page, pointer_bits, page_id, cool, warm, evict,
  resolve_ptr, cool_word, warm_word, evict_word, make_evicted_page_word, make_hot_ptr_word,
  resolve_ptr_word,
}

-- The word with tag t and payload p.
abbrev pub tagged : ℕ → ℕ → ℕ
tagged t p = t * cool_bit + p

untagged : (p : ℕ) → p ≡ tagged 0 p
untagged p = omega arith

state_mask-tagged :
    (t p : ℕ) → t < 4 → p < cool_bit → bit_and (tagged t p) state_bits ≡ t * cool_bit
state_mask-tagged t p small fits =
    omega
      (arith, bit_and-split 62 t 3 p 0 fits (omega arith), bit_and-ones 2 t small, bit_and-zero p)

evicted-tagged :
    (t p : ℕ) → t < 4 → p < cool_bit → bit_and (tagged t p) evicted_bit ≡ t / 2 * evicted_bit
evicted-tagged t p small fits = omega (
  arith,
  bit_and-split 62 t 2 p 0 fits (omega arith),
  bit_and_step t 2,
  bit_and-one (t / 2),
  bit_and-zero p,
)

pointer-tagged : (t p : ℕ) → p < cool_bit → bit_and (tagged t p) ptr_mask ≡ p
pointer-tagged t p fits = omega (
  arith,
  bit_and-split 62 t 0 p ptr_mask fits (omega arith),
  bit_and-zero t,
  bit_and-ones 62 p fits,
)

page-tagged : (p : ℕ) → p < cool_bit → bit_and (tagged 2 p) clear_evicted_bit ≡ p
page-tagged p fits =
    omega (arith, bit_and-split 62 2 1 p ptr_mask fits (omega arith), bit_and-ones 62 p fits)

cool-tagged : (p : ℕ) → p < cool_bit → bit_or p cool_bit ≡ tagged 1 p
cool-tagged p fits =
    ap (λ x. bit_or x cool_bit) (untagged p)
    ∙ omega (arith, zero-bit_or 1, bit_or-split 62 0 1 p 0 fits (omega arith), bit_or-zero p)

evict-tagged : (p : ℕ) → p < cool_bit → bit_or p evicted_bit ≡ tagged 2 p
evict-tagged p fits =
    ap (λ x. bit_or x evicted_bit) (untagged p)
    ∙ omega (arith, zero-bit_or 2, bit_or-split 62 0 2 p 0 fits (omega arith), bit_or-zero p)

warm-tagged : (p : ℕ) → p < cool_bit → bit_and (tagged 1 p) clear_cool_bit ≡ p
warm-tagged p fits =
    omega (arith, bit_and-split 62 1 2 p ptr_mask fits (omega arith), bit_and-ones 62 p fits)

is_evicted-tagged : (t p : ℕ) → t < 4 → p < cool_bit → raw_is_evicted (tagged t p) ≡ leb 2 t
unfolding raw_is_evicted
is_evicted-tagged t p small fits = rw (evicted-tagged t p small fits) (ground arith)

is_cool-tagged : (t p : ℕ) → t < 4 → p < cool_bit → raw_is_cool (tagged t p) ≡ (t == 1)
unfolding raw_is_cool
is_cool-tagged t p small fits =
    rw (is_evicted-tagged t p small fits, state_mask-tagged t p small fits) (ground arith)

is_hot-tagged : (t p : ℕ) → t < 4 → p < cool_bit → raw_is_hot (tagged t p) ≡ (t == 0)
unfolding raw_is_hot
is_hot-tagged t p small fits =
    rw (is_evicted-tagged t p small fits, state_mask-tagged t p small fits) (ground arith)

untagged_mask : (p : ℕ) → p < cool_bit → (state_mask p == 0) ≡ true
unfolding state_mask
untagged_mask p fits = rw (untagged p) (rw (state_mask-tagged 0 p (omega arith) fits) refl)

classify_hot : (p : ℕ) → p < cool_bit → classify_raw p ≡ hot
unfolding classify_raw
classify_hot p fits =
    rw (untagged p)
      (rw (is_evicted-tagged 0 p (omega arith) fits, state_mask-tagged 0 p (omega arith) fits) refl)

classify_cool : (p : ℕ) → p < cool_bit → classify_raw (tagged 1 p) ≡ SwipState.cool
unfolding classify_raw
classify_cool p fits =
    rw (is_evicted-tagged 1 p (omega arith) fits, state_mask-tagged 1 p (omega arith) fits) refl

classify_evicted :
    (t p : ℕ) → t < 4 → 2 ≤ t → p < cool_bit → classify_raw (tagged t p) ≡ SwipState.evicted
unfolding classify_raw
classify_evicted t p small top fits =
    rw (is_evicted-tagged t p small fits) (rw (le→leb 2 t top) refl)

-- A word, from its tag and its payload.
tag_and_payload : (w : ℕ) → w ≡ tagged (w / cool_bit) (w % cool_bit)
tag_and_payload w = omega arith

untagged_is_hot : (p : ℕ) → p < cool_bit → raw_is_hot p ≡ true
untagged_is_hot p fits = ap raw_is_hot (untagged p) ∙ is_hot-tagged 0 p (omega arith) fits

-- The whole life of a swip whose pointers and page id keep off the tag bits: it is made hot, and
-- cooling, warming, evicting and resolving it succeed one after the other; at each stop its state
-- is the one that the methods name and its payload reads back as the pointer or page id put in.
pub lifecycle :
    (ptr pid ptr' : ℕ)
    → ptr < cool_bit
    → pid < cool_bit
    → ptr' < cool_bit
    → (hot_ptr ptr ≡ some ptr)
      × (classify_raw ptr ≡ hot)
      × (pointer_bits ptr ≡ some ptr)
      × (cool ptr ≡ some (tagged 1 ptr))
      × (classify_raw (tagged 1 ptr) ≡ SwipState.cool)
      × (pointer_bits (tagged 1 ptr) ≡ some ptr)
      × (warm (tagged 1 ptr) ≡ some ptr)
      × (evict (tagged 1 ptr) pid ≡ some (tagged 2 pid))
      × (evicted_page pid ≡ some (tagged 2 pid))
      × (classify_raw (tagged 2 pid) ≡ SwipState.evicted)
      × (page_id (tagged 2 pid) ≡ some pid)
      × (resolve_ptr (tagged 2 pid) ptr' ≡ some ptr')
unfolding hot_ptr pointer_bits cool warm evict evicted_page page_id resolve_ptr make_hot_ptr_word
    cool_word pointer_bits_of warm_word evict_word make_evicted_page_word page_id_of
    resolve_ptr_word
lifecycle ptr pid ptr' fits_ptr fits_pid fits' = (
  rw (untagged_mask ptr fits_ptr) refl,
  classify_hot ptr fits_ptr,
  rw (untagged ptr) (
      rw (is_evicted-tagged 0 ptr (omega arith) fits_ptr)
        (ap some (pointer-tagged 0 ptr fits_ptr ∙ untagged ptr))),
  rw (untagged_is_hot ptr fits_ptr) (ap some (cool-tagged ptr fits_ptr)),
  classify_cool ptr fits_ptr,
  rw (is_evicted-tagged 1 ptr (omega arith) fits_ptr) (ap some (pointer-tagged 1 ptr fits_ptr)),
  rw (is_cool-tagged 1 ptr (omega arith) fits_ptr) (ap some (warm-tagged ptr fits_ptr)),
  rw (is_cool-tagged 1 ptr (omega arith) fits_ptr)
      (rw (untagged_mask pid fits_pid) (ap some (evict-tagged pid fits_pid))),
  rw (untagged_mask pid fits_pid) (ap some (evict-tagged pid fits_pid)),
  classify_evicted 2 pid (omega arith) (omega arith) fits_pid,
  rw (is_evicted-tagged 2 pid (omega arith) fits_pid) (ap some (page-tagged pid fits_pid)),
  rw (is_evicted-tagged 2 pid (omega arith) fits_pid) (rw (untagged_mask ptr' fits') refl),
)

hot_small : (w : ℕ) → w < 18446744073709551616 → raw_is_hot w ≡ true → w < cool_bit
hot_small w word e =
    let p = w % cool_bit in
    let t = w / cool_bit in
    let small : t < 4 = omega arith in
    let zero_tag : (t == 0) ≡ true =
      sym (ap raw_is_hot (tag_and_payload w) ∙ is_hot-tagged t p small (omega arith)) ∙ e in
    let none_set : t ≡ 0 = (==_iff t 0).0 zero_tag in omega (arith, none_set)

cool_tag : (w : ℕ) → w < 18446744073709551616 → raw_is_cool w ≡ true → w ≡ tagged 1 (w % cool_bit)
cool_tag w word e =
    let p = w % cool_bit in
    let t = w / cool_bit in
    let small : t < 4 = omega arith in
    let one_tag : (t == 1) ≡ true =
      sym (ap raw_is_cool (tag_and_payload w) ∙ is_cool-tagged t p small (omega arith)) ∙ e in
    let one_set : t ≡ 1 = (==_iff t 1).0 one_tag in omega (arith, one_set)

guard-some : (b : Bool) (x y : ℕ) → (guard b >> some x) ≡ some y → (b ≡ true) × (x ≡ y)
guard-some true x y e = (refl, cc)
guard-some false x y e = cc

abbrev pub Cooled : ℕ → ℕ → Type 0
Cooled w w' =
    (classify_raw w ≡ hot)
    × (classify_raw w' ≡ SwipState.cool)
    × (pointer_bits w' ≡ pointer_bits w)
    × (warm w' ≡ some w)

abbrev pub Warmed : ℕ → ℕ → Type 0
Warmed w w' =
    (classify_raw w ≡ SwipState.cool)
    × (classify_raw w' ≡ hot)
    × (pointer_bits w' ≡ pointer_bits w)
    × (cool w' ≡ some w)

cool_step : (p : ℕ) → p < cool_bit → Cooled p (tagged 1 p)
cool_step p fits =
    let (_, is_hot, points, _, is_cool, points', warms, _, _, _, _, _) =
      lifecycle p 0 0 fits (omega arith) (omega arith) in
    (is_hot, is_cool, points' ∙ sym points, warms)

warm_step : (p : ℕ) → p < cool_bit → Warmed (tagged 1 p) p
warm_step p fits =
    let (_, is_hot, points, cools, is_cool, points', _, _, _, _, _, _) =
      lifecycle p 0 0 fits (omega arith) (omega arith) in
    (is_cool, is_hot, points ∙ sym points', cools)

cool_lem : (w w' : ℕ) → w < 18446744073709551616 → cool w ≡ some w' → Cooled w w'
unfolding cool cool_word
cool_lem w w' word e =
    let (is_hot, result) = guard-some (raw_is_hot w) (cool_word w) w' e in
    let fits : w < cool_bit = hot_small w word is_hot in
    subst (Cooled w) (sym (cool-tagged w fits) ∙ result) (cool_step w fits)

warm_lem : (w w' : ℕ) → w < 18446744073709551616 → warm w ≡ some w' → Warmed w w'
unfolding warm warm_word
warm_lem w w' word e =
    let (is_cool, result) = guard-some (raw_is_cool w) (warm_word w) w' e in
    let p = w % cool_bit in
    let fits : p < cool_bit = omega arith in
    let shape : w ≡ tagged 1 p = cool_tag w word is_cool in
    let payload : p ≡ w' =
      sym (warm-tagged p fits) ∙ ap (λ x. bit_and x clear_cool_bit) (sym shape) ∙ result in
    subst (λ x. Warmed x w') (sym shape) (subst (Warmed (tagged 1 p)) payload (warm_step p fits))

-- Where `cool` or `warm` of a 64-bit word does not panic, the word was hot and is cool now, or it was
-- cool and is hot now; the new word points where the old one did, and the other operation gives the old
-- one back.
cool-warm :
    (w w' : ℕ)
    → w < 18446744073709551616
    → (cool w ≡ some w') ⊎ (warm w ≡ some w')
    → Cooled w w' ⊎ Warmed w w'
cool-warm w w' word (inl cooled) = inl (cool_lem w w' word cooled)
cool-warm w w' word (inr warmed) = inr (warm_lem w w' word warmed)
