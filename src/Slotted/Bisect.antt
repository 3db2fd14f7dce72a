-- ===== src/Slotted/Bisect.antt =====
-- The binary search loop of `crates/storage/src/slotted_page.rs`, for any look at the slots that
-- tells truly where the keys stand.
use Prim.Native.Nat.{Ordering}
use native.Mathlib.Decide.{dec_lt}
use pagebox.Base.{
  ℕ, zero, suc, ◌+◌, ◌-◌, ◌≤◌, ◌<◌, ◌≡◌, refl, subst, inl, inr, List, Option, some, Bool, true,
  false, arith, length, get_elem?, get_elem?-some, ltb, ltb→lt, ltb→le, Bool-cases,
}
use pagebox.Bytes.BigEndian.{cmp_keys, cmp_keys_trans}
use pagebox.Slotted.Search.{Probe, less, greater, equal, stop, midpoint, bisect}

abbrev pub Precedes : List ℕ → List ℕ → Type 0
Precedes a b = cmp_keys a b ≡ Ordering.lt

-- Strictly ascending keys.
abbrev pub IsSorted : List (List ℕ) → Type 0
IsSorted keys =
    (i j : ℕ) (k l : List ℕ)
    → i < j
    → get_elem? keys i ≡ some k
    → get_elem? keys j ≡ some l
    → Precedes k l

abbrev pub Below : List (List ℕ) → List ℕ → ℕ → Type 0
Below keys key r = (i : ℕ) (k : List ℕ) → i < r → get_elem? keys i ≡ some k → Precedes k key

abbrev pub Above : List (List ℕ) → List ℕ → ℕ → Type 0
Above keys key r = (i : ℕ) (k : List ℕ) → r ≤ i → get_elem? keys i ≡ some k → Precedes key k

-- The answer of a search: the keys in front of `r` precede the key searched for; at `r` it stands,
-- or, if it is absent, it precedes all keys from `r` on.
abbrev pub IsLowerBound : List (List ℕ) → List ℕ → ℕ × Bool → Type 0
IsLowerBound keys key (r, true) = Below keys key r × (get_elem? keys r ≡ some key)
IsLowerBound keys key (r, false) = (r ≤ length keys) × Below keys key r × Above keys key r

abbrev pub Finds : List (List ℕ) → List ℕ → Option (ℕ × Bool) → Type 0
Finds keys key o = (r : ℕ × Bool) × (o ≡ some r) × IsLowerBound keys key r

-- A true look at slot `mid`.
abbrev pub IsTrue : List (List ℕ) → List ℕ → ℕ → Probe → Type 0
IsTrue keys key mid less = (k : List ℕ) → get_elem? keys mid ≡ some k → Precedes k key
IsTrue keys key mid greater = (k : List ℕ) → get_elem? keys mid ≡ some k → Precedes key k
IsTrue keys key mid equal = get_elem? keys mid ≡ some key
IsTrue keys key mid (stop o) = Finds keys key o

module _ (keys : List (List ℕ)) (key : List ℕ) (sorted : IsSorted keys) where
  Below-mid : (mid : ℕ) → mid < length keys → IsTrue keys key mid less → Below keys key (mid + 1)
  Below-mid mid h look i k lt e = elim (dec_lt i mid) [
    | yes below ↦
        let (l, here) = get_elem?-some keys mid h in
        cmp_keys_trans k l key (sorted i mid k l below e here) (look l here)
    | no not_below ↦
        let same : i ≡ mid = omega arith in look k (subst (λ j. get_elem? keys j ≡ some k) same e)
  ]

  Above-mid : (mid : ℕ) → mid < length keys → IsTrue keys key mid greater → Above keys key mid
  Above-mid mid h look i k le e = elim (dec_lt mid i) [
    | yes above ↦
        let (l, here) = get_elem?-some keys mid h in
        cmp_keys_trans key l k (look l here) (sorted mid i l k above here e)
    | no not_above ↦
        let same : i ≡ mid = omega arith in look k (subst (λ j. get_elem? keys j ≡ some k) same e)
  ]

  module _ (probe : ℕ → Probe)
      (true_look : (mid : ℕ) → mid < length keys → IsTrue keys key mid (probe mid)) where
    -- The loop ends, with the lower bound.
    pub bisect_lem :
        (fuel lo hi : ℕ)
        → hi - lo < fuel
        → lo ≤ hi
        → hi ≤ length keys
        → Below keys key lo
        → Above keys key hi
        → Finds keys key (bisect probe fuel lo hi)
    unfolding bisect
    bisect_lem zero lo hi f a b below above = absurd (omega arith)
    bisect_lem (suc fuel) lo hi f a b below above = elim (Bool-cases (ltb lo hi)) [
      | inr done ↦
          let met : hi ≡ lo = omega (arith, ltb→le lo hi done) in
          rw (done, bisect)
            ((lo, false), refl, (omega arith, below, subst (Above keys key) met above))
      | inl more ↦
          let lt = ltb→lt lo hi more in
          let mid = midpoint lo hi in
          let inside : mid < length keys = omega arith in
          let look = true_look mid inside in
          rw (more, bisect)
            ((elim (probe mid)
                as (λ pr.
                  IsTrue keys key mid pr
                  → Finds keys key (elim pr [
                    | less ↦ bisect probe fuel (mid + 1) hi
                    | greater ↦ bisect probe fuel lo mid
                    | equal ↦ some (mid, true)
                    | stop r ↦ r
                  ])) [
                    | less ↦ λ t.
                        bisect_lem fuel (mid + 1) hi (omega arith) (omega arith) b
                          (Below-mid mid inside t) above
                    | greater ↦ λ t.
                        bisect_lem fuel lo mid (omega arith) (omega arith) (omega arith) below
                          (Above-mid mid inside t)
                    | equal ↦ λ t. ((mid, true), refl, ((λ i k h e. sorted i mid k key h e t), t))
                    | stop r ↦ λ t. t
                  ])
              look)
    ]
