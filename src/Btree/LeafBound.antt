-- ===== src/Btree/LeafBound.antt =====
-- `leaf_insert_bound` of `crates/btree/src/btree.rs` is the search of the page, with a look at the last key first.
use Prim.Native.Nat.{Ordering}
use mathlib.Core.Option.{some-injective}
use native.Mathlib.Decide.{dec_lt}
use pagebox.Base.{
  ℕ, ◌-◌, ◌<◌, ◌≤◌, ◌≡◌, inl, inr, refl, sym, ap, ◌∙◌, subst, List, some, Bool, true, false, length,
  get_elem?, get_elem?-some, get_elem?-none, All, arith, ◌==◌, ==_iff, Bool-cases,
}
use pagebox.Bytes.Memory.{IsByte}
use pagebox.Bytes.BigEndian.{cmp_keys, cmp_keys-eq, cmp_keys_flip, cmp_keys_trans}
use pagebox.Slotted.Layout.{SlottedPage, IsValid, num_slots, get_key}
use pagebox.Slotted.Search.{lower_bound}
use pagebox.Slotted.Bisect.{IsSorted, Precedes, Below, Above, IsLowerBound, Finds}
use pagebox.Slotted.LowerBound.{keys, length-keys, lower_bound_lem}
use pagebox.Slotted.Optimistic.{try_get_lem}
use pagebox.Btree.Chase.{cmp_keys_irreflexive, last_key, all_before}
use pagebox.Btree.Leaf.{leaf_insert_bound, bound_from_last}

module _ (ks : List (List ℕ)) (key : List ℕ) where
  not_here :
      {k : List ℕ} (i : ℕ)
      → Precedes k key
      → get_elem? ks i ≡ some k
      → get_elem? ks i ≡ some key
      → ⊥
  not_here {k = k} i before here here' =
      let same : k ≡ key = some-injective _ _ (sym here ∙ here') in
      cmp_keys_irreflexive key (subst (λ x. Precedes x key) same before)

  -- No key is at once below one bound and at or behind another.
  no_gap :
      (r r' : ℕ) → Below ks key r' → (r ≤ length ks) × Above ks key r → r' ≤ length ks → r < r' → ⊥
  no_gap r r' below (_, above) fits less =
      let (k, here) = get_elem?-some ks r (omega arith) in
      let before = below r k less here in
      let behind = above r k (omega arith) here in
      cmp_keys_irreflexive k (cmp_keys_trans k key k before behind)

  found-Below : (r r' : ℕ) → get_elem? ks r ≡ some key → Below ks key r' → r < r' → ⊥
  found-Below r r' here below less = cmp_keys_irreflexive key (below r key less here)

  found-Above : (r r' : ℕ) → get_elem? ks r ≡ some key → Above ks key r' → r' ≤ r → ⊥
  found-Above r r' here above less = cmp_keys_irreflexive key (above r key less here)

  -- There is one answer only.
  pub IsLowerBound-unique : (a b : ℕ × Bool) → IsLowerBound ks key a → IsLowerBound ks key b → a ≡ b
  IsLowerBound-unique (r, true) (r', true) (below, here) (below', here') = elim (dec_lt r r') [
    | yes less ↦ absurd (found-Below r r' here below' less)
    | no not_less ↦ elim (dec_lt r' r) [
      | yes less ↦ absurd (found-Below r' r here' below less)
      | no not_less' ↦ ap (λ n. (n, true)) (omega arith)
    ]
  ]
  IsLowerBound-unique (r, true) (r', false) (below, here) (fits, below', above') =
      elim (dec_lt r r') [
        | yes less ↦ absurd (found-Below r r' here below' less)
        | no not_less ↦ absurd (found-Above r r' here above' (omega arith))
      ]
  IsLowerBound-unique (r, false) (r', true) (fits, below, above) (below', here') =
      elim (dec_lt r' r) [
        | yes less ↦ absurd (found-Below r' r here' below less)
        | no not_less ↦ absurd (found-Above r' r here' above (omega arith))
      ]
  IsLowerBound-unique (r, false) (r', false) (fits, below, above) (fits', below', above') =
      elim (dec_lt r r') [
        | yes less ↦ absurd (no_gap r r' below' (fits, above) fits' less)
        | no not_less ↦ elim (dec_lt r' r) [
          | yes less ↦ absurd (no_gap r' r below (fits', above') fits less)
          | no not_less' ↦ ap (λ n. (n, false)) (omega arith)
        ]
      ]

module _ (p : SlottedPage) (v : IsValid p) (key : List ℕ) (sorted : IsSorted (keys p))
    (kb : All IsByte key) where
  -- Behind the last key, or at it, or where the search points.
  bound_from_last_lem :
      (k : List ℕ) (o : Ordering)
      → 0 < num_slots p
      → get_elem? (keys p) (num_slots p - 1) ≡ some k
      → cmp_keys key k ≡ o
      → Finds (keys p) key (bound_from_last p key (num_slots p) o)
  bound_from_last_lem k Ordering.gt some_slots here e =
      let size = length-keys p in
      (
        (num_slots p, false),
        refl,
        (
          omega (arith, size),
          λ i x less ei. all_before p v k key sorted some_slots here (cmp_keys_flip key k e) i x ei,
          λ i x behind ei.
              let missing = get_elem?-none (keys p) i (omega (arith, size, behind)) in cc,
        ),
      )
  bound_from_last_lem k Ordering.eq some_slots here e =
      let same = cmp_keys-eq key k e in
      (
        (num_slots p - 1, true),
        refl,
        (
          λ i x less ei.
              subst (Precedes x) (sym same) (sorted i (num_slots p - 1) x k less ei here),
          here ∙ ap some (sym same),
        ),
      )
  bound_from_last_lem k Ordering.lt some_slots here e = lower_bound_lem p v sorted key kb

  pub leaf_insert_bound-Finds : Finds (keys p) key (leaf_insert_bound p key)
  unfolding leaf_insert_bound
  leaf_insert_bound-Finds = elim (Bool-cases (num_slots p == 0)) [
    | inl z ↦
        let size = length-keys p in
        let e = (==_iff (num_slots p) 0).0 z in
        (
          (0, false),
          rw z refl,
          (
            omega arith,
            λ i x less ei. absurd (omega (arith, less)),
            λ i x behind ei. let missing = get_elem?-none (keys p) i (omega (arith, size, e)) in cc,
          ),
        )
    | inr more ↦
        let some_slots : 0 < num_slots p = ground arith in
        let (k, tried, here) = last_key p v some_slots in
        let key_is : get_key p (num_slots p - 1) ≡ some k =
          sym ((try_get_lem p v (num_slots p - 1) (omega arith)).0) ∙ tried in
        let (r, found, bound) = bound_from_last_lem k (cmp_keys key k) some_slots here refl in
        (r, rw (more, key_is) found, bound)
  ]

  -- On a valid leaf with ascending keys the bound for an insertion, which looks at the last key first, is
  -- that of the search.
  leaf_insert_bound-lower_bound : leaf_insert_bound p key ≡ lower_bound p key
  leaf_insert_bound-lower_bound =
      let (r, found, bound) = leaf_insert_bound-Finds in
      let (r', found', bound') = lower_bound_lem p v sorted key kb in
      found ∙ ap some (IsLowerBound-unique (keys p) key r r' bound bound') ∙ sym found'
