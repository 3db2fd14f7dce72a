-- ===== src/Btree/Chase.antt =====
-- `should_chase_right` of `crates/btree/src/btree/node.rs`: when a search goes on to the right sibling.
use Prim.Native.Nat.{Ordering}
use mathlib.Core.Option
use mathlib.Core.Option.{some-injective}
use native.Mathlib.Decide.{dec_lt}
use pagebox.Base.{
  ℕ, suc, ◌-◌, ◌<◌, ◌≡◌, ◌≢◌, ◌⊎◌, inl, inr, refl, ap, ◌∙◌, subst, List, [], ◌∷◌, some, true, false,
  get_elem?, get_elem?-some, get_elem?-none, All, arith, ◌==◌, ==_iff, Bool-cases,
}
use pagebox.Bytes.Memory.{read_bytes}
use pagebox.Bytes.BigEndian.{cmp_keys, cmp_keys_self, cmp_keys-eq, cmp_keys_flip, cmp_keys_trans}
use pagebox.Slotted.Layout.{SlottedPage, IsValid, num_slots, entries, payload}
use pagebox.Slotted.Search.{try_get_key}
use pagebox.Slotted.Accounts.{get_elem?-map}
use pagebox.Slotted.Bisect.{IsSorted, Precedes}
use pagebox.Slotted.LowerBound.{keys, length-keys}
use pagebox.Slotted.Optimistic.{try_get_lem}
use pagebox.Slotted.Edit.{get_lem}
use pagebox.Btree.Node.{leaf_right_pid, should_chase_right, is_greater}

pub cmp_keys_irreflexive : (k : List ℕ) → ¬ Precedes k k
cmp_keys_irreflexive k e = let self = cmp_keys_self k in cc

-- A key that follows is greater, and only then.
pub greater_cases :
    (key last : List ℕ)
    → ((is_greater (cmp_keys key last) ≡ true) × Precedes last key)
      ⊎ ((is_greater (cmp_keys key last) ≡ false) × (¬ Precedes last key))
greater_cases key last = go (cmp_keys key last) refl
  where
    go :
        (o : Ordering)
        → cmp_keys key last ≡ o
        → ((is_greater (cmp_keys key last) ≡ true) × Precedes last key)
          ⊎ ((is_greater (cmp_keys key last) ≡ false) × (¬ Precedes last key))
    go Ordering.gt e = inl (ap is_greater e, cmp_keys_flip key last e)
    go Ordering.eq e =
        let same = cmp_keys-eq key last e in
        inr
          (ap is_greater e, λ before. cmp_keys_irreflexive last (subst (Precedes last) same before))
    go Ordering.lt e =
        inr (
          ap is_greater e,
          λ before. cmp_keys_irreflexive key (cmp_keys_trans key last key e before),
        )

pub get_elem?-All :
    (P : List ℕ → Type 0) (ks : List (List ℕ))
    → ((i : ℕ) (k : List ℕ) → get_elem? ks i ≡ some k → P k)
    → All P ks
get_elem?-All P [] each = tt
get_elem?-All P (k ∷ ks) each = (each 0 k refl, get_elem?-All P ks (λ i. each (suc i)))

module _ (p : SlottedPage) (v : IsValid p) where
  pub last_key :
      0 < num_slots p
      → (k : List ℕ) × (try_get_key p (num_slots p - 1) ≡ some k)
        × (get_elem? (keys p) (num_slots p - 1) ≡ some k)
  unfolding keys entries
  last_key some_slots =
      let at = num_slots p - 1 in
      let inside : at < num_slots p = omega arith in
      let (s, here) = get_elem?-some p.slots at inside in
      let entry = get_elem?-map (payload p.bytes) p.slots at here in
      (
        read_bytes p.bytes s.offset s.key_len,
        (try_get_lem p v at inside).0
            ∙ (get_lem p at v).0
            ∙ ap (λ o. Option.map (λ q. q.0) o) entry,
        get_elem?-map (λ t. read_bytes p.bytes t.offset t.key_len) p.slots at here,
      )

  -- With the last key all keys precede.
  pub all_before :
      (k key : List ℕ)
      → IsSorted (keys p)
      → 0 < num_slots p
      → get_elem? (keys p) (num_slots p - 1) ≡ some k
      → Precedes k key
      → (i : ℕ) (x : List ℕ) → get_elem? (keys p) i ≡ some x
      → Precedes x key
  all_before k key sorted some_slots here before i x ei =
      let size = length-keys p in
      elim (dec_lt i (num_slots p - 1)) [
        | yes below ↦ cmp_keys_trans x k key (sorted i (num_slots p - 1) x k below ei here) before
        | no at_end ↦ elim (dec_lt i (num_slots p)) [
          | yes inside ↦
              let same : i ≡ num_slots p - 1 = omega arith in
              let ej : get_elem? (keys p) (num_slots p - 1) ≡ some x = cc in
              let x_is : k ≡ x = cc in subst (λ y. Precedes y key) x_is before
          | no outside ↦ let missing = get_elem?-none (keys p) i (omega (arith, size)) in cc
        ]
      ]

  -- A search for a key leaves a valid leaf with ascending keys for the right sibling just where there is
  -- one and all keys of the leaf are less than the key; it stays where there is none, or where the last
  -- key of the leaf is not less.
  pub should_chase_right_lem :
      (key : List ℕ)
      → IsSorted (keys p)
      → ((should_chase_right p key ≡ true)
          × (leaf_right_pid p ≢ 0)
          × All (λ k. Precedes k key) (keys p))
        ⊎ ((should_chase_right p key ≡ false)
            × ((leaf_right_pid p ≡ 0)
                ⊎ ((k : List ℕ) × (get_elem? (keys p) (num_slots p - 1) ≡ some k)
                    × (¬ Precedes k key))))
  unfolding should_chase_right
  should_chase_right_lem key sorted = elim (Bool-cases (leaf_right_pid p == 0)) [
    | inl z ↦ inr (rw z refl, inl ((==_iff (leaf_right_pid p) 0).0 z))
    | inr right ↦
        let sibling : leaf_right_pid p ≢ 0 = λ e. let z = (==_iff (leaf_right_pid p) 0).1 e in cc in
        elim (Bool-cases (num_slots p == 0)) [
          | inl z ↦
              let e = (==_iff (num_slots p) 0).0 z in
              let size = length-keys p in
              inl (
                rw (right, z) refl,
                sibling,
                get_elem?-All (λ x. Precedes x key) (keys p)
                    (λ i x ei.
                      let missing = get_elem?-none (keys p) i (omega (arith, size, e)) in cc),
              )
          | inr more ↦
              let some_slots : 0 < num_slots p = ground arith in
              let (k, tried, here) = last_key some_slots in
              elim (greater_cases key k) [
                | inl (greater, before) ↦ inl (
                  rw (right, more, tried, greater) refl,
                  sibling,
                  get_elem?-All (λ x. Precedes x key) (keys p)
                      (all_before k key sorted some_slots here before),
                )
                | inr (not_greater, not_before) ↦
                    inr (rw (right, more, tried, not_greater) refl, inr (k, here, not_before))
              ]
        ]
  ]
