-- ===== src/Slotted/Runs.antt =====
-- Runs of ascending keys: the keys of the entries of a slotted page (`crates/storage/src/slotted_page.rs`).
use pagebox.Base.{
  ℕ, ◌+◌, ◌≡◌, refl, sym, ap, ◌∙◌, subst, List, [], ◌∷◌, map, some, arith, get_elem?, take, drop,
  All,
}
use mathlib.Core.Option.{some-injective}
use native.Mathlib.Decide.{dec_lt}
use pagebox.Base.Ranges.{get_elem?-take, get_elem?-take_below, get_elem?-drop, get_elem?-All}
use pagebox.Slotted.Layout.{SlottedPage, Slot, entries, payload}
use pagebox.Slotted.Bisect.{IsSorted, Precedes}
use pagebox.Slotted.LowerBound.{keys}
use pagebox.Bytes.BigEndian.{cmp_keys_self, cmp_keys_trans}

abbrev pub entry_keys : List (List ℕ × List ℕ) → List (List ℕ)
entry_keys es = map (λ e. e.0) es

pub keys_lem : (p : SlottedPage) → keys p ≡ entry_keys (entries p)
unfolding keys entries
keys_lem p = go p.slots
  where
    go :
        (ss : List Slot)
        → map (λ s. (payload p.bytes s).0) ss ≡ entry_keys (map (payload p.bytes) ss)
    go [] = refl
    go (s ∷ ss) = ap (◌∷◌ ((payload p.bytes s).0)) (go ss)

pub not-Precedes_self : (k : List ℕ) → ¬ Precedes k k
not-Precedes_self k e = let self = cmp_keys_self k in cc

pub not-Precedes_both : (k l : List ℕ) → Precedes k l → ¬ Precedes l k
not-Precedes_both k l e f = not-Precedes_self k (cmp_keys_trans k l k e f)

module _ (ks : List (List ℕ)) (sorted : IsSorted ks) (n : ℕ) where
  pub take-IsSorted : IsSorted (take n ks)
  take-IsSorted i j k l below e f =
      sorted i j k l below (get_elem?-take n i ks e) (get_elem?-take n j ks f)

  pub drop-IsSorted : IsSorted (drop n ks)
  drop-IsSorted i j k l below e f =
      sorted (n + i) (n + j) k l (omega arith) (sym (get_elem?-drop n i ks) ∙ e)
        (sym (get_elem?-drop n j ks) ∙ f)

  pub take-Precedes_all :
      (sep : List ℕ) → get_elem? ks n ≡ some sep → All (λ k. Precedes k sep) (take n ks)
  take-Precedes_all sep here =
      get_elem?-All (λ k. Precedes k sep) (take n ks)
        (λ i k e. sorted i n k sep (get_elem?-take_below n i ks e) (get_elem?-take n i ks e) here)

  -- The keys up to one do not follow it, and those behind it do.
  module _ (sep : List ℕ) (at : ℕ) (here : get_elem? ks at ≡ some sep) (next : n ≡ at + 1) where
    pub take-Precedes : All (λ k. ¬ Precedes sep k) (take n ks)
    take-Precedes =
        get_elem?-All (λ k. ¬ Precedes sep k) (take n ks)
          (λ i k e.
            let below = get_elem?-take_below n i ks e in
            let there = get_elem?-take n i ks e in
            elim (dec_lt i at) [
              | yes before ↦ not-Precedes_both k sep (sorted i at k sep before there here)
              | no late ↦
                  let same : i ≡ at = omega (arith, below, late, next) in
                  let k_is : k ≡ sep =
                    some-injective k sep (sym there ∙ ap (get_elem? ks) same ∙ here) in
                  subst (λ x. ¬ Precedes sep x) (sym k_is) (not-Precedes_self sep)
            ])

    pub drop-Precedes : All (λ k. Precedes sep k) (drop n ks)
    drop-Precedes =
        get_elem?-All (λ k. Precedes sep k) (drop n ks)
          (λ i k e. sorted at (n + i) sep k (omega arith) here (sym (get_elem?-drop n i ks) ∙ e))
