-- ===== src/Slotted/Sorted.antt =====
-- `lower_bound` and `insert` of `crates/storage/src/slotted_page.rs` together, as the B+tree uses
-- them: an entry that goes where the search points keeps the keys ascending.
use native.Mathlib.Decide.{dec_lt}
use mathlib.Core.Option.{some-injective}
use pagebox.Base.{
  ℕ, zero, suc, ◌-◌, ◌≤◌, ◌<◌, ◌≡◌, refl, sym, ap, subst, ◌∙◌, List, [], ◌∷◌, map, some, true,
  false, arith, length, get_elem?, insert_at, All,
}
use pagebox.Base.Ranges.{get_elem?-insert_at_lt}
use pagebox.Bytes.Memory.{IsByte}
use pagebox.Slotted.Layout.{SlottedPage, IsValid, entries, payload}
use pagebox.Slotted.Ops.{insert, can_insert}
use pagebox.Slotted.Search.{lower_bound}
use pagebox.Slotted.Bisect.{Precedes, IsSorted, Below, Above, IsLowerBound}
use pagebox.Slotted.LowerBound.{keys, lower_bound_lem, length-keys}
use pagebox.Slotted.Insert.{insert_lem}
use pagebox.Slotted.Accounts.{map-insert_at}

map-map {ℓ κ μ} :
    {A : Type ℓ} {B : Type κ} {C : Type μ} (f : A → B) (g : B → C) (xs : List A)
    → map g (map f xs) ≡ map (λ x. g (f x)) xs
map-map f g [] = refl
map-map f g (x ∷ xs) = ap (◌∷◌ (g (f x))) (map-map f g xs)

keys-entries : (p : SlottedPage) → map (λ e. e.0) (entries p) ≡ keys p
unfolding keys entries
keys-entries p = map-map (payload p.bytes) (λ e. e.0) p.slots

module _ {ℓ} {A : Type ℓ} (x : A) where
  get_elem?-insert_at_self :
      (xs : List A) (r : ℕ) → r ≤ length xs → get_elem? (insert_at xs r x) r ≡ some x
  get_elem?-insert_at_self xs zero b = refl
  get_elem?-insert_at_self [] (suc r) b = absurd (omega arith)
  get_elem?-insert_at_self (y ∷ ys) (suc r) b = get_elem?-insert_at_self ys r (omega arith)

  get_elem?-insert_at_gt :
      (xs : List A) (r i : ℕ)
      → r ≤ i
      → r ≤ length xs
      → get_elem? (insert_at xs r x) (suc i) ≡ get_elem? xs i
  get_elem?-insert_at_gt xs zero i h b = refl
  get_elem?-insert_at_gt [] (suc r) i h b = absurd (omega arith)
  get_elem?-insert_at_gt (y ∷ ys) (suc r) zero h b = absurd (omega arith)
  get_elem?-insert_at_gt (y ∷ ys) (suc r) (suc i) h b =
      get_elem?-insert_at_gt ys r i (omega arith) (omega arith)

module _ (ks : List (List ℕ)) (key : List ℕ) (r : ℕ) (r-le : r ≤ length ks) (sorted : IsSorted ks)
    (below : Below ks key r) (above : Above ks key r) where
  -- Where an entry of the longer list comes from.
  data From (i : ℕ) (k : List ℕ) : Type 0 where
    before : i < r → get_elem? ks i ≡ some k → From i k
    new : i ≡ r → k ≡ key → From i k
    after : (j : ℕ) → i ≡ suc j → r ≤ j → get_elem? ks j ≡ some k → From i k

  origin : (i : ℕ) (k : List ℕ) → get_elem? (insert_at ks r key) i ≡ some k → From i k
  origin i k e = elim (dec_lt i r) [
    | yes h ↦ before h (sym (get_elem?-insert_at_lt key ks r i h r-le) ∙ e)
    | no h ↦ elim (dec_lt r i) [
      | no g ↦
          let same : r ≡ i = omega arith in
          new (sym same) (
            some-injective _ _ (
              sym (
                sym (get_elem?-insert_at_self key ks r r-le)
                ∙ ap (get_elem? (insert_at ks r key)) same
                ∙ e)))
      | yes g ↦
          let same : i ≡ suc (i - 1) = omega arith in
          after (i - 1) same (omega arith) (
            sym (get_elem?-insert_at_gt key ks r (i - 1) (omega arith) r-le)
            ∙ sym (ap (get_elem? (insert_at ks r key)) same)
            ∙ e)
    ]
  ]

  ordered : (i j : ℕ) (k l : List ℕ) → i < j → From i k → From j l → Precedes k l
  ordered i j k l h (before a e) (before b f) = sorted i j k l h e f
  ordered i j k l h (before a e) (new b f) = subst (Precedes k) (sym f) (below i k a e)
  ordered i j k l h (before a e) (after n b c f) = sorted i n k l (omega arith) e f
  ordered i j k l h (new a e) (before b f) = absurd (omega arith)
  ordered i j k l h (new a e) (new b f) = absurd (omega arith)
  ordered i j k l h (new a e) (after n b c f) = subst (λ x. Precedes x l) (sym e) (above n l c f)
  ordered i j k l h (after m a d e) (before b f) = absurd (omega arith)
  ordered i j k l h (after m a d e) (new b f) = absurd (omega arith)
  ordered i j k l h (after m a d e) (after n b c f) = sorted m n k l (omega arith) e f

  pub IsSorted-insert_at : IsSorted (insert_at ks r key)
  IsSorted-insert_at i j k l h e f = ordered i j k l h (origin i k e) (origin j l f)

-- If the search says that the key is absent and the page has room, the entry goes where the search
-- points: the insert does not panic, the page stays valid and its keys ascending.
insert_at-lower_bound :
    (p : SlottedPage) (key value : List ℕ) (r : ℕ)
    → IsValid p
    → IsSorted (keys p)
    → All IsByte key
    → All IsByte value
    → lower_bound p key ≡ some (r, false)
    → can_insert p (length key) (length value) ≡ true
    → (q : SlottedPage) × (insert p r key value ≡ some q)
      × (entries q ≡ insert_at (entries p) r (key, value))
      × IsSorted (keys q)
      × IsValid q
insert_at-lower_bound p key value r v sorted kb vb found room =
    let (answer, e, ok) = lower_bound_lem p v sorted key kb in
    let same : answer ≡ (r, false) = some-injective _ _ (sym e ∙ found) in
    let bound = subst (IsLowerBound (keys p) key) same ok in
    let (q, runs, ins) =
      insert_lem p r key value v kb vb (omega (arith, bound.0, length-keys p)) room in
    let new_keys : insert_at (keys p) r key ≡ keys q =
      (ap (λ ks. insert_at ks r key) (sym (keys-entries p))
        ∙ sym (map-insert_at (λ e. e.0) (entries p) r (key, value))
        ∙ ap (map (λ e. e.0)) (sym ins.new_entries)
        ∙ keys-entries q) in
    (
      q,
      runs,
      ins.new_entries,
      subst IsSorted new_keys (IsSorted-insert_at (keys p) key r bound.0 sorted bound.1 bound.2),
      ins.valid,
    )
