-- ===== src/Superset/Contains.antt =====
-- `SupersetIndex.contains_superset` beside `supersets`.
use claw_tune.Base.{
  ◌≡◌, refl, sym, ap, ◌∙◌, inl, inr, true, false, not, some, List, [], ◌∷◌, All, if◌then◌else◌,
  is_some, length, ltb, arith, Bool-cases, Option-cases,
}
use claw_tune.Dict.{Dict, get, IsUnique}
use claw_tune.Superset.{
  has, subset, is_empty, Index, posting, new_index, keys_of, posting_lists, supersets,
  min_by_length, any_superset, contains_superset,
}
use claw_tune.Superset.Sets.{in_all, has-is_empty}
use claw_tune.Superset.Laws.{
  contains, IsIndexed, in_all-posting_lists, has-supersets, new_index-IsIndexed, supersets_lem,
}

module _ {K F : Type 0} (key_dec : Discrete K) (dec : Discrete F) where
  min_by_length-All :
      (P : List K → Type 0) (best : List K) (rest : List (List K))
      → P best
      → All P rest
      → P (min_by_length key_dec dec best rest)
  unfolding min_by_length
  min_by_length-All P best [] p h = p
  min_by_length-All P best (keys ∷ rest) p h = elim (Bool-cases (ltb (length keys) (length best))) [
    | inl q ↦ rw q (min_by_length-All P keys rest h.0 h.1)
    | inr q ↦ rw q (min_by_length-All P best rest p h.1)
  ]

  module _ (index : Index K F) (ok : IsIndexed key_dec dec index) where
    AreStored : List K → Type 0
    AreStored keys =
        (k : K) → has key_dec k keys ≡ true → is_some (get key_dec k index.features) ≡ true

    posting-AreStored : (f : F) → AreStored (posting key_dec dec f index.postings)
    unfolding AreStored
    posting-AreStored f k h = ground (arith, h, ok k f)

    posting_lists-AreStored :
        (fs : List F) → All AreStored (posting_lists key_dec dec fs index.postings)
    posting_lists-AreStored [] = tt
    posting_lists-AreStored (f ∷ fs) = (posting-AreStored f, posting_lists-AreStored fs)

    has_self : (key : K) (keys : List K) → has key_dec key (key ∷ keys) ≡ true
    unfolding has
    has_self key keys = elim (key_dec key key) [
      | yes p ↦ ground (arith, p)
      | no n ↦ absurd (n refl)
    ]

    later-AreStored : (key : K) (keys : List K) → AreStored (key ∷ keys) → AreStored keys
    unfolding AreStored has
    later-AreStored key keys stored k h = stored k (ground (arith, h))

    first_stored :
        (key : K) (keys : List K)
        → AreStored (key ∷ keys)
        → (features : List F) × (get key_dec key index.features ≡ some features)
    unfolding AreStored
    first_stored key keys stored = elim (Option-cases (get key_dec key index.features)) [
      | inl absent ↦ absurd (ground (arith, absent, stored key (has_self key keys)))
      | inr found ↦ found
    ]

    -- One turn of the loop.
    any_superset-cons :
        (fs : List F) (key : K) (keys : List K) (features : List F)
        → get key_dec key index.features ≡ some features
        → any_superset key_dec dec fs (key ∷ keys) index.features ≡ (
            if subset dec fs features
            then some true
            else any_superset key_dec dec fs keys index.features)
    unfolding any_superset
    any_superset-cons fs key keys features g = rw (any_superset, g) refl

    -- Where a key of the list has every feature, the answer is yes.
    any_superset_found :
        (k : K) (fs : List F) (keys : List K)
        → AreStored keys
        → has key_dec k keys ≡ true
        → contains key_dec dec k fs index.features ≡ true
        → any_superset key_dec dec fs keys index.features ≡ some true
    any_superset_found k fs [] stored h c = absurd (unfold has in cc h)
    any_superset_found k fs (key ∷ keys) stored h c =
        let (features, g) = first_stored key keys stored in
        any_superset-cons fs key keys features g ∙ (elim (Bool-cases (subset dec fs features)) [
          | inl s ↦ rw s refl
          | inr s ↦ elim (key_dec key k) [
            | yes p ↦ absurd (ground (arith, p, g, s, c))
            | no n ↦ rw s (
                any_superset_found k fs keys (later-AreStored key keys stored)
                  (unfold has in ground (arith, h, n)) c)
          ]
        ])

    -- Where no key has every feature, the answer is no.
    any_superset_absent :
        (fs : List F) (keys : List K)
        → AreStored keys
        → ((k : K) → contains key_dec dec k fs index.features ≡ false)
        → any_superset key_dec dec fs keys index.features ≡ some false
    any_superset_absent fs [] stored none_of = unfold any_superset in refl
    any_superset_absent fs (key ∷ keys) stored none_of =
        let (features, g) = first_stored key keys stored in
        let s : subset dec fs features ≡ false = ground (arith, g, none_of key) in
        any_superset-cons fs key keys features g
        ∙ rw s (any_superset_absent fs keys (later-AreStored key keys stored) none_of)

    in_all-All :
        (k : K) (xss : List (List K))
        → in_all key_dec k xss ≡ true
        → All (λ xs. has key_dec k xs ≡ true) xss
    in_all-All k [] h = tt
    in_all-All k (xs ∷ xss) h = (ground (arith, h), in_all-All k xss (ground (arith, h)))

    -- The shortest posting of the features.
    shortest : F → List F → List K
    shortest f fs =
        min_by_length key_dec dec (posting key_dec dec f index.postings)
          (posting_lists key_dec dec fs index.postings)

    shortest-AreStored : (f : F) (fs : List F) → AreStored (shortest f fs)
    unfolding shortest
    shortest-AreStored f fs =
        min_by_length-All AreStored (posting key_dec dec f index.postings)
          (posting_lists key_dec dec fs index.postings) (posting-AreStored f)
          (posting_lists-AreStored fs)

    has-shortest :
        (k : K) (f : F) (fs : List F)
        → contains key_dec dec k (f ∷ fs) index.features ≡ true
        → has key_dec k (shortest f fs) ≡ true
    unfolding shortest
    has-shortest k f fs c = elim (Option-cases (get key_dec k index.features)) [
      | inl absent ↦ absurd (ground (arith, absent, c))
      | inr (features, g) ↦
          let every : in_all key_dec k (posting_lists key_dec dec (f ∷ fs) index.postings) ≡ true =
            in_all-posting_lists key_dec dec k (f ∷ fs) index ok features g
            ∙ ground (arith, g, c) in
          let h = in_all-All k (posting_lists key_dec dec (f ∷ fs) index.postings) every in
          min_by_length-All (λ xs. has key_dec k xs ≡ true) (posting key_dec dec f index.postings)
            (posting_lists key_dec dec fs index.postings) h.0 h.1
    ]

    contains_superset-supersets :
        (fs : List F)
        → contains_superset key_dec dec fs index
          ≡ some (not (is_empty (supersets key_dec dec fs index)))
    unfolding contains_superset supersets shortest
    contains_superset-supersets [] = by_features index.features
      where
        by_features :
            (d : Dict K (List F))
            → some (not (is_empty d)) ≡ some (not (is_empty (keys_of key_dec dec d)))
        by_features [] = refl
        by_features (_ ∷ _) = refl
    contains_superset-supersets (f ∷ fs) = by_found (supersets key_dec dec (f ∷ fs) index) refl
      where
        by_found :
            (found : List K)
            → supersets key_dec dec (f ∷ fs) index ≡ found
            → contains_superset key_dec dec (f ∷ fs) index ≡ some (not (is_empty found))
        by_found [] e = any_superset_absent (f ∷ fs) (shortest f fs) (shortest-AreStored f fs) (λ k.
            sym (has-supersets key_dec dec k (f ∷ fs) index ok)
            ∙ ap (has key_dec k) e
            ∙ has-is_empty key_dec k [] refl)
        by_found (k ∷ ks) e =
            let c : contains key_dec dec k (f ∷ fs) index.features ≡ true =
              sym (has-supersets key_dec dec k (f ∷ fs) index ok)
              ∙ ap (has key_dec k) e
              ∙ has_self k ks in
            any_superset_found k (f ∷ fs) (shortest f fs) (shortest-AreStored f fs)
              (has-shortest k f fs c) c

  -- On an index made of entries with distinct keys, `supersets` finds exactly the keys whose features
  -- contain every requested one, and `contains_superset` meets no missing key and says whether
  -- `supersets` finds one.
  pub contains_superset_lem :
      (fs : List F) (entries : Dict K (List F))
      → IsUnique key_dec entries
      → ((k : K)
          → has key_dec k (supersets key_dec dec fs (new_index key_dec dec entries))
            ≡ contains key_dec dec k fs entries)
        × (contains_superset key_dec dec fs (new_index key_dec dec entries)
            ≡ some (not (is_empty (supersets key_dec dec fs (new_index key_dec dec entries)))))
  contains_superset_lem fs entries u = (
    λ k. supersets_lem key_dec dec k fs entries u,
    contains_superset-supersets (new_index key_dec dec entries)
        (new_index-IsIndexed key_dec dec entries u) fs,
  )
