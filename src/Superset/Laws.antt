-- ===== src/Superset/Laws.antt =====
-- What `SupersetIndex.supersets` finds.
use claw_tune.Base.{
  ◌≡◌, ◌≢◌, refl, ◌∙◌, inl, inr, ◌⊎◌, Bool, false, ◌&&◌, ◌||◌, none, some, List, [], ◌∷◌,
  if◌then◌else◌, is_yes, is_some, arith, Bool-cases, Option-cases,
}
use claw_tune.Dict.{Dict, get, put, IsUnique}
use claw_tune.Dict.Laws.{get-put_self, get-put_ne}
use claw_tune.Superset.{
  has, insert, intersect, subset, is_empty, sort_by_length, Index, posting, add_postings, add,
  add_entries, new_index, narrow, keys_of, posting_lists, narrow_all, supersets,
}
use claw_tune.Superset.Sets.{
  has-insert, has-intersect, has-is_empty, in_all, in_all-sort, sort_nonempty,
}

module _ {K F : Type 0} (key_dec : Discrete K) (dec : Discrete F) where
  has-narrow :
      (k : K) (result : List K) (rest : List (List K))
      → has key_dec k (narrow key_dec dec result rest)
        ≡ (has key_dec k result && in_all key_dec k rest)
  unfolding narrow
  has-narrow k result [] = ground arith
  has-narrow k result (keys ∷ rest) = elim (Bool-cases (is_empty (intersect key_dec result keys))) [
    | inl e ↦ ground (
      arith,
      e,
      has-intersect key_dec k result keys,
      has-is_empty key_dec k (intersect key_dec result keys) e,
    )
    | inr e ↦ ground (
      arith,
      e,
      has-intersect key_dec k result keys,
      has-narrow k (intersect key_dec result keys) rest,
    )
  ]

  has-narrow_all :
      (k : K) (xs : List K) (xss : List (List K))
      → has key_dec k (narrow_all key_dec dec (sort_by_length (xs ∷ xss)))
        ≡ in_all key_dec k (xs ∷ xss)
  has-narrow_all k xs xss =
      go (sort_by_length (xs ∷ xss)) (in_all-sort key_dec k (xs ∷ xss))
        (sort_nonempty key_dec xs xss)
    where
      go :
          (yss : List (List K))
          → in_all key_dec k yss ≡ in_all key_dec k (xs ∷ xss)
          → yss ≢ []
          → has key_dec k (narrow_all key_dec dec yss) ≡ in_all key_dec k (xs ∷ xss)
      go [] h n = absurd (n refl)
      go (ys ∷ yss) h n = has-narrow k ys yss ∙ h

  posting-put :
      (k : K) (f g : F) (keys : List K) (postings : Dict F (List K))
      → has key_dec k (posting key_dec dec f (put dec g keys postings)) ≡ (
          if is_yes (dec g f)
          then has key_dec k keys
          else has key_dec k (posting key_dec dec f postings))
  unfolding posting
  posting-put k f g keys postings = elim (dec g f) [
    | yes p ↦ ground (arith, p, get-put_self dec f keys postings)
    | no n ↦ ground (arith, get-put_ne dec {j = f} {k = g} keys postings n)
  ]

  -- Adding the features of a key enters the key under each of them and nothing else.
  posting-add_postings :
      (k key : K) (f : F) (fs : List F) (postings : Dict F (List K))
      → has key_dec k (posting key_dec dec f (add_postings key_dec dec key fs postings)) ≡ (
          has key_dec k (posting key_dec dec f postings)
          || (is_yes (key_dec key k) && has dec f fs))
  unfolding add_postings has
  posting-add_postings k key f [] postings = ground arith
  posting-add_postings k key f (g ∷ gs) postings =
      posting-add_postings k key f gs
        (put dec g (insert key_dec key (posting key_dec dec g postings)) postings)
      ∙ step
    where
      old : List K
      old = posting key_dec dec g postings

      step :
          (has key_dec k (posting key_dec dec f (put dec g (insert key_dec key old) postings))
            || (is_yes (key_dec key k) && has dec f gs))
          ≡ (has key_dec k (posting key_dec dec f postings)
              || (is_yes (key_dec key k) && (is_yes (dec g f) || has dec f gs)))
      step = elim (dec g f) [
        | yes p ↦ ground (
          arith,
          p,
          posting-put k f g (insert key_dec key old) postings,
          has-insert key_dec k key old,
        )
        | no n ↦ ground (arith, n, posting-put k f g (insert key_dec key old) postings)
      ]

  -- The features under the key contain all of these.
  abbrev pub contains : K → List F → Dict K (List F) → Bool
  contains k fs entries = elim (get key_dec k entries) [
    | none ↦ false
    | some features ↦ subset dec fs features
  ]

  -- A posting holds exactly the keys that have its feature.
  abbrev pub IsIndexed : Index K F → Type 0
  IsIndexed index =
      (k : K) (f : F)
      → has key_dec k (posting key_dec dec f index.postings) ≡ contains k (f ∷ []) index.features

  add-IsIndexed :
      (key : K) (fs : List F) (index : Index K F)
      → get key_dec key index.features ≡ none
      → IsIndexed index
      → IsIndexed (add key_dec dec key fs index)
  unfolding add subset
  add-IsIndexed key fs index fresh ok k f = elim (key_dec key k) [
    | yes p ↦ ground (
      arith,
      p,
      fresh,
      posting-add_postings k key f fs index.postings,
      ok k f,
      get-put_self key_dec key fs index.features,
    )
    | no n ↦ ground (
      arith,
      posting-add_postings k key f fs index.postings,
      ok k f,
      get-put_ne key_dec {j = k} {k = key} fs index.features n,
    )
  ]

  pub in_all-posting_lists :
      (k : K) (fs : List F) (index : Index K F)
      → IsIndexed index
      → (features : List F) → get key_dec k index.features ≡ some features
      → in_all key_dec k (posting_lists key_dec dec fs index.postings) ≡ subset dec fs features
  unfolding subset
  in_all-posting_lists k [] index ok features h = refl
  in_all-posting_lists k (f ∷ fs) index ok features h =
      ground (arith, h, ok k f, in_all-posting_lists k fs index ok features h)

  has-keys_of :
      (k : K) (entries : Dict K (List F))
      → has key_dec k (keys_of key_dec dec entries) ≡ is_some (get key_dec k entries)
  unfolding has get
  has-keys_of k [] = refl
  has-keys_of k ((j, fs) ∷ entries) = ground (arith, has-keys_of k entries)

  pub has-supersets :
      (k : K) (fs : List F) (index : Index K F)
      → IsIndexed index
      → has key_dec k (supersets key_dec dec fs index) ≡ contains k fs index.features
  unfolding supersets subset
  has-supersets k [] index ok = elim (Option-cases (get key_dec k index.features)) [
    | inl absent ↦ ground (arith, absent, has-keys_of k index.features)
    | inr (features, h) ↦ ground (arith, h, has-keys_of k index.features)
  ]
  has-supersets k (f ∷ fs) index ok =
      has-narrow_all k (posting key_dec dec f index.postings)
        (posting_lists key_dec dec fs index.postings)
      ∙ (elim (Option-cases (get key_dec k index.features)) [
        | inl absent ↦ ground (arith, absent, ok k f)
        | inr (features, h) ↦ ground (arith, h, in_all-posting_lists k (f ∷ fs) index ok features h)
      ])

  -- No key of the entries is in the index.
  abbrev AreNew : Dict K (List F) → Index K F → Type 0
  AreNew entries index =
      (k : K) → (get key_dec k entries ≡ none) ⊎ (get key_dec k index.features ≡ none)

  add-AreNew :
      (key : K) (fs : List F) (entries : Dict K (List F)) (index : Index K F)
      → get key_dec key entries ≡ none
      → AreNew ((key, fs) ∷ entries) index
      → AreNew entries (add key_dec dec key fs index)
  unfolding add get
  add-AreNew key fs entries index absent new k = elim (key_dec key k) [
    | yes p ↦ inl (ground (arith, p, absent))
    | no n ↦ ground (arith, n, new k, get-put_ne key_dec {j = k} {k = key} fs index.features n)
  ]

  new_key :
      (key : K) (fs : List F) (entries : Dict K (List F)) (index : Index K F)
      → AreNew ((key, fs) ∷ entries) index
      → get key_dec key index.features ≡ none
  unfolding get
  new_key key fs entries index new = ground (arith, new key)

  add_entries-IsIndexed :
      (entries : Dict K (List F)) (index : Index K F)
      → IsUnique key_dec entries
      → AreNew entries index
      → IsIndexed index
      → IsIndexed (add_entries key_dec dec entries index)
  unfolding add_entries
  add_entries-IsIndexed [] index u new ok = ok
  add_entries-IsIndexed ((key, fs) ∷ entries) index u new ok =
      add_entries-IsIndexed entries (add key_dec dec key fs index) u.1
        (add-AreNew key fs entries index u.0 new)
        (add-IsIndexed key fs index (new_key key fs entries index new) ok)

  get-add_entries :
      (k : K) (entries : Dict K (List F)) (index : Index K F)
      → IsUnique key_dec entries
      → get key_dec k (add_entries key_dec dec entries index).features
        ≡ elim (get key_dec k entries) [ none ↦ get key_dec k index.features | some fs ↦ some fs ]
  unfolding add_entries add get
  get-add_entries k [] index u = refl
  get-add_entries k ((key, fs) ∷ entries) index u = elim (key_dec key k) [
    | yes p ↦ ground (
      arith,
      p,
      u.0,
      get-add_entries k entries (add key_dec dec key fs index) u.1,
      get-put_self key_dec key fs index.features,
    )
    | no n ↦ ground (
      arith,
      n,
      get-add_entries k entries (add key_dec dec key fs index) u.1,
      get-put_ne key_dec {j = k} {k = key} fs index.features n,
    )
  ]

  nowhere : (j : K) → get {K = K} {V = List F} key_dec j [] ≡ none
  unfolding get
  nowhere j = refl

  empty-IsIndexed : IsIndexed (record { features = []; postings = [] })
  unfolding get posting has
  empty-IsIndexed j f = refl

  pub new_index-IsIndexed :
      (entries : Dict K (List F))
      → IsUnique key_dec entries
      → IsIndexed (new_index key_dec dec entries)
  new_index-IsIndexed entries u =
      let index : Index K F = record { features = []; postings = [] } in
      add_entries-IsIndexed entries index u (λ j. inr (nowhere j)) empty-IsIndexed

  -- On an index made of entries with distinct keys, `supersets` finds exactly the keys whose features
  -- contain every requested one.
  pub supersets_lem :
      (k : K) (fs : List F) (entries : Dict K (List F))
      → IsUnique key_dec entries
      → has key_dec k (supersets key_dec dec fs (new_index key_dec dec entries))
        ≡ contains k fs entries
  supersets_lem k fs entries u =
      let index : Index K F = record { features = []; postings = [] } in
      has-supersets k fs (new_index key_dec dec entries) (new_index-IsIndexed entries u)
      ∙ ground (arith, get-add_entries k entries index u, nowhere k)
