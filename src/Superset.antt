-- ===== src/Superset.antt =====
-- services/sidecar/src/kb_common/feature_index.py: `SupersetIndex`. A Python set is a list without
-- repetitions, in an order that nothing depends on.
pub mod Sets
pub mod Laws
pub mod Contains
use mathlib.Core.Logic.{ite}
use claw_tune.Base.{
  ℕ, ltb, Bool, true, false, not, ◌&&◌, ◌||◌, Option, none, some, List, [], ◌∷◌, map, length,
  if◌then◌else◌, is_yes,
}
use claw_tune.Dict.{Dict, get, put}

module _ {A : Type 0} (dec : Discrete A) where
  -- `x in xs`
  unfoldable pub has : A → List A → Bool
  has x [] = false
  has x (y ∷ ys) = is_yes (dec y x) || has x ys

  -- `xs.add(x)`
  unfoldable pub insert : A → List A → List A
  insert x xs = if has x xs then xs else x ∷ xs

  -- `xs.intersection_update(ys)`
  unfoldable pub intersect : List A → List A → List A
  intersect [] ys = []
  intersect (x ∷ xs) ys = let rest = intersect xs ys in if has x ys then x ∷ rest else rest

  -- `xs <= ys`
  unfoldable pub subset : List A → List A → Bool
  subset [] ys = true
  subset (x ∷ xs) ys = has x ys && subset xs ys

abbrev pub is_empty : {A : Type 0} → List A → Bool
is_empty [] = true
is_empty (_ ∷ _) = false

-- `sorted(xss, key=len)`
unfoldable pub insert_by_length : {A : Type 0} → List A → List (List A) → List (List A)
insert_by_length xs [] = xs ∷ []
insert_by_length xs (ys ∷ yss) =
    let rest = insert_by_length xs yss in
    if ltb (length ys) (length xs) then ys ∷ rest else xs ∷ ys ∷ yss

unfoldable pub sort_by_length : {A : Type 0} → List (List A) → List (List A)
sort_by_length [] = []
sort_by_length (xs ∷ xss) = insert_by_length xs (sort_by_length xss)

pub record Index (K F : Type 0) : Type 0 where
  pub features : Dict K (List F)
  pub postings : Dict F (List K)

module _ {K F : Type 0} (key_dec : Discrete K) (dec : Discrete F) where
  -- `self.postings.get(f, ())`
  unfoldable pub posting : F → Dict F (List K) → List K
  posting f postings = elim (get dec f postings) [ none ↦ [] | some keys ↦ keys ]

  -- The loop of `add`.
  unfoldable pub add_postings : K → List F → Dict F (List K) → Dict F (List K)
  add_postings key [] postings = postings
  add_postings key (f ∷ fs) postings =
      add_postings key fs (put dec f (insert key_dec key (posting f postings)) postings)

  -- `add`
  unfoldable pub add : K → List F → Index K F → Index K F
  add key features index = record {
    features = put key_dec key features index.features;
    postings = add_postings key features index.postings;
  }

  -- `__init__`
  unfoldable pub add_entries : Dict K (List F) → Index K F → Index K F
  add_entries [] index = index
  add_entries ((key, features) ∷ entries) index = add_entries entries (add key features index)

  abbrev pub new_index : Dict K (List F) → Index K F
  new_index entries = add_entries entries (record { features = []; postings = [] })

  -- The loop over the other postings, which stops when nothing is left.
  unfoldable pub narrow : List K → List (List K) → List K
  narrow result [] = result
  narrow result (keys ∷ rest) =
      let left = intersect key_dec result keys in
      let end_ = narrow left rest in if is_empty left then left else end_

  abbrev pub keys_of : Dict K (List F) → List K
  keys_of [] = []
  keys_of ((key, _) ∷ entries) = key ∷ keys_of entries

  abbrev pub posting_lists : List F → Dict F (List K) → List (List K)
  posting_lists [] postings = []
  posting_lists (f ∷ fs) postings = posting f postings ∷ posting_lists fs postings

  -- From the sorted postings: the first one, narrowed by the others. There is a first one.
  abbrev pub narrow_all : List (List K) → List K
  narrow_all [] = []
  narrow_all (keys ∷ rest) = narrow keys rest

  -- `supersets`
  unfoldable pub supersets : List F → Index K F → List K
  supersets [] index = keys_of index.features
  supersets (f ∷ fs) index = narrow_all (sort_by_length (posting_lists (f ∷ fs) index.postings))

  -- `min(postings, key=len)`: the first of the shortest, with the best so far.
  unfoldable pub min_by_length : List K → List (List K) → List K
  min_by_length best [] = best
  min_by_length best (keys ∷ rest) =
      min_by_length (if ltb (length keys) (length best) then keys else best) rest

  -- `any(features <= self.features[key] for key in keys)`, with `none` for the KeyError.
  unfoldable pub any_superset : List F → List K → Dict K (List F) → Option Bool
  any_superset fs [] features = some false
  any_superset fs (key ∷ keys) features =
      let rest = any_superset fs keys features in
      elim (get key_dec key features) [
        | none ↦ none
        | some gs ↦ if subset dec fs gs then some true else rest
      ]

  -- `contains_superset`
  unfoldable pub contains_superset : List F → Index K F → Option Bool
  contains_superset [] index = some (not (is_empty index.features))
  contains_superset (f ∷ fs) index =
      any_superset (f ∷ fs)
        (min_by_length (posting f index.postings) (posting_lists fs index.postings)) index.features
