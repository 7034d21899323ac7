-- ===== src/Subset/Refines.antt =====
-- The index as a map from sorted features to the last node that has them, and `subsets` as the nodes
-- of this map whose features are given.
use claw_tune.Base.{
  ℕ, suc, ◌≤◌, ◌≡◌, refl, sym, ◌∙◌, ap, ◌↔◌, ◌⊎◌, Bool, true, ◌||◌, inl, inr, Option, none, some,
  List, [], ◌∷◌, All, All-map, In, insert_by, sort_by, All-insert_by, if◌then◌else◌, is_yes, arith,
  Bool-cases,
}
use claw_tune.Superset.{has}
use claw_tune.Superset.Sets.{has-insert}
use claw_tune.Subset.{
  Terminal, Branch, branch, nil, Index, set_of, get_child, add, add_nodes, new_index, found,
  subsets, nodes_of, no_later, weight, subset_loop,
}
use claw_tune.Subset.Dicts.{find, is_same, find-add_terminal}
use claw_tune.Subset.Entries.{IsTrie, add_terminal-IsTrie}
use claw_tune.Subset.Weight.{set_of-IsSetList}
use claw_tune.Subset.Loop.{Has, Reachable, stack_weight}
use claw_tune.Subset.Ends.{subset_loop-Finds}

-- Each terminal comes no later than the ones behind it.
unfoldable pub IsAscending : {F : Type 0} → List (Terminal F) → Type 0
IsAscending [] = Unit
IsAscending (t ∷ ts) = All (λ u. t.0 ≤ u.0) ts × IsAscending ts

module _ {F : Type 0} where
  In-insert_by :
      (t u : Terminal F) (ts : List (Terminal F))
      → In t (insert_by no_later u ts) ↔ ((u ≡ t) ⊎ In t ts)
  unfolding insert_by
  In-insert_by t u [] = (λ i. i, λ i. i)
  In-insert_by t u (v ∷ ts) = elim (Bool-cases (no_later u v)) [
    | inl e ↦ rw e (λ i. i, λ i. i)
    | inr e ↦ rw e (there (In-insert_by t u ts).0, back (In-insert_by t u ts).1)
  ]
    where
      there :
          (In t (insert_by no_later u ts) → (u ≡ t) ⊎ In t ts)
          → (v ≡ t) ⊎ In t (insert_by no_later u ts)
          → (u ≡ t) ⊎ ((v ≡ t) ⊎ In t ts)
      there h (inl p) = inr (inl p)
      there h (inr i) = swap (h i)
        where
          swap : (u ≡ t) ⊎ In t ts → (u ≡ t) ⊎ ((v ≡ t) ⊎ In t ts)
          swap (inl p) = inl p
          swap (inr j) = inr (inr j)

      back :
          ((u ≡ t) ⊎ In t ts → In t (insert_by no_later u ts))
          → (u ≡ t) ⊎ ((v ≡ t) ⊎ In t ts)
          → (v ≡ t) ⊎ In t (insert_by no_later u ts)
      back h (inl p) = inr (h (inl p))
      back h (inr (inl p)) = inl p
      back h (inr (inr i)) = inr (h (inr i))

  In-sort_by : (t : Terminal F) (ts : List (Terminal F)) → In t (sort_by no_later ts) ↔ In t ts
  unfolding sort_by
  In-sort_by t [] = (λ i. i, λ i. i)
  In-sort_by t (u ∷ ts) =
      let step = In-insert_by t u (sort_by no_later ts) in
      let rest = In-sort_by t ts in (λ i. onward rest.0 (step.0 i), λ i. step.1 (onward rest.1 i))
    where
      onward : {A B : Type 0} → (A → B) → (u ≡ t) ⊎ A → (u ≡ t) ⊎ B
      onward h (inl p) = inl p
      onward h (inr a) = inr (h a)

  insert_by-IsAscending :
      (t : Terminal F) (ts : List (Terminal F))
      → IsAscending ts
      → IsAscending (insert_by no_later t ts)
  unfolding insert_by IsAscending
  insert_by-IsAscending t [] h = (tt, tt)
  insert_by-IsAscending t (u ∷ ts) h = elim (Bool-cases (no_later t u)) [
    | inl e ↦ rw e (
      (
        ground (arith, e),
        All-map (λ v. u.0 ≤ v.0) (λ v. t.0 ≤ v.0) ts (λ v q. ground (arith, e, q)) h.0,
      ),
      h,
    )
    | inr e ↦ rw e (
      All-insert_by (λ v. u.0 ≤ v.0) no_later t ts (ground (arith, e)) h.0,
      insert_by-IsAscending t ts h.1,
    )
  ]

  sort_by-IsAscending : (ts : List (Terminal F)) → IsAscending (sort_by no_later ts)
  unfolding sort_by IsAscending
  sort_by-IsAscending [] = tt
  sort_by-IsAscending (t ∷ ts) =
      insert_by-IsAscending t (sort_by no_later ts) (sort_by-IsAscending ts)

module _ {F : Type 0} (dec : Discrete F) (le : F → F → Bool) where
  -- The last of the nodes with the sorted features, with its number, where the numbers begin at `k`.
  unfoldable pub latest : ℕ → List (List F) → List F → Option (Terminal F) → Option (Terminal F)
  latest k [] path before = before
  latest k (node ∷ nodes) path before =
      latest (suc k) nodes path
        (if is_same dec (sort_by le node) path then some (k, node) else before)

  find-add_nodes :
      (nodes : List (List F)) (index : Index F) (path : List F)
      → IsTrie dec index.trie
      → (find dec path (add_nodes dec le nodes index).trie
          ≡ latest index.size nodes path (find dec path index.trie))
        × IsTrie dec (add_nodes dec le nodes index).trie
  unfolding add_nodes add latest
  find-add_nodes [] index path u = (refl, u)
  find-add_nodes (node ∷ nodes) index path u =
      let t : Terminal F = (index.size, node) in
      let (e, v) =
        find-add_nodes nodes (add dec le node index) path
          (add_terminal-IsTrie dec (sort_by le node) t index.trie u) in
      (
        e
            ∙ ap (latest (suc index.size) nodes path)
                (find-add_terminal dec path (sort_by le node) t index.trie),
        v,
      )

  new_index_lem :
      (nodes : List (List F)) (path : List F)
      → (find dec path (new_index dec le nodes).trie ≡ latest 0 nodes path none)
        × IsTrie dec (new_index dec le nodes).trie
  unfolding new_index IsTrie find get_child
  new_index_lem nodes path =
      let (e, u) =
        find-add_nodes nodes (record { trie = branch none nil; size = 0 }) path empty_trie in
      (e ∙ ap (latest 0 nodes path) (empty_find path), u)
    where
      empty_trie : IsTrie dec (branch none nil)
      empty_trie = tt

      empty_find : (path : List F) → find dec path (branch none nil) ≡ none
      empty_find [] = refl
      empty_find (f ∷ fs) = refl

  -- The terminal of the last node with features that are all given.
  pub record Listed (nodes : List (List F)) (features : List F) (t : Terminal F) : Type 0 where
    pub path : List F
    pub given : All (λ f. has dec f features ≡ true) path
    pub is_latest : latest 0 nodes path none ≡ some t

  has-set_of : (f : F) (fs : List F) → has dec f (set_of dec fs) ≡ has dec f fs
  unfolding has set_of
  has-set_of f [] = refl
  has-set_of f (g ∷ fs) =
      has-insert dec f g (set_of dec fs) ∙ ap (λ b. is_yes (dec g f) || b) (has-set_of f fs)

  -- What the trie of the nodes has under the given features is what is listed.
  Has-Listed :
      (nodes : List (List F)) (features : List F) (t : Terminal F)
      → Has dec (set_of dec features) t (new_index dec le nodes).trie ↔ Listed nodes features t
  Has-Listed nodes features t = (
    λ h. record {
      path = h.path;
      given =
          All-map (λ f. has dec f (set_of dec features) ≡ true) (λ f. has dec f features ≡ true)
            h.path (λ f e. sym (has-set_of f features) ∙ e) h.in_allowed;
      is_latest = sym (stored h.path) ∙ h.is_found;
    },
    λ l. record {
      path = l.path;
      in_allowed =
          All-map (λ f. has dec f features ≡ true) (λ f. has dec f (set_of dec features) ≡ true)
            l.path (λ f e. has-set_of f features ∙ e) l.given;
      is_found = stored l.path ∙ l.is_latest;
    },
  )
    where
      stored :
          (path : List F) → find dec path (new_index dec le nodes).trie ≡ latest 0 nodes path none
      stored path = (new_index_lem nodes path).0

-- `subsets` of an index made from nodes returns the nodes that are listed for the features, in the
-- order in which they were added: of the nodes with the same sorted features the last, if its
-- features are among those given. The loop ends.
pub subsets-refines :
    {F : Type 0} (dec : Discrete F) (le : F → F → Bool) (nodes : List (List F)) (features : List F)
    → (ts : List (Terminal F)) × (subsets dec features (new_index dec le nodes)
        ≡ some (nodes_of ts))
      × IsAscending ts
      × ((t : Terminal F) → In t ts ↔ Listed dec le nodes features t)
unfolding subsets found stack_weight
subsets-refines {F} dec le nodes features =
    let index = new_index dec le nodes in
    let (matches, e, h) =
      subset_loop-Finds dec (set_of dec features) (weight index.trie) (index.trie ∷ []) []
        (set_of-IsSetList dec features) ((new_index_lem dec le nodes []).1, tt)
        (one_dict index.trie) in
    (
      sort_by no_later matches,
      result index matches e,
      sort_by-IsAscending matches,
      λ t. (
        (λ i.
            (Has-Listed dec le nodes features t).0 (only t ((h t).0 ((In-sort_by t matches).0 i)))),
        (λ l.
            (In-sort_by t matches).1
              ((h t).1 (inr (inl ((Has-Listed dec le nodes features t).1 l))))),
      ),
    )
  where
    one_dict : (b : Branch F) → stack_weight dec (set_of dec features) (b ∷ []) ≤ weight b
    one_dict b = omega arith

    only :
        (t : Terminal F)
        → Reachable dec (set_of dec features) t ((new_index dec le nodes).trie ∷ []) []
        → Has dec (set_of dec features) t (new_index dec le nodes).trie
    only t (inl i) = absurd i
    only t (inr (inl h)) = h
    only t (inr (inr b)) = absurd b

    result :
        (index : Index F) (matches : List (Terminal F))
        → subset_loop dec (weight index.trie) (set_of dec features) (index.trie ∷ []) []
          ≡ some matches
        → subsets dec features index ≡ some (nodes_of (sort_by no_later matches))
    result index matches e = rw (subsets, found, e) refl
