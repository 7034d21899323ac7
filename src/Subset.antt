-- ===== src/Subset.antt =====
-- services/sidecar/src/kb_common/feature_index.py: `SubsetIndex`, a trie of sorted features. A dict
-- of the trie is its entry under None, which is always a terminal, and its other entries.
pub mod Dicts
pub mod Entries
pub mod Weight
pub mod Loop
pub mod Ends
pub mod Refines
use claw_tune.Base.{
  ℕ, zero, suc, ◌+◌, ltb, leb, Bool, true, false, Option, none, some, List, [], ◌∷◌, ◌++◌, length,
  if◌then◌else◌, is_yes, is_some, sort_by,
}
use claw_tune.Superset.{has, insert}

-- A terminal is the number of the node and the node.
abbrev pub Terminal : Type 0 → Type 0
Terminal F = ℕ × List F

mutual
  pub data Branch (F : Type 0) : Type 0 where
    branch : Option (ℕ × List F) → Children F → Branch F

  pub data Child (F : Type 0) : Type 0 where
    leaf : ℕ × List F → Child F
    inner : Branch F → Child F

  pub data Children (F : Type 0) : Type 0 where
    nil : Children F
    cons : F → Child F → Children F → Children F

pub record Index (F : Type 0) : Type 0 where
  pub trie : Branch F
  pub size : ℕ

module _ {F : Type 0} where
  -- The dict that a child is turned into when it is passed.
  unfoldable pub as_branch : Option (Child F) → Branch F
  as_branch none = branch none nil
  as_branch (some (leaf t)) = branch (some t) nil
  as_branch (some (inner b)) = b

  -- What stands under the last feature with the terminal.
  unfoldable pub last_child : Terminal F → Option (Child F) → Child F
  last_child t none = leaf t
  last_child t (some (leaf _)) = leaf t
  last_child t (some (inner (branch _ cs))) = inner (branch (some t) cs)

  unfoldable pub count : Children F → ℕ
  count nil = 0
  count (cons f c cs) = suc (count cs)

  -- `stack.append(child)` or `matches.append(child)` for each child. The top of the stack is its head.
  unfoldable pub visit :
      List (Child F) → List (Branch F) → List (Terminal F) → List (Branch F) × List (Terminal F)
  visit [] stack matches = (stack, matches)
  visit (leaf t ∷ cs) stack matches = visit cs stack (t ∷ matches)
  visit (inner b ∷ cs) stack matches = visit cs (b ∷ stack) matches

  unfoldable pub with_terminal : Option (Terminal F) → List (Terminal F) → List (Terminal F)
  with_terminal none matches = matches
  with_terminal (some t) matches = t ∷ matches

  -- Whether a terminal comes no later than another. No two have the same number.
  abbrev pub no_later : Terminal F → Terminal F → Bool
  no_later s t = leb s.0 t.0

  unfoldable pub nodes_of : List (Terminal F) → List (List F)
  nodes_of [] = []
  nodes_of ((_, node) ∷ ts) = node ∷ nodes_of ts

module _ {F : Type 0} (dec : Discrete F) where
  -- `branch.get(f)`
  unfoldable pub get_child : F → Children F → Option (Child F)
  get_child f nil = none
  get_child f (cons g c cs) = if is_yes (dec g f) then some c else get_child f cs

  -- `branch[f] = child`
  unfoldable pub put_child : F → Child F → Children F → Children F
  put_child f c nil = cons f c nil
  put_child f c (cons g d cs) =
      if is_yes (dec g f) then cons g c cs else cons g d (put_child f c cs)

  -- `add` of a terminal from the dict that the loop has reached, with the features that are left.
  unfoldable pub add_terminal : List F → Terminal F → Branch F → Branch F
  add_terminal [] t (branch _ cs) = branch (some t) cs
  add_terminal (f ∷ []) t (branch n cs) = branch n (put_child f (last_child t (get_child f cs)) cs)
  add_terminal (f ∷ g ∷ fs) t (branch n cs) =
      branch n (put_child f (inner (add_terminal (g ∷ fs) t (as_branch (get_child f cs)))) cs)

  -- `set(features)`
  unfoldable pub set_of : List F → List F
  set_of [] = []
  set_of (f ∷ fs) = insert dec f (set_of fs)

  unfoldable pub cons_child : Option (Child F) → List (Child F) → List (Child F)
  cons_child none cs = cs
  cons_child (some c) cs = c ∷ cs

  -- `branch[f] for f in allowed if f in branch`
  unfoldable pub by_features : List F → Children F → List (Child F)
  by_features [] cs = []
  by_features (f ∷ fs) cs = cons_child (get_child f cs) (by_features fs cs)

  -- `child for f, child in branch.items() if f in allowed`
  unfoldable pub by_items : List F → Children F → List (Child F)
  by_items allowed nil = []
  by_items allowed (cons f c cs) =
      let rest = by_items allowed cs in if has dec f allowed then c ∷ rest else rest

  -- The children that are visited, by the shorter of the two ways.
  unfoldable pub chosen : List F → Option (Terminal F) → Children F → List (Child F)
  chosen allowed n cs =
      if ltb (length allowed + 1) (count cs + (if is_some n then 1 else 0))
      then by_features allowed cs
      else by_items allowed cs

  -- The loop over the stack. The fuel counts its rounds.
  unfoldable pub subset_loop :
      ℕ → List F → List (Branch F) → List (Terminal F) → Option (List (Terminal F))
  subset_loop fuel allowed [] matches = some matches
  subset_loop zero allowed (b ∷ stack) matches = none
  subset_loop (suc fuel) allowed (branch n cs ∷ stack) matches =
      let next = visit (chosen allowed n cs) stack (with_terminal n matches) in
      subset_loop fuel allowed next.0 next.1

  module _ (le : F → F → Bool) where
    -- `add`
    unfoldable pub add : List F → Index F → Index F
    add node index = record {
      trie = add_terminal (sort_by le node) (index.size, node) index.trie;
      size = suc index.size;
    }

    -- `__init__`
    unfoldable pub add_nodes : List (List F) → Index F → Index F
    add_nodes [] index = index
    add_nodes (node ∷ nodes) index = add_nodes nodes (add node index)

    unfoldable pub new_index : List (List F) → Index F
    new_index nodes = add_nodes nodes (record { trie = branch none nil; size = 0 })

  -- The terminals that `subsets` finds, sorted, within some rounds.
  unfoldable pub found : ℕ → List F → Index F → Option (List (Terminal F))
  found fuel features index = elim (subset_loop fuel (set_of features) (index.trie ∷ []) []) [
    | none ↦ none
    | some matches ↦ some (sort_by no_later matches)
  ]

-- How many dicts there are, which is enough rounds.
unfoldable mutual
  pub weight : {F : Type 0} → Branch F → ℕ
  weight (branch n cs) = suc (weights cs)

  pub weights : {F : Type 0} → Children F → ℕ
  weights nil = 0
  weights (cons f (leaf t) cs) = weights cs
  weights (cons f (inner b) cs) = weight b + weights cs

-- `subsets`
unfoldable pub subsets : {F : Type 0} (dec : Discrete F) → List F → Index F → Option (List (List F))
subsets dec features index = elim (found dec (weight index.trie) features index) [
  | none ↦ none
  | some ts ↦ some (nodes_of ts)
]
