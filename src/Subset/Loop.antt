-- ===== src/Subset/Loop.antt =====
-- The loop over the stack finds what stands under the allowed features, and ends.
use mathlib.Core.Path.{subst}
use claw_tune.Base.{
  ℕ, ◌+◌, ◌≡◌, refl, sym, ◌∙◌, ap, true, ◌⊎◌, inl, inr, Option, none, some, List, [], ◌∷◌, All, In,
  arith, Option-cases,
}
use claw_tune.Superset.{has}
use claw_tune.Subset.{
  Terminal, Branch, branch, Child, leaf, inner, Children, get_child, chosen, visit, with_terminal,
  weight,
}
use claw_tune.Subset.Dicts.{find, find_in, find-cons, only_leaf}
use claw_tune.Subset.Entries.{AreTries, IsAllowed, In-chosen, chosen-IsAllowed}
use claw_tune.Subset.Weight.{child_weight, total_weight}

module _ {F : Type 0} (dec : Discrete F) (allowed : List F) where
  -- The terminal stands in the trie under features that are allowed.
  pub record Has (t : Terminal F) (b : Branch F) : Type 0 where
    pub path : List F
    pub in_allowed : All (λ f. has dec f allowed ≡ true) path
    pub is_found : find dec path b ≡ some t

  abbrev pub HasChild : Terminal F → Child F → Type 0
  HasChild t (leaf u) = u ≡ t
  HasChild t (inner b) = Has t b

  abbrev pub AnyChild : Terminal F → List (Child F) → Type 0
  AnyChild t [] = ⊥
  AnyChild t (c ∷ cs) = HasChild t c ⊎ AnyChild t cs

  abbrev pub AnyBranch : Terminal F → List (Branch F) → Type 0
  AnyBranch t [] = ⊥
  AnyBranch t (b ∷ bs) = Has t b ⊎ AnyBranch t bs

  -- What the loop still has and what it has found.
  abbrev pub Reachable : Terminal F → List (Branch F) → List (Terminal F) → Type 0
  Reachable t stack matches = In t matches ⊎ AnyBranch t stack

  any_of :
      (t : Terminal F) (c : Child F) (cs : List (Child F)) → In c cs → HasChild t c → AnyChild t cs
  any_of t c [] i h = absurd i
  any_of t c (d ∷ cs) (inl e) h = inl (subst (HasChild t) (sym e) h)
  any_of t c (d ∷ cs) (inr i) h = inr (any_of t c cs i h)

  only : (fs : List F) (u t : Terminal F) → only_leaf dec fs u ≡ some t → u ≡ t
  only [] u t e = cc
  only (f ∷ fs) u t e = absurd cc

  -- From a dict to its terminal and its children.
  down :
      (t : Terminal F) (n : Option (Terminal F)) (cs : Children F)
      → Has t (branch n cs)
      → (n ≡ some t) ⊎ AnyChild t (chosen dec allowed n cs)
  unfolding find find_in
  down t n cs h = go h.path h.in_allowed h.is_found
    where
      child :
          (f : F) (fs : List F) (c : Child F)
          → All (λ g. has dec g allowed ≡ true) fs
          → find_in dec fs (some c) ≡ some t
          → HasChild t c
      child f fs (leaf u) a e = only fs u t e
      child f fs (inner b) a e = record { path = fs; in_allowed = a; is_found = e }

      go :
          (path : List F)
          → All (λ f. has dec f allowed ≡ true) path
          → find dec path (branch n cs) ≡ some t
          → (n ≡ some t) ⊎ AnyChild t (chosen dec allowed n cs)
      go [] a e = inl e
      go (f ∷ fs) a e = elim (Option-cases (get_child dec f cs)) [
        | inl g ↦ absurd (ground (arith, g, find-cons dec f fs n cs, e))
        | inr (c, g) ↦ inr (
            any_of t c (chosen dec allowed n cs) (In-chosen dec allowed n cs f c a.0 g)
              (child f fs c a.1 (sym (ap (find_in dec fs) g) ∙ sym (find-cons dec f fs n cs) ∙ e)))
      ]

  -- From a child that is visited to the dict.
  up_child :
      (t : Terminal F) (n : Option (Terminal F)) (cs : Children F) (c : Child F)
      → IsAllowed dec allowed cs c
      → HasChild t c
      → Has t (branch n cs)
  unfolding find find_in
  up_child t n cs (leaf u) a h = record {
    path = a.feature ∷ [];
    in_allowed = (a.is_in, tt);
    is_found = find-cons dec a.feature [] n cs ∙ ap (find_in dec []) a.is_there ∙ ap some h;
  }
  up_child t n cs (inner b) a h = record {
    path = a.feature ∷ h.path;
    in_allowed = (a.is_in, h.in_allowed);
    is_found =
        find-cons dec a.feature h.path n cs ∙ ap (find_in dec h.path) a.is_there ∙ h.is_found;
  }

  up :
      (t : Terminal F) (n : Option (Terminal F)) (cs : Children F) (chosen_ones : List (Child F))
      → All (IsAllowed dec allowed cs) chosen_ones
      → AnyChild t chosen_ones
      → Has t (branch n cs)
  up t n cs [] a h = absurd h
  up t n cs (c ∷ ds) a (inl h) = up_child t n cs c a.0 h
  up t n cs (c ∷ ds) a (inr h) = up t n cs ds a.1 h

  -- What `visit` leaves is what there was and what stands in the children.
  pub visit_to :
      (t : Terminal F) (cs : List (Child F)) (stack : List (Branch F)) (matches : List (Terminal F))
      → Reachable t stack matches ⊎ AnyChild t cs
      → Reachable t (visit cs stack matches).0 (visit cs stack matches).1
  unfolding visit
  visit_to t [] stack matches (inl r) = r
  visit_to t [] stack matches (inr h) = absurd h
  visit_to t (leaf u ∷ cs) stack matches (inl (inl i)) =
      visit_to t cs stack (u ∷ matches) (inl (inl (inr i)))
  visit_to t (leaf u ∷ cs) stack matches (inl (inr b)) =
      visit_to t cs stack (u ∷ matches) (inl (inr b))
  visit_to t (leaf u ∷ cs) stack matches (inr (inl e)) =
      visit_to t cs stack (u ∷ matches) (inl (inl (inl e)))
  visit_to t (leaf u ∷ cs) stack matches (inr (inr h)) = visit_to t cs stack (u ∷ matches) (inr h)
  visit_to t (inner b ∷ cs) stack matches (inl (inl i)) =
      visit_to t cs (b ∷ stack) matches (inl (inl i))
  visit_to t (inner b ∷ cs) stack matches (inl (inr r)) =
      visit_to t cs (b ∷ stack) matches (inl (inr (inr r)))
  visit_to t (inner b ∷ cs) stack matches (inr (inl h)) =
      visit_to t cs (b ∷ stack) matches (inl (inr (inl h)))
  visit_to t (inner b ∷ cs) stack matches (inr (inr h)) = visit_to t cs (b ∷ stack) matches (inr h)

  pub visit_from :
      (t : Terminal F) (cs : List (Child F)) (stack : List (Branch F)) (matches : List (Terminal F))
      → Reachable t (visit cs stack matches).0 (visit cs stack matches).1
      → Reachable t stack matches ⊎ AnyChild t cs
  unfolding visit
  visit_from t [] stack matches r = inl r
  visit_from t (leaf u ∷ cs) stack matches r = back (visit_from t cs stack (u ∷ matches) r)
    where
      back :
          Reachable t stack (u ∷ matches) ⊎ AnyChild t cs
          → Reachable t stack matches ⊎ ((u ≡ t) ⊎ AnyChild t cs)
      back (inl (inl (inl e))) = inr (inl e)
      back (inl (inl (inr i))) = inl (inl i)
      back (inl (inr b)) = inl (inr b)
      back (inr h) = inr (inr h)
  visit_from t (inner b ∷ cs) stack matches r = back (visit_from t cs (b ∷ stack) matches r)
    where
      back :
          Reachable t (b ∷ stack) matches ⊎ AnyChild t cs
          → Reachable t stack matches ⊎ (Has t b ⊎ AnyChild t cs)
      back (inl (inl i)) = inl (inl i)
      back (inl (inr (inl h))) = inr (inl h)
      back (inl (inr (inr r))) = inl (inr r)
      back (inr h) = inr (inr h)

  unfoldable pub stack_weight : List (Branch F) → ℕ
  stack_weight [] = 0
  stack_weight (b ∷ bs) = weight b + stack_weight bs

  pub visit_weight :
      (cs : List (Child F)) (stack : List (Branch F)) (matches : List (Terminal F))
      → stack_weight (visit cs stack matches).0 ≡ total_weight dec cs + stack_weight stack
  unfolding visit stack_weight total_weight child_weight
  visit_weight [] stack matches = omega arith
  visit_weight (leaf u ∷ cs) stack matches = visit_weight cs stack (u ∷ matches) ∙ omega arith
  visit_weight (inner b ∷ cs) stack matches = visit_weight cs (b ∷ stack) matches ∙ omega arith

  -- A round of the loop.
  pub round_to :
      (t : Terminal F) (n : Option (Terminal F)) (cs : Children F) (stack : List (Branch F))
      (matches : List (Terminal F))
      → Reachable t (branch n cs ∷ stack) matches
      → Reachable t stack (with_terminal n matches) ⊎ AnyChild t (chosen dec allowed n cs)
  unfolding with_terminal
  round_to t n cs stack matches (inl i) = inl (inl (kept n i))
    where
      kept : (n : Option (Terminal F)) → In t matches → In t (with_terminal n matches)
      kept none i = i
      kept (some u) i = inr i
  round_to t n cs stack matches (inr (inr b)) = inl (inr b)
  round_to t n cs stack matches (inr (inl h)) = here (down t n cs h)
    where
      here :
          (n ≡ some t) ⊎ AnyChild t (chosen dec allowed n cs)
          → Reachable t stack (with_terminal n matches) ⊎ AnyChild t (chosen dec allowed n cs)
      here (inl e) = inl (inl (subst (λ m. In t (with_terminal m matches)) (sym e) (inl refl)))
      here (inr a) = inr a

  pub round_from :
      (t : Terminal F) (n : Option (Terminal F)) (cs : Children F) (stack : List (Branch F))
      (matches : List (Terminal F))
      → AreTries dec cs
      → Reachable t stack (with_terminal n matches) ⊎ AnyChild t (chosen dec allowed n cs)
      → Reachable t (branch n cs ∷ stack) matches
  unfolding with_terminal find
  round_from t n cs stack matches u (inr h) =
      inr (inl (up t n cs (chosen dec allowed n cs) (chosen-IsAllowed dec allowed n cs u) h))
  round_from t n cs stack matches u (inl (inr b)) = inr (inr b)
  round_from t none cs stack matches u (inl (inl i)) = inl i
  round_from t (some v) cs stack matches u (inl (inl (inl e))) =
      inr (inl (record { path = []; in_allowed = tt; is_found = ap some e }))
  round_from t (some v) cs stack matches u (inl (inl (inr i))) = inl i
