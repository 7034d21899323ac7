-- ===== src/Subset/Dicts.antt =====
-- The trie as a dict from sorted features to terminals.
use claw_tune.Base.{
  ◌≡◌, refl, ◌∙◌, ap, Bool, true, false, ◌&&◌, Option, none, some, List, [], ◌∷◌, if◌then◌else◌,
  is_yes, arith,
}
use claw_tune.Subset.{
  Terminal, Branch, branch, Child, leaf, inner, Children, nil, cons, as_branch, last_child,
  get_child, put_child, add_terminal,
}

module _ {F : Type 0} (dec : Discrete F) where
  pub get_child-put :
      (g f : F) (c : Child F) (cs : Children F)
      → get_child dec g (put_child dec f c cs)
        ≡ (if is_yes (dec f g) then some c else get_child dec g cs)
  unfolding get_child put_child
  get_child-put g f c nil = refl
  get_child-put g f c (cons h d cs) = ground (arith, get_child-put g f c cs)

  -- The terminal of a list without further features.
  abbrev pub only_leaf : List F → Terminal F → Option (Terminal F)
  only_leaf [] t = some t
  only_leaf (f ∷ fs) t = none

  -- The terminal that stands under a list of features.
  unfoldable pub find : List F → Branch F → Option (Terminal F)
  find [] (branch n cs) = n
  find (f ∷ fs) (branch n cs) = elim (get_child dec f cs) [
    | none ↦ none
    | some (leaf t) ↦ only_leaf fs t
    | some (inner b) ↦ find fs b
  ]

  unfoldable pub find_in : List F → Option (Child F) → Option (Terminal F)
  find_in fs none = none
  find_in fs (some (leaf t)) = only_leaf fs t
  find_in fs (some (inner b)) = find fs b

  pub find-cons :
      (f : F) (fs : List F) (n : Option (Terminal F)) (cs : Children F)
      → find (f ∷ fs) (branch n cs) ≡ find_in fs (get_child dec f cs)
  unfolding find find_in
  find-cons f fs n cs = ground arith

  find-as_branch : (fs : List F) (c : Option (Child F)) → find fs (as_branch c) ≡ find_in fs c
  unfolding find find_in as_branch get_child
  find-as_branch [] none = refl
  find-as_branch (f ∷ fs) none = refl
  find-as_branch [] (some (leaf t)) = refl
  find-as_branch (f ∷ fs) (some (leaf t)) = refl
  find-as_branch fs (some (inner b)) = refl

  -- `a == b`
  unfoldable pub is_same : List F → List F → Bool
  is_same [] [] = true
  is_same (f ∷ fs) (g ∷ gs) = is_yes (dec f g) && is_same fs gs
  is_same _ _ = false

  find_in-last_child :
      (fs : List F) (t : Terminal F) (c : Option (Child F))
      → find_in fs (some (last_child t c)) ≡ (if is_same [] fs then some t else find_in fs c)
  unfolding find_in find last_child is_same
  find_in-last_child [] t none = refl
  find_in-last_child (f ∷ fs) t none = refl
  find_in-last_child [] t (some (leaf u)) = refl
  find_in-last_child (f ∷ fs) t (some (leaf u)) = refl
  find_in-last_child [] t (some (inner (branch n cs))) = refl
  find_in-last_child (f ∷ fs) t (some (inner (branch n cs))) = refl

  find-put_child :
      (f k : F) (fs : List F) (n : Option (Terminal F)) (c : Child F) (cs : Children F)
      → find (f ∷ fs) (branch n (put_child dec k c cs))
        ≡ (if is_yes (dec k f) then find_in fs (some c) else find (f ∷ fs) (branch n cs))
  find-put_child f k fs n c cs = elim (dec k f) [
    | yes p ↦ ground (arith, p, find-cons f fs n (put_child dec k c cs), get_child-put f k c cs)
    | no d ↦ ground (
      arith,
      d,
      find-cons f fs n (put_child dec k c cs),
      find-cons f fs n cs,
      get_child-put f k c cs,
    )
  ]

  through :
      (f k : F) (fs gs : List F) (n : Option (Terminal F)) (cs : Children F) (t : Terminal F)
      (b : Branch F)
      → k ≡ f
      → find fs b ≡ (if is_same gs fs then some t else find fs (as_branch (get_child dec k cs)))
      → (if is_yes (dec k f) then find fs b else find (f ∷ fs) (branch n cs))
        ≡ (if is_yes (dec k f) && is_same gs fs then some t else find (f ∷ fs) (branch n cs))
  through f k fs gs n cs t b p h = ground (
    arith,
    p,
    h,
    find-as_branch fs (get_child dec k cs),
    find-cons f fs n cs,
    ap (λ x. find_in fs (get_child dec x cs)) p,
  )

  -- Adding a terminal under a list of features changes what stands under this list, and nothing else.
  pub find-add_terminal :
      (fs ks : List F) (t : Terminal F) (b : Branch F)
      → find fs (add_terminal dec ks t b) ≡ (if is_same ks fs then some t else find fs b)
  unfolding add_terminal is_same find find_in
  find-add_terminal [] [] t (branch n cs) = refl
  find-add_terminal (f ∷ fs) [] t (branch n cs) = refl
  find-add_terminal [] (k ∷ []) t (branch n cs) = refl
  find-add_terminal (f ∷ fs) (k ∷ []) t (branch n cs) =
      find-put_child f k fs n (last_child t (get_child dec k cs)) cs ∙ elim (dec k f) [
        | yes p ↦
            ground (arith, p, find_in-last_child fs t (get_child dec k cs), find-cons f fs n cs)
        | no d ↦ ground (arith, d)
      ]
  find-add_terminal [] (k ∷ l ∷ ks) t (branch n cs) = refl
  find-add_terminal (f ∷ fs) (k ∷ l ∷ ks) t (branch n cs) =
      let old = as_branch (get_child dec k cs) in
      find-put_child f k fs n (inner (add_terminal dec (l ∷ ks) t old)) cs ∙ elim (dec k f) [
        | yes p ↦ through f k fs (l ∷ ks) n cs t _ p (find-add_terminal fs (l ∷ ks) t old)
        | no d ↦ ground (arith, d)
      ]
