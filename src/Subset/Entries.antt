-- ===== src/Subset/Entries.antt =====
-- No feature stands twice in a dict of the trie, and the two ways to choose the children that are
-- visited choose those of the allowed features.
use claw_tune.Base.{
  ◌+◌, ◌≡◌, refl, ◌∙◌, ap, ltb, Bool, true, false, inl, inr, Option, none, some, is_some, List, [],
  ◌∷◌, length, All, In, if◌then◌else◌, is_yes, arith, Bool-cases,
}
use claw_tune.Superset.{has}
use claw_tune.Subset.{
  Terminal, Branch, branch, Child, leaf, inner, Children, nil, cons, as_branch, last_child,
  get_child, put_child, add_terminal, cons_child, by_features, by_items, chosen, count,
}
use claw_tune.Subset.Dicts.{get_child-put}

module _ {F : Type 0} (dec : Discrete F) where
  unfoldable mutual
    pub IsTrie : Branch F → Type 0
    IsTrie (branch n cs) = AreTries cs

    pub IsChild : Child F → Type 0
    IsChild (leaf t) = Unit
    IsChild (inner b) = IsTrie b

    pub AreTries : Children F → Type 0
    AreTries nil = Unit
    AreTries (cons f c cs) = (get_child dec f cs ≡ none) × IsChild c × AreTries cs

  -- What holds of a child that may be there.
  abbrev pub MayBe : Option (Child F) → Type 0
  MayBe none = Unit
  MayBe (some c) = IsChild c

  pub get_child-MayBe : (f : F) (cs : Children F) → AreTries cs → MayBe (get_child dec f cs)
  unfolding get_child IsTrie
  get_child-MayBe f nil h = tt
  get_child-MayBe f (cons g c cs) h = elim (Bool-cases (is_yes (dec g f))) [
    | inl e ↦ rw e h.1
    | inr e ↦ rw e (get_child-MayBe f cs h.2)
  ]

  put_child-AreTries :
      (f : F) (c : Child F) (cs : Children F)
      → IsChild c
      → AreTries cs
      → AreTries (put_child dec f c cs)
  unfolding put_child get_child IsTrie
  put_child-AreTries f c nil p h = (refl, p, tt)
  put_child-AreTries f c (cons g d cs) p h = elim (Bool-cases (is_yes (dec g f))) [
    | inl e ↦ rw e (h.0, p, h.2)
    | inr e ↦ rw e (
      ground (arith, e, h.0, get_child-put dec g f c cs, apart g e),
      h.1,
      put_child-AreTries f c cs p h.2,
    )
  ]
    where
      apart : (h : F) → is_yes (dec h f) ≡ false → is_yes (dec f h) ≡ false
      apart h e = elim (dec f h) as (λ x. is_yes x ≡ false) [
        | yes q ↦ absurd (ground (arith, e, q))
        | no n ↦ refl
      ]

  last_child-IsChild : (t : Terminal F) (c : Option (Child F)) → MayBe c → IsChild (last_child t c)
  unfolding last_child IsTrie
  last_child-IsChild t none h = tt
  last_child-IsChild t (some (leaf u)) h = tt
  last_child-IsChild t (some (inner (branch n cs))) h = h

  as_branch-IsTrie : (c : Option (Child F)) → MayBe c → IsTrie (as_branch c)
  unfolding as_branch IsTrie
  as_branch-IsTrie none h = tt
  as_branch-IsTrie (some (leaf u)) h = tt
  as_branch-IsTrie (some (inner b)) h = h

  pub add_terminal-IsTrie :
      (ks : List F) (t : Terminal F) (b : Branch F) → IsTrie b → IsTrie (add_terminal dec ks t b)
  unfolding add_terminal IsTrie
  add_terminal-IsTrie [] t (branch n cs) h = h
  add_terminal-IsTrie (k ∷ []) t (branch n cs) h =
      put_child-AreTries k _ cs (last_child-IsChild t _ (get_child-MayBe k cs h)) h
  add_terminal-IsTrie (k ∷ l ∷ ks) t (branch n cs) h =
      put_child-AreTries k _ cs
        (add_terminal-IsTrie (l ∷ ks) t _ (as_branch-IsTrie _ (get_child-MayBe k cs h))) h

  -- A child of an allowed feature.
  pub record IsAllowed (allowed : List F) (cs : Children F) (c : Child F) : Type 0 where
    pub feature : F
    pub is_in : has dec feature allowed ≡ true
    pub is_there : get_child dec feature cs ≡ some c

  In-by_features :
      (fs : List F) (cs : Children F) (f : F) (c : Child F)
      → has dec f fs ≡ true
      → get_child dec f cs ≡ some c
      → In c (by_features dec fs cs)
  unfolding has by_features cons_child
  In-by_features [] cs f c h g = absurd cc
  In-by_features (k ∷ fs) cs f c h g = elim (dec k f) [
    | yes p ↦ rw (p, g) (inl refl)
    | no n ↦ later (get_child dec k cs) (In-by_features fs cs f c (ground (arith, n, h)) g)
  ]
    where
      later :
          (o : Option (Child F))
          → In c (by_features dec fs cs)
          → In c (cons_child dec o (by_features dec fs cs))
      later none i = i
      later (some d) i = inr i

  by_features-IsAllowed :
      (allowed fs : List F) (cs : Children F)
      → ((f : F) → has dec f fs ≡ true → has dec f allowed ≡ true)
      → All (IsAllowed allowed cs) (by_features dec fs cs)
  unfolding has by_features cons_child
  by_features-IsAllowed allowed [] cs h = tt
  by_features-IsAllowed allowed (k ∷ fs) cs h =
      first (get_child dec k cs) refl
        (by_features-IsAllowed allowed fs cs (λ f e. h f (ground (arith, e))))
    where
      first :
          (o : Option (Child F))
          → get_child dec k cs ≡ o
          → All (IsAllowed allowed cs) (by_features dec fs cs)
          → All (IsAllowed allowed cs) (cons_child dec o (by_features dec fs cs))
      first none e a = a
      first (some c) e a =
          (record { feature = k; is_in = h k (ground (arith, dec k k)); is_there = e }, a)

  In-by_items :
      (allowed : List F) (cs : Children F) (f : F) (c : Child F)
      → has dec f allowed ≡ true
      → get_child dec f cs ≡ some c
      → In c (by_items dec allowed cs)
  unfolding get_child by_items
  In-by_items allowed nil f c h g = absurd cc
  In-by_items allowed (cons k d cs) f c h g = elim (dec k f) [
    | yes p ↦ rw (ap (λ x. has dec x allowed) p ∙ h) (inl (ground (arith, p, g)))
    | no n ↦ later (has dec k allowed) (In-by_items allowed cs f c h (ground (arith, n, g)))
  ]
    where
      later :
          (b : Bool)
          → In c (by_items dec allowed cs)
          → In c (if b then d ∷ by_items dec allowed cs else by_items dec allowed cs)
      later true i = inr i
      later false i = i

  by_items-IsAllowed :
      (allowed : List F) (cs all : Children F)
      → AreTries cs
      → ((f : F) (c : Child F) → get_child dec f cs ≡ some c → get_child dec f all ≡ some c)
      → All (IsAllowed allowed all) (by_items dec allowed cs)
  unfolding get_child by_items IsTrie
  by_items-IsAllowed allowed nil all u h = tt
  by_items-IsAllowed allowed (cons k d cs) all u h =
      let rest = by_items-IsAllowed allowed cs all u.2 (λ f c g. h f c (behind f c g)) in
      elim (Bool-cases (has dec k allowed)) [
        | inl e ↦
            rw e
              (record { feature = k; is_in = e; is_there = h k d (ground (arith, dec k k)) }, rest)
        | inr e ↦ rw e rest
      ]
    where
      behind :
          (f : F) (c : Child F)
          → get_child dec f cs ≡ some c
          → (if is_yes (dec k f) then some d else get_child dec f cs) ≡ some c
      behind f c g = elim (dec k f) [
        | yes p ↦ absurd (ground (arith, ap (λ x. get_child dec x cs) p, g, u.0))
        | no n ↦ ground (arith, n, g)
      ]

  pub In-chosen :
      (allowed : List F) (n : Option (Terminal F)) (cs : Children F) (f : F) (c : Child F)
      → has dec f allowed ≡ true
      → get_child dec f cs ≡ some c
      → In c (chosen dec allowed n cs)
  unfolding chosen
  In-chosen allowed n cs f c h g =
      pick (ltb (length allowed + 1) (count cs + (if is_some n then 1 else 0)))
    where
      pick : (b : Bool) → In c (if b then by_features dec allowed cs else by_items dec allowed cs)
      pick true = In-by_features allowed cs f c h g
      pick false = In-by_items allowed cs f c h g

  pub chosen-IsAllowed :
      (allowed : List F) (n : Option (Terminal F)) (cs : Children F)
      → AreTries cs
      → All (IsAllowed allowed cs) (chosen dec allowed n cs)
  unfolding chosen
  chosen-IsAllowed allowed n cs u =
      pick (ltb (length allowed + 1) (count cs + (if is_some n then 1 else 0)))
    where
      pick :
          (b : Bool)
          → All
              (IsAllowed allowed cs)
              (if b then by_features dec allowed cs else by_items dec allowed cs)
      pick true = by_features-IsAllowed allowed allowed cs (λ f e. e)
      pick false = by_items-IsAllowed allowed cs cs u (λ f c g. g)
