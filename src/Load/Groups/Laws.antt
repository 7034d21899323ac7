-- ===== src/Load/Groups/Laws.antt =====
-- The groups are the retained clauses in order, without gaps.
use claw_tune.Base.{
  ℕ, zero, suc, ◌+◌, ◌≡◌, ◌≢◌, refl, sym, ◌∙◌, ap, ◌==◌, Bool, true, Option, none, some, List, [],
  ◌∷◌, ◌++◌, All, is_some, if◌then◌else◌, arith, Bool-cases, inl, inr,
}
use mathlib.Core.List.{append_assoc, append-nil}
use claw_tune.Load.Groups.{
  Clause, is_dependent, is_connected, append_last, open_group, group_loop, nonempty, singletons,
  composition_groups,
}

-- The indexes of the groups, in order.
unfoldable pub flat : List (List ℕ) → List ℕ
flat [] = []
flat (g ∷ groups) = g ++ flat groups

-- `from`, `from + 1`, …
unfoldable pub up : (from n : ℕ) → List ℕ
up from zero = []
up from (suc n) = from ∷ up (suc from) n

-- How many clauses have load of their own.
unfoldable pub retained : List Clause → ℕ
retained [] = 0
retained (c ∷ cs) = let rest = retained cs in if is_dependent c then rest else suc rest

up_snoc : (k n : ℕ) → up k n ++ (k + n) ∷ [] ≡ up k (suc n)
unfolding up
up_snoc k zero = ap (λ x. x ∷ []) (omega arith)
up_snoc k (suc n) =
    ap (λ xs. k ∷ xs) (ap (λ x. up (suc k) n ++ x ∷ []) (omega arith) ∙ up_snoc (suc k) n)

up_next : (n : ℕ) → up 0 n ++ n ∷ [] ≡ up 0 (suc n)
up_next n = ap (λ x. up 0 n ++ x ∷ []) (omega arith) ∙ up_snoc 0 n

flat-open : (groups : List (List ℕ)) → flat (groups ++ [] ∷ []) ≡ flat groups
unfolding flat
flat-open [] = refl
flat-open (g ∷ groups) = ap (λ xs. g ++ xs) (flat-open groups)

flat-append_last :
    (i : ℕ) (groups : List (List ℕ))
    → groups ≢ []
    → (flat (append_last i groups) ≡ flat groups ++ i ∷ []) × (append_last i groups ≢ [])
unfolding flat append_last
flat-append_last i [] h = absurd (h refl)
flat-append_last i (g ∷ []) h =
    (append-nil _ ∙ ap (λ xs. xs ++ i ∷ []) (sym (append-nil g)), λ e. cc)
flat-append_last i (g ∷ h ∷ hs) n = (
  ap (λ xs. g ++ xs) (flat-append_last i (h ∷ hs) (λ e. cc)).0
      ∙ sym (append_assoc g (flat (h ∷ hs)) (i ∷ [])),
  λ e. cc,
)

flat-nonempty : (groups : List (List ℕ)) → flat (nonempty groups) ≡ flat groups
unfolding flat nonempty
flat-nonempty [] = refl
flat-nonempty ([] ∷ groups) = flat-nonempty groups
flat-nonempty ((i ∷ g) ∷ groups) = ap (λ xs. (i ∷ g) ++ xs) (flat-nonempty groups)

All-nonempty : (groups : List (List ℕ)) → All (λ g. g ≢ []) (nonempty groups)
unfolding nonempty
All-nonempty [] = tt
All-nonempty ([] ∷ groups) = All-nonempty groups
All-nonempty ((i ∷ g) ∷ groups) = (λ e. cc, All-nonempty groups)

flat-singletons :
    (from n : ℕ) → (flat (singletons from n) ≡ up from n) × All (λ g. g ≢ []) (singletons from n)
unfolding flat singletons up
flat-singletons from zero = (refl, tt)
flat-singletons from (suc n) = (
  ap (λ xs. from ∷ xs) (flat-singletons (suc from) n).0,
  (λ e. cc, (flat-singletons (suc from) n).1),
)

both_empty : flat [] ≡ up 0 0
unfolding flat up
both_empty = refl

-- Once there has been a clause there is a group.
abbrev HasGroup : Option Clause → List (List ℕ) → Type 0
HasGroup none groups = Unit
HasGroup (some _) groups = groups ≢ []

open_group-flat :
    (previous : Option Clause) (c : Clause) (groups : List (List ℕ))
    → HasGroup previous groups
    → (flat (open_group previous c groups) ≡ flat groups) × (open_group previous c groups ≢ [])
unfolding open_group is_connected
open_group-flat previous c groups h = elim (Bool-cases (is_connected previous c)) [
  | inl e ↦ rw e (refl, connected previous e h)
  | inr e ↦ rw e (flat-open groups, opened groups)
]
  where
    connected : (p : Option Clause) → is_connected p c ≡ true → HasGroup p groups → groups ≢ []
    connected none e k = absurd cc
    connected (some p) e k = k

    opened : (gs : List (List ℕ)) → gs ++ [] ∷ [] ≢ []
    opened [] e = cc
    opened (g ∷ gs) e = cc

-- What the loop returns, from groups that hold the indexes below `index`.
group_loop_lem :
    (previous : Option Clause) (cs : List Clause) (groups : List (List ℕ)) (index : ℕ)
    → HasGroup previous groups
    → flat groups ≡ up 0 index
    → let end_ = group_loop previous cs groups index in
      (end_.1 ≡ index + retained cs) × (flat end_.0 ≡ up 0 end_.1)
unfolding group_loop retained
group_loop_lem previous [] groups index h e = (omega arith, e)
group_loop_lem previous (c ∷ cs) groups index h e =
    let (fo, opened) = open_group-flat previous c groups h in
    let (fa, na) = flat-append_last index (open_group previous c groups) opened in
    elim (Bool-cases (is_dependent c)) [
      | inl d ↦
          rw d (group_loop_lem (some c) cs (open_group previous c groups) index opened (fo ∙ e))
      | inr d ↦
          let (count, all) =
            group_loop_lem (some c) cs (append_last index (open_group previous c groups))
              (suc index) na (fa ∙ ap (λ xs. xs ++ index ∷ []) (fo ∙ e) ∙ up_next index) in
          rw d (omega (arith, count), all)
    ]

-- Whether as many clauses are retained as there should be. No clauses say nothing.
unfoldable pub fits : List Clause → ℕ → Bool
fits [] count = true
fits (c ∷ cs) count = retained (c ∷ cs) == count

-- Groups that are not empty and hold 0, 1, … below `count`, each once and in order.
unfoldable pub Partitions : ℕ → Option (List (List ℕ)) → Type 0
Partitions count none = Unit
Partitions count (some groups) = (flat groups ≡ up 0 count) × All (λ g. g ≢ []) groups

-- `_composition_groups` returns groups just if there are no clauses or `count` of them are retained,
-- and None otherwise. The groups are not empty and hold 0, 1, … below `count`, each once and in
-- order.
pub composition_groups-Partitions :
    (cs : List Clause) (count : ℕ)
    → (is_some (composition_groups cs count) ≡ fits cs count)
      × Partitions count (composition_groups cs count)
unfolding composition_groups fits Partitions
composition_groups-Partitions [] count = (refl, flat-singletons 0 count)
composition_groups-Partitions (c ∷ cs) count =
    let (total, all) = group_loop_lem none (c ∷ cs) [] 0 tt both_empty in
    let end_ = group_loop none (c ∷ cs) [] 0 in
    elim (Bool-cases (end_.1 == count)) [
      | inl e ↦
          let same : end_.1 ≡ count = ground (arith, e) in
          rw e (
            ground (arith, total, e),
            (flat-nonempty end_.0 ∙ all ∙ ap (up 0) same, All-nonempty end_.0),
          )
      | inr e ↦ rw e (ground (arith, total, e), tt)
    ]
