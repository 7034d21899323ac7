-- ===== src/Subset/Ends.antt =====
-- The loop ends within as many rounds as there are dicts on the stack, with exactly what can be
-- reached from it.
use mathlib.Core.Path.{subst}
use claw_tune.Base.{
  ℕ, zero, suc, ◌≤◌, ◌<◌, ◌≡◌, refl, ◌↔◌, inl, inr, some, List, [], ◌∷◌, All, All-map, In, arith,
}
use claw_tune.Subset.{
  Terminal, Branch, branch, Child, leaf, inner, Children, chosen, visit, with_terminal, subset_loop,
  weight,
}
use claw_tune.Subset.Entries.{
  IsTrie, IsChild, AreTries, IsAllowed, MayBe, get_child-MayBe, chosen-IsAllowed,
}
use claw_tune.Subset.Weight.{IsSetList, chosen_weight}
use claw_tune.Subset.Loop.{
  Reachable, visit_to, visit_from, stack_weight, visit_weight, round_to, round_from,
}

module _ {F : Type 0} (dec : Discrete F) (allowed : List F) where
  visit_tries :
      (cs : List (Child F)) (stack : List (Branch F)) (matches : List (Terminal F))
      → All (IsChild dec) cs
      → All (IsTrie dec) stack
      → All (IsTrie dec) (visit cs stack matches).0
  unfolding visit IsTrie
  visit_tries [] stack matches a s = s
  visit_tries (leaf u ∷ cs) stack matches a s = visit_tries cs stack (u ∷ matches) a.1 s
  visit_tries (inner b ∷ cs) stack matches a s = visit_tries cs (b ∷ stack) matches a.1 (a.0, s)

  IsAllowed-IsChild :
      (cs : Children F)
      → AreTries dec cs
      → (c : Child F) → IsAllowed dec allowed cs c
      → IsChild dec c
  IsAllowed-IsChild cs u c a = subst (MayBe dec) a.is_there (get_child-MayBe dec a.feature cs u)

  -- The loop returns `found`, with just what can be reached.
  abbrev pub Finds : List (Branch F) → List (Terminal F) → List (Terminal F) → Type 0
  Finds stack matches found = (t : Terminal F) → In t found ↔ Reachable dec allowed t stack matches

  stack_pos : (b : Branch F) → 0 < weight b
  unfolding weight
  stack_pos (branch n cs) = omega arith

  pub subset_loop-Finds :
      (fuel : ℕ) (stack : List (Branch F)) (matches : List (Terminal F))
      → IsSetList dec allowed
      → All (IsTrie dec) stack
      → stack_weight dec allowed stack ≤ fuel
      → (found : List (Terminal F)) × (subset_loop dec fuel allowed stack matches ≡ some found)
        × Finds stack matches found
  unfolding subset_loop stack_weight weight IsTrie
  subset_loop-Finds fuel [] matches u s w = (matches, nothing_left fuel, λ t. (inl, only_found t))
    where
      nothing_left : (fuel : ℕ) → subset_loop dec fuel allowed [] matches ≡ some matches
      nothing_left zero = refl
      nothing_left (suc n) = refl

      only_found : (t : Terminal F) → Reachable dec allowed t [] matches → In t matches
      only_found t (inl i) = i
      only_found t (inr b) = absurd b
  subset_loop-Finds zero (b ∷ stack) matches u s w = absurd (omega (arith, w, stack_pos b))
  subset_loop-Finds (suc fuel) (branch n cs ∷ stack) matches u s w =
      let ones = chosen dec allowed n cs in
      let kept = with_terminal n matches in
      let (found, e, h) =
        subset_loop-Finds fuel (visit ones stack kept).0 (visit ones stack kept).1 u
          (visit_tries ones stack kept
            (All-map (IsAllowed dec allowed cs) (IsChild dec) ones (IsAllowed-IsChild cs s.0)
              (chosen-IsAllowed dec allowed n cs s.0))
            s.1)
          (omega (
            arith,
            w,
            visit_weight dec allowed ones stack kept,
            chosen_weight dec allowed n cs u,
          )) in
      (
        found,
        e,
        λ t. (
          (λ i.
              round_from dec allowed t n cs stack matches s.0
                (visit_from dec allowed t ones stack kept ((h t).0 i))),
          (λ r. (h t).1 (
              visit_to dec allowed t ones stack kept
                (round_to dec allowed t n cs stack matches r))),
        ),
      )
