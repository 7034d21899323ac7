-- ===== src/Topology/Text/Splits.antt =====
-- Texts that are joined and split again.
use claw_tune.Base.{ℕ, ◌≡◌, ◌≢◌, refl, false, none, some, List, [], ◌∷◌, ◌++◌, All, ◌==◌, arith}
use claw_tune.Topology.Text.{Text, split, join, split_once}

module _ (sep : ℕ) where
  abbrev pub Lacks : Text → Type 0
  Lacks s = All (λ c. (c == sep) ≡ false) s

  split_part : (s : Text) → Lacks s → split sep s ≡ s ∷ []
  unfolding split
  split_part [] h = refl
  split_part (c ∷ s) h = rw (h.0, split_part s h.1) refl

  split_first : (p s : Text) → Lacks p → split sep (p ++ sep ∷ s) ≡ p ∷ split sep s
  unfolding split
  split_first [] s h = ground arith
  split_first (c ∷ p) s h = rw (h.0, split_first p s h.1) refl

  -- Splitting a join gives the parts back, if there is one and none has the separator.
  pub split-join : (ps : List Text) → ps ≢ [] → All Lacks ps → split sep (join sep ps) ≡ ps
  unfolding join
  split-join [] ne h = absurd (ne refl)
  split-join (p ∷ []) ne h = split_part p h.0
  split-join (p ∷ q ∷ ps) ne h =
      rw (split_first p (join sep (q ∷ ps)) h.0, split-join (q ∷ ps) (λ e. absurd cc) h.1) refl

  pub split_once-Lacks : (s : Text) → Lacks s → split_once sep s ≡ none
  unfolding split_once
  split_once-Lacks [] h = refl
  split_once-Lacks (c ∷ s) h = rw (h.0, split_once-Lacks s h.1) refl

  pub split_once-first : (p s : Text) → Lacks p → split_once sep (p ++ sep ∷ s) ≡ some (p, s)
  unfolding split_once
  split_once-first [] s h = ground arith
  split_once-first (c ∷ p) s h = rw (h.0, split_once-first p s h.1) refl
