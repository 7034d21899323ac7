-- ===== src/Examples/Indexing.antt =====
-- An index of two keys.
use native.Mathlib.Decide.{ℕ_discrete}
use claw_tune.Base.{ℕ, ◌≡◌, refl, not, some, List, [], ◌∷◌}
use claw_tune.Dict.{Dict, get, IsUnique}
use claw_tune.Superset.{has, is_empty, new_index, supersets, contains_superset}
use claw_tune.Superset.Laws.{contains}
use claw_tune.Superset.Contains.{contains_superset_lem}

abbrev entries : Dict ℕ (List ℕ)
entries = (1, 10 ∷ 20 ∷ []) ∷ (2, 20 ∷ []) ∷ []

entries-IsUnique : IsUnique ℕ_discrete entries
unfolding get ℕ_discrete
entries-IsUnique = (refl, (refl, tt))

contains_superset_lem_example :
    ((k : ℕ)
      → has ℕ_discrete k
          (supersets ℕ_discrete ℕ_discrete (20 ∷ []) (new_index ℕ_discrete ℕ_discrete entries))
        ≡ contains ℕ_discrete ℕ_discrete k (20 ∷ []) entries)
    × (contains_superset ℕ_discrete ℕ_discrete (20 ∷ []) (new_index ℕ_discrete ℕ_discrete entries)
        ≡ some (
            not (
              is_empty (
                supersets ℕ_discrete ℕ_discrete
                  (20 ∷ [])
                  (new_index ℕ_discrete ℕ_discrete entries)))))
contains_superset_lem_example =
    contains_superset_lem ℕ_discrete ℕ_discrete (20 ∷ []) entries entries-IsUnique
