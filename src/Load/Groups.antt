-- ===== src/Load/Groups.antt =====
-- services/sidecar/src/clawtune_sidecar/predictors/call_load.py: `_composition_groups`, which stages
-- of a command run at once, and `_missing_evidence_reason`.
-- services/sidecar/src/tool_resource/runtime_kb.py: `is_pipeline_dependent_consumer`.
pub mod Laws
use claw_tune.Base.{
  ℕ, zero, suc, ◌+◌, ℤ, pos, negsuc, ℤ_discrete, is_positive, ◌==◌, Bool, true, false, not, ◌&&◌,
  ◌||◌, Option, none, some, List, [], ◌∷◌, ◌++◌, String, if◌then◌else◌, is_yes, is_some,
  string_discrete,
}

-- What is read of a clause. Its position is an `int`, and -1 if it has none.
pub record Clause : Type 0 where
  pub bin : String
  pub in_pipe : Bool
  pub pipeline_position : ℤ

-- `PIPELINE_DEPENDENT_CONSUMER_BINS`
abbrev pub dependent_bins : List String
dependent_bins =
    "cat" ∷ "comm" ∷ "column" ∷ "cut" ∷ "egrep" ∷ "fgrep" ∷ "fold" ∷ "grep" ∷ "head" ∷ "hexdump"
    ∷ "less" ∷ "more" ∷ "nl" ∷ "od" ∷ "paste" ∷ "rev" ∷ "rg" ∷ "sed" ∷ "tac" ∷ "tail" ∷ "tee" ∷ "tr"
    ∷ "ts" ∷ "uniq" ∷ "wc" ∷ "xxd" ∷ []

unfoldable pub is_one_of : String → List String → Bool
is_one_of s [] = false
is_one_of s (t ∷ ts) = is_yes (string_discrete t s) || is_one_of s ts

-- `is_pipeline_dependent_consumer`
unfoldable pub is_dependent : Clause → Bool
is_dependent c = c.in_pipe && (is_positive c.pipeline_position && is_one_of c.bin dependent_bins)

abbrev pub succ_ℤ : ℤ → ℤ
succ_ℤ (pos n) = pos (suc n)
succ_ℤ (negsuc zero) = pos 0
succ_ℤ (negsuc (suc n)) = negsuc n

-- Whether the clause stands behind the previous one in a pipe.
unfoldable pub is_connected : Option Clause → Clause → Bool
is_connected none c = false
is_connected (some p) c =
    p.in_pipe && (c.in_pipe && is_yes (ℤ_discrete c.pipeline_position (succ_ℤ p.pipeline_position)))

-- `groups[-1].append(index)`. There is a last group.
unfoldable pub append_last : ℕ → List (List ℕ) → List (List ℕ)
append_last index [] = []
append_last index (g ∷ []) = (g ++ index ∷ []) ∷ []
append_last index (g ∷ h ∷ hs) = g ∷ append_last index (h ∷ hs)

-- The groups after `groups.append([])`, unless the clause is connected.
unfoldable pub open_group : Option Clause → Clause → List (List ℕ) → List (List ℕ)
open_group previous c groups = if is_connected previous c then groups else groups ++ [] ∷ []

-- The loop over the clauses: the groups and the number of retained clauses.
unfoldable pub group_loop : Option Clause → List Clause → List (List ℕ) → ℕ → List (List ℕ) × ℕ
group_loop previous [] groups index = (groups, index)
group_loop previous (c ∷ cs) groups index =
    let opened = open_group previous c groups in
    let skipped = group_loop (some c) cs opened index in
    let kept = group_loop (some c) cs (append_last index opened) (suc index) in
    if is_dependent c then skipped else kept

-- `[group for group in groups if group]`
unfoldable pub nonempty : List (List ℕ) → List (List ℕ)
nonempty [] = []
nonempty ([] ∷ groups) = nonempty groups
nonempty ((i ∷ g) ∷ groups) = (i ∷ g) ∷ nonempty groups

-- `[[index] for index in range(from, from + n)]`
unfoldable pub singletons : (from n : ℕ) → List (List ℕ)
singletons from zero = []
singletons from (suc n) = (from ∷ []) ∷ singletons (suc from) n

-- `_composition_groups`
unfoldable pub composition_groups : List Clause → ℕ → Option (List (List ℕ))
composition_groups [] retained_count = some (singletons 0 retained_count)
composition_groups (c ∷ cs) retained_count =
    let end_ = group_loop none (c ∷ cs) [] 0 in
    if end_.1 == retained_count then some (nonempty end_.0) else none

-- What is read of a row of evidence: whether it has values, and its reason, which may be empty.
pub record Evidence : Type 0 where
  pub has_values : Bool
  pub unavailable_reason : Option String

abbrev pub has_evidence : Option Evidence → Bool
has_evidence none = false
has_evidence (some row) = row.has_values

unfoldable pub all_have_evidence : List (Option Evidence) → Bool
all_have_evidence [] = true
all_have_evidence (row ∷ rows) = has_evidence row && all_have_evidence rows

-- The reason of a row, if it is not empty.
unfoldable pub reason_of : Option Evidence → Option String
reason_of none = none
reason_of (some row) = elim row.unavailable_reason [
  | none ↦ none
  | some s ↦ if is_yes (string_discrete s "") then none else some s
]

-- The first of the reasons.
unfoldable pub first_reason : List (Option Evidence) → String → String
first_reason [] default = default
first_reason (row ∷ rows) default = elim (reason_of row) [
  | none ↦ first_reason rows default
  | some s ↦ s
]

abbrev pub is_nonempty : List (Option Evidence) → Bool
is_nonempty [] = false
is_nonempty (_ ∷ _) = true

-- `_missing_evidence_reason`
unfoldable pub missing_evidence_reason : List (Option Evidence) → String → Option String
missing_evidence_reason rows default =
    if is_nonempty rows && all_have_evidence rows then none else some (first_reason rows default)
