-- ===== src/Command/Validation.antt =====
-- services/sidecar/src/command_parser/validation.py: `validate_rule`, whose `visit` walks through a
-- grammar. The size of the JSON and its schema are tested by a library: both tests are parameters.
pub mod Laws
pub mod Accepted
use claw_tune.Base.{
  ℕ, zero, suc, ◌+◌, Bool, true, false, not, ◌&&◌, ◌||◌, Option, none, some, is_some, is_none,
  String, List, [], ◌∷◌, ◌++◌, if◌then◌else◌, ltb, ◌==◌,
}
use claw_tune.Command.Words.{is_in, meets}
use claw_tune.Command.Grammar.{Opt, Slot, Grammar, grammar_of, Subcommands, no_more, subcommand}

-- What it raises.
pub data RuleError : Type 0 where
  too_large schema_error too_deep duplicate_alias invalid_arity ambiguous_shorthand variadic_inside
        duplicate_subcommand :
      RuleError

-- `opt["max"] is not None and opt["min"] > opt["max"]`
abbrev pub is_bad_arity : Opt → Bool
is_bad_arity o = elim o.most [ none ↦ false | some most ↦ ltb most o.least ]

-- `opt["max"] != 1`
abbrev pub is_not_one : Option ℕ → Bool
is_not_one none = true
is_not_one (some most) = not (most == 1)

-- The test of an option with `leading_numeric_short`; `numeric_short` counts it already.
abbrev pub is_bad_shorthand : ℕ → Opt → Bool
is_bad_shorthand numeric_short o =
    ltb 1 numeric_short || (not (o.least == 1) || (is_not_one o.most || is_some o.transition))

-- The loop over the options.
unfoldable pub check_options :
    List Opt → (names : List String) → (numeric_short : ℕ) → Option RuleError
check_options [] names numeric_short = none
check_options (o ∷ os) names numeric_short =
    let more =
      check_options os (names ++ o.names)
        (if o.leading_numeric_short then numeric_short + 1 else numeric_short) in
    if meets names o.names || not (is_in o.canonical o.names)
    then some duplicate_alias
    else if is_bad_arity o
    then some invalid_arity
    else if o.leading_numeric_short && is_bad_shorthand (numeric_short + 1) o
    then some ambiguous_shorthand
    else more

-- The loop over the positionals.
unfoldable pub check_slots : List Slot → Option RuleError
check_slots [] = none
check_slots (slot ∷ []) = none
check_slots (slot ∷ next ∷ slots) =
    let more = check_slots (next ∷ slots) in
    if is_none slot.most then some variadic_inside else more

-- The first error of two steps.
abbrev pub or_else : Option RuleError → Option RuleError → Option RuleError
or_else none later = later
or_else (some e) later = some e

unfoldable mutual
  pub visit : Grammar → (depth : ℕ) → Option RuleError
  visit
        (grammar_of options literals positionals clusters assignments intermixed partial
          subcommands)
        depth =
      let below = visit_subcommands subcommands depth [] in
      if ltb 16 depth
      then some too_deep
      else or_else (check_options options [] 0) (or_else (check_slots positionals) below)

  -- The loop over the subcommands.
  pub visit_subcommands : Subcommands → (depth : ℕ) → (subnames : List String) → Option RuleError
  visit_subcommands no_more depth subnames = none
  visit_subcommands (subcommand names canonical grammar rest) depth subnames =
      let inner = visit grammar (suc depth) in
      let later = visit_subcommands rest depth (subnames ++ names) in
      if meets subnames names then some duplicate_subcommand else or_else inner later

-- `validate_rule`, for a rule with the grammar; the tests before `visit` are given.
unfoldable pub validate_rule : (is_large is_schema_valid : Bool) → Grammar → Option RuleError
validate_rule is_large is_schema_valid grammar =
    if is_large
    then some too_large
    else if not is_schema_valid
    then some schema_error
    else visit grammar 0
