-- ===== src/Examples/Parsing.antt =====
-- A command of git, with a rule for it.
use claw_tune.Base.{
  string_discrete, option_discrete, refl, ℕ, suc, ◌≡◌, Bool, true, false, Option, none, some,
  String, List, [], ◌∷◌, length,
}
use claw_tune.Command.Words.{is_in, meets, is_digit, all_codes, is_unresolved}
use claw_tune.Command.Grammar.{
  Opt, Slot, Grammar, grammar_of, subcommand, no_more, Rule, last_one, attached_only, attached_dash,
  operand_slot,
}
use claw_tune.Command.Registry.{
  ScopeKind, global_scope, runtime_scope, RuleScope, StoredRule, ParseContext, RuleRegistry,
  priority, scope_priority, find_rules, max_found, is_python, behind, lookup_for_parse,
  parser_lookup, add, add_rules, empty_registry,
}
use claw_tune.Command.Registry.Laws.{IsChoice}
use claw_tune.Command.Result.{Parsed}
use claw_tune.Command.Reading.{Python}
use claw_tune.Command.Parser.{parse, parsed}
use claw_tune.Command.Validation.{
  check_options, check_slots, visit, visit_subcommands, validate_rule,
}
use claw_tune.Command.Registry.Choices.{IsClearAnswer, lookup_for_parse_added}
use claw_tune.Dict.{put}
use claw_tune.Command.Sound.Parses.{IsResult, parse-IsResult}

abbrev python : Python
python = record { path_name = λ s. s; is_number = all_codes is_digit; is_identifier = λ s. true }

-- An option with one value.
abbrev valued : String → Opt
valued name = record {
  names = name ∷ [];
  canonical = name;
  least = 1;
  most = some 1;
  separate = true;
  attached = true;
  equals = false;
  optional_value = attached_only;
  dash_values = attached_dash;
  repeat = last_one;
  independent = false;
  persistent = false;
  leading_numeric_short = false;
  transition = none;
}

abbrev paths : Slot
paths = record {
  least = 0;
  most = none;
  role = operand_slot;
  skip_if_options = [];
  optional_if_options = [];
}

abbrev commit_grammar : Grammar
commit_grammar = grammar_of (valued "-m" ∷ []) [] (paths ∷ []) true false true false no_more

abbrev git_grammar : Grammar
git_grammar =
    grammar_of (valued "-C" ∷ []) [] [] false false true false
      (subcommand ("commit" ∷ "ci" ∷ []) "commit" commit_grammar no_more)

abbrev any_scope : ScopeKind → RuleScope
any_scope kind = record {
  kind = kind;
  repo = none;
  runtime_id = none;
  entry = some "git";
  source_hash = none;
  tool_version = none;
}

-- A rule for everyone, and one for a runtime.
abbrev git_rule : ScopeKind → StoredRule
git_rule kind = record {
  names = "git" ∷ [];
  scope = any_scope kind;
  rule = record { canonical = "git"; grammar = git_grammar };
}

abbrev context : ParseContext
context = record { repo = none; runtime_id = none; tool_version = none }

-- A digest of these two rules.
abbrev digest : StoredRule → String
digest r = elim r.scope.kind [ global_scope ↦ "k2" | _ ↦ "k1" ]

abbrev never : StoredRule → Bool
never _ = false

abbrev always : StoredRule → Bool
always _ = true

abbrev two_rules : List StoredRule
two_rules = git_rule runtime_scope ∷ git_rule global_scope ∷ []

registry : RuleRegistry
registry = add_rules never always digest two_rules empty_registry

abbrev no_source : String → ParseContext → Option String
no_source _ _ = none

abbrev same_path : String → String
same_path s = s

lookup_test :
    lookup_for_parse same_path no_source "git" context false registry
    ≡ some (git_rule runtime_scope, "k1")
unfolding registry add_rules add put validate_rule visit visit_subcommands check_options check_slots
    meets lookup_for_parse find_rules priority scope_priority max_found string_discrete
    option_discrete is_python behind is_in
lookup_test = refl

lookup_for_parse_added_example :
    IsChoice same_path no_source "git" context false
      (add_rules never always digest two_rules empty_registry).rules
      (lookup_for_parse same_path no_source "git" context false
        (add_rules never always digest two_rules empty_registry))
    × IsClearAnswer (
        lookup_for_parse same_path no_source "git" context false
          (add_rules never always digest two_rules empty_registry))
lookup_for_parse_added_example =
    lookup_for_parse_added never always digest same_path no_source two_rules "git" context false

-- The rules of the registry, as the parser asks for them.
abbrev git_rules : String → Bool → Option (Rule × String)
git_rules = parser_lookup same_path no_source context registry

abbrev arguments : List String
arguments = "-C" ∷ "/tmp" ∷ "ci" ∷ "-mfix" ∷ "a.py" ∷ "b.py" ∷ []

-- The sixth word has a variable.
abbrev intents : ℕ → Bool
intents =
    is_unresolved
      ([] ∷ [] ∷ [] ∷ [] ∷ (some "literal" ∷ []) ∷ (some "literal" ∷ some "parameter" ∷ []) ∷ [])

parse-IsResult_example :
    (r : Parsed String) × (parse python git_rules (λ s. s) intents ("git" ∷ arguments) false
      ≡ parsed r)
    × IsResult python git_rules (λ s. s) intents (suc (length arguments)) r
parse-IsResult_example = parse-IsResult python git_rules (λ s. s) intents "git" arguments false
