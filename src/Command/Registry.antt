-- ===== src/Command/Registry.antt =====
-- services/sidecar/src/command_parser/registry.py: `RuleRegistry` with `add` and the choice of a rule.
-- The digest of a rule, the tests of its size and schema, the evidence about a script and PurePosixPath are parameters;
-- the files of the cache directory are left out.
pub mod Laws
pub mod Choices
use Prim.Native.Char.{Char, code}
use claw_tune.Base.{
  ℕ, zero, suc, ◌+◌, Bool, true, false, not, ◌&&◌, ◌||◌, Option, none, some, String, List, [], ◌∷◌,
  if◌then◌else◌, is_yes, string_discrete, option_discrete, ltb, ◌==◌,
}
use claw_tune.Dict.{Dict, put}
use claw_tune.Command.Words.{is_text, is_in, is_digit, all_codes}
use claw_tune.Command.Grammar.{Rule}
use claw_tune.Command.Validation.{RuleError, validate_rule}

pub data ScopeKind : Type 0 where
  global_scope runtime_scope script_scope : ScopeKind

-- The `scope` of a rule.
pub record RuleScope : Type 0 where
  pub kind : ScopeKind
  pub repo : Option String
  pub runtime_id : Option String
  pub entry : Option String
  pub source_hash : Option String
  pub tool_version : Option String

-- A rule as the registry stores it; `rule` is what the parser reads of it.
pub record StoredRule : Type 0 where
  pub names : List String
  pub scope : RuleScope
  pub rule : Rule

-- The part of `ParseContext` that the choice reads.
pub record ParseContext : Type 0 where
  pub repo : Option String
  pub runtime_id : Option String
  pub tool_version : Option String

pub record RuleRegistry : Type 0 where
  pub read_only : Bool
  pub rules : Dict String StoredRule
  pub generation : ℕ

pub data AddAnswer : Type 0 where
  frozen : AddAnswer
  invalid_rule : RuleError → AddAnswer
  added : (key : String) → AddAnswer

module _ (is_large is_schema_valid : StoredRule → Bool) (digest : StoredRule → String) where
  -- `add` of a rule that is not written to the cache directory.
  unfoldable pub add : StoredRule → RuleRegistry → AddAnswer × RuleRegistry
  add rule registry =
      if registry.read_only
      then (frozen, registry)
      else elim (validate_rule (is_large rule) (is_schema_valid rule) rule.rule.grammar) [
        | some e ↦ (invalid_rule e, registry)
        | none ↦ (
          added (digest rule),
          record registry {
            rules = put string_discrete (digest rule) rule registry.rules;
            generation = registry.generation + 1;
          },
        )
      ]

  -- The loop of `__init__` over the rules that it reads; `add` raises at the first that is not valid,
  -- which the callers of a cached file pass over.
  unfoldable pub add_rules : List StoredRule → RuleRegistry → RuleRegistry
  add_rules [] registry = registry
  add_rules (rule ∷ rules) registry = add_rules rules (add rule registry).1

abbrev pub empty_registry : RuleRegistry
empty_registry = record { read_only = false; rules = []; generation = 0 }

abbrev pub is_same : Option String → Option String → Bool
is_same a b = is_yes (option_discrete string_discrete a b)

-- What stands behind "python" in a name that is one of its aliases: nothing, or a 2 or a 3, and then a
-- dot and digits.
unfoldable pub is_version : String → Bool
is_version String.[] = true
is_version (String.◌∷◌ c String.[]) = code c == b'2' || code c == b'3'
is_version (String.◌∷◌ c (String.◌∷◌ d String.[])) = false
is_version (String.◌∷◌ c (String.◌∷◌ d (String.◌∷◌ e s))) =
    (code c == b'2' || code c == b'3') && (code d == b'.' && all_codes is_digit (String.◌∷◌ e s))

-- The text behind a prefix, if it has it.
unfoldable pub behind : String → String → Option String
behind String.[] s = some s
behind (String.◌∷◌ p ps) String.[] = none
behind (String.◌∷◌ p ps) (String.◌∷◌ c s) =
    let rest = behind ps s in if code p == code c then rest else none

-- `re.fullmatch(r"python(?:[23](?:\.\d+)?)?", name)`, for the decimal digits of ASCII.
unfoldable pub is_python : String → Bool
is_python name = elim (behind "python" name) [ none ↦ false | some version ↦ is_version version ]

abbrev pub family_name : String → String
family_name name = if is_python name then "python" else name

-- An element of `found`.
pub record Found : Type 0 where
  pub priority : ℕ
  pub order : ℕ
  pub key : String
  pub rule : StoredRule

abbrev pub cons_found : Option ℕ → ℕ → String → StoredRule → List Found → List Found
cons_found none order key rule rest = rest
cons_found (some p) order key rule rest =
    record { priority = p; order = order; key = key; rule = rule } ∷ rest

abbrev pub is_below : Found → Found → Bool
is_below a b = ltb a.priority b.priority || (a.priority == b.priority && ltb a.order b.order)

-- `max(found, key=lambda item: (item[0], item[1]))`, with the first as the best so far.
unfoldable pub max_found : Found → List Found → Found
max_found best [] = best
max_found best (f ∷ fs) = max_found (if is_below best f then f else best) fs

abbrev pub choose : List Found → Option (StoredRule × String)
choose [] = none
choose (f ∷ fs) = let best = max_found f fs in some (best.rule, best.key)

module _ (path_name : String → String) (source : String → ParseContext → Option String) where
  -- The test of the source's hash: `source` is its content_hash, if it can be read.
  abbrev pub has_source : Option String → Option String → Bool
  has_source none hash = false
  has_source (some content_hash) hash = is_same (some content_hash) hash

  module _ (executable : String) (context : ParseContext) (script : Bool) where
    -- The tests of a scope that is not global.
    abbrev pub is_local : RuleScope → Bool
    is_local scope =
        is_same scope.runtime_id context.runtime_id
        && (is_same scope.repo context.repo && is_same scope.entry (some executable))

    -- The priority of a rule that its scope lets pass.
    unfoldable pub scope_priority : StoredRule → Option ℕ
    scope_priority r = elim r.scope.kind [
      | global_scope ↦
          if script || not (is_in (family_name (path_name executable)) r.names)
          then none
          else some 0
      | runtime_scope ↦ if is_local r.scope then some 1 else none
      | script_scope ↦
          if is_local r.scope
            && (script && has_source (source executable context) r.scope.source_hash)
          then some 2
          else none
    ]

    -- `scope.get("tool_version") and scope["tool_version"] != context.tool_version`
    abbrev pub is_other_version : Option String → Bool
    is_other_version none = false
    is_other_version (some version) =
        not (is_text version "") && not (is_same (some version) context.tool_version)

    -- The priority of a rule that the loop finds.
    unfoldable pub priority : StoredRule → Option ℕ
    priority r = if is_other_version r.scope.tool_version then none else scope_priority r

    -- The loop over the rules, from `order` on.
    unfoldable pub find_rules : (order : ℕ) → Dict String StoredRule → List Found
    find_rules order [] = []
    find_rules order ((key, rule) ∷ rules) =
        cons_found (priority rule) order key rule (find_rules (suc order) rules)

    -- `_lookup_for_parse`
    unfoldable pub lookup_for_parse : RuleRegistry → Option (StoredRule × String)
    lookup_for_parse registry = choose (find_rules 0 registry.rules)

  -- What the parser looks up.
  abbrev pub parser_rule : Option (StoredRule × String) → Option (Rule × String)
  parser_rule none = none
  parser_rule (some (r, key)) = some (r.rule, key)

  abbrev pub parser_lookup : ParseContext → RuleRegistry → String → Bool → Option (Rule × String)
  parser_lookup context registry executable script =
      parser_rule (lookup_for_parse executable context script registry)
