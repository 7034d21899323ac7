-- ===== src/Command/Registry/Choices.antt =====
-- The rules that the parser is given.
use mathlib.Core.Path.{subst}
use mathlib.Core.Logic.{ite}
use claw_tune.Base.{
  ℕ, zero, suc, ◌≡◌, Bool-cases, Option-cases, inl, inr, Bool, Option, none, some, String, List, [],
  ◌∷◌, All, get_elem?, string_discrete,
}
use claw_tune.Dict.{Dict, put}
use claw_tune.Command.Registry.{
  StoredRule, ParseContext, RuleRegistry, add, add_rules, empty_registry, lookup_for_parse,
}
use claw_tune.Command.Registry.Laws.{IsChoice, lookup_for_parse-IsChoice}
use claw_tune.Command.Validation.{validate_rule}
use claw_tune.Command.Validation.Accepted.{IsClear, validate_rule-IsClear}

abbrev IsClearRule : StoredRule → Type 0
IsClearRule r = IsClear r.rule.grammar 0

AreClearRules : Dict String StoredRule → Type 0
AreClearRules rules = All (λ x. IsClearRule x.1) rules

put-AreClearRules :
    (key : String) (r : StoredRule) (rules : Dict String StoredRule)
    → IsClearRule r
    → AreClearRules rules
    → AreClearRules (put string_discrete key r rules)
unfolding put AreClearRules
put-AreClearRules key r [] c h = (c, tt)
put-AreClearRules key r ((k, s) ∷ rules) c h =
    by_key (string_discrete k key) (put-AreClearRules key r rules c h.1)
  where
    by_key :
        (d : Dec (k ≡ key))
        → AreClearRules (put string_discrete key r rules)
        → AreClearRules (ite d ((k, r) ∷ rules) ((k, s) ∷ put string_discrete key r rules))
    by_key (yes e) more = (c, h.1)
    by_key (no n) more = (h.0, more)

AreClearRules-get_elem? :
    (rules : Dict String StoredRule) (i : ℕ) (key : String) (r : StoredRule)
    → AreClearRules rules
    → get_elem? rules i ≡ some (key, r)
    → IsClearRule r
unfolding AreClearRules
AreClearRules-get_elem? [] i key r h e = absurd cc
AreClearRules-get_elem? (x ∷ rules) zero key r h e =
    let p : x.1 ≡ r = cc e in subst IsClearRule p h.0
AreClearRules-get_elem? (x ∷ rules) (suc i) key r h e = AreClearRules-get_elem? rules i key r h.1 e

abbrev pub IsClearAnswer : Option (StoredRule × String) → Type 0
IsClearAnswer none = Unit
IsClearAnswer (some (r, key)) = IsClear r.rule.grammar 0

module _ (is_large is_schema_valid : StoredRule → Bool) (digest : StoredRule → String) where
  add-AreClearRules :
      (r : StoredRule) (registry : RuleRegistry)
      → AreClearRules registry.rules
      → AreClearRules (add is_large is_schema_valid digest r registry).1.rules
  unfolding add
  add-AreClearRules r registry h = elim (Bool-cases registry.read_only) [
    | inl q ↦ rw q h
    | inr q ↦ elim (Option-cases (validate_rule (is_large r) (is_schema_valid r) r.rule.grammar)) [
      | inr (e, v) ↦ rw (q, v) h
      | inl v ↦
          rw (q, v)
            (put-AreClearRules (digest r) r registry.rules
              (validate_rule-IsClear (is_large r) (is_schema_valid r) r.rule.grammar v) h)
    ]
  ]

  add_rules-AreClearRules :
      (rules : List StoredRule) (registry : RuleRegistry)
      → AreClearRules registry.rules
      → AreClearRules (add_rules is_large is_schema_valid digest rules registry).rules
  unfolding add_rules
  add_rules-AreClearRules [] registry h = h
  add_rules-AreClearRules (r ∷ rules) registry h =
      add_rules-AreClearRules rules (add is_large is_schema_valid digest r registry).1
        (add-AreClearRules r registry h)

  -- Whatever rules are added to a new registry, a lookup answers with no rule only if none of the stored
  -- rules passes the tests of the loop. Else it answers with one that passes them; every other that does
  -- has a lower priority (script before runtime before global), or the same and stands before it. The
  -- grammar of the answer is valid: a name of an option is looked up as that option, a name of a
  -- subcommand is not one of a later subcommand, canonical names are names of their options, whose bounds
  -- are in order, only the last positional is without a bound, and no grammar is below level 16.
  pub lookup_for_parse_added :
      (path_name : String → String) (source : String → ParseContext → Option String)
      (rules : List StoredRule) (executable : String) (context : ParseContext) (script : Bool)
      → IsChoice path_name source executable context script
          (add_rules is_large is_schema_valid digest rules empty_registry).rules
          (lookup_for_parse path_name source executable context script
            (add_rules is_large is_schema_valid digest rules empty_registry))
        × IsClearAnswer (
            lookup_for_parse path_name source executable context script
              (add_rules is_large is_schema_valid digest rules empty_registry))
  lookup_for_parse_added path_name source rules executable context script =
      let registry = add_rules is_large is_schema_valid digest rules empty_registry in
      let answer = lookup_for_parse path_name source executable context script registry in
      let choice : IsChoice path_name source executable context script registry.rules answer =
        lookup_for_parse-IsChoice path_name source executable context script registry in
      (
        choice,
        clear registry answer choice
            (add_rules-AreClearRules rules empty_registry (unfold AreClearRules in tt)),
      )
    where
      clear :
          (registry : RuleRegistry) (answer : Option (StoredRule × String))
          → IsChoice path_name source executable context script registry.rules answer
          → AreClearRules registry.rules
          → IsClearAnswer answer
      clear registry none choice h = tt
      clear registry (some (r, key)) (at, p, here, _, _) h =
          AreClearRules-get_elem? registry.rules at key r h here
