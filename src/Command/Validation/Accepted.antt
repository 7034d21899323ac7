-- ===== src/Command/Validation/Accepted.antt =====
-- The grammars that `validate_rule` accepts.
use claw_tune.Base.{
  ℕ, suc, ◌≤◌, ◌≡◌, refl, ◌∙◌, Bool-cases, Option-cases, inl, inr, Bool, true, false, Option, none,
  some, String, List, [], ◌∷◌, ◌++◌, All, ltb, arith,
}
use claw_tune.Command.Words.{is_in, meets}
use claw_tune.Command.Grammar.{
  Action, Opt, Slot, Grammar, grammar_of, Subcommands, no_more, subcommand, find_subcommand,
}
use claw_tune.Command.Validation.{
  RuleError, check_options, check_slots, or_else, visit, visit_subcommands, validate_rule,
}
use claw_tune.Command.Validation.Laws.{
  IsClearIn, check_options-IsClearIn, meets-apart, is_in-append,
}

-- Only the last slot takes any number of words.
abbrev pub IsBoundedBefore : List Slot → Type 0
IsBoundedBefore [] = Unit
IsBoundedBefore (slot ∷ []) = Unit
IsBoundedBefore (slot ∷ next ∷ slots) =
    ((most : ℕ) × (slot.most ≡ some most)) × IsBoundedBefore (next ∷ slots)

abbrev pub IsAlone : List String → Subcommands → Type 0
IsAlone names rest = (w : String) → is_in w names ≡ true → find_subcommand w rest ≡ none

-- A grammar whose options and subcommands can be told apart, to the depth that is given.
mutual
  pub AreClear : Subcommands → ℕ → Type 0
  AreClear no_more depth = Unit
  AreClear (subcommand names canonical grammar rest) depth =
      IsAlone names rest × IsClear grammar (suc depth) × AreClear rest depth

  pub IsClear : Grammar → ℕ → Type 0
  IsClear
        (grammar_of options literals positionals clusters assignments intermixed partial
          subcommands)
        depth =
      (depth ≤ 16)
      × All (IsClearIn options) options
      × IsBoundedBefore positionals
      × AreClear subcommands depth

or_else-none : (a b : Option RuleError) → or_else a b ≡ none → (a ≡ none) × (b ≡ none)
or_else-none none b e = (refl, e)
or_else-none (some x) b e = absurd cc

check_slots-cons :
    (slot next : Slot) (slots : List Slot)
    → check_slots (slot ∷ next ∷ slots) ≡ none
    → ((most : ℕ) × (slot.most ≡ some most)) × (check_slots (next ∷ slots) ≡ none)
unfolding check_slots
check_slots-cons slot next slots e = elim (Option-cases slot.most) [
  | inl q ↦ absurd (ground (arith, e, q))
  | inr (most, q) ↦ ((most, q), ground (arith, e, q))
]

check_slots-IsBoundedBefore : (slots : List Slot) → check_slots slots ≡ none → IsBoundedBefore slots
check_slots-IsBoundedBefore [] e = tt
check_slots-IsBoundedBefore (slot ∷ []) e = tt
check_slots-IsBoundedBefore (slot ∷ next ∷ slots) e =
    let (most, more) = check_slots-cons slot next slots e in
    (most, check_slots-IsBoundedBefore (next ∷ slots) more)

visit_subcommands-cons :
    (names : List String) (canonical : String) (grammar : Grammar) (rest : Subcommands) (depth : ℕ)
    (subnames : List String)
    → visit_subcommands (subcommand names canonical grammar rest) depth subnames ≡ none
    → (meets subnames names ≡ false)
      × (visit grammar (suc depth) ≡ none)
      × (visit_subcommands rest depth (subnames ++ names) ≡ none)
unfolding visit visit_subcommands
visit_subcommands-cons names canonical grammar rest depth subnames e =
    elim (Bool-cases (meets subnames names)) [
      | inl q ↦ absurd (ground (arith, e, q))
      | inr q ↦
          let (inner, later) =
            or_else-none (visit grammar (suc depth))
              (visit_subcommands rest depth (subnames ++ names)) (ground (arith, e, q)) in
          (q, inner, later)
    ]

visit-grammar :
    (options : List Opt) (literals : List (String × Action)) (positionals : List Slot)
    (clusters assignments intermixed partial : Bool) (subs : Subcommands) (depth : ℕ)
    → visit
        (grammar_of options literals positionals clusters assignments intermixed partial subs)
        depth
      ≡ none
    → (depth ≤ 16)
      × (check_options options [] 0 ≡ none)
      × (check_slots positionals ≡ none)
      × (visit_subcommands subs depth [] ≡ none)
unfolding visit visit_subcommands
visit-grammar options literals positionals clusters assignments intermixed partial subs depth e =
    elim (Bool-cases (ltb 16 depth)) [
      | inl q ↦ absurd (ground (arith, e, q))
      | inr q ↦
          let below = or_else (check_slots positionals) (visit_subcommands subs depth []) in
          let (a, b) = or_else-none (check_options options [] 0) below (ground (arith, e, q)) in
          let (c, d) = or_else-none (check_slots positionals) (visit_subcommands subs depth []) b in
          (ground (arith, q), a, c, d)
    ]

-- A name that stands before belongs to no subcommand.
visit_subcommands-absent :
    (w : String) (subs : Subcommands) (depth : ℕ) (subnames : List String)
    → visit_subcommands subs depth subnames ≡ none
    → is_in w subnames ≡ true
    → find_subcommand w subs ≡ none
unfolding find_subcommand
visit_subcommands-absent w no_more depth subnames e h = refl
visit_subcommands-absent w (subcommand names canonical grammar rest) depth subnames e h =
    let (m, _, more) = visit_subcommands-cons names canonical grammar rest depth subnames e in
    rw (meets-apart w subnames names m h) (
      visit_subcommands-absent w rest depth (subnames ++ names) more
        (is_in-append w subnames names ∙ ground (arith, h)))

mutual
  unfolding IsClear AreClear

  visit-IsClear : (g : Grammar) (depth : ℕ) → visit g depth ≡ none → IsClear g depth
  visit-IsClear
        (grammar_of options literals positionals clusters assignments intermixed partial subs) depth
        e =
      let (d, o, p, s) =
        visit-grammar options literals positionals clusters assignments intermixed partial subs
          depth e in
      (
        d,
        check_options-IsClearIn options [] 0 o,
        check_slots-IsBoundedBefore positionals p,
        visit_subcommands-AreClear subs depth [] s,
      )

  visit_subcommands-AreClear :
      (subs : Subcommands) (depth : ℕ) (subnames : List String)
      → visit_subcommands subs depth subnames ≡ none
      → AreClear subs depth
  visit_subcommands-AreClear no_more depth subnames e = tt
  visit_subcommands-AreClear (subcommand names canonical grammar rest) depth subnames e =
      let (_, inner, later) =
        visit_subcommands-cons names canonical grammar rest depth subnames e in
      (
        (λ w h.
            visit_subcommands-absent w rest depth (subnames ++ names) later
              (is_in-append w subnames names ∙ ground (arith, h))),
        visit-IsClear grammar (suc depth) inner,
        visit_subcommands-AreClear rest depth (subnames ++ names) later,
      )

-- In a grammar that is accepted, and in those of its subcommands, a name of an option is looked up as
-- that option, a name of a subcommand is not one of a later subcommand, an option's canonical name is one
-- of its names and its bounds are in order, only the last positional is without a bound, and no grammar
-- is below level 16.
pub validate_rule-IsClear :
    (is_large is_schema_valid : Bool) (grammar : Grammar)
    → validate_rule is_large is_schema_valid grammar ≡ none
    → IsClear grammar 0
unfolding validate_rule
validate_rule-IsClear true is_schema_valid grammar e = absurd cc
validate_rule-IsClear false false grammar e = absurd cc
validate_rule-IsClear false true grammar e = visit-IsClear grammar 0 e
