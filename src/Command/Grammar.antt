-- ===== src/Command/Grammar.antt =====
-- The rules of the parser (contracts/command-rule.schema.json), with the defaults that the parser
-- takes for a missing entry.
use claw_tune.Base.{ℕ, Bool, Option, none, some, String, List, [], ◌∷◌, ◌++◌, if◌then◌else◌}
use claw_tune.Command.Words.{is_in}

pub data ActionKind : Type 0 where
  opaque_action module_action script_action command_action : ActionKind

pub data Mode : Type 0 where
  default_mode inline_mode stdin_mode module_mode script_mode command_mode : Mode

pub record Action : Type 0 where
  pub action : ActionKind
  pub mode : Mode

pub data OptionalValue : Type 0 where
  attached_only next_word numeric_word : OptionalValue

pub data DashValues : Type 0 where
  any_dash numeric_dash attached_dash : DashValues

pub data Repeat : Type 0 where
  last_one count_all ordered_all as_set : Repeat

-- An entry of `options`; `separate`, `attached` and `equals` say what its `forms` hold.
pub record Opt : Type 0 where
  pub names : List String
  pub canonical : String
  pub least : ℕ
  pub most : Option ℕ
  pub separate : Bool
  pub attached : Bool
  pub equals : Bool
  pub optional_value : OptionalValue
  pub dash_values : DashValues
  pub repeat : Repeat
  pub independent : Bool
  pub persistent : Bool
  pub leading_numeric_short : Bool
  pub transition : Option Action

pub data SlotRole : Type 0 where
  operand_slot script_entry module_entry command_tail opaque_payload : SlotRole

-- An entry of `positionals`.
pub record Slot : Type 0 where
  pub least : ℕ
  pub most : Option ℕ
  pub role : SlotRole
  pub skip_if_options : List String
  pub optional_if_options : List String

-- A grammar, and the subcommands that hold grammars again.
mutual
  pub data Grammar : Type 0 where
    grammar_of :
        (options : List Opt)
        → (literals : List (String × Action)) → (positionals : List Slot)
        → (clusters assignments intermixed partial : Bool) → Subcommands
        → Grammar

  pub data Subcommands : Type 0 where
    no_more : Subcommands
    subcommand : (names : List String) → (canonical : String) → Grammar → Subcommands → Subcommands

abbrev pub options_of : Grammar → List Opt
options_of (grammar_of o l p c a i q s) = o

abbrev pub literals_of : Grammar → List (String × Action)
literals_of (grammar_of o l p c a i q s) = l

abbrev pub positionals_of : Grammar → List Slot
positionals_of (grammar_of o l p c a i q s) = p

abbrev pub has_clusters : Grammar → Bool
has_clusters (grammar_of o l p c a i q s) = c

abbrev pub has_assignments : Grammar → Bool
has_assignments (grammar_of o l p c a i q s) = a

abbrev pub is_intermixed : Grammar → Bool
is_intermixed (grammar_of o l p c a i q s) = i

abbrev pub is_partial : Grammar → Bool
is_partial (grammar_of o l p c a i q s) = q

abbrev pub subcommands_of : Grammar → Subcommands
subcommands_of (grammar_of o l p c a i q s) = s

abbrev pub with_options : List Opt → Grammar → Grammar
with_options more (grammar_of o l p c a i q s) = grammar_of (more ++ o) l p c a i q s

-- `next((s for s in subcommands if token in s["names"]), None)`
unfoldable pub find_subcommand : String → Subcommands → Option (String × Grammar)
find_subcommand token no_more = none
find_subcommand token (subcommand names canonical g rest) =
    if is_in token names then some (canonical, g) else find_subcommand token rest

-- `[o for o in options if o.get("persistent")]`
unfoldable pub persistent_options : List Opt → List Opt
persistent_options [] = []
persistent_options (o ∷ os) =
    let rest = persistent_options os in if o.persistent then o ∷ rest else rest

-- `options[alias]` of the dict of all aliases: a later option replaces an earlier one.
abbrev pub option_or : Opt → Option Opt → Option Opt
option_or o none = some o
option_or o (some later) = some later

unfoldable pub find_option : String → List Opt → Option Opt
find_option alias [] = none
find_option alias (o ∷ os) =
    let later = find_option alias os in if is_in alias o.names then option_or o later else later

-- `next(o for o in options if o.get("leading_numeric_short"))`
unfoldable pub leading_numeric : List Opt → Option Opt
leading_numeric [] = none
leading_numeric (o ∷ os) = if o.leading_numeric_short then some o else leading_numeric os

-- A rule of the registry, as the parser reads it.
pub record Rule : Type 0 where
  pub canonical : String
  pub grammar : Grammar
