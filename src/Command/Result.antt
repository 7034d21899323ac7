-- ===== src/Command/Result.antt =====
-- `ParsedCommand` and its layers. A layer is kept apart while it is read and joins the others when
-- it is done, which is before the next one begins.
use claw_tune.Base.{
  ℕ, ◌-◌, Bool, true, false, Option, String, List, [], ◌∷◌, ◌++◌, length, if◌then◌else◌,
}
use claw_tune.Command.Grammar.{Mode, Repeat, Grammar}

pub data Status : Type 0 where
  complete partial invalid : Status

-- The diagnostics, each with the word that its text ends in.
pub data Diagnostic : Type 0 where
  word_limit layer_limit : Diagnostic
  missing_rule heuristic_arguments unknown_option : String → Diagnostic
  unresolved_expansion unresolved_option_value unresolved_executable : Diagnostic
  unexpected_option_value missing_option_value missing_entry : Diagnostic
  unmodelled_operand missing_operand partial_grammar : Diagnostic

pub data RoleKind : Type 0 where
  entry_role opaque_role operand_role option_role entry_option_role subcommand_role payload_role :
      RoleKind

-- The scope `L<index>/<name>`.
pub record Scope : Type 0 where
  pub index : ℕ
  pub name : String

pub record Role : Type 0 where
  pub scope : Scope
  pub kind : RoleKind
  pub start : ℕ
  pub stop : ℕ

-- An entry of a layer's `options`.
pub record Given : Type 0 where
  pub name : String
  pub values : List String
  pub repeat : Repeat
  pub independent : Bool

-- A payload: a word, or words joined by NUL.
pub data Payload : Type 0 where
  inline : String → Payload
  joined : List String → Payload

pub record Layer : Type 0 where
  pub scope : Scope
  pub entry : String
  pub mode : Mode
  pub options : List Given
  pub args : List String
  pub opaque : List String
  pub payload : Option Payload
  pub script : Bool

-- The layers that are done are `layers`.
pub record Parsed (Key : Type 0) : Type 0 where
  pub tool : String
  pub argv : List String
  pub layers : List Layer
  pub target : List String
  pub diagnostics : List Diagnostic
  pub rules : List Key
  pub roles : List Role
  pub status : Status

-- `"invalid" if invalid or result.status == "invalid" else "partial"`
abbrev pub worse : Bool → Status → Status
worse true s = invalid
worse false invalid = invalid
worse false complete = partial
worse false partial = partial

abbrev pub is_nil : {A : Type 0} → List A → Bool
is_nil [] = true
is_nil (_ ∷ _) = false

-- The layer with more that is not understood.
abbrev pub with_opaque : List String → Layer → Layer
with_opaque values layer = record layer { opaque = layer.opaque ++ values }

module _ {Key : Type 0} where
  -- `add_role`
  unfoldable pub add_role : Layer → RoleKind → ℕ → ℕ → Parsed Key → Parsed Key
  add_role layer kind start stop r = record r {
    roles = r.roles ++ record { scope = layer.scope; kind = kind; start = start; stop = stop } ∷ [];
  }

  abbrev pub diagnose : Diagnostic → Bool → Parsed Key → Parsed Key
  diagnose reason is_invalid r = record r {
    diagnostics = r.diagnostics ++ reason ∷ [];
    status = worse is_invalid r.status;
  }

  -- `opaque`, what it does to the result: the role of the last words of `argv`, and the reason.
  unfoldable pub opaque_result : Layer → List String → Diagnostic → Bool → Parsed Key → Parsed Key
  opaque_result layer values reason is_invalid r = diagnose reason is_invalid (
      if is_nil values
      then r
      else add_role layer opaque_role (length r.argv - length values) (length r.argv) r)

  -- A layer that is done.
  abbrev pub finish : Layer → Parsed Key → Parsed Key
  finish layer r = record r { layers = r.layers ++ layer ∷ [] }

  -- `opaque` and then `return`.
  abbrev pub stop_opaque : Layer → List String → Diagnostic → Bool → Parsed Key → Parsed Key
  stop_opaque layer values reason is_invalid r =
      finish (with_opaque values layer) (opaque_result layer values reason is_invalid r)

-- Where the parser is: before a layer with its first word, in a layer without a rule, or in one with
-- a rule. A position counts the words of `argv`.
pub record Reading : Type 0 where
  pub layer : Layer
  pub grammar : Grammar
  pub seen : List String
  pub pos : ℕ
  pub consumed : ℕ
  pub ended : Bool
  pub offset : ℕ
  pub at : ℕ
  pub rest : List String

pub data State : Type 0 where
  enter : (entry : String) → (rest : List String) → (offset : ℕ) → (script : Bool) → State
  guess : Layer → (ended : Bool) → (rest : List String) → (at : ℕ) → State
  read : Reading → State

pub data Next (Key : Type 0) : Type 0 where
  go : State → Parsed Key → Next Key
  done : Parsed Key → Next Key
