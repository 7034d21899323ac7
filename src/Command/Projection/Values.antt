-- ===== src/Command/Projection/Values.antt =====
-- services/sidecar/src/command_parser/projection.py: the values whose JSON text is a part of a feature.
use claw_tune.Base.{ℕ, Option, String, List, [], ◌∷◌}
use claw_tune.Command.Grammar.{Mode}
use claw_tune.Command.Result.{Scope, Payload, Parsed}

-- The values that are written as JSON. A scope is the text `L<index>/<name>`, and `hashed` is the
-- object with the one entry `sha256`.
mutual
  pub data Json : Type 0 where
    text : String → Json
    number : ℕ → Json
    scope : Scope → Json
    payload : Payload → Json
    hashed : String → Json
    items : Items → Json

  pub data Items : Type 0 where
    nil : Items
    cons : Json → Items → Items

-- `canonical_json`, `digest`, and `digest(parsed.to_dict())`.
pub record Codec (Key : Type 0) : Type 0 where
  pub canonical_json : Json → String
  pub digest : Json → String
  pub parsed_digest : Parsed Key → String

-- What is read of a `ParseContext`.
pub record Context : Type 0 where
  pub repo : Option String
  pub cwd : Option String
  pub env_id : Option String

unfoldable pub texts : List String → Items
texts [] = nil
texts (s ∷ ss) = cons (text s) (texts ss)

unfoldable pub tuples : List (List String) → Items
tuples [] = nil
tuples (v ∷ vs) = cons (items (texts v)) (tuples vs)

unfoldable pub mode_name : Mode → String
mode_name Mode.default_mode = "default"
mode_name Mode.inline_mode = "inline"
mode_name Mode.stdin_mode = "stdin"
mode_name Mode.module_mode = "module"
mode_name Mode.script_mode = "script"
mode_name Mode.command_mode = "command"
