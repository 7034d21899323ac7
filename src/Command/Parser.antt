-- ===== src/Command/Parser.antt =====
-- `CommandParser.parse` and `invoke`, whose calls are the steps of one machine.
use claw_tune.Base.{
  ℕ, zero, suc, ◌+◌, ◌*◌, Bool, false, ◌&&◌, ◌||◌, Option, none, some, is_none, String, List, [],
  ◌∷◌, ◌++◌, length, if◌then◌else◌, ltb,
}
use claw_tune.Command.Words.{has_slash}
use claw_tune.Command.Grammar.{default_mode, Rule}
use claw_tune.Command.Result.{
  Parsed, Layer, complete, partial, word_limit, layer_limit, missing_rule, heuristic_arguments,
  unresolved_executable, entry_role, add_role, opaque_result, stop_opaque, State, enter, guess,
  read, Next, go, done,
}
use claw_tune.Command.Guess.{guess_step}
use claw_tune.Command.Reading.{Python, read_step}

abbrev pub limit : ℕ
limit = 16384

module _ {Key : Type 0} (py : Python) (lookup : String → Bool → Option (Rule × Key))
    (script_identity : String → String) (unresolved : ℕ → Bool) where
  open py use {is_number, path_name}

  -- The layer that `invoke` makes.
  abbrev pub new_layer : Option (Rule × Key) → String → Bool → Parsed Key → Layer
  new_layer rule entry script r = record {
    scope = record {
      index = length r.layers;
      name =
          if script
          then script_identity entry
          else elim rule [ none ↦ entry | some (x, _) ↦ x.canonical ];
    };
    entry = entry;
    mode = default_mode;
    options = [];
    args = [];
    opaque = [];
    payload = none;
    script = script;
  }

  -- With or without a rule.
  unfoldable pub open_layer :
      Option (Rule × Key) → Layer → String → List String → ℕ → Parsed Key → Next Key
  open_layer none layer entry rest offset r =
      let r' = opaque_result layer [] (missing_rule entry) false r in
      go (guess layer false rest (suc offset))
        (record r' { diagnostics = r'.diagnostics ++ heuristic_arguments entry ∷ [] })
  open_layer (some (rule, key)) layer entry rest offset r =
      go
        (read (record {
          layer = layer;
          grammar = rule.grammar;
          seen = [];
          pos = 0;
          consumed = 0;
          ended = false;
          offset = offset;
          at = suc offset;
          rest = rest;
        }))
        (record r { rules = r.rules ++ key ∷ [] })

  -- `invoke`, up to its loop.
  unfoldable pub invoke : String → List String → ℕ → Bool → Parsed Key → Next Key
  invoke entry rest offset script r =
      let rule = lookup entry script in
      let layer = new_layer rule entry script r in
      let r' = add_role layer entry_role offset (suc offset) r in
      if ltb 8 (suc (length r.layers))
      then done (stop_opaque layer rest layer_limit false r')
      else if unresolved offset
      then done (stop_opaque layer (entry ∷ rest) unresolved_executable false r')
      else open_layer rule layer entry rest offset r'

  unfoldable pub step : State → Parsed Key → Next Key
  step (enter entry rest offset script) r = invoke entry rest offset script r
  step (guess layer ended rest at) r = guess_step is_number unresolved layer ended rest at r
  step (read s) r = read_step py script_identity unresolved s r

  -- The steps up to the return, as far as the fuel goes.
  unfoldable pub run : ℕ → State → Parsed Key → Option (Parsed Key)
  run zero s r = none
  run (suc fuel) s r = elim (step s r) [ done r' ↦ some r' | go s' r' ↦ run fuel s' r' ]

  abbrev pub new_parsed : Option (Rule × Key) → String → List String → Parsed Key
  new_parsed root entry rest = record {
    tool = elim root [ none ↦ path_name entry | some (x, _) ↦ x.canonical ];
    argv = entry ∷ rest;
    layers = [];
    target = [];
    diagnostics = [];
    rules = [];
    roles = [];
    status = complete;
  }

  -- `ValueError("empty command")`, or the result.
  pub data Answer : Type 0 where
    empty_command : Answer
    parsed : Parsed Key → Answer
    out_of_fuel : Answer

  abbrev pub outcome : Option (Parsed Key) → Answer
  outcome none = out_of_fuel
  outcome (some r) = parsed r

  unfoldable pub parse : List String → Bool → Answer
  parse [] script = empty_command
  parse (entry ∷ rest) script =
      let root = lookup entry script in
      let r = new_parsed root entry rest in
      if ltb limit (suc (length rest))
      then parsed (record r { status = partial; diagnostics = word_limit ∷ [] })
      else outcome (
          run (2 * length rest + 3)
            (enter entry rest 0 (script || (is_none root && has_slash entry))) r)
