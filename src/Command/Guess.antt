-- ===== src/Command/Guess.antt =====
-- `heuristic`: options and operands of a command that no rule describes.
use claw_tune.Base.{
  ℕ, suc, Bool, true, false, not, ◌&&◌, ◌||◌, none, some, String, List, [], ◌∷◌, ◌++◌, map,
  if◌then◌else◌,
}
use claw_tune.Command.Words.{is_text, starts_dash, tail, split_equals, is_short_cluster, dashed_all}
use claw_tune.Command.Grammar.{ordered_all}
use claw_tune.Command.Result.{
  Parsed, Layer, Given, unresolved_expansion, unresolved_option_value, operand_role, option_role,
  add_role, finish, stop_opaque, guess, Next, go, done,
}

-- What a guess gives to each name.
abbrev pub guessed : List String → String → Given
guessed values name = record {
  name = name;
  values = values;
  repeat = ordered_all;
  independent = true;
}

-- A layer with an operand more.
abbrev pub with_arg : String → Layer → Layer
with_arg word layer = record layer { args = layer.args ++ word ∷ [] }

-- A word that can be the value of an option.
abbrev pub is_value : (is_number : String → Bool) → String → Bool
is_value is_number value =
    not (is_text value "--") && (not (starts_dash value) || (is_text value "-" || is_number value))

module _ (is_number : String → Bool) (unresolved : ℕ → Bool) where
  module _ {Key : Type 0} (layer : Layer) (ended : Bool) where
    -- `names` with `values`, from `at` to `stop`.
    unfoldable pub guess_given :
        (names values : List String) → (rest : List String) → (at stop : ℕ) → Parsed Key → Next Key
    guess_given names values rest at stop r =
        go
          (guess (record layer { options = layer.options ++ map (guessed values) names }) ended rest
            stop)
          (add_role layer option_role at stop r)

    -- A dashed word without a value of its own: the next word may be its value.
    unfoldable pub guess_next : String → List String → ℕ → Parsed Key → Next Key
    guess_next token [] at r = guess_given (token ∷ []) [] [] at (suc at) r
    guess_next token (value ∷ rest) at r =
        if unresolved (suc at)
        then done (stop_opaque layer (token ∷ value ∷ rest) unresolved_option_value false r)
        else if is_value is_number value
        then guess_given (token ∷ []) (value ∷ []) rest at (suc (suc at)) r
        else guess_given (token ∷ []) [] (value ∷ rest) at (suc at) r

    unfoldable pub guess_option : String → List String → ℕ → Parsed Key → Next Key
    guess_option token rest at r = elim (split_equals token) [
      | some (name, value) ↦ guess_given (name ∷ []) (value ∷ []) rest at (suc at) r
      | none ↦
          if is_short_cluster token
          then guess_given (dashed_all (tail token)) [] rest at (suc at) r
          else guess_next token rest at r
    ]

    -- One round of the loop.
    unfoldable pub guess_step : List String → ℕ → Parsed Key → Next Key
    guess_step [] at r = done (finish layer r)
    guess_step (token ∷ rest) at r =
        if unresolved at
        then done (stop_opaque layer (token ∷ rest) unresolved_expansion false r)
        else if not ended && is_text token "--"
        then go (guess layer true rest (suc at)) r
        else if ended || (is_text token "-" || (not (starts_dash token) || is_number token))
        then go (guess (with_arg token layer) ended rest (suc at))
            (add_role layer operand_role at (suc at) r)
        else guess_option token rest at r
