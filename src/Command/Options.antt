-- ===== src/Command/Options.antt =====
-- One word that names options: which ones, and the values that they take.
use claw_tune.Base.{
  ℕ, suc, Bool, true, false, not, ◌&&◌, ◌||◌, Option, none, some, is_some, String, List, [], ◌∷◌,
  ◌++◌, length, if◌then◌else◌, ltb, leb, ◌==◌,
}
use claw_tune.Command.Words.{
  is_text, starts_dash, starts_two_dashes, size, tail, split_equals, is_dash_digits, dashed,
}
use claw_tune.Command.Grammar.{
  Action, OptionalValue, attached_only, next_word, numeric_word, DashValues, any_dash, numeric_dash,
  attached_dash, Opt, Grammar, options_of, has_clusters, find_option, leading_numeric,
}
use claw_tune.Command.Result.{
  Parsed, Layer, Diagnostic, unresolved_option_value, unexpected_option_value, missing_option_value,
  missing_entry, option_role, entry_option_role, add_role,
}

-- An option with the value that is attached to its spelling.
abbrev pub Match : Type 0
Match = Opt × Option String

-- `option["max"] == 0`
abbrev pub is_flag : Opt → Bool
is_flag o = elim o.most [ none ↦ false | some k ↦ k == 0 ]

-- `text or None`
abbrev pub or_none : String → Option String
or_none s = if is_text s "" then none else some s

abbrev pub cons_match : Match → Option (List Match) → Option (List Match)
cons_match m none = none
cons_match m (some ms) = some (m ∷ ms)

-- The letters behind one dash: flags, and at last an option that may take the rest as its value.
abbrev pub cluster_letter : Bool → String → Opt → Option (List Match) → Option (List Match)
cluster_letter clusters after o rest =
    if not (is_flag o)
    then (if not (is_text after "") && not o.attached then none else some ((o, or_none after) ∷ []))
    else if not clusters
    then none
    else cons_match (o, none) rest

unfoldable pub cluster : List Opt → Bool → String → Option (List Match)
cluster options clusters String.[] = some []
cluster options clusters (String.◌∷◌ c after) =
    let rest = cluster options clusters after in
    elim (find_option (dashed c) options) [
      | none ↦ none
      | some o ↦ cluster_letter clusters after o rest
    ]

abbrev pub or_empty : Option (List Match) → List Match
or_empty none = []
or_empty (some ms) = ms

-- `--name=value` for an option that has this form.
unfoldable pub match_equals : List Opt → String → Option Match
match_equals options token = if not (starts_dash token) then none else elim (split_equals token) [
  | none ↦ none
  | some (spelling, value) ↦ elim (find_option spelling options) [
    | none ↦ none
    | some o ↦ if o.equals then some (o, some value) else none
  ]
]

unfoldable pub match_cluster : List Opt → Bool → String → List Match
match_cluster options clusters token =
    if starts_dash token && (not (starts_two_dashes token) && ltb 2 (size token))
    then or_empty (cluster options clusters (tail token))
    else []

-- `-5` for an option that takes a number in this way.
unfoldable pub match_numeric : Bool → List Opt → String → Option Match
match_numeric is_first options token =
    if is_first && is_dash_digits token
    then elim (leading_numeric options) [ none ↦ none | some o ↦ some (o, some (tail token)) ]
    else none

-- The `matched` of a word that is not behind `--`.
unfoldable pub matches_of : Grammar → (is_first : Bool) → String → List Match
matches_of g is_first token = elim (find_option token (options_of g)) [
  | some o ↦ (o, none) ∷ []
  | none ↦ elim (match_numeric is_first (options_of g) token) [
    | some m ↦ m ∷ []
    | none ↦ elim (match_equals (options_of g) token) [
      | some m ↦ m ∷ []
      | none ↦ match_cluster (options_of g) (has_clusters g) token
    ]
  ]
]

abbrev pub below : ℕ → Option ℕ → Bool
below n none = true
below n (some limit) = ltb n limit

abbrev pub is_attached_only : OptionalValue → Bool
is_attached_only attached_only = true
is_attached_only next_word = false
is_attached_only numeric_word = false

abbrev pub is_numeric_word : OptionalValue → Bool
is_numeric_word attached_only = false
is_numeric_word next_word = false
is_numeric_word numeric_word = true

abbrev pub is_any_dash : DashValues → Bool
is_any_dash any_dash = true
is_any_dash numeric_dash = false
is_any_dash attached_dash = false

abbrev pub is_numeric_dash : DashValues → Bool
is_numeric_dash any_dash = false
is_numeric_dash numeric_dash = true
is_numeric_dash attached_dash = false

-- The values of an option with the words and the position behind them, or the return at a word
-- whose expansion is not known.
pub data Take : Type 0 where
  taken : (values : List String) → (rest : List String) → (at : ℕ) → Take
  stopped : Take

pub data Applied (Key : Type 0) : Type 0 where
  applied :
      Layer → (seen : List String) → (rest : List String) → (at : ℕ) → Parsed Key → Applied Key
  halted : Layer → Diagnostic → (is_invalid : Bool) → Parsed Key → Applied Key
  moved :
      Action → (value : String) → (rest : List String) → (at : ℕ) → Layer → Parsed Key → Applied Key

-- `[] if attached is None else [attached]`
abbrev pub first_values : Option String → List String
first_values none = []
first_values (some value) = value ∷ []

-- The transition of an option to its first value.
unfoldable pub move_entry :
    {Key : Type 0} → Action → List String → List String → ℕ → Layer → Parsed Key → Applied Key
move_entry action [] rest at layer r = halted layer missing_entry true r
move_entry action (value ∷ _) rest at layer r = moved action value rest at layer r

module _ (is_number : String → Bool) (unresolved : ℕ → Bool) where
  -- The tests of the `while` before and behind the test of the expansion.
  abbrev pub breaks_before : Opt → ℕ → String → Bool
  breaks_before o n value =
      not (below n o.most)
      || (not o.separate
          || ((leb o.least n && is_attached_only o.optional_value)
              || (is_numeric_word o.optional_value && (leb o.least n && not (is_number value)))))

  abbrev pub breaks_behind : List Opt → Opt → ℕ → String → Bool
  breaks_behind options o n value =
      ((starts_dash value && not (is_text value "-"))
        && (not (is_any_dash o.dash_values)
            && not (is_numeric_dash o.dash_values && is_number value)))
      || (is_some (find_option value options) && leb o.least n)

  unfoldable pub take_values : List Opt → Opt → List String → List String → ℕ → Take
  take_values options o values [] at = taken values [] at
  take_values options o values (value ∷ rest) at =
      let more = take_values options o (values ++ value ∷ []) rest (suc at) in
      if breaks_before o (length values) value
      then taken values (value ∷ rest) at
      else if unresolved at
      then stopped
      else if breaks_behind options o (length values) value
      then taken values (value ∷ rest) at
      else more

  module _ {Key : Type 0} (start : ℕ) (options : List Opt) where
    -- One option with its values: `at` is the position behind them.
    unfoldable pub settle_option :
        Opt → Layer → List String → (values rest : List String) → ℕ → Parsed Key → Applied Key
    settle_option o layer seen values rest at r =
        if ltb (length values) o.least
        then halted layer missing_option_value true r
        else elim o.transition [
          | none ↦
              applied
                (record layer {
                  options =
                      layer.options
                      ++ record {
                        name = o.canonical;
                        values = values;
                        repeat = o.repeat;
                        independent = o.independent;
                      }
                        ∷ [];
                })
                (seen ++ o.names) rest at (add_role layer option_role start at r)
          | some action ↦
              move_entry action values rest at layer (add_role layer entry_option_role start at r)
        ]

    unfoldable pub apply_option :
        Match → Layer → List String → List String → ℕ → Parsed Key → Applied Key
    apply_option (o, attached) layer seen rest at r =
        if is_some attached && is_flag o
        then halted layer unexpected_option_value true r
        else elim (take_values options o (first_values attached) rest at) [
          | stopped ↦ halted layer unresolved_option_value false r
          | taken values rest' at' ↦ settle_option o layer seen values rest' at' r
        ]

    -- The loop over `matched`.
    unfoldable pub apply_options :
        List Match → Layer → List String → List String → ℕ → Parsed Key → Applied Key
    apply_options [] layer seen rest at r = applied layer seen rest at r
    apply_options (m ∷ ms) layer seen rest at r = elim (apply_option m layer seen rest at r) [
      | applied layer' seen' rest' at' r' ↦ apply_options ms layer' seen' rest' at' r'
      | halted layer' reason is_invalid r' ↦ halted layer' reason is_invalid r'
      | moved action value rest' at' layer' r' ↦ moved action value rest' at' layer' r'
    ]
