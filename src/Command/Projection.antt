-- ===== src/Command/Projection.antt =====
-- services/sidecar/src/command_parser/projection.py: `project`, which turns a parsed command into a
-- bounded set of features. A set is a list without repetitions; its order is lost when it is sorted.
-- The JSON text of a value and the hash of a text are parameters.
pub mod Sets
pub mod Values
pub mod Occurrences
pub mod Kinds
pub mod Bounded
use Prim.Native.Nat.{Ordering}
use Prim.Native.String.{compare}
use Prim.Native.Char.{code}
use claw_tune.Base.{
  take, drop, sort_by, ℕ, suc, ◌+◌, ◌-◌, max, ltb, ◌==◌, Bool, true, false, not, ◌&&◌, ◌||◌, Option,
  none, some, String, List, [], ◌∷◌, ◌++◌, length, if◌then◌else◌, string_discrete, ◌+++◌, inl, inr,
  ◌⊎◌,
}
use claw_tune.Dict.{Dict, get, put}
use claw_tune.Command.Words.{is_text, is_in, size}
use claw_tune.Command.Grammar.{Mode, Repeat}
use claw_tune.Command.Result.{Scope, Given, Payload, Layer, Parsed, Status}
use claw_tune.Command.Features.{CommandFeatures, FeatureError, validate_features}
use claw_tune.Command.Projection.Sets.{add_text, minus, text_le, to_set, dedupe_tuples, tuple_le}
use claw_tune.Command.Projection.Values.{
  Json, Items, Codec, Context, texts, tuples, mode_name, text, number, scope, payload, hashed,
  items, nil, cons,
}
use claw_tune.Command.Projection.Occurrences.{
  is_nil, values_of, last_of, occurrences_of, group_by_name, in_sequence, is_count, is_last,
  as_policy, before_colon, option_kinds, option_first,
}

-- The two sets that grow beside `core`.
pub record Atoms : Type 0 where
  pub preferred : List String
  pub optional : List String

abbrev pub add_preferred : String → Atoms → Atoms
add_preferred f a = record a { preferred = add_text f a.preferred }

abbrev pub add_optional : String → Atoms → Atoms
add_optional f a = record a { optional = add_text f a.optional }

module _ {Key : Type 0} (codec : Codec Key) where
  -- `atom`
  unfoldable pub atom : String → Items → String
  atom kind values = kind +++ (":" +++ codec.canonical_json (items values))

  -- `_value`
  unfoldable pub value : Json → Json
  value v =
      if ltb 4096 (size (codec.canonical_json v))
      then hashed (codec.digest (items (cons (text "argument") (cons v nil))))
      else v

  -- The atom of the option with the name and the occurrences, of which there is one.
  unfoldable pub option_atom : Scope → String → Given → List Given → String
  option_atom s name g gs =
      let policy = (last_of g gs).repeat in
      let last_values = (last_of g gs).values in
      if is_count policy
      then atom "count" (cons (scope s) (cons (text name) (cons (number (length (g ∷ gs))) nil)))
      else if is_last policy || length (g ∷ gs) == 1
      then (if is_nil last_values
          then atom "flag" (cons (scope s) (cons (text name) nil))
          else atom "opt"
              (cons (scope s) (cons (text name) (cons (value (items (texts last_values))) nil))))
      else atom "repeat" (
          cons (scope s) (
            cons (text name)
              (cons (value (items (tuples (as_policy policy (values_of (g ∷ gs)))))) nil)))

  -- The loop over the names.
  unfoldable pub add_options : Scope → Dict String (List Given) → Atoms → Atoms
  add_options s [] a = a
  add_options s ((name, []) ∷ by_name) a = add_options s by_name a
  add_options s ((name, g ∷ gs) ∷ by_name) a =
      add_options s by_name (add_optional (option_atom s name g gs) a)

  -- The loop over the operands.
  unfoldable pub add_args : Scope → ℕ → List String → Atoms → Atoms
  add_args s position [] a = a
  add_args s position (arg ∷ args) a = add_args s (suc position) args (
      add_optional
        (atom "arg" (cons (scope s) (cons (number position) (cons (value (text arg)) nil)))) a)

  abbrev pub add_mode : ℕ → Layer → Atoms → Atoms
  add_mode index layer a =
      if is_text (mode_name layer.mode) "default"
      then a
      else add_preferred
          (if index == 0
            then atom "mode" (cons (text (mode_name layer.mode)) nil)
            else atom "mode" (cons (scope layer.scope) (cons (text (mode_name layer.mode)) nil)))
          a

  unfoldable pub add_sequence : Scope → Items → Atoms → Atoms
  add_sequence s nil a = a
  add_sequence s (cons v vs) a =
      add_optional (atom "sequence" (cons (scope s) (cons (value (items (cons v vs))) nil))) a

  unfoldable pub add_opaque : Scope → List String → Atoms → Atoms
  add_opaque s [] a = a
  add_opaque s (w ∷ ws) a =
      add_optional (atom "opaque" (cons (scope s) (cons (value (items (texts (w ∷ ws)))) nil))) a

  unfoldable pub add_payload : Scope → Option Payload → Atoms → Atoms
  add_payload s none a = a
  add_payload s (some p) a =
      add_optional
        (atom "payload" (
          cons (scope s) (
            cons (text (codec.digest (items (cons (text "payload") (cons (payload p) nil))))) nil)))
        a

  -- The body of the loop over the layers.
  unfoldable pub add_layer : ℕ → Layer → Atoms → Atoms
  add_layer index layer a = add_payload layer.scope layer.payload (
      add_opaque layer.scope layer.opaque (
        add_args layer.scope 0 layer.args (
          add_options layer.scope (group_by_name layer.options [])
            (add_sequence layer.scope (in_sequence layer.options) (add_mode index layer a)))))

  unfoldable pub add_layers : ℕ → List Layer → Atoms → Atoms
  add_layers index [] a = a
  add_layers index (layer ∷ layers) a = add_layers (suc index) layers (add_layer index layer a)

  -- An entry of the context, if it is there and not empty.
  unfoldable pub add_entry : String → Option String → Atoms → Atoms
  add_entry key none a = a
  add_entry key (some v) a =
      if is_text v ""
      then a
      else add_preferred (atom "context" (cons (text key) (cons (text v) nil))) a

  -- `core`
  unfoldable pub core_of : Parsed Key → List String
  core_of parsed =
      let tool = ("tool=" +++ parsed.tool) ∷ [] in
      if is_nil parsed.target then tool else add_text (atom "target" (texts parsed.target)) tool

  unfoldable pub atoms_of : Parsed Key → Context → Atoms
  atoms_of parsed context = add_entry "env_id" context.env_id (
      add_entry "cwd" context.cwd (
        add_entry "repo" context.repo
          (add_layers 0 parsed.layers (record { preferred = []; optional = [] }))))

  -- `ordered`, with the order of the optional atoms.
  unfoldable pub ordered_by : (String → String → Bool) → List String → Atoms → List String
  ordered_by le core a =
      sort_by text_le core
      ++ (sort_by text_le (minus a.preferred core)
          ++ sort_by le (minus (minus a.optional core) a.preferred))

  -- The first of the features, and one atom for the others.
  unfoldable pub shortened : ℕ → List String → List String
  shortened kept ordered =
      take kept ordered
      ++ atom "overflow" (cons (value (items (texts (sort_by text_le (drop kept ordered))))) nil)
        ∷ []

  -- What the constructor of `CommandFeatures` gets.
  abbrev pub features_with : Parsed Key → List String → List String → ℕ → CommandFeatures
  features_with parsed features core omitted = record {
    tool = parsed.tool;
    features = to_set features;
    core = core;
    parse_digest = codec.parsed_digest parsed;
    status = parsed.status;
    omitted_features = omitted;
    format = "command-features.v1";
  }

  unfoldable pub projected : Parsed Key → Context → ℕ → CommandFeatures
  projected parsed context max_features =
      let core = core_of parsed in
      let a = atoms_of parsed context in
      let limit = max (length core) max_features in
      let kept = max (length core + 1) limit - 1 in
      let options_first = ordered_by option_first core a in
      if ltb limit (length (ordered_by text_le core a))
      then features_with parsed (shortened kept options_first) core
          (length (drop kept options_first))
      else features_with parsed (ordered_by text_le core a) core 0

  -- `project`, with the ValueError of the constructor.
  unfoldable pub project : Parsed Key → Context → ℕ → FeatureError ⊎ CommandFeatures
  project parsed context max_features =
      let c = projected parsed context max_features in
      elim (validate_features c) [ none ↦ inr c | some e ↦ inl e ]
