-- ===== src/Command/Features.antt =====
-- services/sidecar/src/command_parser/models.py: `CommandFeatures` and the tests of its
-- `__post_init__`. A frozenset is a list of its elements.
use claw_tune.Base.{
  ℕ, Bool, true, false, not, ◌&&◌, ◌||◌, Option, none, some, String, List, [], ◌∷◌, if◌then◌else◌,
}
use claw_tune.Command.Words.{is_text, is_in}
use claw_tune.Command.Registry.{behind}
use claw_tune.Command.Result.{Status}

pub record CommandFeatures : Type 0 where
  pub tool : String
  pub features : List String
  pub core : List String
  pub parse_digest : String
  pub status : Status
  pub omitted_features : ℕ
  pub format : String

pub data FeatureError : Type 0 where
  bad_format_or_core not_one_tool tool_not_core : FeatureError

-- `a <= b`
unfoldable pub is_subset : List String → List String → Bool
is_subset [] b = true
is_subset (w ∷ a) b = is_in w b && is_subset a b

-- Whether a feature is "tool=" and the tool.
abbrev pub is_tool : String → String → Bool
is_tool tool feature = elim (behind "tool=" feature) [
  | none ↦ false
  | some name ↦ is_text name tool
]

-- `f.startswith("tool=")`
abbrev pub names_tool : String → Bool
names_tool feature = elim (behind "tool=" feature) [ none ↦ false | some name ↦ true ]

unfoldable pub has_tool : String → List String → Bool
has_tool tool [] = false
has_tool tool (f ∷ fs) = is_tool tool f || has_tool tool fs

-- No feature names another tool.
unfoldable pub has_no_other : String → List String → Bool
has_no_other tool [] = true
has_no_other tool (f ∷ fs) = (not (names_tool f) || is_tool tool f) && has_no_other tool fs

unfoldable pub validate_features : CommandFeatures → Option FeatureError
validate_features c =
    if not (is_text c.format "command-features.v1") || not (is_subset c.core c.features)
    then some bad_format_or_core
    else if not (has_tool c.tool c.features && has_no_other c.tool c.features)
    then some not_one_tool
    else if not (has_tool c.tool c.core)
    then some tool_not_core
    else none
