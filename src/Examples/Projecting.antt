-- ===== src/Examples/Projecting.antt =====
-- A parsed command and its features.
use claw_tune.Base.{◌+◌, ◌≤◌, max, ◌≡◌, true, none, some, String, [], ◌∷◌, length, inr}
use claw_tune.Command.Grammar.{Mode, Repeat}
use claw_tune.Command.Result.{Scope, Layer, Parsed, Status}
use claw_tune.Command.Features.{CommandFeatures, validate_features}
use claw_tune.Command.Projection.Values.{Codec, Context}
use claw_tune.Command.Projection.{core_of, project}
use claw_tune.Command.Projection.Bounded.{project-bounded}

abbrev plain : Codec String
plain = record { canonical_json = λ _. "[]"; digest = λ _. "d"; parsed_digest = λ _. "p" }

abbrev at_root : Scope
at_root = record { index = 0; name = "git" }

abbrev layer : Layer
layer = record {
  scope = at_root;
  entry = "git";
  mode = Mode.default_mode;
  options = record { name = "-v"; values = []; repeat = Repeat.count_all; independent = true } ∷ [];
  args = "log" ∷ [];
  opaque = [];
  payload = none;
  script = true;
}

abbrev parsed : Parsed String
parsed = record {
  tool = "git";
  argv = "git" ∷ "-v" ∷ "log" ∷ [];
  layers = layer ∷ [];
  target = "git" ∷ [];
  diagnostics = [];
  rules = [];
  roles = [];
  status = Status.complete;
}

abbrev context : Context
context = record { repo = some "r"; cwd = none; env_id = none }

project-bounded_example :
    (c : CommandFeatures) × (project plain parsed context 2 ≡ inr c)
    × (validate_features c ≡ none)
    × (c.core ≡ core_of plain parsed)
    × (length c.features ≤ max (length c.core + 1) 2)
project-bounded_example = project-bounded plain parsed context 2
