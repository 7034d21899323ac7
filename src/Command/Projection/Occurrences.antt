-- ===== src/Command/Projection/Occurrences.antt =====
-- services/sidecar/src/command_parser/projection.py: the occurrences of an option, and the order of the
-- features of a command that has too many.
use Prim.Native.Char.{code}
use claw_tune.Base.{
  sort_by, ◌==◌, Bool, true, false, none, some, String, List, [], ◌∷◌, ◌++◌, if◌then◌else◌,
  string_discrete,
}
use claw_tune.Dict.{Dict, get, put}
use claw_tune.Command.Words.{is_in}
use claw_tune.Command.Grammar.{Repeat}
use claw_tune.Command.Result.{Given}
use claw_tune.Command.Projection.Values.{Items, text, items, nil, cons, texts}
use claw_tune.Command.Projection.Sets.{text_le, dedupe_tuples, tuple_le}

abbrev pub is_nil {ℓ} : {A : Type ℓ} → List A → Bool
is_nil [] = true
is_nil (_ ∷ _) = false

unfoldable pub values_of : List Given → List (List String)
values_of [] = []
values_of (g ∷ gs) = g.values ∷ values_of gs

-- `xs[-1]` of a list that begins with `x`.
unfoldable pub last_of : {A : Type 0} → A → List A → A
last_of x [] = x
last_of x (y ∷ ys) = last_of y ys

-- `by_name[name]`, for which there is an empty list at first.
unfoldable pub occurrences_of : String → Dict String (List Given) → List Given
occurrences_of name by_name = elim (get string_discrete name by_name) [ none ↦ [] | some gs ↦ gs ]

-- The loop over the options: the independent ones.
unfoldable pub group_by_name : List Given → Dict String (List Given) → Dict String (List Given)
group_by_name [] by_name = by_name
group_by_name (g ∷ gs) by_name = group_by_name gs (
    if g.independent
    then put string_discrete g.name (occurrences_of g.name by_name ++ g ∷ []) by_name
    else by_name)

-- The loop over the options: the others, in order.
unfoldable pub in_sequence : List Given → Items
in_sequence [] = nil
in_sequence (g ∷ gs) =
    let rest = in_sequence gs in
    if g.independent
    then rest
    else cons (items (cons (text g.name) (cons (items (texts g.values)) nil))) rest

abbrev pub is_count : Repeat → Bool
is_count Repeat.count_all = true
is_count _ = false

abbrev pub is_last : Repeat → Bool
is_last Repeat.last_one = true
is_last _ = false

-- The values of an option, as a set if it is one.
abbrev pub as_policy : Repeat → List (List String) → List (List String)
as_policy Repeat.as_set vs = sort_by tuple_le (dedupe_tuples vs)
as_policy _ vs = vs

-- `value.split(":", 1)[0]`
unfoldable pub before_colon : String → String
before_colon String.[] = String.[]
before_colon (String.◌∷◌ c s) =
    let rest = before_colon s in if code c == b':' then String.[] else String.◌∷◌ c rest

-- `option_kinds`
abbrev pub option_kinds : List String
option_kinds = "opt" ∷ "flag" ∷ "repeat" ∷ "count" ∷ "sequence" ∷ []

-- Whether `(a is no option, a) <= (b is no option, b)`.
unfoldable pub option_first : String → String → Bool
option_first a b =
    if is_in (before_colon a) option_kinds
    then (if is_in (before_colon b) option_kinds then text_le a b else true)
    else (if is_in (before_colon b) option_kinds then false else text_le a b)
