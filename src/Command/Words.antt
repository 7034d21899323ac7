-- ===== src/Command/Words.antt =====
-- What the parser asks of one word.
use Prim.Native.Char.{Char, code}
use claw_tune.Base.{
  ℕ, suc, Bool, true, false, not, ◌&&◌, ◌||◌, Option, none, some, String, List, [], ◌∷◌,
  if◌then◌else◌, leb, ◌==◌, is_yes, get_elem?, string_discrete,
}

-- `a == b`
abbrev pub is_text : String → String → Bool
is_text a b = is_yes (string_discrete a b)

-- `word in words`
unfoldable pub is_in : String → List String → Bool
is_in word [] = false
is_in word (w ∷ ws) = is_text w word || is_in word ws

-- `bool(set(a) & set(b))`
unfoldable pub meets : List String → List String → Bool
meets [] b = false
meets (w ∷ ws) b = is_in w b || meets ws b

-- `word.startswith("-")`
abbrev pub starts_dash : String → Bool
starts_dash String.[] = false
starts_dash (String.◌∷◌ c s) = code c == b'-'

-- `word.startswith("--")`
abbrev pub starts_two_dashes : String → Bool
starts_two_dashes String.[] = false
starts_two_dashes (String.◌∷◌ c s) = code c == b'-' && starts_dash s

unfoldable pub size : String → ℕ
size String.[] = 0
size (String.◌∷◌ c s) = suc (size s)

-- `word[1:]`
abbrev pub tail : String → String
tail String.[] = String.[]
tail (String.◌∷◌ c s) = s

-- `word.split("=", 1)`, if the word has an "=".
abbrev pub cons_first : Char → Option (String × String) → Option (String × String)
cons_first c none = none
cons_first c (some (a, b)) = some (String.◌∷◌ c a, b)

unfoldable pub split_equals : String → Option (String × String)
split_equals String.[] = none
split_equals (String.◌∷◌ c s) =
    let rest = split_equals s in if code c == b'=' then some ("", s) else cons_first c rest

abbrev pub is_letter : ℕ → Bool
is_letter c = (leb b'a' c && leb c b'z') || (leb b'A' c && leb c b'Z')

abbrev pub is_digit : ℕ → Bool
is_digit c = leb b'0' c && leb c b'9'

unfoldable pub all_codes : (ℕ → Bool) → String → Bool
all_codes p String.[] = true
all_codes p (String.◌∷◌ c s) = p (code c) && all_codes p s

-- `re.fullmatch(r"-[a-zA-Z]{2,3}", word)`
unfoldable pub is_short_cluster : String → Bool
is_short_cluster word =
    starts_dash word && (all_codes is_letter (tail word) && (size word == 3 || size word == 4))

-- `re.fullmatch(r"-[0-9]+", word)`
unfoldable pub is_dash_digits : String → Bool
is_dash_digits word = starts_dash word && (all_codes is_digit (tail word) && leb 2 (size word))

-- `"-" + char`
abbrev pub dashed : Char → String
dashed c = String.◌∷◌ "-" (String.◌∷◌ c "")

-- `["-" + char for char in text]`
unfoldable pub dashed_all : String → List String
dashed_all String.[] = []
dashed_all (String.◌∷◌ c s) = dashed c ∷ dashed_all s

-- `"/" in word`
unfoldable pub has_slash : String → Bool
has_slash String.[] = false
has_slash (String.◌∷◌ c s) = code c == b'/' || has_slash s

-- `any(c.get("kind") not in {"literal"} for c in components)`, by the kinds.
unfoldable pub has_expansion : List (Option String) → Bool
has_expansion [] = false
has_expansion (none ∷ kinds) = true
has_expansion (some kind ∷ kinds) = not (is_text kind "literal") || has_expansion kinds

-- `i in unresolved`, from the `word_intents`.
unfoldable pub is_unresolved : List (List (Option String)) → ℕ → Bool
is_unresolved word_intents i = elim (get_elem? word_intents i) [
  | none ↦ false
  | some kinds ↦ has_expansion kinds
]
