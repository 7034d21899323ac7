-- ===== src/Topology/Text.antt =====
-- What the topology uses of Python's text: `strip`, `split`, `join`, `int` and `str`. A text is the
-- list of its code points. The decimal digits of other scripts, which `int` takes too, and its limit
-- of 4300 digits are left out.
pub mod Laws
pub mod Splits
use Prim.Native.Nat.{◌/◌, ◌%◌}
use claw_tune.Base.{
  ℕ, zero, suc, ◌+◌, ◌-◌, ◌*◌, ℤ, pos, negsuc, Bool, true, false, ◌&&◌, ◌||◌, Option, none, some,
  List, [], ◌∷◌, ◌++◌, if◌then◌else◌, leb, ◌==◌,
}

abbrev pub Text : Type 0
Text = List ℕ

abbrev pub is_digit : ℕ → Bool
is_digit c = leb b'0' c && leb c b'9'

-- `str.isspace`
abbrev pub is_space : ℕ → Bool
is_space c =
    (leb 9 c && leb c 13)
    || ((leb 28 c && leb c 32)
        || (c == 133
            || (c == 160
                || (c == 5760
                    || ((leb 8192 c && leb c 8202)
                        || (c == 8232
                            || (c == 8233 || (c == 8239 || (c == 8287 || c == 12288)))))))))

abbrev pub is_nil : Text → Bool
is_nil [] = true
is_nil (c ∷ s) = false

unfoldable pub strip_left : Text → Text
strip_left [] = []
strip_left (c ∷ s) = let rest = strip_left s in if is_space c then rest else c ∷ s

unfoldable pub strip_right : Text → Text
strip_right [] = []
strip_right (c ∷ s) = let rest = strip_right s in if is_nil rest && is_space c then [] else c ∷ rest

unfoldable pub strip : Text → Text
strip s = strip_right (strip_left s)

abbrev pub push : ℕ → List Text → List Text
push c [] = (c ∷ []) ∷ []
push c (p ∷ ps) = (c ∷ p) ∷ ps

-- `text.split(sep)`
unfoldable pub split : ℕ → Text → List Text
split sep [] = [] ∷ []
split sep (c ∷ s) = let parts = split sep s in if c == sep then [] ∷ parts else push c parts

-- `sep.join(parts)`
unfoldable pub join : ℕ → List Text → Text
join sep [] = []
join sep (p ∷ []) = p
join sep (p ∷ q ∷ ps) = p ++ sep ∷ join sep (q ∷ ps)

abbrev pub cons_first : ℕ → Option (Text × Text) → Option (Text × Text)
cons_first c none = none
cons_first c (some (a, b)) = some (c ∷ a, b)

-- `text.split(sep, 1)`, if the text has the separator.
unfoldable pub split_once : ℕ → Text → Option (Text × Text)
split_once sep [] = none
split_once sep (c ∷ s) =
    let rest = split_once sep s in if c == sep then some ([], s) else cons_first c rest

abbrev pub negated : ℕ → ℤ
negated zero = pos zero
negated (suc n) = negsuc n

-- The digits of a number, with a single `_` between two of them as Python allows; `after` says that
-- a digit is right before.
unfoldable pub scan : (after : Bool) → Text → ℕ → Option ℕ
scan after [] n = if after then some n else none
scan after (c ∷ s) n =
    let more = scan true s (n * 10 + (c - b'0')) in
    let behind = scan false s n in
    if is_digit c then more else if c == b'_' && after then behind else none

abbrev pub positive : Option ℕ → Option ℤ
positive none = none
positive (some n) = some (pos n)

abbrev pub negative : Option ℕ → Option ℤ
negative none = none
negative (some n) = some (negated n)

abbrev pub signed : Text → Option ℤ
signed [] = none
signed (c ∷ s) =
    if c == b'-'
    then negative (scan false s 0)
    else if c == b'+'
    then positive (scan false s 0)
    else positive (scan false (c ∷ s) 0)

-- `int(text)`, with `none` for its ValueError
unfoldable pub int : Text → Option ℤ
int s = signed (strip s)

-- The digits of `n` before `out`; `fuel` counts the rounds, and `n` rounds are enough.
unfoldable pub digits : (fuel n : ℕ) → Text → Text
digits zero n out = out
digits (suc fuel) n out =
    let more = digits fuel (n / 10) ((b'0' + n % 10) ∷ out) in if n == 0 then out else more

-- `str(n)`
unfoldable pub str : ℕ → Text
str n = if n == 0 then b'0' ∷ [] else digits n n []
