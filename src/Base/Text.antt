-- ===== src/Base/Text.antt =====
-- Equality of texts, decided.
use Prim.Native.String.{String}
use mathlib.Core.Path.{◌≡◌}
use mathlib.Core.Logic.{◌↔◌}
use mathlib.Core.Bool.{Bool, true, false}
use mathlib.Core.Option.{Option, none, some}
use text.Mathlib.Text.{◌==◌}
use text.Mathlib.TextEquality.{eq_iff}

dec_by_test {ℓ} : {P : Type ℓ} (b : Bool) → (b ≡ true) ↔ P → Dec P
dec_by_test true h = yes (h.0 (λ i. true))
dec_by_test false h = no (λ p. cc (h.1 p))

unfoldable pub string_discrete : Discrete String
unfolding dec_by_test
string_discrete s t = dec_by_test (s == t) (eq_iff s t)

unfoldable pub option_discrete {ℓ} : {A : Type ℓ} → Discrete A → Discrete (Option A)
option_discrete d none none = yes (λ i. none)
option_discrete d none (some b) = no (cc)
option_discrete d (some a) none = no (cc)
option_discrete d (some a) (some b) = elim (d a b) [
  | yes p ↦ yes (λ i. some (p i))
  | no n ↦ no (λ e. n (cc e))
]

-- `s + t`
infixr 65 ◌+++◌
unfoldable pub ◌+++◌ : String → String → String
String.[] +++ t = t
(String.◌∷◌ c s) +++ t = String.◌∷◌ c (s +++ t)
