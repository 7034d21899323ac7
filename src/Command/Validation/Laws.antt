-- ===== src/Command/Validation/Laws.antt =====
-- What the validation of a rule gives the parser.
use claw_tune.Base.{
  ℕ, ◌+◌, ◌≡◌, refl, ◌∙◌, Bool-cases, inl, inr, true, false, ◌&&◌, ◌||◌, none, some, String, List,
  [], ◌∷◌, ◌++◌, All, All-map, if◌then◌else◌, string_discrete, arith,
}
use claw_tune.Command.Words.{is_text, is_in, meets}
use claw_tune.Command.Grammar.{Opt, find_option}
use claw_tune.Command.Validation.{is_bad_arity, is_bad_shorthand, check_options}

is_text-path : (a b : String) → is_text a b ≡ true → a ≡ b
is_text-path a b e = by_dec (string_discrete a b) e
  where
    by_dec : (d : Dec (a ≡ b)) → (elim d [ yes _ ↦ true | no _ ↦ false ]) ≡ true → a ≡ b
    by_dec (yes p) e = p
    by_dec (no n) e = absurd cc

pub is_in-append : (w : String) (a b : List String) → is_in w (a ++ b) ≡ (is_in w a || is_in w b)
unfolding is_in
is_in-append w [] b = refl
is_in-append w (x ∷ a) b = ground (arith, is_in-append w a b)

-- Lists that do not meet have no word in common.
pub meets-apart :
    (w : String) (a b : List String) → meets a b ≡ false → is_in w a ≡ true → is_in w b ≡ false
unfolding meets is_in
meets-apart w [] b m e = absurd cc
meets-apart w (x ∷ a) b m e = elim (Bool-cases (is_text w x)) [
  | inl q ↦ let p : w ≡ x = is_text-path w x q in rw p (ground (arith, m))
  | inr q ↦ meets-apart w a b (ground (arith, m)) (ground (arith, e, q))
]

-- An option among others: each of its names belongs to it alone, its canonical name is one of them,
-- and it may have as many values as it must.
abbrev pub IsClearIn : List Opt → Opt → Type 0
IsClearIn options o =
    ((alias : String) → is_in alias o.names ≡ true → find_option alias options ≡ some o)
    × (is_in o.canonical o.names ≡ true)
    × (is_bad_arity o ≡ false)

-- What an accepted option passed.
check_options-cons :
    (o : Opt) (os : List Opt) (names : List String) (n : ℕ)
    → check_options (o ∷ os) names n ≡ none
    → (meets names o.names ≡ false)
      × (is_in o.canonical o.names ≡ true)
      × (is_bad_arity o ≡ false)
      × (check_options os (names ++ o.names) (if o.leading_numeric_short then n + 1 else n) ≡ none)
unfolding check_options
check_options-cons o os names n e = elim (Bool-cases (meets names o.names)) [
  | inl q ↦ absurd (ground (arith, e, q))
  | inr q ↦ elim (Bool-cases (is_in o.canonical o.names)) [
    | inr c ↦ absurd (ground (arith, e, q, c))
    | inl c ↦ elim (Bool-cases (is_bad_arity o)) [
      | inl a ↦ absurd (ground (arith, e, q, c, a))
      | inr a ↦ elim (Bool-cases (o.leading_numeric_short && is_bad_shorthand (n + 1) o)) [
        | inl b ↦ absurd (ground (arith, e, q, c, a, b))
        | inr b ↦ (q, c, a, ground (arith, e, q, c, a, b))
      ]
    ]
  ]
]

find_option_here :
    (w : String) (o : Opt) (os : List Opt)
    → is_in w o.names ≡ true
    → find_option w os ≡ none
    → find_option w (o ∷ os) ≡ some o
unfolding find_option
find_option_here w o os e n = rw (e, n) refl

find_option_later :
    (w : String) (o : Opt) (os : List Opt)
    → is_in w o.names ≡ false
    → find_option w (o ∷ os) ≡ find_option w os
unfolding find_option
find_option_later w o os e = rw e refl

-- A name that stands before belongs to no option.
check_options-absent :
    (w : String) (os : List Opt) (names : List String) (n : ℕ)
    → check_options os names n ≡ none
    → is_in w names ≡ true
    → find_option w os ≡ none
check_options-absent w [] names n e h = unfold find_option in refl
check_options-absent w (o ∷ os) names n e h =
    let (m, _, _, more) = check_options-cons o os names n e in
    find_option_later w o os (meets-apart w names o.names m h)
    ∙ check_options-absent w os (names ++ o.names) (if o.leading_numeric_short then n + 1 else n)
        more (is_in-append w names o.names ∙ ground (arith, h))

clear_later :
    (o : Opt) (os : List Opt)
    → ((w : String) → is_in w o.names ≡ true → find_option w os ≡ none)
    → (p : Opt) → IsClearIn os p
    → IsClearIn (o ∷ os) p
clear_later o os absent p (f, c, a) = (
  λ w e. elim (Bool-cases (is_in w o.names)) [
    | inl q ↦ absurd (cc (absent w q, f w e))
    | inr q ↦ find_option_later w o os q ∙ f w e
  ],
  c,
  a,
)

pub check_options-IsClearIn :
    (os : List Opt) (names : List String) (n : ℕ)
    → check_options os names n ≡ none
    → All (IsClearIn os) os
check_options-IsClearIn [] names n e = tt
check_options-IsClearIn (o ∷ os) names n e =
    let (_, c, a, more) = check_options-cons o os names n e in
    let m = if o.leading_numeric_short then n + 1 else n in
    let absent : (w : String) → is_in w o.names ≡ true → find_option w os ≡ none = λ w h.
      check_options-absent w os (names ++ o.names) m more
        (is_in-append w names o.names ∙ ground (arith, h)) in
    (
      (λ w h. find_option_here w o os h (absent w h), c, a),
      All-map (IsClearIn os) (IsClearIn (o ∷ os)) os (clear_later o os absent)
          (check_options-IsClearIn os (names ++ o.names) m more),
    )
