-- ===== src/Command/Registry/Laws.antt =====
-- The rule that the registry chooses.
use mathlib.Core.Path.{subst}
use claw_tune.Base.{
  ℕ, zero, suc, ◌+◌, ◌≤◌, ◌<◌, ◌≡◌, ◌⊎◌, refl, sym, ap, Option-cases, inl, inr, Bool-cases, Bool,
  true, false, Option, none, some, String, List, [], ◌∷◌, All, All-map, get_elem?, arith,
}
use claw_tune.Dict.{Dict}
use claw_tune.Command.Registry.{
  StoredRule, ParseContext, RuleRegistry, Found, cons_found, is_below, max_found, choose, priority,
  find_rules, lookup_for_parse,
}

-- A rule of higher priority, or of the same and not before.
abbrev IsAbove : Found → Found → Type 0
IsAbove m f = (f.priority < m.priority) ⊎ ((f.priority ≡ m.priority) × (f.order ≤ m.order))

IsAbove-refl : (m : Found) → IsAbove m m
IsAbove-refl m = inr (refl, omega arith)

IsAbove-trans : (a b c : Found) → IsAbove a b → IsAbove b c → IsAbove a c
IsAbove-trans a b c h k = ground (arith, h, k)

is_below-IsAbove : (a b : Found) → is_below a b ≡ true → IsAbove b a
is_below-IsAbove a b e = ground (arith, e)

not_below-IsAbove : (a b : Found) → is_below a b ≡ false → IsAbove a b
not_below-IsAbove a b e = ground (arith, e)

max_found_next :
    (best f : Found) (fs : List Found)
    → is_below best f ≡ true
    → max_found best (f ∷ fs) ≡ max_found f fs
unfolding max_found
max_found_next best f fs q = rw q refl

max_found_same :
    (best f : Found) (fs : List Found)
    → is_below best f ≡ false
    → max_found best (f ∷ fs) ≡ max_found best fs
unfolding max_found
max_found_same best f fs q = rw q refl

-- The maximum is above the first element and all the others.
max_found-IsAbove :
    (best : Found) (fs : List Found)
    → IsAbove (max_found best fs) best × All (IsAbove (max_found best fs)) fs
max_found-IsAbove best [] = unfold max_found in (IsAbove-refl best, tt)
max_found-IsAbove best (f ∷ fs) = elim (Bool-cases (is_below best f)) [
  | inl q ↦
      let h = max_found-IsAbove f fs in
      subst (λ m. IsAbove m best × All (IsAbove m) (f ∷ fs)) (sym (max_found_next best f fs q))
        (IsAbove-trans (max_found f fs) f best h.0 (is_below-IsAbove best f q), h)
  | inr q ↦
      let h = max_found-IsAbove best fs in
      subst (λ m. IsAbove m best × All (IsAbove m) (f ∷ fs)) (sym (max_found_same best f fs q))
        (h.0, (IsAbove-trans (max_found best fs) best f h.0 (not_below-IsAbove best f q), h.1))
]

max_found-All :
    (P : Found → Type 0) (best : Found) (fs : List Found)
    → P best
    → All P fs
    → P (max_found best fs)
unfolding max_found
max_found-All P best [] p h = p
max_found-All P best (f ∷ fs) p h = elim (Bool-cases (is_below best f)) [
  | inl q ↦ rw q (max_found-All P f fs h.0 h.1)
  | inr q ↦ rw q (max_found-All P best fs p h.1)
]

Found-path :
    (a b : Found)
    → a.priority ≡ b.priority
    → a.order ≡ b.order
    → a.key ≡ b.key
    → a.rule ≡ b.rule
    → a ≡ b
Found-path a b p o k r = λ i. record { priority = p i; order = o i; key = k i; rule = r i }

cons_found-first :
    (P : Found → Type 0) (order : ℕ) (key : String) (rule : StoredRule) (rest : List Found)
    (f : Found) (o : Option ℕ)
    → o ≡ some f.priority
    → key ≡ f.key
    → rule ≡ f.rule
    → f.order ≡ order
    → All P (cons_found o order key rule rest)
    → P f
cons_found-first P order key rule rest f none e k r q h = absurd cc
cons_found-first P order key rule rest f (some p) e k r q h =
    subst P
      (Found-path (record { priority = p; order = order; key = key; rule = rule }) f (cc e) (sym q)
        k r)
      h.0

cons_found-rest :
    (P : Found → Type 0) (order : ℕ) (key : String) (rule : StoredRule) (rest : List Found)
    (o : Option ℕ)
    → All P (cons_found o order key rule rest)
    → All P rest
cons_found-rest P order key rule rest none h = h
cons_found-rest P order key rule rest (some p) h = h.1

module _ (path_name : String → String) (source : String → ParseContext → Option String)
    (executable : String) (context : ParseContext) (script : Bool) where
  -- The priority of a rule for this command.
  abbrev pub rank : StoredRule → Option ℕ
  rank r = priority path_name source executable context script r

  -- What is found stands in the rules.
  abbrev IsAt : ℕ → Dict String StoredRule → Found → Type 0
  IsAt order rules f =
      (i : ℕ) × (get_elem? rules i ≡ some (f.key, f.rule))
      × (f.order ≡ order + i)
      × (rank f.rule ≡ some f.priority)

  IsAt-later :
      (order : ℕ) (x : String × StoredRule) (rules : Dict String StoredRule) (f : Found)
      → IsAt (suc order) rules f
      → IsAt order (x ∷ rules) f
  IsAt-later order x rules f (i, a, b, c) = (suc i, a, omega (arith, b), c)

  cons_found-IsAt :
      (order : ℕ) (key : String) (rule : StoredRule) (rules : Dict String StoredRule)
      (fs : List Found) (p : Option ℕ)
      → rank rule ≡ p
      → All (IsAt order ((key, rule) ∷ rules)) fs
      → All (IsAt order ((key, rule) ∷ rules)) (cons_found p order key rule fs)
  cons_found-IsAt order key rule rules fs none e h = h
  cons_found-IsAt order key rule rules fs (some p) e h = ((0, refl, omega arith, e), h)

  find_rules-IsAt :
      (order : ℕ) (rules : Dict String StoredRule)
      → All (IsAt order rules) (find_rules path_name source executable context script order rules)
  unfolding find_rules
  find_rules-IsAt order [] = tt
  find_rules-IsAt order ((key, rule) ∷ rules) =
      cons_found-IsAt order key rule rules
        (find_rules path_name source executable context script (suc order) rules) (rank rule) refl
        (All-map (IsAt (suc order) rules) (IsAt order ((key, rule) ∷ rules))
          (find_rules path_name source executable context script (suc order) rules)
          (IsAt-later order (key, rule) rules) (find_rules-IsAt (suc order) rules))

  -- Every rule with a priority is found.
  find_rules-complete :
      (P : Found → Type 0) (order : ℕ) (rules : Dict String StoredRule) (f : Found)
      → IsAt order rules f
      → All P (find_rules path_name source executable context script order rules)
      → P f
  unfolding find_rules
  find_rules-complete P order [] f (i, e, _, _) h = absurd cc
  find_rules-complete P order ((key, rule) ∷ rules) f (zero, e, o, r) h =
      let same_key : key ≡ f.key = cc e in
      let same_rule : rule ≡ f.rule = cc e in
      cons_found-first P order key rule
        (find_rules path_name source executable context script (suc order) rules) f (rank rule)
        (cc (ap rank same_rule, r)) same_key same_rule (omega (arith, o)) h
  find_rules-complete P order ((key, rule) ∷ rules) f (suc i, e, o, r) h =
      find_rules-complete P (suc order) rules f (i, e, omega (arith, o), r)
        (cons_found-rest P order key rule
          (find_rules path_name source executable context script (suc order) rules) (rank rule) h)

  -- The choice among the rules: none only if no rule has a priority, and else one whose priority is the
  -- highest, the last one of these.
  abbrev pub IsChoice : Dict String StoredRule → Option (StoredRule × String) → Type 0
  IsChoice rules none =
      (i : ℕ) (key : String) (rule : StoredRule)
      → get_elem? rules i ≡ some (key, rule)
      → rank rule ≡ none
  IsChoice rules (some (chosen, name)) =
      (at : ℕ) × (p : ℕ) × (get_elem? rules at ≡ some (name, chosen))
      × (rank chosen ≡ some p)
      × ((i : ℕ) (key : String) (rule : StoredRule) (q : ℕ)
          → get_elem? rules i ≡ some (key, rule)
          → rank rule ≡ some q
          → (q < p) ⊎ ((q ≡ p) × (i ≤ at)))

  choose-IsChoice :
      (rules : Dict String StoredRule) (fs : List Found)
      → All (IsAt 0 rules) fs
      → ((P : Found → Type 0) (f : Found) → IsAt 0 rules f → All P fs → P f)
      → IsChoice rules (choose fs)
  choose-IsChoice rules [] sound complete = λ i key rule e. elim (Option-cases (rank rule)) [
    | inl n ↦ n
    | inr (p, r) ↦ absurd (
        complete (λ f. ⊥) (record { priority = p; order = i; key = key; rule = rule })
          (i, e, omega arith, r) tt)
  ]
  choose-IsChoice rules (f ∷ fs) sound complete =
      let m = max_found f fs in
      let (at, a, o, r) = max_found-All (IsAt 0 rules) f fs sound.0 sound.1 in
      (
        at,
        m.priority,
        a,
        r,
        λ i key rule q e r'. position i q at m o (
            complete (IsAbove m) (record { priority = q; order = i; key = key; rule = rule })
              (i, e, omega arith, r') (max_found-IsAbove f fs)),
      )
    where
      position :
          (i q at : ℕ) (m : Found)
          → m.order ≡ 0 + at
          → (q < m.priority) ⊎ ((q ≡ m.priority) × (i ≤ m.order))
          → (q < m.priority) ⊎ ((q ≡ m.priority) × (i ≤ at))
      position i q at m o (inl l) = inl l
      position i q at m o (inr (e, l)) = inr (e, omega (arith, o, l))

  pub lookup_for_parse-IsChoice :
      (registry : RuleRegistry)
      → IsChoice registry.rules
          (lookup_for_parse path_name source executable context script registry)
  unfolding lookup_for_parse
  lookup_for_parse-IsChoice registry =
      choose-IsChoice registry.rules
        (find_rules path_name source executable context script 0 registry.rules)
        (find_rules-IsAt 0 registry.rules) (λ P f a. find_rules-complete P 0 registry.rules f a)
