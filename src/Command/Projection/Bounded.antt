-- ===== src/Command/Projection/Bounded.antt =====
-- What `project` returns: valid features, within the budget.
use claw_tune.Base.{
  take, drop, sort_by, length-sort_by, length-take-le, take-append, All-take, All-append, ℕ, ◌+◌,
  ◌-◌, ◌≤◌, max, ltb, ◌≡◌, refl, ◌∙◌, ap, Bool, true, false, ◌||◌, none, String, List, [], ◌∷◌,
  ◌++◌, All, length, length-append, if◌then◌else◌, arith, Bool-cases, inl, inr, ◌+++◌,
  string_discrete,
}
use claw_tune.Command.Words.{is_in}
use claw_tune.Command.Result.{Parsed}
use claw_tune.Command.Features.{CommandFeatures, validate_features, is_subset, is_tool, has_tool}
use claw_tune.Command.Projection.Sets.{
  add_text, minus, text_le, to_set, All-add_text, All-to_set, length-to_set-le, is_text_self,
  is_in-append, is_in-sort_by, is_in-to_set,
}
use claw_tune.Command.Projection.Kinds.{
  IsFree, IsKind, target-IsKind, other_kinds, tool_feature, tool_feature-IsFree, has_no_other-All,
  atoms_of-AreFree, ordered_by-IsFree,
}
use claw_tune.Command.Projection.Values.{items, nil, cons, texts, Codec, Context}
use claw_tune.Command.Projection.Occurrences.{option_first, is_nil}
use claw_tune.Command.Projection.{
  Atoms, atom, value, core_of, atoms_of, ordered_by, shortened, features_with, projected, project,
}

has_tool-is_in :
    (tool w : String) (fs : List String)
    → is_tool tool w ≡ true
    → is_in w fs ≡ true
    → has_tool tool fs ≡ true
unfolding has_tool is_in
has_tool-is_in tool w [] t h = absurd cc
has_tool-is_in tool w (f ∷ fs) t h = elim (string_discrete f w) [
  | yes p ↦ ground (arith, p, t)
  | no n ↦ ground (arith, n, h, has_tool-is_in tool w fs t)
]

is_subset-is_in :
    (a b : List String)
    → ((w : String) → is_in w a ≡ true → is_in w b ≡ true)
    → is_subset a b ≡ true
unfolding is_subset is_in
is_subset-is_in [] b h = refl
is_subset-is_in (x ∷ xs) b h = ground (
  arith,
  h x (ground (arith, is_text_self x)),
  is_subset-is_in xs b (λ w e. h w (ground (arith, e))),
)

or_left : (a b : Bool) → a ≡ true → (a || b) ≡ true
or_left a b h = ground (arith, h)

module _ {Key : Type 0} (codec : Codec Key) where
  core_of-IsFree : (parsed : Parsed Key) → All (IsFree parsed.tool) (core_of codec parsed)
  unfolding core_of IsKind
  core_of-IsFree parsed = elim (Bool-cases (is_nil parsed.target)) [
    | inl e ↦ rw e (tool_feature-IsFree parsed.tool, tt)
    | inr e ↦ rw e (
        All-add_text (IsFree parsed.tool) _ (("tool=" +++ parsed.tool) ∷ [])
          (target-IsKind codec parsed.tool (texts parsed.target))
          (tool_feature-IsFree parsed.tool, tt))
  ]

  core_of-tool : (parsed : Parsed Key) → has_tool parsed.tool (core_of codec parsed) ≡ true
  unfolding core_of has_tool add_text
  core_of-tool parsed = ground (arith, tool_feature parsed.tool)

  core_of-is_in :
      (parsed : Parsed Key) → is_in ("tool=" +++ parsed.tool) (core_of codec parsed) ≡ true
  unfolding core_of is_in add_text
  core_of-is_in parsed = ground (arith, is_text_self ("tool=" +++ parsed.tool))

  -- A list of features that has the core and names no other tool is accepted.
  accepted :
      (parsed : Parsed Key) (features : List String) (omitted : ℕ)
      → All (IsFree parsed.tool) features
      → ((w : String) → is_in w (core_of codec parsed) ≡ true → is_in w features ≡ true)
      → validate_features (features_with codec parsed features (core_of codec parsed) omitted)
        ≡ none
  unfolding validate_features string_discrete
  accepted parsed features omitted free has =
      let there : ((w : String)
          → is_in w (core_of codec parsed) ≡ true
          → is_in w (to_set features) ≡ true) =
        λ w e. is_in-to_set w features ∙ has w e in
      let tool = "tool=" +++ parsed.tool in
      ground (
        arith,
        is_subset-is_in (core_of codec parsed) (to_set features) there,
        has_tool-is_in parsed.tool tool (to_set features) (tool_feature parsed.tool)
            (there tool (core_of-is_in parsed)),
        has_no_other-All parsed.tool (to_set features)
            (All-to_set (IsFree parsed.tool) features free),
        core_of-tool parsed,
      )

  ordered_by-core :
      (le : String → String → Bool) (core : List String) (a : Atoms) (w : String)
      → is_in w core ≡ true
      → is_in w (ordered_by codec le core a) ≡ true
  unfolding ordered_by
  ordered_by-core le core a w h = ground (
    arith,
    h,
    is_in-sort_by text_le w core,
    is_in-append w (sort_by text_le core) (
        sort_by text_le (minus a.preferred core)
        ++ sort_by le (minus (minus a.optional core) a.preferred)),
  )

  shortened-core :
      (kept : ℕ) (le : String → String → Bool) (core : List String) (a : Atoms) (w : String)
      → length core ≤ kept
      → is_in w core ≡ true
      → is_in w (shortened codec kept (ordered_by codec le core a)) ≡ true
  unfolding ordered_by shortened
  shortened-core kept le core a w l h =
      let rest =
        sort_by text_le (minus a.preferred core)
        ++ sort_by le (minus (minus a.optional core) a.preferred) in
      let k = take-append kept (sort_by text_le core) rest (rw (length-sort_by text_le core) l) in
      let taken : is_in w (take kept (sort_by text_le core ++ rest)) ≡ true =
        ap (is_in w) k
        ∙ is_in-append w (sort_by text_le core) (take (kept - length (sort_by text_le core)) rest)
        ∙ or_left _ _ (is_in-sort_by text_le w core ∙ h) in
      is_in-append w (take kept (sort_by text_le core ++ rest)) _ ∙ or_left _ _ taken

  shortened-IsFree :
      (tool : String) (kept : ℕ) (ordered : List String)
      → All (IsFree tool) ordered
      → All (IsFree tool) (shortened codec kept ordered)
  unfolding shortened IsKind
  shortened-IsFree tool kept ordered h =
      All-append (IsFree tool) (take kept ordered) _ (All-take (IsFree tool) kept ordered h)
        ((other_kinds codec tool).9 _, tt)

  length-shortened-le :
      (kept : ℕ) (ordered : List String) → length (shortened codec kept ordered) ≤ kept + 1
  unfolding shortened
  length-shortened-le kept ordered = omega (
    arith,
    length-append (take kept ordered) (overflow kept ordered ∷ []),
    length-take-le kept ordered,
  )
    where
      overflow : ℕ → List String → String
      overflow k xs =
          atom codec "overflow"
            (cons (value codec (items (texts (sort_by text_le (drop k xs))))) nil)

if_either :
    {A : Type 0} (P : A → Type 0) (b : Bool) (x y : A)
    → (b ≡ true → P x)
    → (b ≡ false → P y)
    → P (if b then x else y)
if_either P true x y h k = h refl
if_either P false x y h k = k refl

module _ {Key : Type 0} (codec : Codec Key) (parsed : Parsed Key) (max_features : ℕ) where
  abbrev IsBounded : CommandFeatures → Type 0
  IsBounded c =
      (validate_features c ≡ none)
      × (c.core ≡ core_of codec parsed)
      × (length c.features ≤ max (length c.core + 1) max_features)

  projected-IsBounded :
      (context : Context) → IsBounded (projected codec parsed context max_features)
  unfolding projected
  projected-IsBounded context =
      if_either IsBounded (ltb limit (length all)) _ _
        (λ e. (
          accepted codec parsed (shortened codec kept ordered) (length (drop kept ordered))
              (shortened-IsFree codec parsed.tool kept ordered (free option_first))
              (λ w h. shortened-core codec kept option_first core a w (omega arith) h),
          refl,
          omega (
            arith,
            length-to_set-le (shortened codec kept ordered),
            length-shortened-le codec kept ordered,
          ),
        ))
        (λ e. (
          accepted codec parsed all 0 (free text_le)
              (λ w h. ordered_by-core codec text_le core a w h),
          refl,
          ground (arith, e, length-to_set-le all),
        ))
    where
      core : List String
      core = core_of codec parsed

      a : Atoms
      a = atoms_of codec parsed context

      limit : ℕ
      limit = max (length core) max_features

      kept : ℕ
      kept = max (length core + 1) limit - 1

      all : List String
      all = ordered_by codec text_le core a

      ordered : List String
      ordered = ordered_by codec option_first core a

      free : (le : String → String → Bool) → All (IsFree parsed.tool) (ordered_by codec le core a)
      free le =
          ordered_by-IsFree codec parsed.tool le core a (core_of-IsFree codec parsed)
            (atoms_of-AreFree codec parsed.tool parsed context)

-- `project` returns features, whatever the command: its constructor does not raise. The features
-- contain the core, in which the tool is, and no other tool, and there are at most `max_features` of them, or one more
-- than there are in the core if that is more. The arguments of the atoms and their hashes are left to the codec.
pub project-bounded :
    {Key : Type 0} (codec : Codec Key) (parsed : Parsed Key) (context : Context) (max_features : ℕ)
    → (c : CommandFeatures) × (project codec parsed context max_features ≡ inr c)
      × (validate_features c ≡ none)
      × (c.core ≡ core_of codec parsed)
      × (length c.features ≤ max (length c.core + 1) max_features)
unfolding project
project-bounded codec parsed context max_features =
    let (ok, core, few) = projected-IsBounded codec parsed max_features context in
    (projected codec parsed context max_features, rw (project, ok) refl, ok, core, few)
