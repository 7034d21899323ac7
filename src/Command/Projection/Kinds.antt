-- ===== src/Command/Projection/Kinds.antt =====
-- No atom that `project` makes names another tool.
use claw_tune.Base.{
  sort_by, All-sort_by, All-append, ℕ, suc, ◌==◌, ◌≡◌, refl, Bool, true, not, ◌||◌, Option, none,
  some, String, List, [], ◌∷◌, All, length, arith, Bool-cases, inl, inr, ◌+++◌,
}
use claw_tune.Dict.{Dict}
use claw_tune.Command.Words.{is_text}
use claw_tune.Command.Registry.{behind}
use claw_tune.Command.Result.{Scope, Given, Payload, Layer, Parsed}
use claw_tune.Command.Features.{is_tool, names_tool, has_no_other}
use claw_tune.Command.Projection.Sets.{
  add_text, minus, text_le, All-add_text, All-minus, is_text_self,
}
use claw_tune.Command.Projection.Values.{Items, nil, cons, Codec, Context, mode_name}
use claw_tune.Command.Projection.Occurrences.{
  group_by_name, in_sequence, is_nil, last_of, is_count, is_last,
}
use claw_tune.Command.Projection.{
  Atoms, atom, option_atom, add_options, add_args, add_mode, add_sequence, add_opaque, add_payload,
  add_layer, add_layers, add_entry, atoms_of, ordered_by,
}

-- A feature that names no other tool.
abbrev pub IsFree : String → String → Type 0
IsFree tool f = (not (names_tool f) || is_tool tool f) ≡ true

pub tool_feature : (tool : String) → is_tool tool ("tool=" +++ tool) ≡ true
unfolding behind ◌+++◌
tool_feature tool = is_text_self tool

pub tool_feature-IsFree : (tool : String) → IsFree tool ("tool=" +++ tool)
tool_feature-IsFree tool = ground (arith, tool_feature tool)

pub has_no_other-All :
    (tool : String) (fs : List String) → All (IsFree tool) fs → has_no_other tool fs ≡ true
unfolding has_no_other
has_no_other-All tool [] h = refl
has_no_other-All tool (f ∷ fs) h = ground (arith, h.0, has_no_other-All tool fs h.1)

module _ {Key : Type 0} (codec : Codec Key) (tool : String) where
  -- No atom begins like the name of a tool.
  unfoldable pub IsKind : String → Type 0
  IsKind kind = (vs : Items) → IsFree tool (atom codec kind vs)

  pub target-IsKind : IsKind "target"
  unfolding IsKind atom behind ◌+++◌
  target-IsKind vs = refl

  mode-IsKind : IsKind "mode"
  unfolding IsKind atom behind ◌+++◌
  mode-IsKind vs = refl

  pub other_kinds :
      IsKind "sequence"
      × IsKind "count"
      × IsKind "opt"
      × IsKind "flag"
      × IsKind "repeat"
      × IsKind "arg"
      × IsKind "opaque"
      × IsKind "payload"
      × IsKind "context"
      × IsKind "overflow"
  unfolding IsKind atom behind ◌+++◌
  other_kinds = (
    λ vs. refl,
    λ vs. refl,
    λ vs. refl,
    λ vs. refl,
    λ vs. refl,
    λ vs. refl,
    λ vs. refl,
    λ vs. refl,
    λ vs. refl,
    λ vs. refl,
  )

  -- Sets of atoms that name no other tool.
  unfoldable pub AreFree : Atoms → Type 0
  AreFree a = All (IsFree tool) a.preferred × All (IsFree tool) a.optional

  option_atom-IsFree :
      (s : Scope) (name : String) (g : Given) (gs : List Given)
      → IsFree tool (option_atom codec s name g gs)
  unfolding option_atom IsKind
  option_atom-IsFree s name g gs = elim (Bool-cases (is_count (last_of g gs).repeat)) [
    | inl c ↦ rw c (other_kinds.1 _)
    | inr c ↦ elim (Bool-cases (is_last (last_of g gs).repeat || length (g ∷ gs) == 1)) [
      | inl l ↦ elim (Bool-cases (is_nil (last_of g gs).values)) [
        | inl e ↦ rw (c, l, e) (other_kinds.3 _)
        | inr e ↦ rw (c, l, e) (other_kinds.2 _)
      ]
      | inr l ↦ rw (c, l) (other_kinds.4 _)
    ]
  ]

  add_optional-AreFree :
      (f : String) (a : Atoms)
      → IsFree tool f
      → AreFree a
      → AreFree (record a { optional = add_text f a.optional })
  unfolding AreFree
  add_optional-AreFree f a p h = (h.0, All-add_text (IsFree tool) f a.optional p h.1)

  add_preferred-AreFree :
      (f : String) (a : Atoms)
      → IsFree tool f
      → AreFree a
      → AreFree (record a { preferred = add_text f a.preferred })
  unfolding AreFree
  add_preferred-AreFree f a p h = (All-add_text (IsFree tool) f a.preferred p h.0, h.1)

  add_options-AreFree :
      (s : Scope) (by_name : Dict String (List Given)) (a : Atoms)
      → AreFree a
      → AreFree (add_options codec s by_name a)
  unfolding add_options
  add_options-AreFree s [] a h = h
  add_options-AreFree s ((name, []) ∷ by_name) a h = add_options-AreFree s by_name a h
  add_options-AreFree s ((name, g ∷ gs) ∷ by_name) a h =
      add_options-AreFree s by_name _ (add_optional-AreFree _ a (option_atom-IsFree s name g gs) h)

  add_args-AreFree :
      (s : Scope) (position : ℕ) (args : List String) (a : Atoms)
      → AreFree a
      → AreFree (add_args codec s position args a)
  unfolding add_args IsKind
  add_args-AreFree s position [] a h = h
  add_args-AreFree s position (arg ∷ args) a h =
      add_args-AreFree s (suc position) args _ (add_optional-AreFree _ a (other_kinds.5 _) h)

  add_sequence-AreFree :
      (s : Scope) (vs : Items) (a : Atoms) → AreFree a → AreFree (add_sequence codec s vs a)
  unfolding add_sequence IsKind
  add_sequence-AreFree s nil a h = h
  add_sequence-AreFree s (cons v vs) a h = add_optional-AreFree _ a (other_kinds.0 _) h

  add_opaque-AreFree :
      (s : Scope) (ws : List String) (a : Atoms) → AreFree a → AreFree (add_opaque codec s ws a)
  unfolding add_opaque IsKind
  add_opaque-AreFree s [] a h = h
  add_opaque-AreFree s (w ∷ ws) a h = add_optional-AreFree _ a (other_kinds.6 _) h

  add_payload-AreFree :
      (s : Scope) (p : Option Payload) (a : Atoms) → AreFree a → AreFree (add_payload codec s p a)
  unfolding add_payload IsKind
  add_payload-AreFree s none a h = h
  add_payload-AreFree s (some p) a h = add_optional-AreFree _ a (other_kinds.7 _) h

  add_mode-AreFree :
      (index : ℕ) (layer : Layer) (a : Atoms) → AreFree a → AreFree (add_mode codec index layer a)
  unfolding IsKind
  add_mode-AreFree index layer a h = elim (Bool-cases (is_text (mode_name layer.mode) "default")) [
    | inl e ↦ rw e h
    | inr e ↦ elim (Bool-cases (index == 0)) [
      | inl z ↦ rw (e, z) (add_preferred-AreFree _ a (mode-IsKind _) h)
      | inr z ↦ rw (e, z) (add_preferred-AreFree _ a (mode-IsKind _) h)
    ]
  ]

  add_layers-AreFree :
      (index : ℕ) (layers : List Layer) (a : Atoms)
      → AreFree a
      → AreFree (add_layers codec index layers a)
  unfolding add_layers add_layer
  add_layers-AreFree index [] a h = h
  add_layers-AreFree index (l ∷ layers) a h = add_layers-AreFree (suc index) layers _ (
      add_payload-AreFree l.scope l.payload _ (
        add_opaque-AreFree l.scope l.opaque _ (
          add_args-AreFree l.scope 0 l.args _ (
            add_options-AreFree l.scope (group_by_name l.options []) _ (
              add_sequence-AreFree l.scope (in_sequence l.options) _
                (add_mode-AreFree index l a h))))))

  add_entry-AreFree :
      (key : String) (v : Option String) (a : Atoms) → AreFree a → AreFree (add_entry codec key v a)
  unfolding add_entry IsKind
  add_entry-AreFree key none a h = h
  add_entry-AreFree key (some v) a h = elim (Bool-cases (is_text v "")) [
    | inl e ↦ rw e h
    | inr e ↦ rw e (add_preferred-AreFree _ a (other_kinds.8 _) h)
  ]

  pub atoms_of-AreFree :
      (parsed : Parsed Key) (context : Context) → AreFree (atoms_of codec parsed context)
  unfolding atoms_of AreFree
  atoms_of-AreFree parsed context = add_entry-AreFree "env_id" context.env_id _ (
      add_entry-AreFree "cwd" context.cwd _
        (add_entry-AreFree "repo" context.repo _ (add_layers-AreFree 0 parsed.layers _ (tt, tt))))

  pub ordered_by-IsFree :
      (le : String → String → Bool) (core : List String) (a : Atoms)
      → All (IsFree tool) core
      → AreFree a
      → All (IsFree tool) (ordered_by codec le core a)
  unfolding ordered_by AreFree
  ordered_by-IsFree le core a c h =
      All-append P (sort_by text_le core) _ (All-sort_by P text_le core c) (
        All-append P (sort_by text_le (minus a.preferred core)) _
          (All-sort_by P text_le _ (All-minus P a.preferred core h.0))
          (All-sort_by P le _ (All-minus P _ a.preferred (All-minus P a.optional core h.1))))
    where
      P : String → Type 0
      P = IsFree tool
