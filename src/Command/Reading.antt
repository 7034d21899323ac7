-- ===== src/Command/Reading.antt =====
-- The loop of `invoke` in a layer with a rule: one round for each word. A call of `invoke` from a
-- layer is the last thing that the layer does, so it is a step to a new layer.
use claw_tune.Base.{
  ℕ, zero, suc, ◌+◌, ◌-◌, Bool, true, false, not, ◌&&◌, ◌||◌, Option, none, some, String, List, [],
  ◌∷◌, ◌++◌, length, get_elem?, if◌then◌else◌, ltb, leb, ◌==◌,
}
use claw_tune.Command.Words.{is_text, meets, starts_dash, split_equals}
use claw_tune.Command.Grammar.{
  Action, ActionKind, opaque_action, module_action, script_action, command_action, Mode,
  inline_mode, module_mode, script_mode, command_mode, Slot, operand_slot, script_entry,
  module_entry, command_tail, opaque_payload, Grammar, options_of, literals_of, positionals_of,
  has_assignments, is_intermixed, is_partial, subcommands_of, with_options, find_subcommand,
  persistent_options,
}
use claw_tune.Command.Result.{
  Parsed, Layer, unknown_option, unresolved_expansion, unmodelled_operand, missing_operand,
  partial_grammar, operand_role, subcommand_role, payload_role, inline, joined, is_nil, add_role,
  opaque_result, finish, stop_opaque, Reading, enter, read, Next, go, done,
}
use claw_tune.Command.Options.{Match, matches_of, Applied, applied, halted, moved, apply_options}
use claw_tune.Command.Guess.{with_arg}

abbrev pub is_inline : Mode → Bool
is_inline inline_mode = true
is_inline _ = false

-- `literals.get(token)`
unfoldable pub find_literal : String → List (String × Action) → Option Action
find_literal token [] = none
find_literal token ((word, action) ∷ rest) =
    if is_text word token then some action else find_literal token rest

-- The `while` that skips slots.
unfoldable pub skip_slots : List String → List Slot → ℕ → ℕ
skip_slots seen [] pos = pos
skip_slots seen (slot ∷ slots) pos =
    let more = skip_slots seen slots (suc pos) in
    if meets seen slot.skip_if_options then more else pos

-- `slots[pos:]`
unfoldable pub drop_slots : ℕ → List Slot → List Slot
drop_slots zero slots = slots
drop_slots (suc n) [] = []
drop_slots (suc n) (slot ∷ slots) = drop_slots n slots

-- Whether a slot lacks operands: the loop behind the words, `index` being the place of the first.
unfoldable pub lacks_operand : List String → (pos consumed index : ℕ) → List Slot → Bool
lacks_operand seen pos consumed index [] = false
lacks_operand seen pos consumed index (slot ∷ slots) =
    (not (meets seen slot.skip_if_options || meets seen slot.optional_if_options)
      && (leb pos index && ltb (if index == pos then consumed else 0) slot.least))
    || lacks_operand seen pos consumed (suc index) slots

-- `PurePosixPath`, `float` and `str.isidentifier` belong to Python's library.
pub record Python : Type 0 where
  pub path_name : String → String
  pub is_number : String → Bool
  pub is_identifier : String → Bool

abbrev pub is_filled : Option ℕ → ℕ → Bool
is_filled none consumed = false
is_filled (some most) consumed = leb most consumed

-- `"=" in token and token.split("=", 1)[0].isidentifier()`
abbrev pub is_assignment : (is_identifier : String → Bool) → Option (String × String) → Bool
is_assignment is_identifier none = false
is_assignment is_identifier (some (name, _)) = is_identifier name

abbrev pub entry_action : ActionKind → Mode → Action
entry_action kind mode = record { action = kind; mode = mode }

module _ {Key : Type 0} (py : Python) (script_identity : String → String)
    (unresolved : ℕ → Bool) where
  open py use {is_number, is_identifier}

  -- The words behind the code of an interpreter are its operands.
  unfoldable pub leave_operands : Layer → List String → ℕ → Parsed Key → Parsed Key
  leave_operands layer rest at r =
      if is_nil rest then r else add_role layer operand_role at (at + length rest) r

  unfoldable pub leave_payload : Bool → Layer → ℕ → Parsed Key → Parsed Key
  leave_payload has_code layer at r =
      if has_code then add_role layer payload_role (at - 1) at r else r

  -- The action `opaque`.
  unfoldable pub leave : Layer → Mode → String → List String → ℕ → Parsed Key → Next Key
  leave layer mode value rest at r =
      let has_code = is_inline mode in
      done (
        finish
          (record layer {
            mode = mode;
            payload = if has_code then some (inline value) else layer.payload;
            args = layer.args ++ rest;
          })
          (leave_operands layer rest at (leave_payload has_code layer at r)))

  -- The other actions: a new layer, whose entry is the value.
  unfoldable pub enter_next :
      Layer → Mode → (named value : String) → Bool → List String → ℕ → Parsed Key → Next Key
  enter_next layer mode named value script rest at r =
      go (enter value rest (at - 1) script)
        (finish (record layer { mode = mode }) (record r { target = r.target ++ named ∷ [] }))

  -- `transition`, with the words from `next_index` on and their position.
  unfoldable pub transition :
      Layer → Action → (value : String) → (rest : List String) → (at : ℕ) → Parsed Key → Next Key
  transition layer action value rest at r = elim action.action [
    | opaque_action ↦ leave layer action.mode value rest at r
    | script_action ↦ enter_next layer action.mode (script_identity value) value true rest at r
    | module_action ↦ enter_next layer action.mode value value false rest at r
    | command_action ↦ enter_next layer action.mode value value false rest at r
  ]

  -- A word that fills the slot.
  unfoldable pub fill_slot : Reading → String → List String → ℕ → Slot → Parsed Key → Next Key
  fill_slot s token rest pos slot r =
      let consumed = s.consumed + 1 in
      let is_full = is_filled slot.most consumed in
      go
        (read (record s {
          layer = with_arg token s.layer;
          pos = if is_full then suc pos else pos;
          consumed = if is_full then 0 else consumed;
          ended = s.ended || not (is_intermixed s.grammar);
          at = suc s.at;
          rest = rest;
        }))
        (add_role s.layer operand_role s.at (suc s.at) r)

  -- The rest of the words is a payload.
  unfoldable pub take_payload : Reading → String → List String → Parsed Key → Next Key
  take_payload s token rest r =
      let r' = add_role s.layer payload_role s.at (s.at + suc (length rest)) r in
      done (
        finish (record s.layer { payload = some (joined (token ∷ rest)) })
          (if is_partial s.grammar then opaque_result s.layer [] partial_grammar false r' else r'))

  unfoldable pub read_slot : Reading → String → List String → ℕ → Slot → Parsed Key → Next Key
  read_slot s token rest pos slot r = elim slot.role [
    | script_entry ↦
        transition s.layer (entry_action script_action script_mode) token rest (suc s.at) r
    | module_entry ↦
        transition s.layer (entry_action module_action module_mode) token rest (suc s.at) r
    | command_tail ↦
        transition s.layer (entry_action command_action command_mode) token rest (suc s.at) r
    | opaque_payload ↦ take_payload s token rest r
    | operand_slot ↦ fill_slot s token rest pos slot r
  ]

  -- A word that is no option and no subcommand.
  unfoldable pub read_operand : Reading → String → List String → Parsed Key → Next Key
  read_operand s token rest r =
      if has_assignments s.grammar && is_assignment is_identifier (split_equals token)
      then go (read (record s { layer = with_arg token s.layer; at = suc s.at; rest = rest })) r
      else let slots = positionals_of s.grammar in
        let pos = skip_slots s.seen (drop_slots s.pos slots) s.pos in
        elim (get_elem? slots pos) [
          | none ↦ done (stop_opaque s.layer (token ∷ rest) unmodelled_operand false r)
          | some slot ↦ read_slot s token rest pos slot r
        ]

  unfoldable pub read_subcommand :
      Reading → String → List String → String → Grammar → Parsed Key → Next Key
  read_subcommand s token rest canonical g r =
      go
        (read (record s {
          grammar = with_options (persistent_options (options_of s.grammar)) g;
          consumed = 0;
          at = suc s.at;
          rest = rest;
        }))
        (record (add_role s.layer subcommand_role s.at (suc s.at) r) {
          target = r.target ++ canonical ∷ [];
        })

  -- A word that matches no option.
  unfoldable pub read_plain : Reading → String → List String → Parsed Key → Next Key
  read_plain s token rest r =
      if not s.ended && (starts_dash token && not (is_text token "-"))
      then done (stop_opaque s.layer (token ∷ rest) (unknown_option token) false r)
      else elim (find_subcommand token (subcommands_of s.grammar)) [
        | none ↦ read_operand s token rest r
        | some (canonical, g) ↦
            if not s.ended && s.pos == 0
            then read_subcommand s token rest canonical g r
            else read_operand s token rest r
      ]

  -- What the matched options lead to.
  unfoldable pub read_applied : Reading → String → List String → Applied Key → Next Key
  read_applied s token rest (applied layer seen rest' at r) =
      go (read (record s { layer = layer; seen = seen; at = at; rest = rest' })) r
  read_applied s token rest (halted layer reason is_invalid r) =
      done (stop_opaque layer (token ∷ rest) reason is_invalid r)
  read_applied s token rest (moved action value rest' at layer r) =
      transition layer action value rest' at r

  unfoldable pub read_matched : Reading → String → List String → List Match → Parsed Key → Next Key
  read_matched s token rest [] r = read_plain s token rest r
  read_matched s token rest (m ∷ ms) r = read_applied s token rest (
      apply_options is_number unresolved s.at (options_of s.grammar) (m ∷ ms) s.layer s.seen rest
        (suc s.at) r)

  -- One round of the loop, and the check behind it.
  unfoldable pub read_word : Reading → String → List String → Parsed Key → Next Key
  read_word s token rest r =
      if unresolved s.at
      then done (stop_opaque s.layer (token ∷ rest) unresolved_expansion false r)
      else elim (if s.ended then none else find_literal token (literals_of s.grammar)) [
        | some action ↦ transition s.layer action token rest (suc s.at) r
        | none ↦
            if not s.ended && is_text token "--"
            then go (read (record s { ended = true; at = suc s.at; rest = rest })) r
            else read_matched s token rest
                (if s.ended then [] else matches_of s.grammar (s.at == suc s.offset) token) r
      ]

  unfoldable pub read_end : Reading → Parsed Key → Next Key
  read_end s r = done (
      finish s.layer (
        if lacks_operand s.seen s.pos s.consumed 0 (positionals_of s.grammar)
        then opaque_result s.layer [] missing_operand true r
        else r))

  unfoldable pub read_step : Reading → Parsed Key → Next Key
  read_step s r = elim s.rest [ [] ↦ read_end s r | token ∷ rest ↦ read_word s token rest r ]
