-- ===== src/Command/Sound/Transition.antt =====
-- Leaving a layer: the end of it or the next one.
use claw_tune.Base.{
  ℕ, ◌+◌, ◌-◌, ◌*◌, ◌≤◌, ◌<◌, ◌≡◌, refl, Bool, true, false, String, List, [], ◌∷◌, length,
  length-append, arith,
}
use claw_tune.Command.Grammar.{
  Action, Mode, ActionKind, opaque_action, module_action, script_action, command_action,
}
use claw_tune.Command.Result.{Parsed, Layer, operand_role, payload_role, add_role}
use claw_tune.Command.Reading.{
  Python, is_inline, leave_operands, leave_payload, leave, enter_next, transition,
}
use claw_tune.Command.Sound.{IsSound, add_role-IsSound, same-IsSound, IsFine}
use claw_tune.Command.Sound.Rounds.{finish-IsFine}

module _ (py : Python) (script_identity : String → String) (unresolved : ℕ → Bool) {Key : Type 0}
    (n m : ℕ) where
  open py use {is_number, is_identifier}

  leave_payload-IsSound :
      (b : Bool) (layer : Layer) (rest : List String) (at : ℕ) (r : Parsed Key)
      → IsSound unresolved n r
      → 0 < at
      → at + length rest ≡ n
      → IsSound unresolved n (leave_payload py script_identity unresolved b layer at r)
  unfolding leave_payload
  leave_payload-IsSound true layer rest at r s p e =
      add_role-IsSound unresolved n layer payload_role (at - 1) at r s (omega (arith, p))
        (omega (arith, e)) tt
  leave_payload-IsSound false layer rest at r s p e = s

  leave_operands-IsSound :
      (layer : Layer) (rest : List String) (at : ℕ) (r : Parsed Key)
      → IsSound unresolved n r
      → at + length rest ≡ n
      → IsSound unresolved n (leave_operands py script_identity unresolved layer rest at r)
  unfolding leave_operands
  leave_operands-IsSound layer [] at r s e = s
  leave_operands-IsSound layer (x ∷ xs) at r s e =
      add_role-IsSound unresolved n layer operand_role at _ r s (omega arith) (omega (arith, e)) tt

  leave-layers :
      (b : Bool) (layer : Layer) (rest : List String) (at : ℕ) (r : Parsed Key)
      → (leave_operands py script_identity unresolved layer rest at
          (leave_payload py script_identity unresolved b layer at r)).layers
        ≡ r.layers
  unfolding leave_operands leave_payload add_role
  leave-layers b layer rest at r = ground arith

  module _ (layer : Layer) (value : String) (rest : List String) (at : ℕ) (r : Parsed Key)
      (s : IsSound unresolved n r) (l : length r.layers ≤ 7) (p : 0 < at)
      (e : at + length rest ≡ n) where
    leave-IsFine :
        (mode : Mode)
        → IsFine unresolved n m (leave py script_identity unresolved layer mode value rest at r)
    unfolding leave
    leave-IsFine mode =
        finish-IsFine unresolved n m _ _
          (leave_operands-IsSound layer rest at _
            (leave_payload-IsSound (is_inline mode) layer rest at r s p e) e)
          (rw (leave-layers (is_inline mode) layer rest at r) (omega (arith, l)))

    enter_next-IsFine :
        (mode : Mode) (named : String) (script : Bool)
        → 2 * length rest + 2 < m
        → IsFine unresolved n m
            (enter_next py script_identity unresolved layer mode named value script rest at r)
    unfolding enter_next
    enter_next-IsFine mode named script k = (
      same-IsSound unresolved n r _ refl refl refl refl s,
      (
        omega (arith, p, e),
        omega (arith, l, length-append r.layers (record layer { mode = mode } ∷ [])),
      ),
      k,
    )

    pub transition-IsFine :
        (action : Action)
        → 2 * length rest + 2 < m
        → IsFine unresolved n m
            (transition py script_identity unresolved layer action value rest at r)
    unfolding transition
    transition-IsFine action k = by_kind action.action refl
      where
        by_kind :
            (kind : ActionKind)
            → action.action ≡ kind
            → IsFine unresolved n m
                (transition py script_identity unresolved layer action value rest at r)
        by_kind opaque_action q = rw (q, transition) (leave-IsFine action.mode)
        by_kind script_action q =
            rw (q, transition) (enter_next-IsFine action.mode (script_identity value) true k)
        by_kind module_action q = rw (q, transition) (enter_next-IsFine action.mode value false k)
        by_kind command_action q = rw (q, transition) (enter_next-IsFine action.mode value false k)
