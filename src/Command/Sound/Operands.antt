-- ===== src/Command/Sound/Operands.antt =====
-- A word that is no option: where it goes.
use claw_tune.Base.{
  ℕ, suc, ◌+◌, ◌*◌, ◌≤◌, ◌<◌, ◌≡◌, refl, Bool, false, ◌&&◌, Option, none, some, String, List, [],
  ◌∷◌, length, arith, get_elem?, Bool-cases, inl, inr,
}
use claw_tune.Command.Words.{split_equals}
use claw_tune.Command.Grammar.{
  Action, Slot, SlotRole, operand_slot, script_entry, module_entry, command_tail, opaque_payload,
  positionals_of, has_assignments, is_partial,
}
use claw_tune.Command.Result.{
  Parsed, Layer, Diagnostic, operand_role, payload_role, add_role, opaque_result, stop_opaque,
  Reading, done, unmodelled_operand, partial_grammar,
}
use claw_tune.Command.Reading.{
  Python, transition, fill_slot, take_payload, read_slot, read_operand, is_assignment, skip_slots,
  drop_slots,
}
use claw_tune.Command.Sound.{
  IsSound, add_role-IsSound, opaque_result-IsSound, add_role-layers, opaque_result-layers, IsFine,
}
use claw_tune.Command.Sound.Rounds.{finish-IsFine, stop-IsFine}
use claw_tune.Command.Sound.Transition.{transition-IsFine}

module _ (py : Python) (script_identity : String → String) (unresolved : ℕ → Bool) {Key : Type 0}
    (n m : ℕ) where
  open py use {is_number, is_identifier}

  -- A word of the loop, with what holds when it is read.
  module _ (w : Reading) (token : String) (rest : List String) (r : Parsed Key)
      (s : IsSound unresolved n r) (l : length r.layers ≤ 7) (e : w.at + suc (length rest) ≡ n)
      (k : 2 * length rest + 2 < m) where
    pub stop :
        (layer : Layer) (reason : Diagnostic)
        → IsFine unresolved n m (done (stop_opaque layer (token ∷ rest) reason false r))
    stop layer reason =
        stop-IsFine unresolved n m layer (token ∷ rest) reason false r s (omega (arith, l))
          (omega (arith, e))

    pub leaves :
        (action : Action)
        → IsFine unresolved n m
            (transition py script_identity unresolved w.layer action token rest (suc w.at) r)
    leaves action =
        transition-IsFine py script_identity unresolved n m w.layer token rest (suc w.at) r s l
          (omega arith) (omega (arith, e)) action k

    fill_slot-IsFine :
        (pos : ℕ) (slot : Slot)
        → IsFine unresolved n m (fill_slot py script_identity unresolved w token rest pos slot r)
    unfolding fill_slot add_role
    fill_slot-IsFine pos slot = (
      add_role-IsSound unresolved n w.layer operand_role w.at (suc w.at) r s (omega arith)
          (omega (arith, e)) tt,
      (omega (arith, e), l),
      omega (arith, k),
    )

    take_payload-IsFine :
        IsFine unresolved n m (take_payload py script_identity unresolved w token rest r)
    unfolding take_payload
    take_payload-IsFine =
        let r' = add_role w.layer payload_role w.at (w.at + suc (length rest)) r in
        let s' : IsSound unresolved n r' =
          add_role-IsSound unresolved n w.layer payload_role w.at _ r s (omega arith)
            (omega (arith, e)) tt in
        let l' : length r'.layers ≤ 7 =
          rw (add_role-layers unresolved w.layer payload_role w.at (w.at + suc (length rest)) r)
            l in
        elim (Bool-cases (is_partial w.grammar)) [
          | inl q ↦ rw q (
              finish-IsFine unresolved n m _ (opaque_result w.layer [] partial_grammar false r')
                (opaque_result-IsSound unresolved n w.layer [] partial_grammar false r' s'
                  (omega arith))
                (rw (opaque_result-layers unresolved w.layer [] partial_grammar false r')
                  (omega (arith, l'))))
          | inr q ↦ rw q (finish-IsFine unresolved n m _ r' s' (omega (arith, l')))
        ]

    read_slot-IsFine :
        (pos : ℕ) (slot : Slot)
        → IsFine unresolved n m (read_slot py script_identity unresolved w token rest pos slot r)
    unfolding read_slot
    read_slot-IsFine pos slot = by_role slot.role refl
      where
        by_role :
            (role : SlotRole)
            → slot.role ≡ role
            → IsFine unresolved n m
                (read_slot py script_identity unresolved w token rest pos slot r)
        by_role script_entry q = rw (q, read_slot) (leaves _)
        by_role module_entry q = rw (q, read_slot) (leaves _)
        by_role command_tail q = rw (q, read_slot) (leaves _)
        by_role opaque_payload q = rw (q, read_slot) take_payload-IsFine
        by_role operand_slot q = rw (q, read_slot) (fill_slot-IsFine pos slot)

    pub read_operand-IsFine :
        IsFine unresolved n m (read_operand py script_identity unresolved w token rest r)
    unfolding read_operand
    read_operand-IsFine =
        elim (Bool-cases
          (has_assignments w.grammar && is_assignment is_identifier (split_equals token))) [
            | inl q ↦ rw q (s, (omega (arith, e), l), omega (arith, k))
            | inr q ↦ rw q (
                by_slot (
                  get_elem? (positionals_of w.grammar)
                    (skip_slots w.seen (drop_slots w.pos (positionals_of w.grammar)) w.pos)))
          ]
      where
        by_slot :
            (slot : Option Slot)
            → IsFine unresolved n m (elim slot [
              | none ↦ done (stop_opaque w.layer (token ∷ rest) unmodelled_operand false r)
              | some x ↦
                  read_slot py script_identity unresolved w token rest
                    (skip_slots w.seen (drop_slots w.pos (positionals_of w.grammar)) w.pos)
                    x
                    r
            ])
        by_slot none = stop w.layer unmodelled_operand
        by_slot (some slot) = read_slot-IsFine _ slot
