-- ===== src/Command/Sound/Reads.antt =====
-- One round of the loop in a layer with a rule.
use claw_tune.Base.{
  ℕ, suc, ◌+◌, ◌*◌, ◌≤◌, ◌<◌, ◌≡◌, refl, ap, Bool, true, false, not, ◌&&◌, Option, none, some,
  String, List, [], ◌∷◌, length, arith, Bool-cases, if◌then◌else◌, inl, inr, ◌==◌,
}
use claw_tune.Command.Words.{is_text, starts_dash}
use claw_tune.Command.Grammar.{
  Action, Grammar, options_of, literals_of, positionals_of, find_subcommand, subcommands_of,
}
use claw_tune.Command.Result.{
  Parsed, subcommand_role, add_role, opaque_result, Reading, read, go, unresolved_expansion,
  unknown_option, missing_operand,
}
use claw_tune.Command.Options.{Match, matches_of, Applied, applied, halted, moved}
use claw_tune.Command.Reading.{
  Python, transition, read_operand, read_subcommand, read_plain, read_applied, read_matched,
  read_word, read_end, read_step, find_literal, lacks_operand,
}
use claw_tune.Command.Sound.{
  one_known, IsSound, add_role-IsSound, opaque_result-IsSound, same-IsSound, add_role-layers,
  opaque_result-layers, Fits, measure, IsFine,
}
use claw_tune.Command.Sound.Given.{IsGiven, apply_options-IsGiven}
use claw_tune.Command.Sound.Rounds.{finish-IsFine, stop-IsFine}
use claw_tune.Command.Sound.Transition.{transition-IsFine}
use claw_tune.Command.Sound.Operands.{stop, leaves, read_operand-IsFine}

module _ (py : Python) (script_identity : String → String) (unresolved : ℕ → Bool) {Key : Type 0}
    (n m : ℕ) where
  open py use {is_number, is_identifier}

  -- A word of the loop, with what holds when it is read.
  module _ (w : Reading) (token : String) (rest : List String) (r : Parsed Key)
      (s : IsSound unresolved n r) (l : length r.layers ≤ 7) (e : w.at + suc (length rest) ≡ n)
      (k : 2 * length rest + 2 < m) where
    read_subcommand-IsFine :
        (canonical : String) (g : Grammar)
        → unresolved w.at ≡ false
        → IsFine unresolved n m
            (read_subcommand py script_identity unresolved w token rest canonical g r)
    unfolding read_subcommand
    read_subcommand-IsFine canonical g u = (
      same-IsSound unresolved n (add_role w.layer subcommand_role w.at (suc w.at) r) _ refl refl
          refl refl
          (add_role-IsSound unresolved n w.layer subcommand_role w.at (suc w.at) r s (omega arith)
            (omega (arith, e)) (one_known unresolved w.at u)),
      (
        omega (arith, e),
        rw (add_role-layers unresolved w.layer subcommand_role w.at (suc w.at) r) l,
      ),
      omega (arith, k),
    )

    read_plain-IsFine :
        unresolved w.at ≡ false
        → IsFine unresolved n m (read_plain py script_identity unresolved w token rest r)
    unfolding read_plain
    read_plain-IsFine u =
        elim (Bool-cases (not w.ended && (starts_dash token && not (is_text token "-")))) [
          | inl q ↦ rw q (
              stop py script_identity unresolved n m w token rest r s l e k w.layer
                (unknown_option token))
          | inr q ↦ rw q (by_subcommand (find_subcommand token (subcommands_of w.grammar)))
        ]
      where
        by_subcommand :
            (sub : Option (String × Grammar))
            → IsFine unresolved n m (elim sub [
              | none ↦ read_operand py script_identity unresolved w token rest r
              | some (canonical, g) ↦
                  if not w.ended && w.pos == 0
                  then read_subcommand py script_identity unresolved w token rest canonical g r
                  else read_operand py script_identity unresolved w token rest r
            ])
        by_subcommand none =
            read_operand-IsFine py script_identity unresolved n m w token rest r s l e k
        by_subcommand (some (canonical, g)) = elim (Bool-cases (not w.ended && w.pos == 0)) [
          | inl q ↦ rw q (read_subcommand-IsFine canonical g u)
          | inr q ↦
              rw q (read_operand-IsFine py script_identity unresolved n m w token rest r s l e k)
        ]

    read_applied-IsFine :
        (a : Applied Key)
        → IsGiven is_number unresolved (options_of w.grammar) n w.at (suc w.at) a
        → IsFine unresolved n m (read_applied py script_identity unresolved w token rest a)
    unfolding read_applied
    read_applied-IsFine (applied layer seen rest' at r') (s', l', b, e', h) =
        (s', (e', l'), omega (arith, b, e', e, k))
    read_applied-IsFine (halted layer reason is_invalid r') (s', l') =
        stop-IsFine unresolved n m layer (token ∷ rest) reason is_invalid r' s' (omega (arith, l'))
          (omega (arith, e))
    read_applied-IsFine (moved action value rest' at layer r') (s', l', b, e') =
        transition-IsFine py script_identity unresolved n m layer value rest' at r' s' l'
          (omega (arith, b)) e' action (omega (arith, b, e', e, k))

    read_matched-IsFine :
        (ms : List Match)
        → unresolved w.at ≡ false
        → IsFine unresolved n m (read_matched py script_identity unresolved w token rest ms r)
    unfolding read_matched
    read_matched-IsFine [] u = read_plain-IsFine u
    read_matched-IsFine (x ∷ xs) u = read_applied-IsFine _ (
        apply_options-IsGiven is_number unresolved (options_of w.grammar) n w.at (x ∷ xs) w.layer
          w.seen rest (suc w.at) r s l (omega arith) (omega (arith, e))
          (one_known unresolved w.at u))

    read_word-IsFine :
        IsFine unresolved n m (read_word py script_identity unresolved w token rest r)
    unfolding read_word
    read_word-IsFine = elim (Bool-cases (unresolved w.at)) [
      | inl u ↦ rw u (
          stop py script_identity unresolved n m w token rest r s l e k w.layer
            unresolved_expansion)
      | inr u ↦
          rw u (by_literal u (if w.ended then none else find_literal token (literals_of w.grammar)))
    ]
      where
        by_literal :
            unresolved w.at ≡ false
            → (literal : Option Action)
            → IsFine unresolved n m (elim literal [
              | some action ↦
                  transition py script_identity unresolved w.layer action token rest (suc w.at) r
              | none ↦
                  if not w.ended && is_text token "--"
                  then go (read (record w { ended = true; at = suc w.at; rest = rest })) r
                  else read_matched py script_identity unresolved w token rest
                      (if w.ended then [] else matches_of w.grammar (w.at == suc w.offset) token)
                      r
            ])
        by_literal u (some action) =
            leaves py script_identity unresolved n m w token rest r s l e k action
        by_literal u none = elim (Bool-cases (not w.ended && is_text token "--")) [
          | inl q ↦ rw q (s, (omega (arith, e), l), omega (arith, k))
          | inr q ↦ rw q (read_matched-IsFine _ u)
        ]

  pub read_step-IsFine :
      (w : Reading) (r : Parsed Key)
      → IsSound unresolved n r
      → Fits unresolved n (read w) r
      → measure unresolved (read w) ≤ m
      → IsFine unresolved n m (read_step py script_identity unresolved w r)
  unfolding read_step read_end
  read_step-IsFine w r s f k = by_rest w.rest refl
    where
      rest_at :
          {token : String} {rest : List String}
          → w.rest ≡ token ∷ rest
          → w.at + suc (length rest) ≡ n
      rest_at q = omega (arith, f.0, ap (length {A = String}) q)

      rest_left :
          {token : String} {rest : List String} → w.rest ≡ token ∷ rest → 2 * length rest + 2 < m
      rest_left q = omega (arith, k, ap (length {A = String}) q)

      read_end-IsFine : IsFine unresolved n m (read_end py script_identity unresolved w r)
      read_end-IsFine =
          elim (Bool-cases (lacks_operand w.seen w.pos w.consumed 0 (positionals_of w.grammar))) [
            | inl x ↦
                rw (x, read_end)
                  (finish-IsFine unresolved n m w.layer
                    (opaque_result w.layer [] missing_operand true r)
                    (opaque_result-IsSound unresolved n w.layer [] missing_operand true r s
                      (omega arith))
                    (rw (opaque_result-layers unresolved w.layer [] missing_operand true r)
                      (omega (arith, f.1))))
            | inr x ↦
                rw (x, read_end) (finish-IsFine unresolved n m w.layer r s (omega (arith, f.1)))
          ]

      by_rest :
          (rest : List String)
          → w.rest ≡ rest
          → IsFine unresolved n m (read_step py script_identity unresolved w r)
      by_rest [] q = rw (q, read_step) read_end-IsFine
      by_rest (token ∷ rest) q =
          rw (q, read_step) (read_word-IsFine w token rest r s f.1 (rest_at q) (rest_left q))
