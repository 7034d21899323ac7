-- ===== src/Command/Sound/Given.antt =====
-- Options and their values.
use claw_tune.Base.{
  ℕ, suc, ◌+◌, ◌≤◌, ◌<◌, ◌≡◌, Bool, false, String, List, [], ◌∷◌, ◌++◌, length, arith, Bool-cases,
  Option-cases, ltb, is_some, ◌&&◌, inl, inr,
}
use claw_tune.Command.Grammar.{Opt, Action}
use claw_tune.Command.Result.{
  Parsed, Layer, option_role, entry_option_role, unresolved_option_value, add_role,
}
use claw_tune.Command.Options.{
  Match, Take, taken, stopped, Applied, applied, halted, moved, breaks_before, breaks_behind,
  take_values, move_entry, settle_option, apply_option, apply_options, first_values, is_flag,
}
use claw_tune.Command.Sound.{IsResolved, IsResolved-suc, IsSound, add_role-IsSound}

module _ (is_number : String → Bool) (unresolved : ℕ → Bool) (options : List Opt) where
  -- The words that were taken are known, and the rest is where the position says.
  abbrev IsTaken : (start n at : ℕ) → Take → Type 0
  IsTaken start n at (taken values rest at') =
      (at ≤ at') × (at' + length rest ≡ n) × IsResolved unresolved start at'
  IsTaken start n at stopped = Unit

  take_values-IsTaken :
      (o : Opt) (start n : ℕ) (values rest : List String) (at : ℕ)
      → at + length rest ≡ n
      → IsResolved unresolved start at
      → IsTaken start n at (take_values is_number unresolved options o values rest at)
  unfolding take_values
  take_values-IsTaken o start n values [] at e h = (omega arith, e, h)
  take_values-IsTaken o start n values (value ∷ rest) at e h =
      elim (Bool-cases (breaks_before is_number unresolved o (length values) value)) [
        | inl b ↦ rw b (omega arith, e, h)
        | inr b ↦ elim (Bool-cases (unresolved at)) [
          | inl u ↦ rw (b, u) tt
          | inr u ↦
              elim (Bool-cases
                (breaks_behind is_number unresolved options o (length values) value)) [
                  | inl c ↦ rw (b, u, c) (omega arith, e, h)
                  | inr c ↦
                      rw (b, u, c)
                        (later
                          (take_values is_number unresolved options o (values ++ value ∷ []) rest
                            (suc at))
                          (take_values-IsTaken o start n (values ++ value ∷ []) rest (suc at)
                            (omega (arith, e)) (IsResolved-suc unresolved start at h u)))
                ]
        ]
      ]
    where
      later : (t : Take) → IsTaken start n (suc at) t → IsTaken start n at t
      later (taken vs rest' at') (a, b, c) = (omega (arith, a), b, c)
      later stopped h = tt

  module _ {Key : Type 0} (n start : ℕ) where
    abbrev pub IsGiven : (at : ℕ) → Applied Key → Type 0
    IsGiven at (applied layer seen rest at' r) =
        IsSound unresolved n r
        × (length r.layers ≤ 7)
        × (at ≤ at')
        × (at' + length rest ≡ n)
        × IsResolved unresolved start at'
    IsGiven at (halted layer reason is_invalid r) = IsSound unresolved n r × (length r.layers ≤ 7)
    IsGiven at (moved action value rest at' layer r) =
        IsSound unresolved n r × (length r.layers ≤ 7) × (at ≤ at') × (at' + length rest ≡ n)

    IsGiven-later : (at at' : ℕ) (a : Applied Key) → at ≤ at' → IsGiven at' a → IsGiven at a
    IsGiven-later at at' (applied layer seen rest at'' r) le (s, l, b, e, h) =
        (s, l, omega (arith, le, b), e, h)
    IsGiven-later at at' (halted layer reason is_invalid r) le k = k
    IsGiven-later at at' (moved action value rest at'' layer r) le (s, l, b, e) =
        (s, l, omega (arith, le, b), e)

    move_entry-IsGiven :
        (action : Action) (values rest : List String) (at : ℕ) (layer : Layer) (r : Parsed Key)
        → IsSound unresolved n r
        → length r.layers ≤ 7
        → at + length rest ≡ n
        → IsGiven at (move_entry action values rest at layer r)
    unfolding move_entry
    move_entry-IsGiven action [] rest at layer r s l e = (s, l)
    move_entry-IsGiven action (value ∷ _) rest at layer r s l e = (s, l, omega arith, e)

    settle_option-IsGiven :
        (o : Opt) (layer : Layer) (seen values rest : List String) (at : ℕ) (r : Parsed Key)
        → IsSound unresolved n r
        → length r.layers ≤ 7
        → start < at
        → at + length rest ≡ n
        → IsResolved unresolved start at
        → IsGiven at
            (settle_option is_number unresolved start options o layer seen values rest at r)
    unfolding settle_option add_role
    settle_option-IsGiven o layer seen values rest at r s l b e h =
        elim (Bool-cases (ltb (length values) o.least)) [
          | inl few ↦ rw few (s, l)
          | inr enough ↦ elim (Option-cases o.transition) [
            | inl stays ↦
                rw (enough, stays)
                  (
                    add_role-IsSound unresolved n layer option_role start at r s b
                        (omega (arith, e)) h,
                    l,
                    omega arith,
                    e,
                    h,
                  )
            | inr (action, moves) ↦
                rw (enough, moves)
                  (move_entry-IsGiven action values rest at layer _
                    (add_role-IsSound unresolved n layer entry_option_role start at r s b
                      (omega (arith, e)) h)
                    l e)
          ]
        ]

    apply_option-IsGiven :
        (m : Match) (layer : Layer) (seen rest : List String) (at : ℕ) (r : Parsed Key)
        → IsSound unresolved n r
        → length r.layers ≤ 7
        → start < at
        → at + length rest ≡ n
        → IsResolved unresolved start at
        → IsGiven at (apply_option is_number unresolved start options m layer seen rest at r)
    unfolding apply_option
    apply_option-IsGiven (o, attached) layer seen rest at r s l b e h =
        elim (Bool-cases (is_some attached && is_flag o)) [
          | inl bad ↦ rw bad (s, l)
          | inr good ↦ rw good (
              with_taken
                (take_values is_number unresolved options o (first_values attached) rest at)
                (take_values-IsTaken o start n (first_values attached) rest at e h))
        ]
      where
        with_taken :
            (t : Take)
            → IsTaken start n at t
            → IsGiven at (elim t [
              | stopped ↦ halted layer unresolved_option_value false r
              | taken values rest' at' ↦
                  settle_option is_number unresolved start options o layer seen values rest' at' r
            ])
        with_taken stopped k = (s, l)
        with_taken (taken values rest' at') (a, c, k) =
            IsGiven-later at at' _ a
              (settle_option-IsGiven o layer seen values rest' at' r s l (omega (arith, a, b)) c k)

    pub apply_options-IsGiven :
        (ms : List Match) (layer : Layer) (seen rest : List String) (at : ℕ) (r : Parsed Key)
        → IsSound unresolved n r
        → length r.layers ≤ 7
        → start < at
        → at + length rest ≡ n
        → IsResolved unresolved start at
        → IsGiven at (apply_options is_number unresolved start options ms layer seen rest at r)
    unfolding apply_options
    apply_options-IsGiven [] layer seen rest at r s l b e h = (s, l, omega arith, e, h)
    apply_options-IsGiven (m ∷ ms) layer seen rest at r s l b e h =
        rest_of (apply_option is_number unresolved start options m layer seen rest at r)
          (apply_option-IsGiven m layer seen rest at r s l b e h)
          (λ layer' seen' rest' at' r'. apply_options-IsGiven ms layer' seen' rest' at' r')
      where
        rest_of :
            (a : Applied Key)
            → IsGiven at a
            → ((layer' : Layer) (seen' rest' : List String) (at' : ℕ) (r' : Parsed Key)
                → IsSound unresolved n r'
                → length r'.layers ≤ 7
                → start < at'
                → at' + length rest' ≡ n
                → IsResolved unresolved start at'
                → IsGiven at'
                    (apply_options is_number unresolved start options ms layer' seen' rest' at' r'))
            → IsGiven at (elim a [
              | applied layer' seen' rest' at' r' ↦
                  apply_options is_number unresolved start options ms layer' seen' rest' at' r'
              | halted layer' reason is_invalid r' ↦ halted layer' reason is_invalid r'
              | moved action value rest' at' layer' r' ↦ moved action value rest' at' layer' r'
            ])
        rest_of (applied layer' seen' rest' at' r') (s', l', a, e', h') more =
            IsGiven-later at at' _ a
              (more layer' seen' rest' at' r' s' l' (omega (arith, a, b)) e' h')
        rest_of (halted layer' reason is_invalid r') k more = k
        rest_of (moved action value rest' at' layer' r') k more = k
