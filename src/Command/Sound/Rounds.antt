-- ===== src/Command/Sound/Rounds.antt =====
-- One round of each loop.
use claw_tune.Base.{
  ℕ, suc, ◌+◌, ◌*◌, ◌≤◌, ◌<◌, ◌≡◌, refl, Bool, false, not, ◌&&◌, ◌||◌, String, List, [], ◌∷◌,
  length, length-append, arith, Bool-cases, Option-cases, inl, inr,
}
use claw_tune.Command.Words.{is_text, starts_dash, split_equals, is_short_cluster, tail, dashed_all}
use claw_tune.Command.Result.{
  Parsed, Layer, Diagnostic, option_role, operand_role, add_role, opaque_result, finish,
  stop_opaque, with_opaque, guess, done, unresolved_expansion, unresolved_option_value,
}
use claw_tune.Command.Guess.{guess_given, is_value, guess_next, guess_option, guess_step}
use claw_tune.Command.Sound.{
  IsResolved, one_known, IsResolved-suc, IsSound, add_role-IsSound, opaque_result-IsSound,
  same-IsSound, opaque_result-layers, Fits, measure, IsFine,
}

module _ (unresolved : ℕ → Bool) {Key : Type 0} (n m : ℕ) where
  pub finish-IsFine :
      (layer : Layer) (r : Parsed Key)
      → IsSound unresolved n r
      → length r.layers ≤ 8
      → IsFine unresolved n m (done (finish layer r))
  finish-IsFine layer r s l = (
    same-IsSound unresolved n r (finish layer r) refl refl refl refl s,
    omega (arith, l, length-append r.layers (layer ∷ [])),
  )

  pub stop-IsFine :
      (layer : Layer) (values : List String) (reason : Diagnostic) (is_invalid : Bool)
      (r : Parsed Key)
      → IsSound unresolved n r
      → length r.layers ≤ 8
      → length values ≤ n
      → IsFine unresolved n m (done (stop_opaque layer values reason is_invalid r))
  stop-IsFine layer values reason is_invalid r s l v =
      finish-IsFine (with_opaque values layer) (opaque_result layer values reason is_invalid r)
        (opaque_result-IsSound unresolved n layer values reason is_invalid r s v)
        (rw (opaque_result-layers unresolved layer values reason is_invalid r) l)

  module _ (is_number : String → Bool) where
    guess_given-IsFine :
        (layer : Layer) (ended : Bool) (names values rest : List String) (at stop : ℕ)
        (r : Parsed Key)
        → IsSound unresolved n r
        → length r.layers ≤ 7
        → at < stop
        → stop + length rest ≡ n
        → IsResolved unresolved at stop
        → 2 * length rest + 1 < m
        → IsFine unresolved n m
            (guess_given is_number unresolved layer ended names values rest at stop r)
    unfolding guess_given add_role
    guess_given-IsFine layer ended names values rest at stop r s l b e h k = (
      add_role-IsSound unresolved n layer option_role at stop r s b (omega (arith, e)) h,
      (e, l),
      k,
    )

    guess_next-IsFine :
        (layer : Layer) (ended : Bool) (token : String) (rest : List String) (at : ℕ)
        (r : Parsed Key)
        → IsSound unresolved n r
        → length r.layers ≤ 7
        → at + suc (length rest) ≡ n
        → unresolved at ≡ false
        → 2 * length rest + 2 < m
        → IsFine unresolved n m (guess_next is_number unresolved layer ended token rest at r)
    unfolding guess_next
    guess_next-IsFine layer ended token [] at r s l e u k =
        guess_given-IsFine layer ended (token ∷ []) [] [] at (suc at) r s l (omega arith)
          (omega (arith, e)) (one_known unresolved at u) (omega (arith, k))
    guess_next-IsFine layer ended token (value ∷ rest) at r s l e u k =
        elim (Bool-cases (unresolved (suc at))) [
          | inl x ↦ rw x (
              stop-IsFine layer (token ∷ value ∷ rest) unresolved_option_value false r s
                (omega (arith, l)) (omega (arith, e)))
          | inr x ↦ elim (Bool-cases (is_value is_number value)) [
            | inl v ↦
                rw (x, v)
                  (guess_given-IsFine layer ended (token ∷ []) (value ∷ []) rest at (suc (suc at)) r
                    s l (omega arith) (omega (arith, e))
                    (IsResolved-suc unresolved at (suc at) (one_known unresolved at u) x)
                    (omega (arith, k)))
            | inr v ↦
                rw (x, v)
                  (guess_given-IsFine layer ended (token ∷ []) [] (value ∷ rest) at (suc at) r s l
                    (omega arith) (omega (arith, e)) (one_known unresolved at u) (omega (arith, k)))
          ]
        ]

    guess_option-IsFine :
        (layer : Layer) (ended : Bool) (token : String) (rest : List String) (at : ℕ)
        (r : Parsed Key)
        → IsSound unresolved n r
        → length r.layers ≤ 7
        → at + suc (length rest) ≡ n
        → unresolved at ≡ false
        → 2 * length rest + 2 < m
        → IsFine unresolved n m (guess_option is_number unresolved layer ended token rest at r)
    unfolding guess_option
    guess_option-IsFine layer ended token rest at r s l e u k =
        elim (Option-cases (split_equals token)) [
          | inr ((name, value), x) ↦
              rw (x, guess_option)
                (guess_given-IsFine layer ended (name ∷ []) (value ∷ []) rest at (suc at) r s l
                  (omega arith) (omega (arith, e)) (one_known unresolved at u) (omega (arith, k)))
          | inl x ↦ elim (Bool-cases (is_short_cluster token)) [
            | inl y ↦
                rw (x, guess_option, y)
                  (guess_given-IsFine layer ended (dashed_all (tail token)) [] rest at (suc at) r s
                    l (omega arith) (omega (arith, e)) (one_known unresolved at u)
                    (omega (arith, k)))
            | inr y ↦
                rw (x, guess_option, y) (guess_next-IsFine layer ended token rest at r s l e u k)
          ]
        ]

    pub guess_step-IsFine :
        (layer : Layer) (ended : Bool) (rest : List String) (at : ℕ) (r : Parsed Key)
        → IsSound unresolved n r
        → Fits unresolved n (guess layer ended rest at) r
        → measure unresolved (guess layer ended rest at) ≤ m
        → IsFine unresolved n m (guess_step is_number unresolved layer ended rest at r)
    unfolding guess_step add_role
    guess_step-IsFine layer ended [] at r s f k = finish-IsFine layer r s (omega (arith, f.1))
    guess_step-IsFine layer ended (token ∷ rest) at r s f k = elim (Bool-cases (unresolved at)) [
      | inl u ↦ rw u (
          stop-IsFine layer (token ∷ rest) unresolved_expansion false r s (omega (arith, f.1))
            (omega (arith, f.0)))
      | inr u ↦ elim (Bool-cases (not ended && is_text token "--")) [
        | inl x ↦ rw (u, x) (s, (omega (arith, f.0), f.1), omega (arith, k))
        | inr x ↦
            elim (Bool-cases
              (ended || (is_text token "-" || (not (starts_dash token) || is_number token)))) [
                | inl y ↦
                    rw (u, x, y)
                      (
                        add_role-IsSound unresolved n layer operand_role at (suc at) r s
                            (omega arith) (omega (arith, f.0)) tt,
                        (omega (arith, f.0), f.1),
                        omega (arith, k),
                      )
                | inr y ↦
                    rw (u, x, y)
                      (guess_option-IsFine layer ended token rest at r s f.1 f.0 u
                        (omega (arith, k)))
              ]
      ]
    ]
