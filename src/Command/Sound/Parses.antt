-- ===== src/Command/Sound/Parses.antt =====
-- The whole parse.
use claw_tune.Base.{
  ℕ, zero, suc, ◌+◌, ◌*◌, ◌≤◌, ◌<◌, ◌≡◌, refl, Bool, false, ◌||◌, ◌&&◌, Option, none, some, is_none,
  String, List, [], ◌∷◌, length, arith, Bool-cases, ltb, inl, inr,
}
use claw_tune.Command.Words.{has_slash}
use claw_tune.Command.Grammar.{Rule}
use claw_tune.Command.Result.{
  Parsed, Layer, entry_role, partial, word_limit, layer_limit, missing_rule, heuristic_arguments,
  unresolved_executable, add_role, opaque_result, State, enter, guess, read, Next, go, done,
}
use claw_tune.Command.Reading.{Python}
use claw_tune.Command.Parser.{
  new_layer, open_layer, invoke, step, run, new_parsed, parsed, outcome, parse, limit,
}
use claw_tune.Command.Sound.{
  IsSound, add_role-IsSound, opaque_result-IsSound, same-IsSound, add_role-layers, noted-IsSound,
  worse-ne-complete, Fits, measure, IsFine,
}
use claw_tune.Command.Sound.Rounds.{stop-IsFine, guess_step-IsFine}
use claw_tune.Command.Sound.Reads.{read_step-IsFine}

module _ {Key : Type 0} (py : Python) (lookup : String → Bool → Option (Rule × Key))
    (script_identity : String → String) (unresolved : ℕ → Bool) where
  open py use {is_number}

  module _ (n m : ℕ) where
    open_layer-IsFine :
        (rule : Option (Rule × Key)) (layer : Layer) (entry : String) (rest : List String)
        (offset : ℕ) (r : Parsed Key)
        → IsSound unresolved n r
        → length r.layers ≤ 7
        → offset + suc (length rest) ≡ n
        → 2 * length rest + 1 < m
        → IsFine unresolved n m
            (open_layer py lookup script_identity unresolved rule layer entry rest offset r)
    unfolding open_layer opaque_result add_role
    open_layer-IsFine none layer entry rest offset r s l e k = (
      noted-IsSound unresolved n (heuristic_arguments entry)
          (opaque_result layer [] (missing_rule entry) false r)
          (opaque_result-IsSound unresolved n layer [] (missing_rule entry) false r s (omega arith))
          (worse-ne-complete false r.status),
      (omega (arith, e), l),
      k,
    )
    open_layer-IsFine (some (rule, key)) layer entry rest offset r s l e k =
        (same-IsSound unresolved n r _ refl refl refl refl s, (omega (arith, e), l), k)

    invoke-IsFine :
        (entry : String) (rest : List String) (offset : ℕ) (script : Bool) (r : Parsed Key)
        → IsSound unresolved n r
        → Fits unresolved n (enter entry rest offset script) r
        → measure unresolved (enter entry rest offset script) ≤ m
        → IsFine unresolved n m
            (invoke py lookup script_identity unresolved entry rest offset script r)
    unfolding invoke
    invoke-IsFine entry rest offset script r s f k =
        let rule = lookup entry script in
        let layer = new_layer py lookup script_identity unresolved rule entry script r in
        let r' = add_role layer entry_role offset (suc offset) r in
        let s' : IsSound unresolved n r' =
          add_role-IsSound unresolved n layer entry_role offset (suc offset) r s (omega arith)
            (omega (arith, f.0)) tt in
        let same : r'.layers ≡ r.layers =
          add_role-layers unresolved layer entry_role offset (suc offset) r in
        elim (Bool-cases (ltb 8 (suc (length r.layers)))) [
          | inl full ↦ rw full (
              stop-IsFine unresolved n m layer rest layer_limit false r' s' (rw same f.1)
                (omega (arith, f.0)))
          | inr room ↦ elim (Bool-cases (unresolved offset)) [
            | inl u ↦
                rw (room, u)
                  (stop-IsFine unresolved n m layer (entry ∷ rest) unresolved_executable false r' s'
                    (rw same f.1) (omega (arith, f.0)))
            | inr u ↦
                rw (room, u)
                  (open_layer-IsFine rule layer entry rest offset r' s'
                    (rw same (ground (arith, room))) f.0 (omega (arith, k)))
          ]
        ]

    step-IsFine :
        (st : State) (r : Parsed Key)
        → IsSound unresolved n r
        → Fits unresolved n st r
        → measure unresolved st ≤ m
        → IsFine unresolved n m (step py lookup script_identity unresolved st r)
    unfolding step
    step-IsFine (enter entry rest offset script) r s f k =
        invoke-IsFine entry rest offset script r s f k
    step-IsFine (guess layer ended rest at) r s f k =
        guess_step-IsFine unresolved n m is_number layer ended rest at r s f k
    step-IsFine (read w) r s f k = read_step-IsFine py script_identity unresolved n m w r s f k

  -- The result of a parse: sound, with at most nine layers.
  abbrev pub IsResult : ℕ → Parsed Key → Type 0
  IsResult n r = IsSound unresolved n r × (length r.layers ≤ 9)

  run-returns :
      (n fuel : ℕ) (st : State) (r : Parsed Key)
      → IsSound unresolved n r
      → Fits unresolved n st r
      → measure unresolved st ≤ fuel
      → (r' : Parsed Key) × (run py lookup script_identity unresolved fuel st r ≡ some r')
        × IsResult n r'
  unfolding run
  run-returns n zero st r s f k = absurd (positive st k)
    where
      positive : (st : State) → measure unresolved st ≤ 0 → ⊥
      positive (enter entry rest offset script) h = omega (arith, h)
      positive (guess layer ended rest at) h = omega (arith, h)
      positive (read w) h = omega (arith, h)
  run-returns n (suc fuel) st r s f k =
      by_next (step py lookup script_identity unresolved st r) (step-IsFine n (suc fuel) st r s f k)
        (λ st' r'. run-returns n fuel st' r')
    where
      by_next :
          (next : Next Key)
          → IsFine unresolved n (suc fuel) next
          → ((st' : State) (r' : Parsed Key)
              → IsSound unresolved n r'
              → Fits unresolved n st' r'
              → measure unresolved st' ≤ fuel
              → (r'' : Parsed Key) × (run py lookup script_identity unresolved fuel st' r'
                  ≡ some r'')
                × IsResult n r'')
          → (r'' : Parsed Key) × (elim next [
            | done r' ↦ some r'
            | go s' r' ↦ run py lookup script_identity unresolved fuel s' r'
          ]
              ≡ some r'')
            × IsResult n r''
      by_next (done r') h more = (r', refl, h)
      by_next (go st' r') (s', f', k') more = more st' r' s' f' (omega (arith, k'))

  -- The parser returns on every command with a word, whatever the rules are. In the result every role
  -- covers at least one word and only words of the command, an option or a subcommand covers no word
  -- with an unresolved expansion, the status is complete exactly if there is no diagnostic, and there
  -- are at most nine layers.
  pub parse-IsResult :
      (entry : String) (rest : List String) (script : Bool)
      → (r : Parsed Key) × (parse py lookup script_identity unresolved (entry ∷ rest) script
          ≡ parsed r)
        × IsResult (suc (length rest)) r
  unfolding parse
  parse-IsResult entry rest script = elim (Bool-cases (ltb limit (suc (length rest)))) [
    | inl long ↦ rw long (
      record (new_parsed py lookup script_identity unresolved (lookup entry script) entry rest) {
        status = partial;
        diagnostics = word_limit ∷ [];
      },
      refl,
      (record { roles = tt; status = (λ e. absurd cc, λ e. absurd cc); words = refl }, omega arith),
    )
    | inr short ↦ rw short (
        returned _ (
          run-returns (suc (length rest)) (2 * length rest + 3)
            (enter entry rest 0 (script || (is_none (lookup entry script) && has_slash entry)))
            (new_parsed py lookup script_identity unresolved (lookup entry script) entry rest)
            (record { roles = tt; status = (λ e. refl, λ e. refl); words = refl })
            (omega arith, omega arith) (omega arith)))
  ]
    where
      returned :
          (end : Option (Parsed Key))
          → (r : Parsed Key) × (end ≡ some r) × IsResult (suc (length rest)) r
          → (r : Parsed Key) × (outcome py lookup script_identity unresolved end ≡ parsed r)
            × IsResult (suc (length rest)) r
      returned end (r, e, h) = (r, rw e refl, h)
