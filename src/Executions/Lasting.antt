-- ===== src/Executions/Lasting.antt =====
-- What one claim and one bind decide for every later one, whatever is called in between.
use claw_tune.Base.{
  ℕ, ℤ, ◌≡◌, ◌≢◌, ◌⊎◌, refl, sym, ◌∙◌, inl, inr, true, none, some, String, List, All, [], ◌∷◌,
  arith, string_discrete, Option-cases, is_positive,
}
use claw_tune.Dict.Laws.{get-put_self}
use claw_tune.Executions.{Execution, Registry, sweep}
use claw_tune.Executions.Calls.{ok, ClaimRequest, Claimed, find, refuse, claim}
use claw_tune.Executions.Reports.{bind_trusted_root}
use claw_tune.Executions.Linked.{IsLinked, sweep-IsLinked}
use claw_tune.Executions.Claims.{claim-IsLinked}
use claw_tune.Executions.Once.{claim_sound, unswept}
use claw_tune.Executions.Updates.{bind_trusted_root-IsLinked}
use claw_tune.Executions.Machine.{Call, run, AllFresh, run-IsLinked}
use claw_tune.Executions.Every.{Registers, Gives, Every, run-Every}

module _ {Stored : Type 0} where
  -- No call of the list registers the identifier.
  abbrev pub NoneRegisters : String → List (Call Stored) → Type 0
  NoneRegisters id = All (λ c. (token : String) → ¬ Registers c id token)

  -- No call of the list registers an execution under the token.
  abbrev pub NoneDraws : String → List (Call Stored) → Type 0
  NoneDraws token = All (λ c. (id : String) → ¬ Registers c id token)

  -- The later claim brings the token of the first, or the identifier, and nothing between the two
  -- registers that anew.
  abbrev pub IsRetry : ClaimRequest → ClaimRequest → List (Call Stored) → Type 0
  IsRetry first second cs =
      ((second.token ≡ first.token) × NoneDraws first.token cs)
      ⊎ ((second.execution_id ≡ first.execution_id) × NoneRegisters first.execution_id cs)

  module _ (d : Discrete Stored) where
    -- An execution that has the token, or the identifier, is claimed; one that has the identifier has
    -- the root.
    abbrev TokenClaimed : String → String → Execution Stored → Type 0
    TokenClaimed token k e = e.token ≡ token → e.claimed ≡ true

    abbrev IdClaimed : String → String → Execution Stored → Type 0
    IdClaimed id k e = id ≡ k → e.claimed ≡ true

    abbrev HasRoot : String → ℤ → String → Execution Stored → Type 0
    HasRoot id pid k e = id ≡ k → e.trusted_root_pid ≡ some pid

    Draws-Gives :
        (token : String) (cs : List (Call Stored))
        → NoneDraws token cs
        → All (Gives d (TokenClaimed token)) cs
    Draws-Gives token [] h = tt
    Draws-Gives token (c ∷ cs) h =
        (λ k e new same. absurd (h.0 k (rw (← same) new)), Draws-Gives token cs h.1)

    Registers-Gives :
        (Holds : String → Execution Stored → Type 0) (id : String) (cs : List (Call Stored))
        → ((k : String) (e : Execution Stored) → ¬ (id ≡ k) → Holds k e)
        → NoneRegisters id cs
        → All (Gives d Holds) cs
    Registers-Gives Holds id [] elsewhere h = tt
    Registers-Gives Holds id (c ∷ cs) elsewhere h = (
      λ k e new. elsewhere k e (λ p. h.0 e.token (rw p new)),
      Registers-Gives Holds id cs elsewhere h.1,
    )

    module _ (first : ClaimRequest) (swept now : ℕ) (token : String) (r : Registry Stored)
        (answer : Claimed Stored) (l : IsLinked r)
        (claims : (claim first swept now token r).0 ≡ ok answer) where
      after_first : Registry Stored
      after_first = (claim first swept now token r).1

      after_first-IdClaimed : Every d (IdClaimed first.execution_id) after_first
      unfolding after_first
      after_first-IdClaimed k e h p =
          let c = claim_sound first swept now token r answer l claims in
          ground (arith, c.taken, p, h)

      after_first-TokenClaimed : Every d (TokenClaimed first.token) after_first
      unfolding after_first
      after_first-TokenClaimed k e h same =
          let c = claim_sound first swept now token r answer l claims in
          elim (string_discrete first.execution_id k) [
            | yes p ↦ after_first-IdClaimed k e h p
            | no n ↦
                let old : find k (sweep swept r) ≡ some e = ground (arith, c.after k, h, n) in
                absurd (
                  n (
                    (sweep-IsLinked swept r l).apart first.execution_id k c.spec e c.there old
                      (c.paid ∙ sym same)))
          ]

    -- On a registry whose tables agree, after a claim that succeeds and any sequence of calls that draws
    -- fresh tokens, no claim with the token of the first succeeds unless one of the calls registers that
    -- token again, and no claim of its execution identifier unless one of them registers that
    -- identifier again.
    pub claim_once :
        (first second : ClaimRequest) (swept now swept' now' : ℕ) (token token' : String)
        (cs : List (Call Stored)) (r : Registry Stored) (answer answer' : Claimed Stored)
        → IsLinked r
        → (claim first swept now token r).0 ≡ ok answer
        → AllFresh d cs (claim first swept now token r).1
        → IsRetry first second cs
        → (claim second swept' now' token' (run d cs (claim first swept now token r).1)).0
          ≢ ok answer'
    unfolding after_first
    claim_once first second swept now swept' now' token token' cs r answer answer' l h fresh retry
          again =
        let s = (claim first swept now token r).1 in
        let ls : IsLinked s = claim-IsLinked first swept now token r l in
        let lt = run-IsLinked d cs s fresh ls in
        let c = claim_sound second swept' now' token' (run d cs s) answer' lt again in
        let there = unswept swept' second.execution_id c.spec (run d cs s) lt c.there in
        elim retry [
          | inl (same, none_draws) ↦
              let done =
                run-Every d (TokenClaimed first.token) cs s
                  (λ k f e goes_on claimed p. goes_on.claimed (claimed (sym goes_on.token ∙ p))) ls
                  fresh (Draws-Gives first.token cs none_draws)
                  (after_first-TokenClaimed first swept now token r answer l h) in
              absurd (ground (arith, done second.execution_id c.spec there (c.paid ∙ same), c.free))
          | inr (same, none_registers) ↦
              let done =
                run-Every d (IdClaimed first.execution_id) cs s
                  (λ k f e goes_on claimed p. goes_on.claimed (claimed p)) ls fresh
                  (Registers-Gives (IdClaimed first.execution_id) first.execution_id cs
                    (λ k e n p. absurd (n p)) none_registers)
                  (after_first-IdClaimed first swept now token r answer l h) in
              absurd (ground (arith, done second.execution_id c.spec there (sym same), c.free))
        ]

    bind_refused :
        (k : String) (first second : ℤ) (r : Registry Stored)
        → ((e : Execution Stored) → find k r ≡ some e → e.trusted_root_pid ≡ some first)
        → first ≢ second
        → is_positive second ≡ true
        → (bind_trusted_root k second r ≡ refuse 409 "trusted_execution_root_changed" r)
          ⊎ ((find k r ≡ none)
              × (bind_trusted_root k second r ≡ refuse 404 "execution_not_found" r))
    unfolding bind_trusted_root
    bind_refused k first second r root other positive = elim (Option-cases (find k r)) [
      | inl absent ↦ inr (absent, rw (absent, bind_trusted_root))
      | inr (e, there) ↦ inl (ground (arith, there, root e there, other, positive))
    ]

    bound-HasRoot :
        (k : String) (first : ℤ) (r : Registry Stored)
        → (bind_trusted_root k first r).0 ≡ ok tt
        → Every d (HasRoot k first) (bind_trusted_root k first r).1
    unfolding bind_trusted_root
    bound-HasRoot k first r h j e found p = elim (Option-cases (find k r)) [
      | inl absent ↦ absurd (ground (arith, absent, h))
      | inr (f, there) ↦
          let put_there =
            get-put_self string_discrete k (record f { trusted_root_pid = some first })
              r.by_execution_id in
          ground (arith, there, h, put_there, p, found)
    ]

    -- On a registry whose tables agree, after a root process is bound to an execution and any sequence
    -- of calls that draws fresh tokens and does not register that execution again, binding any other
    -- positive root is refused and changes nothing: with 409, or with 404 where the execution was swept.
    pub bind_trusted_root-fixed :
        (k : String) (first second : ℤ) (cs : List (Call Stored)) (r : Registry Stored)
        → IsLinked r
        → (bind_trusted_root k first r).0 ≡ ok tt
        → AllFresh d cs (bind_trusted_root k first r).1
        → NoneRegisters k cs
        → first ≢ second
        → is_positive second ≡ true
        → (bind_trusted_root k second (run d cs (bind_trusted_root k first r).1)
            ≡ refuse 409 "trusted_execution_root_changed"
                (run d cs (bind_trusted_root k first r).1))
          ⊎ ((find k (run d cs (bind_trusted_root k first r).1) ≡ none)
              × (bind_trusted_root k second (run d cs (bind_trusted_root k first r).1)
                  ≡ refuse 404 "execution_not_found" (run d cs (bind_trusted_root k first r).1)))
    bind_trusted_root-fixed k first second cs r l h fresh none_registers other positive =
        let s = (bind_trusted_root k first r).1 in
        bind_refused k first second (run d cs s)
          (λ e there.
            run-Every d (HasRoot k first) cs s (λ j f e goes_on root p. goes_on.root first (root p))
              (bind_trusted_root-IsLinked k first r l) fresh
              (Registers-Gives (HasRoot k first) k cs (λ j e n p. absurd (n p)) none_registers)
              (bound-HasRoot k first r h) k e there refl)
          other positive
