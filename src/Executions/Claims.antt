-- ===== src/Executions/Claims.antt =====
-- `register` and `claim` on a registry whose dictionaries fit together.
use claw_tune.Base.{
  ℕ, ◌≡◌, ◌≢◌, refl, sym, ap, ◌∙◌, inl, inr, Bool, Option, none, some, String, arith,
  string_discrete, Option-cases, Bool-cases,
}
use claw_tune.Dict.{get, put, IsUnique}
use claw_tune.Dict.Laws.{get-put_self, get-put_ne, get-pop_ne, put-IsUnique, pop-IsUnique, put-Each}
use claw_tune.Dict.Keep.{only}
use claw_tune.Executions.{Request, Execution, Registry, sweep, is_closed}
use claw_tune.Executions.Calls.{
  ClaimRequest, find, store, new_execution, register_again, register_new, register, claim_record,
  claim_new, claim_found, claim,
}
use claw_tune.Executions.Linked.{IsLinked, get-pop-some, get-put-some, same_value, sweep-IsLinked}
use claw_tune.Executions.Sweep.{get-sweep}

-- No record has the token: what `secrets` promises of a new one.
abbrev pub IsFresh : {Stored : Type 0} → String → Registry Stored → Type 0
IsFresh {Stored} token r = (k : String) (e : Execution Stored) → find k r ≡ some e → e.token ≢ token

module _ {Stored : Type 0} where
  pub only-some :
      (p : Execution Stored → Bool) (o : Option (Execution Stored)) {e : Execution Stored}
      → only p o ≡ some e
      → o ≡ some e
  only-some p none h = cc
  only-some p (some f) h = ground arith

  sweep-IsFresh :
      (now : ℕ) (token : String) (r : Registry Stored)
      → IsUnique string_discrete r.by_execution_id
      → IsFresh token r
      → IsFresh token (sweep now r)
  sweep-IsFresh now token r u fresh k e h =
      fresh k e (only-some _ (find k r) (sym (get-sweep now k r u) ∙ h))

  module _ (request : Request Stored) (token : String) (now : ℕ) (r : Registry Stored)
      (l : IsLinked r) (fresh : IsFresh token r) (absent : find request.execution_id r ≡ none) where
    id : String
    id = request.execution_id

    new : Execution Stored
    new = new_execution request token now r

    unissued : (k : String) → get string_discrete token r.by_token ≢ some k
    unissued k h = let (e, there, tok, _) = l.issued token k h in fresh k e there tok

    register_new-IsLinked : IsLinked (register_new request token now r).1
    unfolding register_new id new
    register_new-IsLinked = record {
      unique = put-IsUnique string_discrete id new r.by_execution_id l.unique;
      unique_tokens = put-IsUnique string_discrete token id r.by_token l.unique_tokens;
      keyed = put-Each string_discrete id new r.by_execution_id refl l.keyed;
      issued = λ t j h. elim (get-put-some t token id r.by_token h) [
        | inl (p, q) ↦ (new, here j q, p, refl)
        | inr (_, old) ↦
            let (e, there, tok, free) = l.issued t j old in
            (
              e,
              get-put_ne string_discrete new r.by_execution_id (elsewhere j e there) ∙ there,
              tok,
              free,
            )
      ];
      waiting = λ j f h free. elim (get-put-some j id new r.by_execution_id h) [
        | inl (p, q) ↦ handed j f p q
        | inr (_, old) ↦
            get-put_ne string_discrete id r.by_token (λ p. fresh j f old (sym p))
            ∙ l.waiting j f old free
      ];
      apart = λ i j f g hf hg p. elim (get-put-some i id new r.by_execution_id hf) [
        | inl (pi, qi) ↦ elim (get-put-some j id new r.by_execution_id hg) [
          | inl (pj, qj) ↦ sym pi ∙ pj
          | inr (_, old) ↦
              absurd (fresh j g old (sym p ∙ sym (ap (λ (x : Execution Stored). x.token) qi)))
        ]
        | inr (_, oldi) ↦ elim (get-put-some j id new r.by_execution_id hg) [
          | inl (pj, qj) ↦
              absurd (fresh i f oldi (p ∙ sym (ap (λ (x : Execution Stored). x.token) qj)))
          | inr (_, oldj) ↦ l.apart i j f g oldi oldj p
        ]
      ];
    }
      where
        here :
            (j : String)
            → id ≡ j
            → get string_discrete j (put string_discrete id new r.by_execution_id) ≡ some new
        here j q = rw (← q) (get-put_self string_discrete id new r.by_execution_id)

        elsewhere : (j : String) (e : Execution Stored) → find j r ≡ some e → id ≢ j
        elsewhere j e there p = ground (arith, p, there, absent)

        handed :
            (j : String) (f : Execution Stored)
            → id ≡ j
            → new ≡ f
            → get string_discrete f.token (put string_discrete token id r.by_token) ≡ some j
        handed j f p q =
            rw (← p, ← (ap (λ (x : Execution Stored). x.token) q))
              (get-put_self string_discrete token id r.by_token)

  pub register_again-same :
      (d : Discrete Stored) (request : Request Stored) (e : Execution Stored) (r : Registry Stored)
      → (register_again d request e r).1 ≡ r
  unfolding register_again
  register_again-same d request e r = ground arith

  module _ (request : ClaimRequest) (update_token : String) (e : Execution Stored)
      (r : Registry Stored) (l : IsLinked r) (found : find request.execution_id r ≡ some e) where
    k : String
    k = request.execution_id

    done : Execution Stored
    done = claim_record request.launcher_pid update_token e

    -- Every record after the claim has the token of one before, under its key.
    token_before :
        (j : String) (f : Execution Stored)
        → find j (store k done r) ≡ some f
        → (g : Execution Stored) × (find j r ≡ some g) × (g.token ≡ f.token)
    unfolding k done
    token_before j f h = elim (get-put-some j k done r.by_execution_id h) [
      | inl (p, q) ↦ (e, rw (← p) found, ap (λ (x : Execution Stored). x.token) q)
      | inr (_, old) ↦ (f, old, refl)
    ]

    claim_new-IsLinked : IsLinked (claim_new request update_token e r).1
    unfolding claim_new k done
    claim_new-IsLinked = record {
      unique = put-IsUnique string_discrete k done r.by_execution_id l.unique;
      unique_tokens = pop-IsUnique string_discrete e.token r.by_token l.unique_tokens;
      keyed = put-Each string_discrete k done r.by_execution_id (l.keyed k e found) l.keyed;
      issued = λ t j h.
          let (other, old) = get-pop-some t e.token r.by_token l.unique_tokens h in
          let (f, there, tok, free) = l.issued t j old in
          (
            f,
            get-put_ne string_discrete done r.by_execution_id (λ p. other (
                  ap (λ (x : Execution Stored). x.token)
                    (same_value k j r.by_execution_id p found there)
                  ∙ tok))
                ∙ there,
            tok,
            free,
          );
      waiting = λ j f h free. elim (get-put-some j k done r.by_execution_id h) [
        | inl (p, q) ↦ absurd (cc)
        | inr (n, old) ↦
            get-pop_ne string_discrete f.token e.token r.by_token
              (λ p. n (l.apart k j e f found old p))
            ∙ l.waiting j f old free
      ];
      apart = λ i j f g hf hg p.
          let (f', of, tf) = token_before i f hf in
          let (g', og, tg) = token_before j g hg in l.apart i j f' g' of og (tf ∙ p ∙ sym tg);
    }

  -- `register` keeps the dictionaries together, if its new token is fresh.
  pub register-IsLinked :
      (d : Discrete Stored) (request : Request Stored) (swept now : ℕ) (token : String)
      (r : Registry Stored)
      → IsLinked r
      → IsFresh token r
      → IsLinked (register d request swept now token r).1
  unfolding register
  register-IsLinked d request swept now token r l fresh =
      let r' = sweep swept r in
      let l' = sweep-IsLinked swept r l in
      elim (Bool-cases (is_closed request.gateway_id request.runtime_id r)) [
        | inl closed ↦ rw closed l
        | inr open_now ↦ elim (Option-cases (find request.execution_id r')) [
          | inl absent ↦
              rw (open_now, absent, register)
                (register_new-IsLinked request token now r' l'
                  (sweep-IsFresh swept token r l.unique fresh) absent)
          | inr (e, there) ↦ rw (open_now, there, register) (again e r' l')
        ]
      ]
    where
      again :
          (e : Execution Stored) (s : Registry Stored)
          → IsLinked s
          → IsLinked (register_again d request e s).1
      again e s h = rw (register_again-same d request e s) h

  claim_found-IsLinked :
      (request : ClaimRequest) (now : ℕ) (update_token : String) (e : Execution Stored)
      (r : Registry Stored)
      → IsLinked r
      → find request.execution_id r ≡ some e
      → IsLinked (claim_found request now update_token e r).1
  unfolding claim_found
  claim_found-IsLinked request now update_token e r l found =
      ground (arith, claim_new-IsLinked request update_token e r l found)

  -- `claim` keeps the dictionaries together.
  pub claim-IsLinked :
      (request : ClaimRequest) (swept now : ℕ) (update_token : String) (r : Registry Stored)
      → IsLinked r
      → IsLinked (claim request swept now update_token r).1
  unfolding claim
  claim-IsLinked request swept now update_token r l =
      let r' = sweep swept r in
      let l' = sweep-IsLinked swept r l in
      elim (Option-cases (find request.execution_id r')) [
        | inl absent ↦ rw (absent, claim) l'
        | inr (e, there) ↦
            rw (there, claim) (claim_found-IsLinked request now update_token e r' l' there)
      ]
