-- ===== src/Executions/Again.antt =====
-- What a registration does, and what it leaves for a second one.
use mathlib.Core.Logic.{ite}
use claw_tune.Base.{
  ◌+◌, ◌⊎◌, ℕ, ◌≡◌, refl, sym, ap, ◌∙◌, inl, inr, false, none, some, String, arith, string_discrete,
  Option-cases, Bool-cases,
}
use claw_tune.Dict.Laws.{get-put_self, get-put}
use claw_tune.Executions.{Request, Execution, Registry, sweep, is_closed, seconds}
use claw_tune.Executions.Calls.{
  ok, Registered, find, new_execution, register_again, register_new, register,
}
use claw_tune.Executions.Sweep.{sweep-closed}
use claw_tune.Executions.Claims.{register_again-same}

module _ {Stored : Type 0} where
  register_again-ok :
      (d : Discrete Stored) (request : Request Stored) (e : Execution Stored) (r : Registry Stored)
      {a : Registered}
      → (register_again d request e r).0 ≡ ok a
      → (e.request ≡ request)
        × (e.claimed ≡ false)
        × (a ≡ record {
          execution_id = request.execution_id;
          one_time_token = e.token;
          expires_at = e.expires_at;
        })
  unfolding register_again
  register_again-ok d request e r h = ground arith

  register_again-same_request :
      (d : Discrete Stored) (request : Request Stored) (e : Execution Stored) (r : Registry Stored)
      → e.request ≡ request
      → e.claimed ≡ false
      → (register_again d request e r).0
        ≡ ok (record {
          execution_id = request.execution_id;
          one_time_token = e.token;
          expires_at = e.expires_at;
        })
  unfolding register_again
  register_again-same_request d request e r same free = ground (arith, same, free)

  -- What a successful registration says about the registry before it, after its sweep, and after it.
  pub record IsRegistered (request : Request Stored) (now : ℕ) (token : String) (a : Registered)
      (r s : Registry Stored) : Type 0 where
    pub record_of : Execution Stored
    pub there : find request.execution_id s ≡ some record_of
    pub same : record_of.request ≡ request
    pub free : record_of.claimed ≡ false
    pub answer : a ≡ record {
      execution_id = request.execution_id;
      one_time_token = record_of.token;
      expires_at = record_of.expires_at;
    }
    pub runtime_open : is_closed request.gateway_id request.runtime_id s ≡ false
    pub origin :
        (find request.execution_id r ≡ some record_of)
        ⊎ ((find request.execution_id r ≡ none)
            × (record_of.token ≡ token)
            × (record_of.expires_at ≡ now + seconds r.token_ttl_s))
    pub others :
        (j : String)
        → find j s ≡ ite (string_discrete request.execution_id j) (some record_of) (find j r)

  same_table :
      (k : String) (f : Execution Stored) (r : Registry Stored) (j : String)
      → find k r ≡ some f
      → find j r ≡ ite (string_discrete k j) (some f) (find j r)
  same_table k f r j h = elim (string_discrete k j) [
    | yes p ↦ ground (arith, p, h)
    | no n ↦ ground (arith, n)
  ]

  -- After a registration that succeeds, an execution that is not claimed stands under its identifier
  -- with exactly its request, its runtime is open, and the answer holds that execution's token and
  -- deadline. That execution stood there before, after the sweep, or none did and it has the new token
  -- and its deadline the configured time from now; every other execution is left as the sweep does.
  pub register_sound :
      (d : Discrete Stored) (request : Request Stored) (swept now : ℕ) (token : String)
      (r : Registry Stored) (a : Registered)
      → (register d request swept now token r).0 ≡ ok a
      → IsRegistered request now token a (sweep swept r) (register d request swept now token r).1
  unfolding register register_new
  register_sound d request swept now token r a h =
      let r' = sweep swept r in
      elim (Bool-cases (is_closed request.gateway_id request.runtime_id r)) [
        | inl closed ↦ absurd (ground (arith, closed, h))
        | inr open_now ↦
            let still : is_closed request.gateway_id request.runtime_id r' ≡ false =
              ground (arith, open_now, sweep-closed swept r) in
            elim (Option-cases (find request.execution_id r')) [
              | inr (f, there) ↦
                  let (same, free, answer) =
                    register_again-ok d request f r' (rw (open_now, there, register) at h) in
                  rw (open_now, there, register, register_again-same d request f r')
                    (record {
                      record_of = f;
                      there = there;
                      same = same;
                      free = free;
                      answer = answer;
                      runtime_open = still;
                      origin = inl there;
                      others = λ j. same_table request.execution_id f r' j there;
                    })
              | inl absent ↦
                  rw (open_now, absent, register)
                    (record {
                      record_of = new_execution request token now r';
                      there =
                          get-put_self string_discrete request.execution_id
                            (new_execution request token now r') r'.by_execution_id;
                      same = refl;
                      free = refl;
                      answer = ground (arith, open_now, absent, h);
                      runtime_open = still;
                      origin = inr (absent, refl, refl);
                      others = λ j.
                          get-put string_discrete j request.execution_id
                            (new_execution request token now r') r'.by_execution_id;
                    })
            ]
      ]

  -- After a registration that succeeds, registering the same request again, at a sweep that leaves its
  -- execution, gives the same answer: the same token and the same deadline.
  pub register_twice :
      (d : Discrete Stored) (request : Request Stored) (swept now swept' now' : ℕ)
      (token token' : String) (r : Registry Stored) (a : Registered)
      → (register d request swept now token r).0 ≡ ok a
      → find request.execution_id (sweep swept' (register d request swept now token r).1)
        ≡ find request.execution_id (register d request swept now token r).1
      → (register d request swept' now' token' (register d request swept now token r).1).0 ≡ ok a
  unfolding register
  register_twice d request swept now swept' now' token token' r a h kept =
      let s = (register d request swept now token r).1 in
      let g = register_sound d request swept now token r a h in
      rw (g.runtime_open, kept ∙ g.there, register)
        (register_again-same_request d request g.record_of (sweep swept' s) g.same g.free
          ∙ ap ok (sym g.answer))
