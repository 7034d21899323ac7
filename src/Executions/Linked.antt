-- ===== src/Executions/Linked.antt =====
-- How the two dictionaries of the registry fit together.
use claw_tune.Base.{
  ℕ, ◌≡◌, ◌≢◌, refl, sym, ap, ◌∙◌, ◌⊎◌, inl, inr, false, some, String, List, [], ◌∷◌, arith,
  string_discrete, Option-cases,
}
use claw_tune.Dict.{Dict, get, put, pop, IsUnique, Each}
use claw_tune.Dict.Laws.{
  get-put_self, get-put_ne, get-pop_self, get-pop_ne, put-IsUnique, pop-IsUnique, put-Each,
  pop-Each,
}
use claw_tune.Executions.{Request, Execution, Registry, drop, drop_all, sweep}
use claw_tune.Executions.Calls.{find, store}

pub record IsLinked {Stored : Type 0} (r : Registry Stored) : Type 0 where
  pub unique : IsUnique string_discrete r.by_execution_id
  pub unique_tokens : IsUnique string_discrete r.by_token
  pub keyed :
      Each string_discrete
        (λ k (e : Execution Stored). e.request.execution_id ≡ k)
        r.by_execution_id
  -- A token that can be claimed belongs to an execution that is there and is not claimed.
  pub issued :
      (t k : String)
      → get string_discrete t r.by_token ≡ some k
      → (e : Execution Stored) × (find k r ≡ some e) × (e.token ≡ t) × (e.claimed ≡ false)
  -- And each such execution has its token there.
  pub waiting :
      (k : String) (e : Execution Stored)
      → find k r ≡ some e
      → e.claimed ≡ false
      → get string_discrete e.token r.by_token ≡ some k
  -- No two executions share a token.
  pub apart :
      (j k : String) (e f : Execution Stored)
      → find j r ≡ some e
      → find k r ≡ some f
      → e.token ≡ f.token
      → j ≡ k

some-inj {ℓ} : {A : Type ℓ} {a b : A} → some a ≡ some b → a ≡ b
some-inj e = cc

-- A lookup in the rest finds what was there, under another key.
pub get-pop-some :
    {V : Type 0} (j k : String) (d : Dict String V) {v : V}
    → IsUnique string_discrete d
    → get string_discrete j (pop string_discrete k d) ≡ some v
    → (k ≢ j) × (get string_discrete j d ≡ some v)
get-pop-some j k d u h = elim (string_discrete k j) [
  | yes p ↦ absurd (ground (arith, p, h, get-pop_self string_discrete k d u))
  | no n ↦ (n, sym (get-pop_ne string_discrete j k d n) ∙ h)
]

-- A lookup after a write finds what was written, or what was there under another key.
pub get-put-some :
    {V : Type 0} (j k : String) (v : V) (d : Dict String V) {w : V}
    → get string_discrete j (put string_discrete k v d) ≡ some w
    → ((k ≡ j) × (v ≡ w)) ⊎ ((k ≢ j) × (get string_discrete j d ≡ some w))
get-put-some j k v d h = elim (string_discrete k j) [
  | yes p ↦ inl (p, ground (arith, p, h, get-put_self string_discrete k v d))
  | no n ↦ inr (n, sym (get-put_ne string_discrete v d n) ∙ h)
]

-- Two lookups of one key find one value.
pub same_value :
    {V : Type 0} (j k : String) (d : Dict String V) {v w : V}
    → j ≡ k
    → get string_discrete j d ≡ some v
    → get string_discrete k d ≡ some w
    → v ≡ w
same_value j k d p hv hw = ground arith

module _ {Stored : Type 0} where
  module _ (r : Registry Stored) (l : IsLinked r) (k : String) (e : Execution Stored)
      (found : find k r ≡ some e) where
    dropped : Registry Stored
    dropped = record r {
      by_execution_id = pop string_discrete k r.by_execution_id;
      by_token = pop string_discrete e.token r.by_token;
    }

    dropped-IsLinked : IsLinked dropped
    unfolding dropped
    dropped-IsLinked = record {
      unique = pop-IsUnique string_discrete k r.by_execution_id l.unique;
      unique_tokens = pop-IsUnique string_discrete e.token r.by_token l.unique_tokens;
      keyed = pop-Each string_discrete k r.by_execution_id l.unique l.keyed;
      issued = λ t j h.
          let (other, old) = get-pop-some t e.token r.by_token l.unique_tokens h in
          let (f, there, token, fresh) = l.issued t j old in
          (
            f,
            get-pop_ne string_discrete j k r.by_execution_id (λ p. other (
                  ap (λ (x : Execution Stored). x.token)
                    (same_value k j r.by_execution_id p found there)
                  ∙ token))
                ∙ there,
            token,
            fresh,
          );
      waiting = λ j f h fresh.
          let (other, old) = get-pop-some j k r.by_execution_id l.unique h in
          get-pop_ne string_discrete f.token e.token r.by_token
            (λ p. other (l.apart k j e f found old p))
          ∙ l.waiting j f old fresh;
      apart = λ i j f g hf hg p.
          l.apart i j f g (get-pop-some i k r.by_execution_id l.unique hf).1
            (get-pop-some j k r.by_execution_id l.unique hg).1 p;
    }

    -- A change of the record that keeps its request, its token and whether it is claimed.
    module _ (e' : Execution Stored) (request : e'.request ≡ e.request) (token : e'.token ≡ e.token)
        (claimed : e'.claimed ≡ e.claimed) where
      changed-issued :
          (t j : String) (f : Execution Stored)
          → find j r ≡ some f
          → f.token ≡ t
          → f.claimed ≡ false
          → (g : Execution Stored) × (find j (store k e' r) ≡ some g)
            × (g.token ≡ t)
            × (g.claimed ≡ false)
      changed-issued t j f there tok free = elim (string_discrete k j) [
        | yes p ↦
            let q = same_value k j r.by_execution_id p found there in
            (
              e',
              rw (← p) (get-put_self string_discrete k e' r.by_execution_id),
              token ∙ ap (λ (x : Execution Stored). x.token) q ∙ tok,
              claimed ∙ ap (λ (x : Execution Stored). x.claimed) q ∙ free,
            )
        | no n ↦ (f, get-put_ne string_discrete e' r.by_execution_id n ∙ there, tok, free)
      ]

      -- Every record after the change has the token and the mark of one before, under its key.
      before :
          (j : String) (f : Execution Stored)
          → find j (store k e' r) ≡ some f
          → (g : Execution Stored) × (find j r ≡ some g)
            × (g.token ≡ f.token)
            × (g.claimed ≡ f.claimed)
      before j f h = elim (get-put-some j k e' r.by_execution_id h) [
        | inl (p, q) ↦ (
          e,
          rw (← p) found,
          sym token ∙ ap (λ (x : Execution Stored). x.token) q,
          sym claimed ∙ ap (λ (x : Execution Stored). x.claimed) q,
        )
        | inr (n, old) ↦ (f, old, refl, refl)
      ]

      pub store-IsLinked : IsLinked (store k e' r)
      store-IsLinked = record {
        unique = put-IsUnique string_discrete k e' r.by_execution_id l.unique;
        unique_tokens = l.unique_tokens;
        keyed =
            put-Each string_discrete k e' r.by_execution_id
              (ap (λ (q : Request Stored). q.execution_id) request ∙ l.keyed k e found) l.keyed;
        issued = λ t j h.
            let (f, there, tok, free) = l.issued t j h in changed-issued t j f there tok free;
        waiting = λ j f h free.
            let (g, old, tok, mark) = before j f h in rw (← tok) (l.waiting j g old (mark ∙ free));
        apart = λ i j f g hf hg p.
            let (f', of, tf, _) = before i f hf in
            let (g', og, tg, _) = before j g hg in l.apart i j f' g' of og (tf ∙ p ∙ sym tg);
      }

  -- The sweep drops records one by one.
  drop-IsLinked : (k : String) (r : Registry Stored) → IsLinked r → IsLinked (drop k r)
  unfolding drop dropped
  drop-IsLinked k r l = elim (Option-cases (find k r)) [
    | inl absent ↦ rw (absent, drop) l
    | inr (e, found) ↦ rw (found, drop) (dropped-IsLinked r l k e found)
  ]

  drop_all-IsLinked :
      (ks : List String) (r : Registry Stored) → IsLinked r → IsLinked (drop_all ks r)
  unfolding drop_all
  drop_all-IsLinked [] r l = l
  drop_all-IsLinked (k ∷ ks) r l = drop_all-IsLinked ks (drop k r) (drop-IsLinked k r l)

  pub sweep-IsLinked : (now : ℕ) (r : Registry Stored) → IsLinked r → IsLinked (sweep now r)
  unfolding sweep
  sweep-IsLinked now r l = drop_all-IsLinked _ r l
