-- ===== src/Executions/Adopted.antt =====
-- `unique_tool_call_execution_id`: which execution a completion without an identifier adopts.
use mathlib.Core.Logic.{if_pos}
use claw_tune.Base.{
  true, ℕ, ◌≡◌, ◌↔◌, refl, sym, ap, ◌∙◌, inl, inr, some, String, [], ◌∷◌, arith, string_discrete,
  Option-cases,
}
use claw_tune.Dict.{Dict, get, keep, values, IsUnique}
use claw_tune.Dict.Keep.{get-keep, get-keep-test, keep-IsUnique}
use claw_tune.Identity.{Subject, string_attr, owner_key}
use claw_tune.Identity.Owners.{AreCompatible, same_iff, owners_compatible_iff}
use claw_tune.Executions.{Execution, Registry, sweep, subject_of}
use claw_tune.Executions.Calls.{find}
use claw_tune.Executions.Linked.{IsLinked, sweep-IsLinked}
use claw_tune.Executions.Queries.{is_call_match, only_one, unique_tool_call_execution_id}

module _ {Stored : Type 0} where
  here : (j : String) (e : Execution Stored) → get string_discrete j ((j, e) ∷ []) ≡ some e
  unfolding get
  here j e = if_pos (string_discrete j j) refl _ _

  single :
      (i j : String) (e f : Execution Stored) → get string_discrete i ((j, e) ∷ []) ≡ some f → i ≡ j
  unfolding get
  single i j e f h = ground (arith, h)

  -- A dictionary of which every key is `k` has no second entry.
  only_key :
      (d : Dict String (Execution Stored)) (k : String) (e : Execution Stored)
      → IsUnique string_discrete d
      → get string_discrete k d ≡ some e
      → ((j : String) (f : Execution Stored) → get string_discrete j d ≡ some f → j ≡ k)
      → d ≡ (k, e) ∷ []
  unfolding get
  only_key [] k e u h all = absurd cc
  only_key ((j, f) ∷ []) k e u h all =
      let p : j ≡ k = all j f (if_pos (string_discrete j j) refl _ _) in ground (arith, p, h)
  only_key ((j, f) ∷ (i, g) ∷ d) k e u h all =
      let p : j ≡ k = all j f (if_pos (string_discrete j j) refl _ _) in
      elim (string_discrete j i) [
        | yes q ↦ absurd (ground (arith, q, u))
        | no n ↦
            let there : get string_discrete i ((i, g) ∷ d) ≡ some g =
              if_pos (string_discrete i i) refl _ _ in
            absurd (n (p ∙ sym (all i g (ground (arith, n, there)))))
      ]

  -- The only entry, or no answer.
  only_one-entry :
      (d : Dict String (Execution Stored)) (k : String)
      → only_one (values d) ≡ some k
      → (j : String) × (e : Execution Stored) × (d ≡ (j, e) ∷ []) × (e.request.execution_id ≡ k)
  only_one-entry [] k h = absurd cc
  only_one-entry ((j, e) ∷ []) k h = (j, e, refl, ground (arith, h))
  only_one-entry (_ ∷ _ ∷ _) k h = absurd cc

  -- The execution is claimed, has the tool call, and no entry of its owner contradicts the event's.
  pub record IsMatch (tool_call_id : String) (event : Subject) (e : Execution Stored) : Type 0 where
    pub claimed : e.claimed ≡ true
    pub same_call : e.request.tool_call_id ≡ some tool_call_id
    pub compatible : AreCompatible (owner_key (subject_of e.request)) (owner_key event)

  is_call_match-IsMatch :
      (id : String) (event : Subject) (e : Execution Stored)
      → (is_call_match id event e ≡ true) ↔ IsMatch id event e
  is_call_match-IsMatch id event e = (
    λ h. record {
      claimed = ground (arith, h);
      same_call = (same_iff e.request.tool_call_id (some id)).0 (ground (arith, h));
      compatible = (owners_compatible_iff (subject_of e.request) event).0 (ground (arith, h));
    },
    λ h.
        rw
          (
            h.claimed,
            (same_iff e.request.tool_call_id (some id)).1 h.same_call,
            (owners_compatible_iff (subject_of e.request) event).1 h.compatible,
          )
          refl,
  )

  -- The event names a tool call; the execution matches it, and no other one does.
  pub record IsOnlyMatch (event : Subject) (r : Registry Stored) (k : String) : Type 0 where
    pub tool_call_id : String
    pub named : string_attr event.tool_call_id ≡ some tool_call_id
    pub execution : Execution Stored
    pub there : find k r ≡ some execution
    pub matches : IsMatch tool_call_id event execution
    pub only_match :
        (j : String) (f : Execution Stored)
        → find j r ≡ some f
        → IsMatch tool_call_id event f
        → j ≡ k

  module _ (event : Subject) (r : Registry Stored) (l : IsLinked r) (id : String) where
    matching_ones : Dict String (Execution Stored)
    matching_ones = keep (is_call_match id event) r.by_execution_id

    found_one :
        (j k : String) (e : Execution Stored)
        → matching_ones ≡ (j, e) ∷ []
        → e.request.execution_id ≡ k
        → string_attr event.tool_call_id ≡ some id
        → IsOnlyMatch event r k
    unfolding matching_ones
    found_one j k e one own named =
        let p = is_call_match id event in
        let d = r.by_execution_id in
        let (found, passes) =
          get-keep-test string_discrete p j d l.unique
            (ap (get string_discrete j) one ∙ here j e) in
        let same_key : k ≡ j = sym own ∙ l.keyed j e found in
        record {
          tool_call_id = id;
          named = named;
          execution = e;
          there = rw same_key found;
          matches = (is_call_match-IsMatch id event e).0 passes;
          only_match = λ i f there m.
              let kept : get string_discrete i (keep p d) ≡ some f =
                get-keep string_discrete p i d l.unique
                ∙ rw (there, (is_call_match-IsMatch id event f).1 m) refl in
              single i j e f (sym (ap (get string_discrete i) one) ∙ kept) ∙ sym same_key;
        }

    only_match-entry :
        (k : String) (e : Execution Stored)
        → find k r ≡ some e
        → IsMatch id event e
        → ((j : String) (f : Execution Stored) → find j r ≡ some f → IsMatch id event f → j ≡ k)
        → matching_ones ≡ (k, e) ∷ []
    unfolding matching_ones
    only_match-entry k e there m only_match =
        let p = is_call_match id event in
        let d = r.by_execution_id in
        only_key (keep p d) k e (keep-IsUnique string_discrete p d l.unique)
          (get-keep string_discrete p k d l.unique
            ∙ rw (there, (is_call_match-IsMatch id event e).1 m) refl)
          (λ j f h.
            let (found, passes) = get-keep-test string_discrete p j d l.unique h in
            only_match j f found ((is_call_match-IsMatch id event f).0 passes))

  -- On a registry whose tables agree, a completion adopts an execution exactly if it names a tool call
  -- and, of the executions that the sweep leaves, that one is claimed, has the same tool call and an
  -- owner of which no part differs from the completion's where both have it, and no other one is so.
  pub unique_tool_call_execution_id-IsOnlyMatch :
      (event : Subject) (now : ℕ) (r : Registry Stored) (k : String)
      → IsLinked r
      → ((unique_tool_call_execution_id event now r).0 ≡ some k) ↔ IsOnlyMatch event (sweep now r) k
  unfolding unique_tool_call_execution_id matching_ones
  unique_tool_call_execution_id-IsOnlyMatch event now r k l =
      let r' = sweep now r in
      let l' = sweep-IsLinked now r l in
      elim (Option-cases (string_attr event.tool_call_id)) [
        | inl absent ↦
            (λ h. absurd (ground (arith, h, absent)), λ m. absurd (ground (arith, m.named, absent)))
        | inr (id, has) ↦ (
          λ h.
              let (j, e, one, own) =
                only_one-entry (matching_ones event r' l' id) k (ground (arith, h, has)) in
              found_one event r' l' id j k e one own has,
          λ m.
              let one =
                only_match-entry event r' l' m.tool_call_id k m.execution m.there m.matches
                  m.only_match in
              ground (arith, m.named, one, l'.keyed k m.execution m.there),
        )
      ]
