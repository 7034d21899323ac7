-- ===== src/Executions/Sweep.antt =====
-- What the sweep removes.
use claw_tune.Base.{
  ℕ, ◌≡◌, refl, sym, ap, ◌∙◌, inl, inr, true, false, not, some, String, List, [], ◌∷◌, arith,
  string_discrete, Option-cases,
}
use claw_tune.Dict.{get, pop, pop_all, matching, IsUnique}
use claw_tune.Dict.Laws.{pop_absent}
use claw_tune.Dict.Keep.{only, pop_all-matching, get-keep}
use claw_tune.Executions.{Execution, Registry, drop, drop_all, sweep, is_stale}

module _ {Stored : Type 0} where
  pub drop-by_execution_id :
      (k : String) (r : Registry Stored)
      → (drop k r).by_execution_id ≡ pop string_discrete k r.by_execution_id
  unfolding drop
  drop-by_execution_id k r = elim (Option-cases (get string_discrete k r.by_execution_id)) [
    | inl absent ↦ rw (absent, drop) (sym (pop_absent string_discrete k r.by_execution_id absent))
    | inr (e, found) ↦ rw (found, drop)
  ]

  drop_all-by_execution_id :
      (ks : List String) (r : Registry Stored)
      → (drop_all ks r).by_execution_id ≡ pop_all string_discrete ks r.by_execution_id
  unfolding drop_all pop_all
  drop_all-by_execution_id [] r = refl
  drop_all-by_execution_id (k ∷ ks) r =
      drop_all-by_execution_id ks (drop k r)
      ∙ ap (pop_all string_discrete ks) (drop-by_execution_id k r)

  -- What a lookup finds after a sweep: a stale record is gone, any other is what it was.
  pub get-sweep :
      (now : ℕ) (k : String) (r : Registry Stored)
      → IsUnique string_discrete r.by_execution_id
      → get string_discrete k (sweep now r).by_execution_id
        ≡ only (λ e. not (is_stale r now e)) (get string_discrete k r.by_execution_id)
  unfolding sweep
  get-sweep now k r u =
      rw
        (
          drop_all-by_execution_id (matching (is_stale r now) r.by_execution_id) r,
          pop_all-matching string_discrete (is_stale r now) r.by_execution_id u,
        )
        (get-keep string_discrete (λ e. not (is_stale r now e)) k r.by_execution_id u)

  -- On a registry without two executions of one identifier, one that is claimed and has not exited is
  -- never swept, whatever the clock says.
  pub sweep_keeps_running :
      (now : ℕ) (k : String) (e : Execution Stored) (r : Registry Stored)
      → IsUnique string_discrete r.by_execution_id
      → get string_discrete k r.by_execution_id ≡ some e
      → e.claimed ≡ true
      → e.exited ≡ false
      → get string_discrete k (sweep now r).by_execution_id ≡ some e
  sweep_keeps_running now k e r u found claimed running =
      get-sweep now k r u ∙ rw (found, claimed, running)

  drop-closed : (k : String) (r : Registry Stored) → (drop k r).closed_runtimes ≡ r.closed_runtimes
  unfolding drop
  drop-closed k r = ground arith

  drop_all-closed :
      (ks : List String) (r : Registry Stored) → (drop_all ks r).closed_runtimes ≡ r.closed_runtimes
  unfolding drop_all
  drop_all-closed [] r = refl
  drop_all-closed (k ∷ ks) r = drop_all-closed ks (drop k r) ∙ drop-closed k r

  pub sweep-closed :
      (now : ℕ) (r : Registry Stored) → (sweep now r).closed_runtimes ≡ r.closed_runtimes
  unfolding sweep
  sweep-closed now r = drop_all-closed _ r
