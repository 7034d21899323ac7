-- ===== src/Command/Sound.antt =====
-- What holds of a result while it is built, and the measure of what is left to read.
pub mod Given
pub mod Rounds
pub mod Transition
pub mod Operands
pub mod Reads
pub mod Parses
use claw_tune.Base.{
  ℕ, suc, ◌+◌, ◌-◌, ◌*◌, ◌≤◌, ◌<◌, ◌≡◌, ◌≢◌, ◌↔◌, refl, Bool, true, false, String, List, [], ◌∷◌,
  ◌++◌, length, length-append, All, arith, Bool-cases, ltb, ltb→lt, inl, inr, if◌then◌else◌,
}
use claw_tune.Command.Result.{
  Parsed, Layer, Role, RoleKind, entry_role, opaque_role, operand_role, option_role,
  entry_option_role, subcommand_role, payload_role, Status, complete, partial, invalid, Diagnostic,
  worse, is_nil, add_role, opaque_result, diagnose, State, enter, guess, read, Next, go, done,
}

pub All-concat :
    {A : Type 0} (P : A → Type 0) (xs : List A) (x : A) → All P xs → P x → All P (xs ++ x ∷ [])
All-concat P [] x h p = (p, tt)
All-concat P (y ∷ ys) x h p = (h.0, All-concat P ys x h.1 p)

concat-ne-nil : {A : Type 0} (xs : List A) (x : A) → xs ++ x ∷ [] ≢ []
concat-ne-nil [] x e = absurd cc
concat-ne-nil (y ∷ ys) x e = absurd cc

pub worse-ne-complete : (b : Bool) (s : Status) → worse b s ≢ complete
worse-ne-complete true s e = absurd cc
worse-ne-complete false complete e = absurd cc
worse-ne-complete false partial e = absurd cc
worse-ne-complete false invalid e = absurd cc

-- No word from `start` up to `stop` has an expansion that is not known.
pub IsResolved : (ℕ → Bool) → ℕ → ℕ → Type 0
IsResolved unresolved start stop = (j : ℕ) → start ≤ j → j < stop → unresolved j ≡ false

pub IsResolved-empty : (u : ℕ → Bool) (start stop : ℕ) → stop ≤ start → IsResolved u start stop
unfolding IsResolved
IsResolved-empty u start stop h j l r = absurd (omega (arith, h, l, r))

pub IsResolved-suc :
    (u : ℕ → Bool) (start stop : ℕ)
    → IsResolved u start stop
    → u stop ≡ false
    → IsResolved u start (suc stop)
unfolding IsResolved
IsResolved-suc u start stop h e j l r = elim (Bool-cases (ltb j stop)) [
  | inl before ↦ h j l (ltb→lt j stop before)
  | inr behind ↦ let p : j ≡ stop = ground (arith, behind, r) in rw p e
]

-- One word whose expansion is known.
pub one_known : (u : ℕ → Bool) (at : ℕ) → u at ≡ false → IsResolved u at (suc at)
one_known u at e = IsResolved-suc u at at (IsResolved-empty u at at (omega arith)) e

module _ (unresolved : ℕ → Bool) where
  -- Options and subcommands stand for words that are known.
  abbrev pub IsKnown : RoleKind → ℕ → ℕ → Type 0
  IsKnown entry_role start stop = Unit
  IsKnown opaque_role start stop = Unit
  IsKnown operand_role start stop = Unit
  IsKnown payload_role start stop = Unit
  IsKnown option_role start stop = IsResolved unresolved start stop
  IsKnown entry_option_role start stop = IsResolved unresolved start stop
  IsKnown subcommand_role start stop = IsResolved unresolved start stop

  -- A role covers at least one word, and only words of the command.
  abbrev pub IsRole : ℕ → Role → Type 0
  IsRole n role =
      (role.start < role.stop) × (role.stop ≤ n) × IsKnown role.kind role.start role.stop

  module _ {Key : Type 0} where
    pub record IsSound (n : ℕ) (r : Parsed Key) : Type 0 where
      pub roles : All (IsRole n) r.roles
      pub status : (r.status ≡ complete) ↔ (r.diagnostics ≡ [])
      pub words : length r.argv ≡ n

    pub add_role-IsSound :
        (n : ℕ) (layer : Layer) (kind : RoleKind) (start stop : ℕ) (r : Parsed Key)
        → IsSound n r
        → start < stop
        → stop ≤ n
        → IsKnown kind start stop
        → IsSound n (add_role layer kind start stop r)
    unfolding add_role
    add_role-IsSound n layer kind start stop r h a b c = record {
      roles = All-concat (IsRole n) r.roles _ h.roles (a, b, c);
      status = h.status;
      words = h.words;
    }

    diagnose-IsSound :
        (n : ℕ) (reason : Diagnostic) (is_invalid : Bool) (r : Parsed Key)
        → IsSound n r
        → IsSound n (diagnose reason is_invalid r)
    diagnose-IsSound n reason is_invalid r h = record {
      roles = h.roles;
      status = (
        λ e. absurd (worse-ne-complete is_invalid r.status e),
        λ e. absurd (concat-ne-nil r.diagnostics reason e),
      );
      words = h.words;
    }

    -- One more diagnostic, where there is one already.
    pub noted-IsSound :
        (n : ℕ) (reason : Diagnostic) (r : Parsed Key)
        → IsSound n r
        → r.status ≢ complete
        → IsSound n (record r { diagnostics = r.diagnostics ++ reason ∷ [] })
    noted-IsSound n reason r h ne = record {
      roles = h.roles;
      status = (λ e. absurd (ne e), λ e. absurd (concat-ne-nil r.diagnostics reason e));
      words = h.words;
    }

    pub opaque_result-IsSound :
        (n : ℕ) (layer : Layer) (values : List String) (reason : Diagnostic) (is_invalid : Bool)
        (r : Parsed Key)
        → IsSound n r
        → length values ≤ n
        → IsSound n (opaque_result layer values reason is_invalid r)
    unfolding opaque_result
    opaque_result-IsSound n layer [] reason is_invalid r h l =
        diagnose-IsSound n reason is_invalid r h
    opaque_result-IsSound n layer (v ∷ vs) reason is_invalid r h l =
        diagnose-IsSound n reason is_invalid _ (
          add_role-IsSound n layer opaque_role _ _ r h (omega (arith, h.words, l))
            (omega (arith, h.words)) tt)

    pub add_role-layers :
        (layer : Layer) (kind : RoleKind) (start stop : ℕ) (r : Parsed Key)
        → (add_role layer kind start stop r).layers ≡ r.layers
    unfolding add_role
    add_role-layers layer kind start stop r = refl

    pub opaque_result-layers :
        (layer : Layer) (values : List String) (reason : Diagnostic) (is_invalid : Bool)
        (r : Parsed Key)
        → (opaque_result layer values reason is_invalid r).layers ≡ r.layers
    unfolding opaque_result add_role
    opaque_result-layers layer [] reason is_invalid r = refl
    opaque_result-layers layer (v ∷ vs) reason is_invalid r = refl

    -- Fields that soundness does not look at.
    pub same-IsSound :
        (n : ℕ) (r s : Parsed Key)
        → s.roles ≡ r.roles
        → s.status ≡ r.status
        → s.diagnostics ≡ r.diagnostics
        → s.argv ≡ r.argv
        → IsSound n r
        → IsSound n s
    same-IsSound n r s a b c d h = record {
      roles = rw a h.roles;
      status = rw (b, c) h.status;
      words = rw d h.words;
    }

  -- Where a state stands: what is behind it and what is left make up the command, and there is room
  -- for its layer.
  abbrev pub Fits : {Key : Type 0} → ℕ → State → Parsed Key → Type 0
  Fits n (enter entry rest offset script) r =
      (offset + suc (length rest) ≡ n) × (length r.layers ≤ 8)
  Fits n (guess layer ended rest at) r = (at + length rest ≡ n) × (length r.layers ≤ 7)
  Fits n (read s) r = (s.at + length s.rest ≡ n) × (length r.layers ≤ 7)

  -- What is left to read.
  abbrev pub measure : State → ℕ
  measure (enter entry rest offset script) = 2 * length rest + 2
  measure (guess layer ended rest at) = 2 * length rest + 1
  measure (read s) = 2 * length s.rest + 1

  -- A step keeps the result sound, and comes nearer to the end.
  abbrev pub IsFine : {Key : Type 0} → ℕ → ℕ → Next Key → Type 0
  IsFine n m (go s r) = IsSound n r × Fits n s r × (measure s < m)
  IsFine n m (done r) = IsSound n r × (length r.layers ≤ 9)
