-- ===== src/Identity/Owners.antt =====
-- What the owner tests of identity.py decide.
use claw_tune.Base.{
  inl, inr, ◌⊎◌, none, some, true, Option, String, ◌≡◌, refl, ◌↔◌, arith, option_discrete,
  string_discrete, is_yes,
}
use claw_tune.Identity.{Subject, OwnerKey, owner_key, same, agrees, owners_compatible}

is_yes_iff {ℓ} : {P : Type ℓ} (d : Dec P) → (is_yes d ≡ true) ↔ P
is_yes_iff (yes p) = (λ _. p, λ _. refl)
is_yes_iff (no n) = (λ e. cc, λ p. absurd (n p))

pub same_iff : (a b : Option String) → (same a b ≡ true) ↔ (a ≡ b)
unfolding same
same_iff a b = is_yes_iff (option_discrete string_discrete a b)

pub agrees_comm : (a b : Option String) → agrees a b ≡ agrees b a
agrees_comm a b = ground (arith, same_iff a b, same_iff b a)

pub agrees_refl : (a : Option String) → agrees a a ≡ true
agrees_refl a = ground (arith, same_iff a a)

-- Compatibility looks at both sides alike.
pub owners_compatible_comm : (a b : Subject) → owners_compatible a b ≡ owners_compatible b a
unfolding owners_compatible
owners_compatible_comm a b =
    let x = owner_key a in
    let y = owner_key b in
    ground (
      arith,
      agrees_comm x.gateway y.gateway,
      agrees_comm x.runtime y.runtime,
      agrees_comm x.agent y.agent,
      agrees_comm x.session y.session,
      agrees_comm x.run y.run,
    )

pub owners_compatible_refl : (a : Subject) → owners_compatible a a ≡ true
unfolding owners_compatible
owners_compatible_refl a =
    let x = owner_key a in
    ground (
      arith,
      agrees_refl x.gateway,
      agrees_refl x.runtime,
      agrees_refl x.agent,
      agrees_refl x.session,
      agrees_refl x.run,
    )

-- Two entries agree where one of them is missing or both are the same.
abbrev pub Agree : Option String → Option String → Type 0
Agree a b = (a ≡ none) ⊎ ((b ≡ none) ⊎ (a ≡ b))

agrees_iff : (a b : Option String) → (agrees a b ≡ true) ↔ Agree a b
agrees_iff none b = (λ h. inl refl, λ h. refl)
agrees_iff (some x) none = (λ h. inr (inl refl), λ h. refl)
agrees_iff (some x) (some y) = (
  λ h. inr (inr ((same_iff (some x) (some y)).0 h)),
  λ h. elim h [
    | inl e ↦ absurd cc
    | inr g ↦ elim g [ inl e ↦ absurd cc | inr e ↦ (same_iff (some x) (some y)).1 e ]
  ],
)

-- Two owners whose entries agree.
pub record AreCompatible (x y : OwnerKey) : Type 0 where
  pub gateway : Agree x.gateway y.gateway
  pub runtime : Agree x.runtime y.runtime
  pub agent : Agree x.agent y.agent
  pub session : Agree x.session y.session
  pub run : Agree x.run y.run

pub owners_compatible_iff :
    (a b : Subject) → (owners_compatible a b ≡ true) ↔ AreCompatible (owner_key a) (owner_key b)
unfolding owners_compatible
owners_compatible_iff a b =
    let x = owner_key a in
    let y = owner_key b in
    (
      λ h. record {
        gateway = (agrees_iff x.gateway y.gateway).0 (ground (arith, h));
        runtime = (agrees_iff x.runtime y.runtime).0 (ground (arith, h));
        agent = (agrees_iff x.agent y.agent).0 (ground (arith, h));
        session = (agrees_iff x.session y.session).0 (ground (arith, h));
        run = (agrees_iff x.run y.run).0 (ground (arith, h));
      },
      λ h.
          rw
            (
              (agrees_iff x.gateway y.gateway).1 h.gateway,
              (agrees_iff x.runtime y.runtime).1 h.runtime,
              (agrees_iff x.agent y.agent).1 h.agent,
              (agrees_iff x.session y.session).1 h.session,
              (agrees_iff x.run y.run).1 h.run,
            )
            refl,
    )
