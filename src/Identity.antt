-- ===== src/Identity.antt =====
-- services/sidecar/src/clawtune_sidecar/identity.py: the owner chain of a request or an event, and
-- the tests that compare two of them. An object is the attributes that `getattr` reads from it.
pub mod Owners
use claw_tune.Base.{
  Bool, true, false, ◌&&◌, ◌||◌, Option, none, some, String, List, [], ◌∷◌, is_yes, is_none,
  if◌then◌else◌, string_discrete, option_discrete,
}

-- What `getattr(value, name, None)` may return: nothing or `None`, a text, or a value of another type.
pub data Attr : Type 0 where
  missing other : Attr
  text : String → Attr

pub record Subject : Type 0 where
  pub gateway_id : Attr
  pub runtime_id : Attr
  pub agent_id : Attr
  pub session_id : Attr
  pub session_key : Attr
  pub session_key_hash : Attr
  pub run_id : Attr
  pub event_id : Attr
  pub tool_call_id : Attr

-- `OwnerKey`, the tuple of five optional texts.
pub record OwnerKey : Type 0 where
  pub gateway : Option String
  pub runtime : Option String
  pub agent : Option String
  pub session : Option String
  pub run : Option String

pub record CorrelationKey : Type 0 where
  pub owner : OwnerKey
  pub leaf : String

-- A text in a Boolean context: the empty one counts as false.
unfoldable pub truthy : String → Option String
truthy s = if is_yes (string_discrete s "") then none else some s

unfoldable pub string_attr : Attr → Option String
string_attr missing = none
string_attr other = none
string_attr (text s) = truthy s

-- `a or b` for optional texts.
abbrev pub or_else : Option String → Option String → Option String
or_else none b = b
or_else (some a) b = some a

-- `a or b` for an optional text and a text.
abbrev pub text_or : Option String → String → String
text_or none b = b
text_or (some a) b = a

-- `leaf or …`: an empty leaf counts as none.
unfoldable pub given_leaf : Option String → Option String
given_leaf none = none
given_leaf (some s) = truthy s

unfoldable pub owner_key : Subject → OwnerKey
owner_key value = record {
  gateway = string_attr value.gateway_id;
  runtime = string_attr value.runtime_id;
  agent = string_attr value.agent_id;
  session =
      or_else (string_attr value.session_id)
        (or_else (string_attr value.session_key) (string_attr value.session_key_hash));
  run = string_attr value.run_id;
}

-- `leaf` is the optional argument of the same name.
unfoldable pub correlation_key : Subject → Option String → CorrelationKey
correlation_key value leaf = record {
  owner = owner_key value;
  leaf =
      text_or (or_else (given_leaf leaf) (string_attr value.tool_call_id))
        (text_or (string_attr value.event_id) "missing-event");
}

-- `json.dumps` with sorted keys, then `hashlib.sha256`: both belong to Python's library.
module _ (dumps : CorrelationKey → String) (sha256_hex : String → String) where
  pub call_key : Subject → String
  call_key value = sha256_hex (dumps (correlation_key value none))

-- `left == right` on optional texts.
unfoldable pub same : Option String → Option String → Bool
unfolding option_discrete string_discrete
same a b = is_yes (option_discrete string_discrete a b)

abbrev pub agrees : Option String → Option String → Bool
agrees left right = is_none left || (is_none right || same left right)

unfoldable pub owners_compatible : Subject → Subject → Bool
owners_compatible expected actual =
    let a = owner_key expected in
    let b = owner_key actual in
    agrees a.gateway b.gateway
    && (agrees a.runtime b.runtime
        && (agrees a.agent b.agent && (agrees a.session b.session && agrees a.run b.run)))

-- The test of a runtime and an optional gateway against an owner that may lack a gateway.
unfoldable pub belongs_to_runtime : Subject → String → Option String → Bool
belongs_to_runtime value runtime_id gateway_id =
    let owner = owner_key value in
    same owner.runtime (some runtime_id)
    && (is_none gateway_id || (is_none owner.gateway || same owner.gateway gateway_id))

unfoldable pub owner_prefix_matches : List (Option String) → String → Bool
owner_prefix_matches [] runtime_id = false
owner_prefix_matches (_ ∷ []) runtime_id = false
owner_prefix_matches (_ ∷ part ∷ _) runtime_id = same part (some runtime_id)
