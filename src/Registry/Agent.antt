-- ===== src/Registry/Agent.antt =====
-- pkg/registry/agent.go: an agent, its endpoints, keys and capabilities, and what it shares. The clock
-- and the fresh UUID of an agent are arguments. The fields `Metadata` and `Schema`, of arbitrary JSON,
-- which no function here reads, are left out.
use msg2agent.Prelude.{
  ℕ, Text, text, text_eq, ◌==◌, Bool, true, false, Option, none, some, List, [], ◌∷◌, ◌++◌,
  if◌then◌else◌,
}
use msg2agent.Security.{AclPolicy}
use msg2agent.Registry.Presence.{AgentState, offline}

pub record PresenceConfig : Type 0 where
  pub share_presence : Bool
  pub receive_presence : Bool
  pub share_typing : Bool
  pub hide_last_seen : Bool
  pub away_timeout_secs : ℕ

unfoldable pub default_presence_config : PresenceConfig
default_presence_config = record {
  share_presence = true;
  receive_presence = true;
  share_typing = true;
  hide_last_seen = false;
  away_timeout_secs = 300;
}

pub data KeyType : Type 0 where
  ed25519 x25519 : KeyType

pub record PublicKey : Type 0 where
  pub id : Text
  pub kind : KeyType
  pub key : Text
  pub purpose : Text

pub data TransportType : Type 0 where
  websocket grpc http_sse stdio : TransportType

pub record Endpoint : Type 0 where
  pub transport : TransportType
  pub url : Text
  pub priority : ℕ

pub record Capability : Type 0 where
  pub name : Text
  pub description : Text
  pub methods : List Text

-- `state` holds the fields that the status methods change.
pub record Agent : Type 0 where
  pub id : ℕ
  pub did : Text
  pub tenant_id : Text
  pub display_name : Text
  pub public_keys : List PublicKey
  pub endpoints : List Endpoint
  pub capabilities : List Capability
  pub acl : Option AclPolicy
  pub state : AgentState
  pub presence_cfg : Option PresenceConfig
  pub role : Text
  pub delegation_namespace : Text

unfoldable pub new_agent : ℕ → ℕ → Text → Text → Agent
new_agent id now did display_name = record {
  id = id;
  did = did;
  tenant_id = [];
  display_name = display_name;
  public_keys = [];
  endpoints = [];
  capabilities = [];
  acl = none;
  state = record { status = offline; last_seen = now; presence = none };
  presence_cfg = none;
  role = [];
  delegation_namespace = [];
}

unfoldable pub add_endpoint : TransportType → Text → ℕ → Agent → Agent
add_endpoint transport url priority a = record a {
  endpoints = a.endpoints ++ record { transport = transport; url = url; priority = priority } ∷ [];
}

unfoldable pub add_capability : Text → Text → List Text → Agent → Agent
add_capability name description methods a = record a {
  capabilities =
      a.capabilities ++ record { name = name; description = description; methods = methods } ∷ [];
}

unfoldable pub add_public_key : Text → KeyType → Text → Text → Agent → Agent
add_public_key id kind key purpose a = record a {
  public_keys = a.public_keys ++ record { id = id; kind = kind; key = key; purpose = purpose } ∷ [];
}

-- The loop of `HasCapability`.
unfoldable pub has_name : Text → List Capability → Bool
has_name name [] = false
has_name name (c ∷ cs) = let later = has_name name cs in if c.name == name then true else later

unfoldable pub has_capability : Text → Agent → Bool
unfolding has_name
has_capability name a = has_name name a.capabilities

-- The loop of `GetSigningKey` and `GetEncryptionKey`.
unfoldable pub first_key : Text → List PublicKey → Option PublicKey
first_key purpose [] = none
first_key purpose (k ∷ ks) =
    let later = first_key purpose ks in if k.purpose == purpose then some k else later

unfoldable pub get_signing_key : Agent → Option PublicKey
unfolding first_key
get_signing_key a = first_key (text "signing") a.public_keys

unfoldable pub get_encryption_key : Agent → Option PublicKey
unfolding first_key
get_encryption_key a = first_key (text "encryption") a.public_keys

unfoldable pub should_share_presence : Agent → Bool
should_share_presence a = elim a.presence_cfg [ none ↦ true | some c ↦ c.share_presence ]

unfoldable pub should_share_typing : Agent → Bool
should_share_typing a = elim a.presence_cfg [ none ↦ true | some c ↦ c.share_typing ]
