-- ===== src/Billing/Store.antt =====
-- pkg/billing/store.go, tenant.go and apikey.go: tenants, API keys, and the in-memory billing store. A
-- stored tenant or key is a value; the code stores the pointer. The clock is an argument. The seed of a
-- tenant's DID is read by no code here and left out.
pub mod Tokens
pub mod Keys
mod Tests
use msg2agent.Prelude.{
  ℕ, Text, text, text_eq, ◌==◌, Bool, true, false, not, ◌&&◌, ◌||◌, ltb, Option, none, some, List,
  [], ◌∷◌, ◌++◌, map, keep, if◌then◌else◌, Result, ok, err,
}
use msg2agent.Prelude.Dict.{Dict, get, put, delete}
use msg2agent.Prelude.Strings.{has_prefix}
use msg2agent.Billing.Meter.{QuotaConfig}

pub data BillingError : Type 0 where
  tenant_not_found api_key_not_found oauth_identity_not_found token_not_found : BillingError

pub data Plan : Type 0 where
  free starter team enterprise : Plan

pub data TenantStatus : Type 0 where
  active suspended deleted : TenantStatus

-- `hardcodedQuota`, less the rates of the token bucket.
unfoldable pub hardcoded_quota : Plan → QuotaConfig
hardcoded_quota starter = record {
  max_agent_dids = 5;
  max_messages_per_month = 10000;
  max_tool_calls_per_month = 50000;
}
hardcoded_quota team = record {
  max_agent_dids = 50;
  max_messages_per_month = 200000;
  max_tool_calls_per_month = 1000000;
}
hardcoded_quota enterprise = record {
  max_agent_dids = 100000;
  max_messages_per_month = 1000000000;
  max_tool_calls_per_month = 1000000000;
}
hardcoded_quota free = record {
  max_agent_dids = 3;
  max_messages_per_month = 1000;
  max_tool_calls_per_month = 5000;
}

pub record Tenant : Type 0 where
  pub id : Text
  pub name : Text
  pub email : Text
  pub plan : Plan
  pub status : TenantStatus
  pub quota : QuotaConfig
  pub created_at : ℕ
  pub updated_at : ℕ
  pub stripe_customer_id : Text
  pub stripe_subscription_id : Text
  pub current_period_end : Option ℕ
  pub billing_status : Text
  pub email_verified_at : Option ℕ

abbrev pub is_deleted : TenantStatus → Bool
is_deleted deleted = true
is_deleted _ = false

unfoldable pub is_active : Tenant → Bool
is_active t = elim t.status [ active ↦ true | suspended ↦ false | deleted ↦ false ]

pub record ApiKey : Type 0 where
  pub id : Text
  pub tenant_id : Text
  pub name : Text
  pub key_hash : Text
  pub prefix : Text
  pub created_at : ℕ
  pub expires_at : Option ℕ
  pub revoked_at : Option ℕ

-- `t != nil && now.After(*t)`
abbrev pub is_past : ℕ → Option ℕ → Bool
is_past now none = false
is_past now (some t) = ltb t now

unfoldable pub is_valid : ℕ → ApiKey → Bool
is_valid now k = elim k.revoked_at [ some t ↦ false | none ↦ not (is_past now k.expires_at) ]

unfoldable pub is_api_key_token : Text → Bool
unfolding has_prefix
is_api_key_token token =
    has_prefix token (text "sk_live_")
    || has_prefix token (text "sk_test_")
    || has_prefix token (text "msg2a_")

pub record MemEmailToken : Type 0 where
  pub tenant_id : Text
  pub email : Text
  pub expires_at : ℕ

pub record MemoryStore : Type 0 where
  pub tenants : Dict Text Tenant
  pub keys : Dict Text ApiKey
  pub oauth_ids : Dict Text Text
  pub stripe_events_seen : Dict Text Bool
  pub email_tokens : Dict Text MemEmailToken

unfoldable pub new_memory_store : MemoryStore
new_memory_store = record {
  tenants = [];
  keys = [];
  oauth_ids = [];
  stripe_events_seen = [];
  email_tokens = [];
}

unfoldable pub put_tenant : Tenant → MemoryStore → MemoryStore
put_tenant t s = record s { tenants = put t.id t s.tenants }

unfoldable pub get_tenant : Text → MemoryStore → Result BillingError Tenant
get_tenant id s = elim (get id s.tenants) [ none ↦ err tenant_not_found | some t ↦ ok t ]

unfoldable pub list_tenants : MemoryStore → List Tenant
list_tenants s = map (λ e. e.1) s.tenants

unfoldable pub update_tenant : ℕ → Tenant → MemoryStore → MemoryStore × Option BillingError
update_tenant now t s = elim (get t.id s.tenants) [
  | none ↦ (s, some tenant_not_found)
  | some old ↦ (record s { tenants = put t.id (record t { updated_at = now }) s.tenants }, none)
]

-- The loop of `GetTenantByEmail`.
unfoldable pub with_email : Text → Dict Text Tenant → Option Tenant
with_email email [] = none
with_email email ((id, t) ∷ rest) =
    let later = with_email email rest in
    if (t.email == email) && not (is_deleted t.status) then some t else later

unfoldable pub get_tenant_by_email : Text → MemoryStore → Result BillingError Tenant
unfolding with_email
get_tenant_by_email email s = elim (with_email email s.tenants) [
  | none ↦ err tenant_not_found
  | some t ↦ ok t
]

unfoldable pub suspend_tenant : ℕ → Text → MemoryStore → MemoryStore × Option BillingError
suspend_tenant now id s = elim (get id s.tenants) [
  | none ↦ (s, some tenant_not_found)
  | some t ↦ (
    record s { tenants = put id (record t { status = suspended; updated_at = now }) s.tenants },
    none,
  )
]

unfoldable pub put_api_key : ApiKey → MemoryStore → MemoryStore
put_api_key k s = record s { keys = put k.key_hash k s.keys }

unfoldable pub get_api_key_by_hash : Text → MemoryStore → Result BillingError ApiKey
get_api_key_by_hash hash s = elim (get hash s.keys) [ none ↦ err api_key_not_found | some k ↦ ok k ]

unfoldable pub list_api_keys : Text → MemoryStore → List ApiKey
list_api_keys tenant_id s = keep (λ k. k.tenant_id == tenant_id) (map (λ e. e.1) s.keys)

unfoldable pub list_api_keys_active : ℕ → Text → MemoryStore → List ApiKey
unfolding is_valid
list_api_keys_active now tenant_id s =
    keep (λ k. (k.tenant_id == tenant_id) && is_valid now k) (map (λ e. e.1) s.keys)

-- The loop of `RevokeAPIKey`, which stops at the first key of the id; none if there is no such key.
unfoldable pub revoke_first : ℕ → Text → Dict Text ApiKey → Option (Dict Text ApiKey)
revoke_first now id [] = none
revoke_first now id ((hash, k) ∷ rest) =
    let later = revoke_first now id rest in
    if k.id == id
    then some ((hash, record k { revoked_at = some now }) ∷ rest)
    else elim later [ none ↦ none | some rest' ↦ some ((hash, k) ∷ rest') ]

unfoldable pub revoke_api_key : ℕ → Text → MemoryStore → MemoryStore × Option BillingError
unfolding revoke_first
revoke_api_key now id s = elim (revoke_first now id s.keys) [
  | none ↦ (s, some api_key_not_found)
  | some keys ↦ (record s { keys = keys }, none)
]

unfoldable pub put_email_verification_token : Text → Text → Text → ℕ → MemoryStore → MemoryStore
put_email_verification_token token_hash tenant_id email expires_at s = record s {
  email_tokens =
      put token_hash (record { tenant_id = tenant_id; email = email; expires_at = expires_at })
        s.email_tokens;
}

unfoldable pub consume_email_verification_token :
    ℕ → Text → MemoryStore → MemoryStore × Result BillingError (Text × Text)
consume_email_verification_token now token_hash s =
    let s' = record s { email_tokens = delete token_hash s.email_tokens } in
    elim (get token_hash s.email_tokens) [
      | none ↦ (s', err token_not_found)
      | some t ↦
          if ltb t.expires_at now
          then (s', err token_not_found)
          else (s', ok (t.tenant_id, t.email))
    ]

unfoldable pub mark_tenant_email_verified :
    ℕ → Text → ℕ → MemoryStore → MemoryStore × Option BillingError
mark_tenant_email_verified now tenant_id verified_at s = elim (get tenant_id s.tenants) [
  | none ↦ (s, some tenant_not_found)
  | some t ↦ (
    record s {
      tenants =
          put tenant_id (record t { email_verified_at = some verified_at; updated_at = now })
            s.tenants;
    },
    none,
  )
]

unfoldable pub put_oauth_identity : Text → Text → Text → MemoryStore → MemoryStore
put_oauth_identity provider sub tenant_id s = record s {
  oauth_ids = put (provider ++ (text ":" ++ sub)) tenant_id s.oauth_ids;
}

unfoldable pub get_oauth_identity_tenant : Text → Text → MemoryStore → Result BillingError Text
get_oauth_identity_tenant provider sub s = elim (get (provider ++ (text ":" ++ sub)) s.oauth_ids) [
  | none ↦ err oauth_identity_not_found
  | some id ↦ ok id
]

unfoldable pub mark_stripe_event_processed : Text → MemoryStore → MemoryStore × Bool
mark_stripe_event_processed event_id s = elim (get event_id s.stripe_events_seen) [
  | some _ ↦ (s, false)
  | none ↦ (record s { stripe_events_seen = put event_id true s.stripe_events_seen }, true)
]
