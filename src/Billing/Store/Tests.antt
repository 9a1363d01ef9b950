-- ===== src/Billing/Store/Tests.antt =====
-- Concrete runs of the billing store.
use msg2agent.Prelude.{text, text_eq, ◌≡◌, refl, false, none, some, [], ◌∷◌, arith}
use msg2agent.Prelude.Dict.{get, put, total}
use msg2agent.Billing.Store.{
  ApiKey, MemoryStore, new_memory_store, put_api_key, get_api_key_by_hash, revoke_first,
  revoke_api_key, is_valid, put_email_verification_token, consume_email_verification_token,
}
use msg2agent.Billing.Store.Tokens.{
  TokenConsumed, consume_email_verification_token_lem, mark_each, first_times, mark_each_lem,
}
use msg2agent.Billing.Store.Keys.{revoke_api_key_lem}

abbrev with_token : MemoryStore
with_token =
    put_email_verification_token (text "h") (text "t1") (text "a@example.org") 100 new_memory_store

consume_email_verification_token_lem_example :
    TokenConsumed 50
      (text "h")
      with_token
      (consume_email_verification_token 50 (text "h") with_token)
consume_email_verification_token_lem_example =
    consume_email_verification_token_lem 50 (text "h") with_token

mark_each_lem_example :
    mark_each (text "e1" ∷ text "e2" ∷ text "e1" ∷ []) new_memory_store
    ≡ first_times [] (text "e1" ∷ text "e2" ∷ text "e1" ∷ [])
mark_each_lem_example = mark_each_lem (text "e1" ∷ text "e2" ∷ text "e1" ∷ [])

abbrev key : ApiKey
key = record {
  id = text "k1";
  tenant_id = text "t1";
  name = [];
  key_hash = text "hash";
  prefix = [];
  created_at = 1;
  expires_at = none;
  revoked_at = none;
}

abbrev with_key : MemoryStore
with_key = put_api_key key new_memory_store

abbrev revoked : ApiKey
revoked = record key { revoked_at = some 9 }

revoke_api_key_lem_example : is_valid 10 revoked ≡ false
unfolding put_api_key new_memory_store put total revoke_api_key revoke_first get_api_key_by_hash get
revoke_api_key_lem_example =
    revoke_api_key_lem 9 (text "k1") with_key (ground arith) refl (text "hash") revoked 10 refl refl
