-- ===== src/Billing/Store/Keys.antt =====
-- Revoked API keys.
use msg2agent.Prelude.{
  ℕ, ◌≤◌, Text, text_eq, text_beq_iff, ◌==◌, ◌≡◌, subst, ok, refl, inl, inr, true, false,
  Bool-cases, Option-cases, none, some, [], ◌∷◌, if◌then◌else◌, arith,
}
use msg2agent.Prelude.Dict.{Dict, AllEntries, AllEntries-get, total}
use msg2agent.Billing.Store.{
  ApiKey, is_valid, MemoryStore, revoke_first, revoke_api_key, get_api_key_by_hash,
}

-- How many keys have an id.
abbrev pub with_id : Text → Dict Text ApiKey → ℕ
with_id id m = total (λ k. if k.id == id then 1 else 0) m

-- A key of the id is not valid at any time.
abbrev pub IsRevoked : Text → Text → ApiKey → Type 0
IsRevoked id hash k = (now : ℕ) → (k.id == id) ≡ true → is_valid now k ≡ false

none_with_id : (id : Text) (m : Dict Text ApiKey) → with_id id m ≡ 0 → AllEntries (IsRevoked id) m
unfolding total
none_with_id id [] h = tt
none_with_id id ((hash, k) ∷ m) h =
    (λ now e. absurd (ground arith), none_with_id id m (ground arith))

AllEntries-revoke_first :
    (now : ℕ) (id : Text) (m : Dict Text ApiKey) {m' : Dict Text ApiKey}
    → with_id id m ≤ 1
    → revoke_first now id m ≡ some m'
    → AllEntries (IsRevoked id) m'
unfolding total revoke_first is_valid
AllEntries-revoke_first now id [] u h = cc
AllEntries-revoke_first now id ((hash, k) ∷ m) {m'} u h = elim (Bool-cases (k.id == id)) [
  | inl y ↦
      (let q : (hash, record k { revoked_at = some now }) ∷ m ≡ m' = ground arith in
        subst (AllEntries (IsRevoked id)) q (λ later e. refl, none_with_id id m (ground arith)))
  | inr n ↦ elim (Option-cases (revoke_first now id m)) [
    | inl e ↦ absurd (ground arith)
    | inr (r, e) ↦
        (let q : (hash, k) ∷ r ≡ m' = ground arith in
          subst (AllEntries (IsRevoked id)) q
            (λ later f. absurd (ground arith), AllEntries-revoke_first now id m (ground arith) e))
  ]
]

revoke_api_key-after :
    (now : ℕ) (id : Text) (s : MemoryStore)
    → (revoke_api_key now id s).1 ≡ none
    → revoke_first now id s.keys ≡ some (revoke_api_key now id s).0.keys
unfolding revoke_api_key
revoke_api_key-after now id s h = elim (Option-cases (revoke_first now id s.keys)) [
  | inl e ↦ absurd (ground arith)
  | inr (m, e) ↦ rw (e, revoke_api_key) refl
]

-- When at most one key has the id and revoking it answers with no error, no lookup of a hash finds a key
-- of that id that is valid, at any time.
pub revoke_api_key_lem :
    (now : ℕ) (id : Text) (s : MemoryStore)
    → with_id id s.keys ≤ 1
    → (revoke_api_key now id s).1 ≡ none
    → (hash : Text) (k : ApiKey) (later : ℕ)
    → get_api_key_by_hash hash (revoke_api_key now id s).0 ≡ ok k
    → k.id ≡ id
    → is_valid later k ≡ false
unfolding get_api_key_by_hash
revoke_api_key_lem now id s u h hash k later found e =
    let all = AllEntries-revoke_first now id s.keys u (revoke_api_key-after now id s h) in
    AllEntries-get (IsRevoked id) hash (revoke_api_key now id s).0.keys all (ground arith) later
      ((text_beq_iff k.id id).1 e)
