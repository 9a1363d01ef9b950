-- ===== src/Billing/Store/Tokens.antt =====
-- What is used once: verification tokens and Stripe events.
use msg2agent.Prelude.{
  ℕ, ◌≤◌, Text, text_eq, text_beq_iff, ◌≡◌, ◌⊎◌, ◌≢◌, refl, ap, sym, ◌∙◌, inl, inr, Bool, true,
  false, not, Bool-cases, none, some, List, [], ◌∷◌, if◌then◌else◌, if_elim, option_elim, ltb,
  Result, ok, err, arith,
}
use msg2agent.Prelude.Dict.{get, put, delete, get-put, get-delete, get-delete_self}
use msg2agent.Prelude.Occurs.{contains}
use msg2agent.Billing.Store.{
  BillingError, token_not_found, MemEmailToken, MemoryStore, new_memory_store,
  consume_email_verification_token, mark_stripe_event_processed,
}

-- What consuming a token did: it is gone, every other token stays, and the answer is the tenant and the
-- address that were stored for it, its time not being past, or else the error.
abbrev pub TokenConsumed :
    ℕ → Text → MemoryStore → MemoryStore × Result BillingError (Text × Text) → Type 0
TokenConsumed now hash s (t, r) =
    ((later : ℕ) → (consume_email_verification_token later hash t).1 ≡ err token_not_found)
    × ((other : Text) → other ≢ hash → get other t.email_tokens ≡ get other s.email_tokens)
    × (((token : MemEmailToken) × (get hash s.email_tokens ≡ some token)
          × (now ≤ token.expires_at)
          × (r ≡ ok (token.tenant_id, token.email)))
        ⊎ (r ≡ err token_not_found))

spent :
    (later : ℕ) (hash : Text) (s : MemoryStore)
    → get hash s.email_tokens ≡ none
    → (consume_email_verification_token later hash s).1 ≡ err token_not_found
unfolding consume_email_verification_token
spent later hash s e = rw (e, consume_email_verification_token) refl

-- Consuming a verification token answers with its tenant and address only if the token is stored and its
-- time is not past; whatever the answer, no later call gets an answer for that token, and every other
-- token stays.
pub consume_email_verification_token_lem :
    (now : ℕ) (hash : Text) (s : MemoryStore)
    → TokenConsumed now hash s (consume_email_verification_token now hash s)
unfolding consume_email_verification_token
consume_email_verification_token_lem now hash s =
    let s' : MemoryStore = record s { email_tokens = delete hash s.email_tokens } in
    let gone : (later : ℕ)
        → (consume_email_verification_token later hash s').1 ≡ err token_not_found =
      λ later. spent later hash s' (get-delete_self hash s.email_tokens) in
    let others : (other : Text)
        → other ≢ hash
        → get other s'.email_tokens ≡ get other s.email_tokens =
      λ other ne. ground (
        arith,
        get-delete hash other s.email_tokens,
        text_beq_iff hash other,
        (λ (q : hash ≡ other). ne (sym q)),
      ) in
    option_elim (TokenConsumed now hash s) (get hash s.email_tokens) _ _
      (λ _. (gone, others, inr refl))
      (λ t e.
        if_elim (TokenConsumed now hash s) (ltb t.expires_at now) (λ _. (gone, others, inr refl))
          (λ n. (gone, others, inl (t, e, ground arith, refl))))

-- A run of webhook deliveries: what `MarkStripeEventProcessed` answers for each.
unfoldable pub mark_each : List Text → MemoryStore → List Bool
mark_each [] s = []
mark_each (e ∷ es) s = let (s', new_) = mark_stripe_event_processed e s in new_ ∷ mark_each es s'

-- For each delivery, whether its event is in neither the list of earlier events nor before it.
abbrev pub first_times : List Text → List Text → List Bool
first_times seen [] = []
first_times seen (e ∷ es) = not (contains e seen) ∷ first_times (e ∷ seen) es

-- The store has marked exactly the events of a list.
abbrev HasSeen : List Text → MemoryStore → Type 0
HasSeen seen s =
    (e : Text) → get e s.stripe_events_seen ≡ (if contains e seen then some true else none)

seen_already :
    (e : Text) (s : MemoryStore) {b : Bool}
    → get e s.stripe_events_seen ≡ some b
    → mark_stripe_event_processed e s ≡ (s, false)
unfolding mark_stripe_event_processed
seen_already e s g = rw (g, mark_stripe_event_processed) refl

seen_now :
    (e : Text) (s : MemoryStore)
    → get e s.stripe_events_seen ≡ none
    → mark_stripe_event_processed e s
      ≡ (record s { stripe_events_seen = put e true s.stripe_events_seen }, true)
unfolding mark_stripe_event_processed
seen_now e s g = rw (g, mark_stripe_event_processed) refl

mark_each-HasSeen :
    (seen es : List Text) (s : MemoryStore) → HasSeen seen s → mark_each es s ≡ first_times seen es
unfolding mark_each contains
mark_each-HasSeen seen [] s h = refl
mark_each-HasSeen seen (e ∷ es) s h = elim (Bool-cases (contains e seen)) [
  | inl y ↦
      (let g : get e s.stripe_events_seen ≡ some true = ground (arith, h e) in
        ap (λ p. p.1 ∷ mark_each es p.0) (seen_already e s g)
        ∙ ap (λ b. not b ∷ mark_each es s) (sym y)
        ∙ ap (λ r. not (contains e seen) ∷ r)
            (mark_each-HasSeen (e ∷ seen) es s (λ x. ground (arith, h x, h e, text_beq_iff e x))))
  | inr n ↦
      (let g : get e s.stripe_events_seen ≡ none = ground (arith, h e) in
        let s' : MemoryStore = record s { stripe_events_seen = put e true s.stripe_events_seen } in
        ap (λ p. p.1 ∷ mark_each es p.0) (seen_now e s g)
        ∙ ap (λ b. not b ∷ mark_each es s') (sym n)
        ∙ ap (λ r. not (contains e seen) ∷ r)
            (mark_each-HasSeen (e ∷ seen) es s'
              (λ x. ground (arith, h x, get-put e x true s.stripe_events_seen, text_beq_iff e x))))
]

-- In a new store, a run of Stripe webhook deliveries is answered with new for an event exactly when no
-- earlier delivery had it, however often each is repeated.
pub mark_each_lem : (es : List Text) → mark_each es new_memory_store ≡ first_times [] es
unfolding new_memory_store get contains
mark_each_lem es = mark_each-HasSeen [] es new_memory_store (λ e. refl)
