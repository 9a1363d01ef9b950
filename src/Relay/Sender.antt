-- ===== src/Relay/Sender.antt =====
-- `validateSender` and `didMatchesNamespace` of cmd/relay/client.go: for whom a client may send.
use msg2agent.Prelude.{
  ℕ, Text, text, text_eq, ◌==◌, text_beq_iff, Bool, true, false, not, ◌&&◌, is_nil, Option, none,
  some, [], ◌∷◌, ◌++◌, ◌≡◌, ◌≢◌, ◌↔◌, ◌⊎◌, inl, inr, if◌then◌else◌, refl, sym, Bool-cases, arith,
}
use msg2agent.Prelude.Strings.{
  has_prefix, has_suffix, trim_suffix, has_prefix-split, has_prefix-append, trim_suffix-append,
  trim_suffix-snoc, has_suffix-append,
}
use msg2agent.Relay.Hub.{Message, Client}

-- `didMatchesNamespace`
unfoldable pub did_matches_namespace : Text → Text → Bool
did_matches_namespace did namespace =
    if has_suffix namespace (text "*")
    then has_prefix did (trim_suffix namespace (text "*"))
    else did == namespace

pub data SenderError : Type 0 where
  client_not_registered delegation_denied delegation_proof_invalid sender_mismatch : SenderError

-- The gateway fields of a `Client`.
pub record Gateway : Type 0 where
  pub namespace : Text
  pub signing_key : Text

-- `crypto.VerifySignature` and the printing of a UUID are parameters.
module _ (verify_signature : Text → Text → Text → Bool) (uuid_string : ℕ → Text) where
  abbrev pub proof_input : Client → Message → Text
  proof_input c msg = c.did ++ text ":" ++ msg.from ++ text ":" ++ uuid_string msg.id

  unfoldable pub validate_sender : Client → Gateway → Message → Option SenderError
  unfolding did_matches_namespace
  validate_sender c g msg =
      if is_nil c.did
      then some client_not_registered
      else if msg.from == c.did
      then none
      else if not (is_nil msg.actor_did) && msg.actor_did == c.did && not (is_nil g.namespace)
      then if not (did_matches_namespace msg.from g.namespace)
        then some delegation_denied
        else if not (verify_signature g.signing_key (proof_input c msg) msg.actor_proof)
        then some delegation_proof_invalid
        else none
      else some sender_mismatch

-- A DID is in a namespace: the namespace itself, or below one that ends in a star.
abbrev pub InNamespace : Text → Text → Type 0
InNamespace did ns =
    ((p : Text) × (r : Text) × (ns ≡ p ++ text "*") × (did ≡ p ++ r))
    ⊎ ((has_suffix ns (text "*") ≡ false) × (did ≡ ns))

did_matches_namespace_iff :
    (did ns : Text) → (did_matches_namespace did ns ≡ true) ↔ InNamespace did ns
unfolding did_matches_namespace
did_matches_namespace_iff did ns = (sound, complete)
  where
    sound : did_matches_namespace did ns ≡ true → InNamespace did ns
    sound h = elim (Bool-cases (has_suffix ns (text "*"))) [
      | inl star ↦
          let (r, e) = has_prefix-split did (trim_suffix ns (text "*")) (ground arith) in
          inl (trim_suffix ns (text "*"), r, sym (trim_suffix-append ns (text "*") star), e)
      | inr plain ↦ inr (plain, ground (arith, text_beq_iff did ns))
    ]

    complete : InNamespace did ns → did_matches_namespace did ns ≡ true
    complete (inl (p, r, e, d)) = rw e (
        rw d (
          rw (has_suffix-append p (text "*")) (rw (trim_suffix-snoc p 42) (has_prefix-append p r))))
    complete (inr (plain, d)) = ground (arith, text_beq_iff did ns)

is_nil_iff : (t : Text) → (is_nil t ≡ true) ↔ (t ≡ [])
is_nil_iff [] = ((λ _. refl), (λ _. refl))
is_nil_iff (x ∷ t) = ((λ h. absurd (cc h)), (λ h. absurd (cc h)))

module _ (verify_signature : Text → Text → Text → Bool) (uuid_string : ℕ → Text) where
  -- A message is let through exactly if its client is registered and the message is from the client's DID,
  -- or names the client's DID as the actor, is from the client's namespace, and carries a proof that the
  -- client's key signed the actor, the sender and the message's id.
  pub validate_sender_iff :
      (c : Client) (g : Gateway) (msg : Message)
      → (validate_sender verify_signature uuid_string c g msg ≡ none) ↔ (
          (c.did ≢ [])
          × ((msg.from ≡ c.did)
              ⊎ ((msg.actor_did ≡ c.did)
                  × (g.namespace ≢ [])
                  × InNamespace msg.from g.namespace
                  × (verify_signature g.signing_key
                        (c.did ++ text ":" ++ msg.from ++ text ":" ++ uuid_string msg.id)
                        msg.actor_proof
                      ≡ true))))
  unfolding validate_sender
  validate_sender_iff c g msg = ((λ h. (ground (arith, is_nil_iff c.did), sound h)), complete)
    where
      sound :
          validate_sender verify_signature uuid_string c g msg ≡ none
          → ((msg.from ≡ c.did)
              ⊎ ((msg.actor_did ≡ c.did)
                  × (g.namespace ≢ [])
                  × InNamespace msg.from g.namespace
                  × (verify_signature g.signing_key
                        (proof_input verify_signature uuid_string c msg)
                        msg.actor_proof
                      ≡ true)))
      sound h = elim (Bool-cases (msg.from == c.did)) [
        | inl own ↦ inl ((text_beq_iff msg.from c.did).0 own)
        | inr other ↦ inr (
          ground (arith, text_beq_iff msg.actor_did c.did),
          ground (arith, is_nil_iff g.namespace),
          (did_matches_namespace_iff msg.from g.namespace).0 (ground arith),
          ground arith,
        )
      ]

      complete :
          ((c.did ≢ [])
            × ((msg.from ≡ c.did)
                ⊎ ((msg.actor_did ≡ c.did)
                    × (g.namespace ≢ [])
                    × InNamespace msg.from g.namespace
                    × (verify_signature g.signing_key
                          (proof_input verify_signature uuid_string c msg)
                          msg.actor_proof
                        ≡ true))))
          → validate_sender verify_signature uuid_string c g msg ≡ none
      complete (d, inl own) = ground (arith, is_nil_iff c.did, text_beq_iff msg.from c.did)
      complete (d, inr (a, n, i, v)) =
          let m : did_matches_namespace msg.from g.namespace ≡ true =
            (did_matches_namespace_iff msg.from g.namespace).1 i in
          ground (
            arith,
            is_nil_iff c.did,
            is_nil_iff g.namespace,
            is_nil_iff msg.actor_did,
            text_beq_iff msg.actor_did c.did,
            m,
            v,
          )
