-- ===== src/Security/Tests.antt =====
-- Concrete runs of the access control.
use msg2agent.Prelude.{
  Text, text, text_eq, ◌==◌, ◌≡◌, refl, inl, true, none, some, [], ◌∷◌, if◌then◌else◌,
}
use msg2agent.Prelude.Strings.{has_prefix, has_suffix, trim_suffix}
use msg2agent.Security.{
  access_denied, effect_allow, effect_deny, star, AclRule, matches_principal, matches_action,
  check_access,
}
use msg2agent.Security.Policies.{check_access-first_match}

abbrev anyone_at : Text
anyone_at = text "did:wba:x:*"

abbrev someone : Text
someone = text "did:wba:x:bob"

abbrev deny_someone : AclRule
deny_someone = record { principal = anyone_at; actions = text "call" ∷ []; effect = effect_deny }

abbrev allow_all : AclRule
allow_all = record { principal = star; actions = star ∷ []; effect = effect_allow }

abbrev allow_other : AclRule
allow_other = record { principal = text "did:wba:y"; actions = star ∷ []; effect = effect_allow }

check_access-first_match_example :
    check_access
      (some (record { default_allow = true; rules = allow_other ∷ deny_someone ∷ allow_all ∷ [] }))
      someone
      (text "call")
    ≡ (if deny_someone.effect == effect_deny then some access_denied else none)
unfolding matches_principal matches_action has_prefix has_suffix trim_suffix
check_access-first_match_example =
    check_access-first_match (allow_other ∷ []) (allow_all ∷ []) deny_someone true someone
      (text "call") (refl, tt) refl (inl refl)
