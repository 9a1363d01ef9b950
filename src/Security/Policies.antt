-- ===== src/Security/Policies.antt =====
-- What `CheckAccess` decides for a policy, and for the policies that the builder makes.
use mathlib.Core.List.{append_assoc, append-nil}
use msg2agent.Prelude.{
  Text, text_eq, ◌==◌, text_beq_iff, ◌≡◌, refl, sym, ◌∙◌, ◌↔◌, ◌⊎◌, inl, inr, Bool, true, false,
  Bool-cases, none, some, List, [], ◌∷◌, ◌++◌, map, if◌then◌else◌, All, arith,
}
use msg2agent.Security.{
  access_denied, effect_allow, effect_deny, star, AclRule, AclPolicy, rule_matches,
  matches_principal, matches_action, check_rules, check_access, allow, allow_each,
  trusted_agents_policy,
}
use msg2agent.Security.Patterns.{AnyGlobs, matches_principal_iff}

-- No rule of the list applies to the request.
abbrev pub NoneMatches : List AclRule → Text → Text → Type 0
NoneMatches rules did action = All (λ r. rule_matches r did action ≡ false) rules

check_rules-skip :
    (before rest : List AclRule) (d : Bool) (did action : Text)
    → NoneMatches before did action
    → check_rules (before ++ rest) d did action ≡ check_rules rest d did action
unfolding check_rules
check_rules-skip [] rest d did action h = refl
check_rules-skip (r ∷ before) rest d did action h =
    ground (arith, check_rules-skip before rest d did action h.1)

-- The first rule that applies decides, whatever rules follow and whatever the default, if its effect is
-- one of the two that are known: access is denied if it denies and granted if it allows.
pub check_access-first_match :
    (before after : List AclRule) (rule : AclRule) (d : Bool) (did action : Text)
    → NoneMatches before did action
    → rule_matches rule did action ≡ true
    → (rule.effect ≡ effect_deny) ⊎ (rule.effect ≡ effect_allow)
    → check_access (some (record { default_allow = d; rules = before ++ rule ∷ after })) did action
      ≡ (if rule.effect == effect_deny then some access_denied else none)
unfolding check_access check_rules
check_access-first_match before after rule d did action h m known =
    check_rules-skip before (rule ∷ after) d did action h
    ∙ ground
        (arith, text_beq_iff rule.effect effect_deny, text_beq_iff rule.effect effect_allow, known)

-- Where no rule applies, the default decides; without an ACL everything is allowed.
pub check_access-default :
    (acl : AclPolicy) (did action : Text)
    → NoneMatches acl.rules did action
    → (check_access (some acl) did action
        ≡ (if acl.default_allow then none else some access_denied))
      × (check_access none did action ≡ none)
unfolding check_access check_rules
check_access-default acl did action h = (
  rw (← append-nil acl.rules) (check_rules-skip acl.rules [] acl.default_allow did action h),
  refl,
)

abbrev trust : Text → AclRule
trust did = record { principal = did; actions = star ∷ []; effect = effect_allow }

rules-allow_each :
    (dids : List Text) (b : AclPolicy) → (allow_each dids b).rules ≡ b.rules ++ map trust dids
unfolding allow_each allow
rules-allow_each [] b = sym (append-nil b.rules)
rules-allow_each (did ∷ dids) b =
    rules-allow_each dids (allow b did (star ∷ []))
    ∙ append_assoc b.rules (trust did ∷ []) (map trust dids)

default_allow-allow_each :
    (dids : List Text) (b : AclPolicy) → (allow_each dids b).default_allow ≡ b.default_allow
unfolding allow_each allow
default_allow-allow_each [] b = refl
default_allow-allow_each (did ∷ dids) b = default_allow-allow_each dids (allow b did (star ∷ []))

check_rules-trust_cons :
    (t : Text) (dids : List Text) (did action : Text)
    → check_rules (trust t ∷ map trust dids) false did action
      ≡ (if matches_principal t did then none else check_rules (map trust dids) false did action)
unfolding check_rules matches_action
check_rules-trust_cons t dids did action = ground arith

check_rules-trust :
    (dids : List Text) (did action : Text)
    → (check_rules (map trust dids) false did action ≡ none) ↔ AnyGlobs dids did
unfolding check_rules
check_rules-trust [] did action = ((λ h. absurd (cc h)), (λ h. absurd h))
check_rules-trust (t ∷ dids) did action =
    let step = check_rules-trust_cons t dids did action in
    let rest = check_rules-trust dids did action in
    (
      (λ h. elim (Bool-cases (matches_principal t did)) [
        | inl y ↦ inl ((matches_principal_iff t did).0 y)
        | inr n ↦ inr (rest.0 (ground arith))
      ]),
      elim [
        | inl g ↦ ground (arith, (matches_principal_iff t did).1 g)
        | inr g ↦ ground (arith, rest.1 g)
      ],
    )

-- The allowlist policy admits exactly the principals that one of the listed patterns stands for, for
-- every action.
pub trusted_agents_policy_iff :
    (dids : List Text) (did action : Text)
    → (check_access (some (trusted_agents_policy dids)) did action ≡ none) ↔ AnyGlobs dids did
unfolding trusted_agents_policy check_access
trusted_agents_policy_iff dids did action =
    let b : AclPolicy = record { default_allow = false; rules = [] } in
    rw (rules-allow_each dids b)
      (rw (default_allow-allow_each dids b) (check_rules-trust dids did action))
