-- ===== src/Security.antt =====
-- pkg/security/acl.go and the policy types of pkg/registry/agent.go.
pub mod Patterns
pub mod Policies
mod Tests
use msg2agent.Prelude.{
  Text, text, text_eq, ◌==◌, Bool, true, false, ◌&&◌, Option, none, some, List, [], ◌∷◌, ◌++◌,
  if◌then◌else◌,
}
use msg2agent.Prelude.Strings.{has_prefix, has_suffix, trim_suffix}

pub data AccessError : Type 0 where
  access_denied : AccessError

abbrev pub effect_allow : Text
effect_allow = text "allow"

abbrev pub effect_deny : Text
effect_deny = text "deny"

abbrev pub star : Text
star = text "*"

pub record AclRule : Type 0 where
  pub principal : Text
  pub actions : List Text
  pub effect : Text

pub record AclPolicy : Type 0 where
  pub default_allow : Bool
  pub rules : List AclRule

unfoldable pub matches_principal : Text → Text → Bool
matches_principal pattern_ principal =
    if pattern_ == star
    then true
    else if has_suffix pattern_ star
    then has_prefix principal (trim_suffix pattern_ star)
    else pattern_ == principal

-- The loop over the patterns of a rule; a pattern that does not match goes on to the next.
unfoldable pub matches_action : List Text → Text → Bool
matches_action [] action = false
matches_action (pattern_ ∷ patterns) action =
    let later = matches_action patterns action in
    if pattern_ == star
    then true
    else if has_suffix pattern_ star && has_prefix action (trim_suffix pattern_ star)
    then true
    else if pattern_ == action
    then true
    else later

abbrev pub rule_matches : AclRule → Text → Text → Bool
rule_matches rule principal action =
    matches_principal rule.principal principal && matches_action rule.actions action

-- The loop of `CheckAccess` and its fall back to the default; `none` is the nil error.
unfoldable pub check_rules : List AclRule → Bool → Text → Text → Option AccessError
check_rules [] default_allow did action = if default_allow then none else some access_denied
check_rules (rule ∷ rest) default_allow did action =
    let later = check_rules rest default_allow did action in
    if rule_matches rule did action
    then (if rule.effect == effect_deny
        then some access_denied
        else if rule.effect == effect_allow
        then none
        else later)
    else later

-- The argument is the agent's ACL, which may be nil.
unfoldable pub check_access : Option AclPolicy → Text → Text → Option AccessError
check_access none did action = none
check_access (some acl) did action = check_rules acl.rules acl.default_allow did action

-- `PolicyBuilder`: each method returns the builder, whose policy it has changed.
unfoldable pub new_policy_builder : AclPolicy
new_policy_builder = record { default_allow = false; rules = [] }

unfoldable pub set_default_allow : AclPolicy → Bool → AclPolicy
set_default_allow b allow_ = record b { default_allow = allow_ }

unfoldable pub allow : AclPolicy → Text → List Text → AclPolicy
allow b principal actions = record b {
  rules =
      b.rules ++ record { principal = principal; actions = actions; effect = effect_allow } ∷ [];
}

unfoldable pub deny : AclPolicy → Text → List Text → AclPolicy
deny b principal actions = record b {
  rules = b.rules ++ record { principal = principal; actions = actions; effect = effect_deny } ∷ [];
}

unfoldable pub default_open_policy : AclPolicy
unfolding new_policy_builder set_default_allow
default_open_policy = set_default_allow new_policy_builder true

unfoldable pub default_closed_policy : AclPolicy
unfolding new_policy_builder set_default_allow
default_closed_policy = set_default_allow new_policy_builder false

-- The loop of `TrustedAgentsPolicy`.
unfoldable pub allow_each : List Text → AclPolicy → AclPolicy
unfolding allow
allow_each [] b = b
allow_each (did ∷ dids) b = allow_each dids (allow b did (star ∷ []))

unfoldable pub trusted_agents_policy : List Text → AclPolicy
unfolding new_policy_builder set_default_allow allow_each
trusted_agents_policy dids = allow_each dids (set_default_allow new_policy_builder false)
