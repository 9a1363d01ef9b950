-- ===== src/Security/Patterns.antt =====
-- What a pattern of a rule matches.
use msg2agent.Prelude.{
  Text, text_eq, ◌==◌, text_beq_iff, ◌≡◌, refl, sym, ap, ◌↔◌, ◌⊎◌, inl, inr, ◌||◌, true, Bool-cases,
  List, [], ◌∷◌, ◌++◌, arith,
}
use msg2agent.Prelude.Strings.{
  has_prefix, has_suffix, trim_suffix, has_prefix-append, has_prefix-split, trim_suffix-append,
  has_suffix-append, trim_suffix-snoc,
}
use msg2agent.Security.{star, matches_principal, matches_action}

-- A pattern stands for itself; one that ends in `*`, for every string that begins with what is
-- before the `*`.
abbrev pub Globs : Text → Text → Type 0
Globs p x = ((prefix rest : Text) × (p ≡ prefix ++ star) × (x ≡ prefix ++ rest)) ⊎ (p ≡ x)

matches_principal_sound : (p x : Text) → matches_principal p x ≡ true → Globs p x
unfolding matches_principal
matches_principal_sound p x h = elim (Bool-cases (p == star)) [
  | inl any ↦ inl ([], x, (text_beq_iff p star).0 any, refl)
  | inr not_any ↦ elim (Bool-cases (has_suffix p star)) [
    | inl glob ↦
        (let (r, e) = has_prefix-split x (trim_suffix p star) (ground arith) in
          inl (trim_suffix p star, r, sym (trim_suffix-append p star glob), e))
    | inr plain ↦ inr (ground (arith, text_beq_iff p x))
  ]
]

-- What is before the `*` is a prefix of whatever is matched.
glob_prefix :
    (p x prefix rest : Text)
    → p ≡ prefix ++ star
    → x ≡ prefix ++ rest
    → (has_suffix p star ≡ true) × (has_prefix x (trim_suffix p star) ≡ true)
glob_prefix p x prefix rest e f = (
  rw e (has_suffix-append prefix star),
  rw (e, f) (rw (trim_suffix-snoc prefix b'*') (has_prefix-append prefix rest)),
)

self_prefix : (p : Text) → has_suffix p star ≡ true → has_prefix p (trim_suffix p star) ≡ true
self_prefix p h =
    let e = trim_suffix-append p star h in
    let k = has_prefix-append (trim_suffix p star) star in cc (e, k)

matches_principal_complete : (p x : Text) → Globs p x → matches_principal p x ≡ true
unfolding matches_principal
matches_principal_complete p x (inl (prefix, rest, e, f)) =
    ground (arith, glob_prefix p x prefix rest e f)
matches_principal_complete p x (inr e) =
    ground (arith, self_prefix p, text_beq_iff p x, ap (λ y. has_prefix y (trim_suffix p star)) e)

-- `matchesPrincipal` accepts exactly the principals that the pattern stands for.
pub matches_principal_iff : (p x : Text) → (matches_principal p x ≡ true) ↔ Globs p x
matches_principal_iff p x = (matches_principal_sound p x, matches_principal_complete p x)

matches_action-cons :
    (p : Text) (ps : List Text) (x : Text)
    → matches_action (p ∷ ps) x ≡ (matches_principal p x || matches_action ps x)
unfolding matches_action matches_principal
matches_action-cons p ps x = ground (arith, self_prefix p, text_beq_iff p x)

abbrev pub AnyGlobs : List Text → Text → Type 0
AnyGlobs [] x = ⊥
AnyGlobs (p ∷ ps) x = Globs p x ⊎ AnyGlobs ps x

not_matches_nil : (x : Text) → ¬ (matches_action [] x ≡ true)
unfolding matches_action
not_matches_nil x h = cc

matches_action_sound : (ps : List Text) (x : Text) → matches_action ps x ≡ true → AnyGlobs ps x
matches_action_sound [] x h = absurd (not_matches_nil x h)
matches_action_sound (p ∷ ps) x h = elim (Bool-cases (matches_principal p x)) [
  | inl y ↦ inl (matches_principal_sound p x y)
  | inr n ↦ inr (matches_action_sound ps x (ground (arith, matches_action-cons p ps x)))
]

matches_action_complete : (ps : List Text) (x : Text) → AnyGlobs ps x → matches_action ps x ≡ true
matches_action_complete [] x h = absurd h
matches_action_complete (p ∷ ps) x (inl g) =
    ground (arith, matches_action-cons p ps x, matches_principal_complete p x g)
matches_action_complete (p ∷ ps) x (inr g) =
    ground (arith, matches_action-cons p ps x, matches_action_complete ps x g)

-- `matchesAction` accepts an action exactly if one of the patterns stands for it.
pub matches_action_iff : (ps : List Text) (x : Text) → (matches_action ps x ≡ true) ↔ AnyGlobs ps x
matches_action_iff ps x = (matches_action_sound ps x, matches_action_complete ps x)
