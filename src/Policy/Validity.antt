-- ===== src/Policy/Validity.antt =====
-- What Policy.Validate of pkg/policy/types.go accepts, as a predicate.
use cloudtap.Prelude.{
  ℕ, ◌+◌, ◌≡◌, ◌≢◌, refl, ◌↔◌, ◌⊎◌, Bool, true, false, none, List, [], ◌∷◌, arith, All,
}
use cloudtap.Text.{Str, eq_iff, mem, Distinct}
use cloudtap.Policy.Protocol.{known_protocol}
use cloudtap.Policy.{
  Rule, Policy, effect_allow, effect_deny, validate_match, validate_rule, validate_rules, validate,
}

abbrev pub rule_names : List Rule → List Str
rule_names [] = []
rule_names (r ∷ rs) = r.name ∷ rule_names rs

abbrev Fresh : List Str → List Rule → Type 0
Fresh names = All (λ r. mem r.name names ≡ false)

Fresh-cons :
    (k : Str) (names : List Str) (rs : List Rule)
    → mem k (rule_names rs) ≡ false
    → Fresh names rs
    → Fresh (k ∷ names) rs
unfolding mem
Fresh-cons k names [] h f = tt
Fresh-cons k names (r ∷ rs) h f =
    ground (arith, eq_iff r.name k, eq_iff k r.name, Fresh-cons k names rs)

Fresh-uncons :
    (k : Str) (names : List Str) (rs : List Rule)
    → Fresh (k ∷ names) rs
    → (mem k (rule_names rs) ≡ false) × Fresh names rs
unfolding mem
Fresh-uncons k names [] f = (refl, tt)
Fresh-uncons k names (r ∷ rs) f =
    ground (arith, eq_iff r.name k, eq_iff k r.name, Fresh-uncons k names rs)

Fresh-nil : (rs : List Rule) → Fresh [] rs
unfolding mem
Fresh-nil [] = tt
Fresh-nil (r ∷ rs) = (refl, Fresh-nil rs)

module _ (parse_cidr : Str → Bool) where
  pub record IsValidRule (r : Rule) : Type 0 where
    pub named : r.name ≢ []
    pub decided : (r.effect ≡ effect_allow) ⊎ (r.effect ≡ effect_deny)
    pub source_ok : (r.conditions.source_ip ≡ []) ⊎ (parse_cidr r.conditions.source_ip ≡ true)
    pub protocol_ok : (r.conditions.protocol ≡ []) ⊎ (known_protocol r.conditions.protocol ≡ true)

  validate_rule_sound : (r : Rule) → validate_rule parse_cidr r ≡ none → IsValidRule r
  unfolding validate_rule validate_match
  validate_rule_sound r h = ground (
    arith,
    eq_iff r.name [],
    eq_iff r.effect effect_allow,
    eq_iff r.effect effect_deny,
    eq_iff r.conditions.source_ip [],
    eq_iff r.conditions.protocol [],
  )

  validate_rule_complete : (r : Rule) → IsValidRule r → validate_rule parse_cidr r ≡ none
  unfolding validate_rule validate_match
  validate_rule_complete r h = ground (
    arith,
    eq_iff r.name [],
    eq_iff r.effect effect_allow,
    eq_iff r.effect effect_deny,
    eq_iff r.conditions.source_ip [],
    eq_iff r.conditions.protocol [],
  )

  validate_rules_sound :
      (i : ℕ) (names : List Str) (rs : List Rule)
      → validate_rules parse_cidr i names rs ≡ none
      → All IsValidRule rs × Distinct (rule_names rs) × Fresh names rs
  unfolding validate_rules
  validate_rules_sound i names [] h = (tt, tt, tt)
  validate_rules_sound i names (r ∷ rs) h = ground (
    arith,
    validate_rule_sound r,
    validate_rules_sound (i + 1) (r.name ∷ names) rs,
    Fresh-uncons r.name names rs,
  )

  validate_rules_complete :
      (i : ℕ) (names : List Str) (rs : List Rule)
      → All IsValidRule rs
      → Distinct (rule_names rs)
      → Fresh names rs
      → validate_rules parse_cidr i names rs ≡ none
  unfolding validate_rules
  validate_rules_complete i names [] v d f = refl
  validate_rules_complete i names (r ∷ rs) v d f = ground (
    arith,
    validate_rule_complete r,
    validate_rules_complete (i + 1) (r.name ∷ names) rs,
    Fresh-cons r.name names rs,
  )

  pub record IsValid (p : Policy) : Type 0 where
    pub default_ok : (p.default ≡ []) ⊎ (p.default ≡ effect_allow) ⊎ (p.default ≡ effect_deny)
    pub rules_ok : All IsValidRule p.rules
    pub names_distinct : Distinct (rule_names p.rules)

  validate_sound : (p : Policy) → validate parse_cidr p ≡ none → IsValid p
  unfolding validate
  validate_sound p h = ground (
    arith,
    eq_iff p.default [],
    eq_iff p.default effect_allow,
    eq_iff p.default effect_deny,
    validate_rules_sound 0 [] p.rules,
  )

  validate_complete : (p : Policy) → IsValid p → validate parse_cidr p ≡ none
  unfolding validate
  validate_complete p v = ground (
    arith,
    eq_iff p.default [],
    eq_iff p.default effect_allow,
    eq_iff p.default effect_deny,
    validate_rules_complete 0 [] p.rules v.rules_ok v.names_distinct (Fresh-nil p.rules),
  )

  -- Policy.Validate returns no error exactly when the default effect is empty, allow or deny, every
  -- rule has a name, an effect allow or deny, a source that is empty or parses as a CIDR and a
  -- protocol that is empty or known, and no two rules share a name.
  pub validate-eq-none_iff : (p : Policy) → (validate parse_cidr p ≡ none) ↔ IsValid p
  validate-eq-none_iff p = (validate_sound p, validate_complete p)
