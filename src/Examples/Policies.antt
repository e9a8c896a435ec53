-- ===== src/Examples/Policies.antt =====
-- pkg/policy at the policy of examples/policy.yaml, cut to two rules, and at broken ones.
use cloudtap.Prelude.{◌≡◌, refl, ◌⊎◌, ◌↔◌, Bool, true, Option, none, some, [], ◌∷◌, map, ◌≢◌}
use cloudtap.Text.{Str, lit, ◌==◌, mem}
use cloudtap.Policy.{
  Match, Rule, Policy, invalid_default, rule_failed, duplicate_name, effect_allow, effect_deny,
  validate_match, validate_rule, validate_rules, validate, name_required,
}
use cloudtap.Policy.Protocol.{to_lower, protocols, equal_fold, known_protocol}
use cloudtap.Policy.Validity.{IsValid, validate-eq-none_iff}
use cloudtap.Policy.Blame.{Blame, validate-Blame}
use cloudtap.Policy.Loading.{LoadsAs, loaded, parse, load_from_file, load_from_file-loaded_iff}

any_source : Str → Bool
any_source s = true

abbrev dev_match : Match
dev_match = record {
  target = lit "staging-*";
  user = lit "dev-*";
  source_ip = lit "10.0.0.0/8";
  protocol = lit "TCP";
}

abbrev dev_rule : Rule
dev_rule = record { name = lit "dev"; effect = effect_allow; conditions = dev_match }

abbrev unnamed : Rule
unnamed = record dev_rule { name = [] }

abbrev good : Policy
good = record { default = []; rules = dev_rule ∷ [] }

abbrev twice : Policy
twice = record { default = effect_deny; rules = dev_rule ∷ dev_rule ∷ [] }

good_accepted : validate any_source good ≡ none
unfolding validate validate_rules validate_rule validate_match any_source known_protocol equal_fold
    ◌==◌ mem
good_accepted = refl

second_unnamed :
    validate any_source (record { default = effect_deny; rules = dev_rule ∷ unnamed ∷ [] })
    ≡ some (rule_failed 1 name_required)
unfolding validate validate_rules validate_rule validate_match any_source known_protocol equal_fold
    ◌==◌ mem
second_unnamed = refl

long_s_accepted : known_protocol (b'h' ∷ b't' ∷ b't' ∷ b'p' ∷ 0xC5 ∷ 0xBF ∷ []) ≡ true
unfolding known_protocol equal_fold
long_s_accepted = refl

validate-eq-none_iff_example : (validate any_source good ≡ none) ↔ IsValid any_source good
validate-eq-none_iff_example = validate-eq-none_iff any_source good

twice_rejected : validate any_source twice ≡ some (duplicate_name (lit "dev"))
unfolding validate validate_rules validate_rule validate_match any_source known_protocol equal_fold
    ◌==◌ mem
twice_rejected = refl

validate-Blame_example :
    ((duplicate_name (lit "dev") ≡ invalid_default twice.default)
      × (twice.default ≢ [])
      × (twice.default ≢ effect_allow)
      × (twice.default ≢ effect_deny))
    ⊎ Blame any_source twice (duplicate_name (lit "dev"))
validate-Blame_example = validate-Blame any_source twice (duplicate_name (lit "dev")) twice_rejected

known_upper : mem (map to_lower (lit "StCp")) protocols ≡ true
unfolding to_lower mem ◌==◌
known_upper = refl

to_good : Str → Option Policy
to_good bytes = some good

echo : Str → Str
echo path = path

read_any : Str → Option Str
read_any path = some []

load_from_file-loaded_iff_example :
    (load_from_file any_source to_good echo read_any (lit "p.yaml")
      ≡ loaded (record good { default = effect_deny }))
    ↔ LoadsAs any_source to_good echo read_any
        (lit "p.yaml")
        (record good { default = effect_deny })
load_from_file-loaded_iff_example =
    load_from_file-loaded_iff any_source to_good echo read_any (lit "p.yaml")
      (record good { default = effect_deny })

good_loads :
    load_from_file any_source to_good echo read_any (lit "p.yaml")
    ≡ loaded (record good { default = effect_deny })
unfolding load_from_file parse to_good echo read_any validate validate_rules validate_rule
    validate_match any_source known_protocol equal_fold ◌==◌ mem
good_loads = refl
