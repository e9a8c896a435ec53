-- ===== src/Policy.antt =====
-- pkg/policy/types.go and pkg/policy/policy.go: the policy file, its validation and its loading.
-- `net.ParseCIDR`, the YAML decoder and the file system are parameters.
pub mod Protocol
pub mod Validity
pub mod Blame
pub mod Loading
pub mod Evaluator
use cloudtap.Prelude.{
  ℕ, suc, ◌+◌, String, Bool, true, false, ◌&&◌, Option, none, some, List, [], ◌∷◌, if◌then◌else◌,
  not,
}
use cloudtap.Text.{Str, lit, ◌==◌, mem}
use Protocol.{known_protocol}

-- The texts of `Effect`; a policy file may hold any other text there.
abbrev pub effect_allow : Str
effect_allow = lit "allow"

abbrev pub effect_deny : Str
effect_deny = lit "deny"

pub record Match : Type 0 where
  pub target : Str
  pub user : Str
  pub source_ip : Str
  pub protocol : Str

pub record Rule : Type 0 where
  pub name : Str
  pub effect : Str
  pub conditions : Match

pub record Policy : Type 0 where
  pub default : Str
  pub rules : List Rule

-- The messages of `fmt.Errorf`, with the values that they quote.
pub data MatchError : Type 0 where
  invalid_cidr : Str → MatchError
  invalid_protocol : Str → MatchError

pub data RuleError : Type 0 where
  name_required : RuleError
  invalid_effect : Str → RuleError
  match_failed : MatchError → RuleError

pub data PolicyError : Type 0 where
  invalid_default : Str → PolicyError
  rule_failed : ℕ → RuleError → PolicyError
  duplicate_name : Str → PolicyError

-- Match.IsEmpty
unfoldable pub is_empty : Match → Bool
is_empty m = m.target == [] && m.user == [] && m.source_ip == [] && m.protocol == []

-- the test of the default effect in Policy.Validate
bad_default : Str → Bool
bad_default d = not (d == []) && not (d == effect_allow) && not (d == effect_deny)

-- `parse_cidr s` is true where `net.ParseCIDR(s)` returns no error.
module _ (parse_cidr : Str → Bool) where
  -- the protocol half of Match.Validate
  validate_protocol : Match → Option MatchError
  validate_protocol m =
      if m.protocol == []
      then none
      else if known_protocol m.protocol
      then none
      else some (invalid_protocol m.protocol)

  -- Match.Validate
  unfoldable pub validate_match : Match → Option MatchError
  unfolding validate_protocol
  validate_match m =
      if m.source_ip == []
      then validate_protocol m
      else if parse_cidr m.source_ip
      then validate_protocol m
      else some (invalid_cidr m.source_ip)

  wrap_match : Option MatchError → Option RuleError
  wrap_match none = none
  wrap_match (some e) = some (match_failed e)

  -- Rule.Validate
  unfoldable pub validate_rule : Rule → Option RuleError
  unfolding wrap_match
  validate_rule r =
      if r.name == []
      then some name_required
      else if not (r.effect == effect_allow) && not (r.effect == effect_deny)
      then some (invalid_effect r.effect)
      else wrap_match (validate_match r.conditions)

  -- One round of the loop of Policy.Validate, with the rest of the loop.
  check_rule : ℕ → Rule → Option RuleError → Bool → Option PolicyError → Option PolicyError
  check_rule i r (some e) seen rest = some (rule_failed i e)
  check_rule i r none seen rest = if seen then some (duplicate_name r.name) else rest

  -- the loop of Policy.Validate, from index `i`, with the names so far
  unfoldable pub validate_rules : ℕ → List Str → List Rule → Option PolicyError
  unfolding check_rule
  validate_rules i names [] = none
  validate_rules i names (r ∷ rs) =
      check_rule i r (validate_rule r) (mem r.name names)
        (validate_rules (i + 1) (r.name ∷ names) rs)

  -- Policy.Validate
  unfoldable pub validate : Policy → Option PolicyError
  unfolding bad_default
  validate p =
      if bad_default p.default
      then some (invalid_default p.default)
      else validate_rules 0 [] p.rules

-- DefaultPolicy
unfoldable pub default_policy : Policy
default_policy = record { default = effect_deny; rules = [] }
