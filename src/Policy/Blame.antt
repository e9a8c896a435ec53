-- ===== src/Policy/Blame.antt =====
-- Which rule an error of Policy.Validate in pkg/policy/types.go blames.
use Prim.Native.Nat.add
use mathlib.Core.List.{append-nil}
use cloudtap.Prelude.{
  ℕ, ◌+◌, ◌≡◌, ◌≢◌, refl, ap, ◌⊎◌, inl, inr, Bool, true, false, none, some, List, [], ◌∷◌, ◌++◌,
  arith, length, Option-cases, Bool-cases,
}
use cloudtap.Text.{Str, eq_iff, mem}
use cloudtap.Policy.{
  Rule, Policy, RuleError, PolicyError, invalid_default, rule_failed, duplicate_name, effect_allow,
  effect_deny, bad_default, validate_rule, validate_rules, validate,
}
use cloudtap.Policy.Validity.{rule_names, IsValid, validate-eq-none_iff}

module _ (parse_cidr : Str → Bool) where
  -- `e` is what the loop reports at rule `r`, at index `i`, when it has seen the names `seen`.
  abbrev pub Blames : PolicyError → ℕ → Rule → List Str → Type 0
  Blames e i r seen =
      ((x : RuleError) × (validate_rule parse_cidr r ≡ some x) × (e ≡ rule_failed i x))
      ⊎ ((validate_rule parse_cidr r ≡ none)
          × (mem r.name seen ≡ true)
          × (e ≡ duplicate_name r.name))

  record LoopBlame (i : ℕ) (names : List Str) (rs : List Rule) (e : PolicyError) : Type 0 where
    before : List Rule
    rule : Rule
    after : List Rule
    split : rs ≡ before ++ rule ∷ after
    clean : validate_rules parse_cidr i names before ≡ none
    reason : Blames e (i + length before) rule (rule_names before ++ names)

  mem-shift :
      (k x : Str) (xs names : List Str) → mem k (xs ++ x ∷ names) ≡ mem k (x ∷ (xs ++ names))
  unfolding mem
  mem-shift k x [] names = refl
  mem-shift k x (y ∷ xs) names = ground (arith, mem-shift k x xs names)

  LoopBlame-cons :
      (i : ℕ) (names : List Str) (r : Rule) (rs : List Rule) {e : PolicyError}
      → validate_rule parse_cidr r ≡ none
      → mem r.name names ≡ false
      → LoopBlame (i + 1) (r.name ∷ names) rs e
      → LoopBlame i names (r ∷ rs) e
  unfolding validate_rules
  LoopBlame-cons i names r rs h n b = record {
    before = r ∷ b.before;
    rule = b.rule;
    after = b.after;
    split = ap (◌∷◌ r) b.split;
    clean = ground (arith, b.clean);
    reason = ground (arith, mem-shift b.rule.name r.name (rule_names b.before) names, b.reason);
  }

  loop_blame :
      (i : ℕ) (names : List Str) (rs : List Rule) {e : PolicyError}
      → validate_rules parse_cidr i names rs ≡ some e
      → LoopBlame i names rs e
  unfolding validate_rules
  loop_blame i names [] h = cc
  loop_blame i names (r ∷ rs) h = elim (Option-cases (validate_rule parse_cidr r)) [
    | inr (x, q) ↦ record {
      before = [];
      rule = r;
      after = rs;
      split = refl;
      clean = refl;
      reason = inl (x, q, ground arith);
    }
    | inl q ↦ elim (Bool-cases (mem r.name names)) [
      | inl seen ↦ record {
        before = [];
        rule = r;
        after = rs;
        split = refl;
        clean = refl;
        reason = inr (q, seen, ground arith);
      }
      | inr new ↦
          LoopBlame-cons i names r rs q new (loop_blame (i + 1) (r.name ∷ names) rs (ground arith))
    ]
  ]

  pub record Blame (p : Policy) (e : PolicyError) : Type 0 where
    pub before : List Rule
    pub rule : Rule
    pub after : List Rule
    pub split : p.rules ≡ before ++ rule ∷ after
    pub clean : IsValid parse_cidr (record p { rules = before })
    pub reason : Blames e (length before) rule (rule_names before)

  rules-Blame :
      (p : Policy) {e : PolicyError}
      → bad_default p.default ≡ false
      → LoopBlame 0 [] p.rules e
      → Blame p e
  unfolding validate
  rules-Blame p fine b = record {
    before = b.before;
    rule = b.rule;
    after = b.after;
    split = b.split;
    clean = (validate-eq-none_iff parse_cidr (record p { rules = b.before })).0 (rw fine b.clean);
    reason = rw (append-nil (rule_names b.before), add.zero (length b.before)) at b.reason;
  }

  -- An error of Policy.Validate is either that of the default effect, which is then none of empty,
  -- allow and deny, or that of the first bad rule: the policy cut off before it is valid, and the
  -- error names the rule's index with its own error, or the rule is fine and repeats a name.
  pub validate-Blame :
      (p : Policy) (e : PolicyError)
      → validate parse_cidr p ≡ some e
      → ((e ≡ invalid_default p.default)
          × (p.default ≢ [])
          × (p.default ≢ effect_allow)
          × (p.default ≢ effect_deny))
        ⊎ Blame p e
  unfolding validate
  validate-Blame p e h = elim (Bool-cases (bad_default p.default)) [
    | inl bad ↦ inl (
        ground
          (arith, eq_iff p.default [], eq_iff p.default effect_allow, eq_iff p.default effect_deny))
    | inr fine ↦ inr (rules-Blame p fine (loop_blame 0 [] p.rules (ground arith)))
  ]
