-- ===== src/Policy/Loading.antt =====
-- Parse and LoadFromFile of pkg/policy/types.go. `filepath.Clean`, `os.ReadFile` and the YAML
-- decoder are parameters; `none` stands for their errors.
use cloudtap.Prelude.{
  ◌≡◌, ◌≢◌, ◌↔◌, ◌⊎◌, inl, inr, Bool, Option, none, some, [], if◌then◌else◌, arith, Option-cases,
}
use cloudtap.Text.{Str, lit, ◌==◌, eq_iff}
use cloudtap.Policy.{Policy, PolicyError, effect_deny, validate}
use cloudtap.Policy.Validity.{IsValid, validate-eq-none_iff}

pub data LoadError : Type 0 where
  unreadable : Str → LoadError
  bad_yaml : LoadError
  invalid : PolicyError → LoadError

pub data Loaded : Type 0 where
  loaded : Policy → Loaded
  failed : LoadError → Loaded

-- if policy.Default == "" { policy.Default = EffectDeny }
unfoldable pub apply_defaults : Policy → Policy
apply_defaults p = record p { default = if p.default == [] then effect_deny else p.default }

finish : Policy → Option PolicyError → Loaded
finish p none = loaded p
finish p (some e) = failed (invalid e)

module _ (parse_cidr : Str → Bool) (unmarshal : Str → Option Policy) where
  decoded : Option Policy → Loaded
  unfolding finish apply_defaults
  decoded none = failed bad_yaml
  decoded (some p) = finish (apply_defaults p) (validate parse_cidr (apply_defaults p))

  -- Parse
  unfoldable pub parse : Str → Loaded
  unfolding decoded
  parse bytes = decoded (unmarshal bytes)

  module _ (clean : Str → Str) (read_file : Str → Option Str) where
    read : Str → Option Str → Loaded
    read path none = failed (unreadable path)
    read path (some bytes) = parse bytes

    -- LoadFromFile
    unfoldable pub load_from_file : Str → Loaded
    unfolding read
    load_from_file path = read (clean path) (read_file (clean path))

    -- What a successful load has read, and what it made of it.
    pub record LoadsAs (path : Str) (p : Policy) : Type 0 where
      pub bytes : Str
      pub config : Policy
      pub found : read_file (clean path) ≡ some bytes
      pub decodes : unmarshal bytes ≡ some config
      pub defaulted :
          ((config.default ≡ []) × (p ≡ record config { default = lit "deny" }))
          ⊎ ((config.default ≢ []) × (p ≡ config))
      pub valid : IsValid parse_cidr p

    apply_defaults_iff :
        (config p : Policy)
        → (p ≡ apply_defaults config) ↔ (
            ((config.default ≡ []) × (p ≡ record config { default = lit "deny" }))
            ⊎ ((config.default ≢ []) × (p ≡ config)))
    unfolding apply_defaults
    apply_defaults_iff config p =
        (ground (arith, eq_iff config.default []), ground (arith, eq_iff config.default []))

    finish-loaded :
        (p : Policy) {q : Policy}
        → finish p (validate parse_cidr p) ≡ loaded q
        → (q ≡ p) × (validate parse_cidr p ≡ none)
    unfolding finish
    finish-loaded p h = ground arith

    load_sound : (path : Str) (p : Policy) → load_from_file path ≡ loaded p → LoadsAs path p
    unfolding load_from_file parse
    load_sound path p h = elim (Option-cases (read_file (clean path))) [
      | inl missing ↦ ground arith
      | inr (bytes, found) ↦ elim (Option-cases (unmarshal bytes)) [
        | inl bad ↦ ground arith
        | inr (config, decodes) ↦
            let done = finish-loaded (apply_defaults config) (ground arith) in
            record {
              bytes = bytes;
              config = config;
              found = found;
              decodes = decodes;
              defaulted = (apply_defaults_iff config p).0 done.0;
              valid = (validate-eq-none_iff parse_cidr p).0 (rw done.0 done.1);
            }
      ]
    ]

    load_complete : (path : Str) (p : Policy) → LoadsAs path p → load_from_file path ≡ loaded p
    unfolding load_from_file parse
    load_complete path p l =
        let given = (apply_defaults_iff l.config p).1 l.defaulted in
        ground (arith, l.found, l.decodes, given, (validate-eq-none_iff parse_cidr p).1 l.valid)

    -- LoadFromFile returns the policy `p` exactly when the file at the cleaned path is readable, its
    -- bytes decode to some policy, `p` is that policy with an empty default effect replaced by deny,
    -- and `p` is valid.
    pub load_from_file-loaded_iff :
        (path : Str) (p : Policy) → (load_from_file path ≡ loaded p) ↔ LoadsAs path p
    load_from_file-loaded_iff path p = (load_sound path p, load_complete path p)
