-- ===== src/Client/Settings.antt =====
-- The addresses of cmd/cloudtapctl/main.go. strings.TrimSpace and url.Values.Encode are parameters.
use cloudtap.Prelude.{
  ℕ, zero, suc, ◌≡◌, ◌≢◌, refl, sym, ap, ◌∙◌, ◌++◌, Bool, false, ◌&&◌, ◌||◌, not, Option, none,
  some, [], ◌∷◌, if◌then◌else◌, arith, nat_eq,
}
use cloudtap.Text.{Str, lit, ◌==◌, eq_iff, has_prefix}

-- strings.TrimRight(s, "/")
unfoldable pub trim_right_slash : Str → Str
trim_right_slash [] = []
trim_right_slash (c ∷ s) =
    let rest = trim_right_slash s in if rest == [] && nat_eq c b'/' then [] else c ∷ rest

abbrev pub has_scheme : Str → Bool
has_scheme s = has_prefix s (lit "http://") || has_prefix s (lit "https://")

module _ (trim_space : Str → Str) where
  with_base : Str → Str
  with_base trimmed =
      if trimmed == []
      then lit "http://localhost:8080"
      else if has_scheme trimmed
      then trim_right_slash trimmed
      else if has_prefix trimmed (lit ":")
      then lit "http://localhost" ++ trimmed
      else lit "http://" ++ trim_right_slash trimmed

  -- sanitizeHTTPBase
  unfoldable pub sanitize_http_base : Str → Str
  unfolding with_base
  sanitize_http_base addr = with_base (trim_space addr)

  -- defaultHTTPURL
  unfoldable pub default_http_url : (Str → Str) → Str
  default_http_url getenv =
      if not (getenv (lit "CLOUDTAP_HTTP_URL") == [])
      then getenv (lit "CLOUDTAP_HTTP_URL")
      else if not (getenv (lit "CLOUDTAP_HTTP_ADDR") == [])
      then sanitize_http_base (getenv (lit "CLOUDTAP_HTTP_ADDR"))
      else lit "http://localhost:8080"

  module _ (encode_target : Str → Str) where
    query_of : Option Str → Str
    query_of none = []
    query_of (some target) =
        if encode_target target == [] then [] else lit "?" ++ encode_target target

    -- the URL of httpRequest
    unfoldable pub endpoint : Str → Str → Option Str → Str
    unfolding query_of
    endpoint base path query = sanitize_http_base base ++ (path ++ query_of query)

abbrev pub slashes : ℕ → Str
slashes zero = []
slashes (suc k) = b'/' ∷ slashes k

trim_right_slash-slashes : (k : ℕ) → trim_right_slash (slashes k) ≡ []
unfolding trim_right_slash
trim_right_slash-slashes zero = refl
trim_right_slash-slashes (suc k) = ground (arith, trim_right_slash-slashes k, eq_iff [] [])

trim_right_slash-append : (h : Str) (k : ℕ) → trim_right_slash (h ++ slashes k) ≡ trim_right_slash h
unfolding trim_right_slash
trim_right_slash-append [] k = trim_right_slash-slashes k
trim_right_slash-append (c ∷ h) k = rw (trim_right_slash-append h k) refl

append_nonempty : (p s : Str) → s ≢ [] → p ++ s ≢ []
append_nonempty [] s h = h
append_nonempty (c ∷ p) s h = λ e. cc

trim_right_slash-prefix :
    (p s : Str) → trim_right_slash s ≢ [] → trim_right_slash (p ++ s) ≡ p ++ trim_right_slash s
unfolding trim_right_slash
trim_right_slash-prefix [] s h = refl
trim_right_slash-prefix (c ∷ p) s h = ground (
  arith,
  trim_right_slash-prefix p s,
  append_nonempty p (trim_right_slash s),
  eq_iff (p ++ trim_right_slash s) [],
)

-- A host, with or without a port, and without a slash at its end.
pub record IsHost (h : Str) : Type 0 where
  pub given : h ≢ []
  pub no_slash : trim_right_slash h ≡ h
  pub no_colon : has_prefix h (lit ":") ≡ false

has_prefix-append : (h s : Str) → h ≢ [] → has_prefix (h ++ s) (lit ":") ≡ has_prefix h (lit ":")
unfolding has_prefix
has_prefix-append [] s n = absurd (n refl)
has_prefix-append (c ∷ h) s n = refl

-- The address `t` is the host with any number of slashes behind it, and perhaps a scheme in front;
-- `base` is the address that is meant.
pub data Typed (h : Str) (k : ℕ) (t base : Str) : Type 0 where
  bare : has_scheme t ≡ false → t ≡ h ++ slashes k → base ≡ lit "http://" ++ h → Typed h k t base
  with_http : t ≡ lit "http://" ++ (h ++ slashes k) → base ≡ lit "http://" ++ h → Typed h k t base
  with_https :
      t ≡ lit "https://" ++ (h ++ slashes k) → base ≡ lit "https://" ++ h → Typed h k t base

trim_right_slash-address :
    (p h : Str) (k : ℕ) → IsHost h → trim_right_slash (p ++ (h ++ slashes k)) ≡ p ++ h
trim_right_slash-address p h k host =
    let whole = trim_right_slash-append h k ∙ host.no_slash in
    trim_right_slash-prefix p (h ++ slashes k) (λ e. host.given (sym whole ∙ e))
    ∙ ap (λ x. p ++ x) whole

bare_given : (h : Str) (k : ℕ) → IsHost h → h ++ slashes k ≢ []
bare_given [] k host = absurd (host.given refl)
bare_given (c ∷ h) k host = λ e. cc

bare_base :
    (t : Str)
    → has_scheme t ≡ false
    → has_prefix t (lit ":") ≡ false
    → t ≢ []
    → sanitize_http_base (λ s. s) t ≡ lit "http://" ++ trim_right_slash t
unfolding sanitize_http_base
bare_base t no_scheme colon given = ground (arith, eq_iff t [])

module _ (trim_space : Str → Str) where
  -- However many slashes the user puts behind a host, the base address has none, its scheme is the
  -- one in front of the host, and http where there is none.
  pub sanitize_http_base-Typed :
      (a h base : Str) (k : ℕ)
      → IsHost h
      → Typed h k (trim_space a) base
      → sanitize_http_base trim_space a ≡ base
  unfolding sanitize_http_base has_prefix ◌==◌
  sanitize_http_base-Typed a h base k host (bare no_scheme typed meant) =
      let colon : has_prefix (trim_space a) (lit ":") ≡ false =
        ap (λ t. has_prefix t (lit ":")) typed
        ∙ has_prefix-append h (slashes k) host.given
        ∙ host.no_colon in
      let given : trim_space a ≢ [] = λ e. bare_given h k host (sym typed ∙ e) in
      let trimmed : trim_right_slash (trim_space a) ≡ h =
        ap trim_right_slash typed ∙ trim_right_slash-append h k ∙ host.no_slash in
      bare_base (trim_space a) no_scheme colon given
      ∙ ap (λ x. lit "http://" ++ x) trimmed
      ∙ sym meant
  sanitize_http_base-Typed a h base k host (with_http typed meant) =
      rw (typed, meant) (trim_right_slash-address (lit "http://") h k host)
  sanitize_http_base-Typed a h base k host (with_https typed meant) =
      rw (typed, meant) (trim_right_slash-address (lit "https://") h k host)

  -- An address that begins with a colon is a port of this host, and keeps its slashes.
  sanitize_http_base_port :
      (a p : Str)
      → trim_space a ≡ lit ":" ++ p
      → sanitize_http_base trim_space a ≡ lit "http://localhost:" ++ p
  unfolding sanitize_http_base has_prefix ◌==◌
  sanitize_http_base_port a p h = rw h refl
