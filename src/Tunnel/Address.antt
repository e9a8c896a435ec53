-- ===== src/Tunnel/Address.antt =====
-- ResolveNetworkAddr of pkg/tunnel/manager.go and TCPDialer of pkg/tunnel/dialer.go. `url.Parse`
-- and the network are parameters.
use cloudtap.Prelude.{
  ◌≡◌, sym, ap, subst, ◌∙◌, false, ◌≢◌, refl, ◌↔◌, ◌⊎◌, inl, inr, Option-cases, true, ◌&&◌, ◌||◌,
  not, Option, none, some, [], ◌++◌, if◌then◌else◌, arith,
}
use cloudtap.Prelude.Int.{pos, ltb_ℤ}
use cloudtap.Text.{Str, lit, ◌==◌, eq_iff, contains}
use cloudtap.Time.{Instant, Duration}
use cloudtap.Tunnel.{
  Target, Context, Dialer, Error, Result, ok, err, missing_address, missing_port, bad_url,
}

-- `u.Scheme`, `u.Host` and `u.Port()` of a parsed URL
pub record Url : Type 0 where
  pub scheme : Str
  pub host : Str
  pub port : Str

-- The `if` ladder over `network`.
unfoldable pub network_of : Str → Str
network_of scheme =
    let n1 = if scheme == [] then lit "tcp" else scheme in
    let n2 = if n1 == lit "grpcs" || n1 == lit "https" then lit "tcp" else n1 in
    if n2 == lit "grpc" || n2 == lit "http" then lit "tcp" else n2

-- the address that is parsed
unfoldable pub with_scheme : Str → Str
with_scheme address = if contains address (lit "://") then address else lit "tcp://" ++ address

-- The network is tcp for no scheme and for grpc, grpcs, http and https, and the scheme itself for any
-- other.
abbrev Mapped : Str → Str → Type 0
Mapped scheme network =
    (((scheme ≡ [])
        ⊎ (scheme ≡ lit "grpc")
        ⊎ (scheme ≡ lit "grpcs")
        ⊎ (scheme ≡ lit "http")
        ⊎ (scheme ≡ lit "https"))
      × (network ≡ lit "tcp"))
    ⊎ ((scheme ≢ [])
        × (scheme ≢ lit "grpc")
        × (scheme ≢ lit "grpcs")
        × (scheme ≢ lit "http")
        × (scheme ≢ lit "https")
        × (network ≡ scheme))

network_of_lem : (scheme : Str) → Mapped scheme (network_of scheme)
unfolding network_of ◌==◌
network_of_lem scheme = ground (
  arith,
  eq_iff scheme [],
  eq_iff scheme (lit "grpc"),
  eq_iff scheme (lit "grpcs"),
  eq_iff scheme (lit "http"),
  eq_iff scheme (lit "https"),
)

network_of_iff : (scheme network : Str) → (network ≡ network_of scheme) ↔ Mapped scheme network
network_of_iff scheme network = (
  λ h. subst (Mapped scheme) (sym h) (network_of_lem scheme),
  λ h. ground (arith, network_of_lem scheme),
)

with_scheme_lem :
    (address : Str)
    → ((contains address (lit "://") ≡ true) × (with_scheme address ≡ address))
      ⊎ ((contains address (lit "://") ≡ false) × (with_scheme address ≡ lit "tcp://" ++ address))
unfolding with_scheme
with_scheme_lem address = ground arith

-- `parse_url s` is `none` where `url.Parse(s)` returns an error.
module _ (parse_url : Str → Option Url) where
  from_url : Target → Option Url → Result (Str × Str)
  unfolding network_of
  from_url t none = err (bad_url t.address)
  from_url t (some u) =
      if not (contains u.host (lit ":")) && u.port == []
      then err (missing_port t.name t.address)
      else ok (network_of u.scheme, u.host)

  -- ResolveNetworkAddr
  unfoldable pub resolve_network_addr : Target → Result (Str × Str)
  unfolding from_url with_scheme
  resolve_network_addr t =
      if t.address == []
      then err (missing_address t.name)
      else from_url t (parse_url (with_scheme t.address))

  -- `dial timeout ctx now network addr` is what `DialContext` at that time, and then `conn.Close()`,
  -- return; no timeout is set where `timeout` is `none`.
  module _ (dial : Option Duration → Context → Instant → Str → Str → Option Error) where
    dial_resolved : Option Duration → Context → Instant → Result (Str × Str) → Option Error
    dial_resolved timeout ctx now (err e) = some e
    dial_resolved timeout ctx now (ok (network, addr)) = dial timeout ctx now network addr

    -- TCPDialer.Connect
    unfoldable pub tcp_dialer : Duration → Dialer
    unfolding dial_resolved
    tcp_dialer timeout ctx now target =
        dial_resolved (if ltb_ℤ (pos 0) timeout then some timeout else none) ctx now
          (resolve_network_addr target)

  pub record Resolves (t : Target) (network host : Str) : Type 0 where
    pub url : Url
    pub given : t.address ≢ []
    pub parsed_text : Str
    pub prefixed :
        ((contains t.address (lit "://") ≡ true) × (parsed_text ≡ t.address))
        ⊎ ((contains t.address (lit "://") ≡ false) × (parsed_text ≡ lit "tcp://" ++ t.address))
    pub parsed : parse_url parsed_text ≡ some url
    pub has_port : (contains url.host (lit ":") ≡ true) ⊎ (url.port ≢ [])
    pub host_kept : host ≡ url.host
    pub mapped : Mapped url.scheme network

  resolve-Resolves :
      (t : Target) (network host : Str)
      → resolve_network_addr t ≡ ok (network, host)
      → Resolves t network host
  unfolding resolve_network_addr
  resolve-Resolves t network host h = elim (Option-cases (parse_url (with_scheme t.address))) [
    | inl bad ↦ ground arith
    | inr (u, parsed) ↦ record {
      url = u;
      parsed_text = with_scheme t.address;
      prefixed = with_scheme_lem t.address;
      given = ground (arith, eq_iff t.address []);
      parsed = parsed;
      has_port = ground (arith, eq_iff u.port []);
      host_kept = ground arith;
      mapped = (network_of_iff u.scheme network).0 (ground arith);
    }
  ]

  Resolves-resolve :
      (t : Target) (network host : Str)
      → Resolves t network host
      → resolve_network_addr t ≡ ok (network, host)
  unfolding resolve_network_addr
  Resolves-resolve t network host r =
      let mapped = (network_of_iff r.url.scheme network).1 r.mapped in
      let text : r.parsed_text ≡ with_scheme t.address =
        ground (arith, r.prefixed, with_scheme_lem t.address) in
      let parsed = ap parse_url (sym text) ∙ r.parsed in
      ground (
        arith,
        r.given,
        parsed,
        r.has_port,
        r.host_kept,
        mapped,
        eq_iff t.address [],
        eq_iff r.url.port [],
      )

  -- ResolveNetworkAddr returns a network and a host exactly when the address is not empty, it parses
  -- as a URL (with tcp:// put in front if it has no "://"), the URL's host has a colon or the URL has
  -- a port, the host is the URL's, and the network is tcp if the scheme is empty or one of grpc, grpcs,
  -- http and https, and the scheme otherwise.
  pub resolve_network_addr-ok_iff :
      (t : Target) (network host : Str)
      → (resolve_network_addr t ≡ ok (network, host)) ↔ Resolves t network host
  resolve_network_addr-ok_iff t network host =
      (resolve-Resolves t network host, Resolves-resolve t network host)

  -- A URL with a colon in its host and no port, such as that of "tcp://svc:" or "tcp://[::1]", is
  -- accepted: the error for a missing port is not returned.
  resolve_without_port :
      (t : Target) (u : Url)
      → t.address ≢ []
      → parse_url (with_scheme t.address) ≡ some u
      → contains u.host (lit ":") ≡ true
      → u.port ≡ []
      → resolve_network_addr t ≡ ok (network_of u.scheme, u.host)
  resolve_without_port t u given parsed colon none_given =
      Resolves-resolve t (network_of u.scheme) u.host (record {
        url = u;
        parsed_text = with_scheme t.address;
        prefixed = with_scheme_lem t.address;
        given = given;
        parsed = parsed;
        has_port = inl colon;
        host_kept = refl;
        mapped = (network_of_iff u.scheme (network_of u.scheme)).0 refl;
      })
