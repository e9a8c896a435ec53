-- ===== src/Client/Tls.antt =====
-- The TLS settings and the credentials of cmd/cloudtapctl/main.go.
use cloudtap.Prelude.{
  ◌≡◌, ◌≢◌, refl, ◌↔◌, ◌⊎◌, ◌++◌, Bool, true, ◌&&◌, ◌||◌, not, Option, none, some, List, [], ◌∷◌,
  if◌then◌else◌, arith, inl, inr,
}
use cloudtap.Text.{Str, lit, ◌==◌, eq_iff}

sum-cases : {A B : Type 0} (s : A ⊎ B) → ((a : A) × (s ≡ inl a)) ⊎ ((b : B) × (s ≡ inr b))
sum-cases (inl a) = inl (a, refl)
sum-cases (inr b) = inr (b, refl)

-- tls.Config as it is built: the minimum version is TLS 1.2 throughout. A certificate and a pool are
-- the bytes that they were made of.
pub record TlsConfig : Type 0 where
  pub insecure_skip_verify : Bool
  pub certificate : Option Str
  pub root_cas : Option Str

pub data TlsError : Type 0 where
  cert_and_key_required : TlsError
  bad_key_pair : Str → TlsError
  unreadable_ca : Str → TlsError
  bad_ca : TlsError

-- a configuration or none, or an error
pub data TlsResult : Type 0 where
  configured : Option TlsConfig → TlsResult
  failed : TlsError → TlsResult

-- `load_key_pair` is tls.LoadX509KeyPair, `read_file` os.ReadFile, and `parse_pem` tells whether
-- AppendCertsFromPEM finds a certificate. An error is `inl`.
module _ (load_key_pair : Str → Str → Str ⊎ Str) (read_file : Str → Str ⊎ Str)
    (parse_pem : Str → Bool) where
  with_roots : TlsConfig → Str ⊎ Str → TlsResult
  with_roots c (inl e) = failed (unreadable_ca e)
  with_roots c (inr bytes) =
      if parse_pem bytes
      then configured (some (record c { root_cas = some bytes }))
      else failed bad_ca

  -- the half about `caFile`
  add_roots : Str → TlsConfig → TlsResult
  unfolding with_roots
  add_roots ca c = if ca == [] then configured (some c) else with_roots c (read_file ca)

  with_pair : Str → TlsConfig → Str ⊎ Str → TlsResult
  unfolding add_roots
  with_pair ca c (inl e) = failed (bad_key_pair e)
  with_pair ca c (inr pair) = add_roots ca (record c { certificate = some pair })

  -- the half about `certFile` and `keyFile`
  add_pair : Str → Str → Str → TlsConfig → TlsResult
  unfolding with_pair add_roots
  add_pair cert key ca c =
      if not (cert == []) || not (key == [])
      then if cert == [] || key == []
        then failed cert_and_key_required
        else with_pair ca c (load_key_pair cert key)
      else add_roots ca c

  -- buildTLSConfig
  unfoldable pub build_tls_config : Str → Str → Str → Bool → TlsResult
  unfolding add_pair
  build_tls_config cert key ca skip =
      if cert == [] && key == [] && ca == [] && not skip
      then configured none
      else add_pair cert key ca
          (record { insecure_skip_verify = skip; certificate = none; root_cas = none })

-- newHTTPClient: http.DefaultClient, or a client of its own with this configuration
pub data HttpClient : Type 0 where
  default_client : HttpClient
  tls_client : TlsConfig → HttpClient

unfoldable pub new_http_client : Option TlsConfig → HttpClient
new_http_client none = default_client
new_http_client (some c) = tls_client c

-- "Bearer " + token
unfoldable pub bearer : Str → Str
bearer token = lit "Bearer " ++ token

-- The options of a gRPC connection. Those with a token do not require transport security.
pub data DialOption : Type 0 where
  insecure_transport : DialOption
  tls_transport : TlsConfig → DialOption
  per_rpc_token : Str → DialOption

transport_option : Option TlsConfig → DialOption
transport_option none = insecure_transport
transport_option (some c) = tls_transport c

-- buildGRPCDialOptions
unfoldable pub build_grpc_dial_options : Option TlsConfig → Str → List DialOption
unfolding transport_option
build_grpc_dial_options tls token =
    transport_option tls ∷ (if token == [] then [] else per_rpc_token token ∷ [])

-- GetRequestMetadata of the credentials: the "authorization" value of each option
unfoldable pub credentials_of : List DialOption → List Str
credentials_of [] = []
credentials_of (insecure_transport ∷ os) = credentials_of os
credentials_of (tls_transport c ∷ os) = credentials_of os
credentials_of (per_rpc_token token ∷ os) = bearer token ∷ credentials_of os

module _ (load_key_pair : Str → Str → Str ⊎ Str) (read_file : Str → Str ⊎ Str)
    (parse_pem : Str → Bool) (cert key ca : Str) (skip : Bool) where
  -- What a TLS configuration was asked for by, and what it holds.
  pub record Built (c : TlsConfig) : Type 0 where
    pub asked : (cert ≢ []) ⊎ (key ≢ []) ⊎ (ca ≢ []) ⊎ (skip ≡ true)
    pub verifies : c.insecure_skip_verify ≡ skip
    pub pair :
        ((cert ≡ []) × (key ≡ []) × (c.certificate ≡ none))
        ⊎ ((cert ≢ [])
            × (key ≢ [])
            × ((p : Str) × (load_key_pair cert key ≡ inr p) × (c.certificate ≡ some p)))
    pub roots :
        ((ca ≡ []) × (c.root_cas ≡ none))
        ⊎ ((ca ≢ [])
            × ((bytes : Str) × (read_file ca ≡ inr bytes)
                × (parse_pem bytes ≡ true)
                × (c.root_cas ≡ some bytes)))

  abbrev result : TlsResult
  result = build_tls_config load_key_pair read_file parse_pem cert key ca skip

  build_cases :
      (c : TlsConfig)
      → result ≡ configured (some c)
      → ((e : Str) × (load_key_pair cert key ≡ inl e))
        ⊎ ((p : Str) × (load_key_pair cert key ≡ inr p))
      → ((e : Str) × (read_file ca ≡ inl e)) ⊎ ((b : Str) × (read_file ca ≡ inr b))
      → Built c
  unfolding build_tls_config
  build_cases c h (inl (e, bad)) (inl (f, gone)) =
      ground (arith, eq_iff cert [], eq_iff key [], eq_iff ca [])
  build_cases c h (inl (e, bad)) (inr (bytes, found)) =
      ground (arith, eq_iff cert [], eq_iff key [], eq_iff ca [])
  build_cases c h (inr (p, good)) (inl (f, gone)) =
      ground (arith, eq_iff cert [], eq_iff key [], eq_iff ca [])
  build_cases c h (inr (p, good)) (inr (bytes, found)) =
      ground (arith, eq_iff cert [], eq_iff key [], eq_iff ca [])

  build-Built : (c : TlsConfig) → result ≡ configured (some c) → Built c
  build-Built c h = build_cases c h (sum-cases (load_key_pair cert key)) (sum-cases (read_file ca))

  Built-build : (c : TlsConfig) → Built c → result ≡ configured (some c)
  unfolding build_tls_config
  Built-build c b =
      ground
        (arith, b.asked, b.verifies, b.pair, b.roots, eq_iff cert [], eq_iff key [], eq_iff ca [])

  -- A TLS configuration comes out exactly when one is asked for, by any of the four settings, the
  -- certificate and the key are given both or neither and load if given, and the CA file, if given, is
  -- readable and holds a certificate; and then it holds just what was given.
  pub build_tls_config-Built : (c : TlsConfig) → (result ≡ configured (some c)) ↔ Built c
  build_tls_config-Built c = (build-Built c, Built-build c)
