-- ===== src/Client/Command.antt =====
-- main of cmd/cloudtapctl/main.go, from the values of the flags to what it prints.
use cloudtap.Prelude.{
  ◌≡◌, ◌≢◌, ◌∙◌, inl, inr, refl, ◌⊎◌, ◌++◌, Bool, false, none, some, Option, List, [], ◌∷◌,
  if◌then◌else◌, arith,
}
use cloudtap.Text.{Str, lit, ◌==◌, eq_iff}
use cloudtap.Client.Tls.{
  TlsConfig, TlsError, TlsResult, configured, HttpClient, bearer, build_tls_config, new_http_client,
  build_grpc_dial_options, credentials_of,
}
use cloudtap.Client.Settings.{default_http_url}
use cloudtap.Client.{
  CallError, Answer, answered, failed, Runtime, Network, dial_options, grpc_context, http_call,
  request_tunnel, close_tunnel, list_targets,
}

-- The values of the flags, and the arguments behind them.
pub record Flags : Type 0 where
  pub server : Str
  pub http_url : Str
  pub token : Str
  pub tls_cert : Str
  pub tls_key : Str
  pub ca_cert : Str
  pub insecure_skip_verify : Bool
  pub arguments : List Str

-- `getenv key` is empty where the variable is not set.
module _ (getenv : Str → Str) where
  -- envOrDefault
  unfoldable pub env_or_default : Str → Str → Str
  env_or_default key fallback = if getenv key == [] then fallback else getenv key

  -- the flags where the command line gives none
  unfoldable pub default_flags : (Str → Str) → List Str → Flags
  default_flags trim_space arguments = record {
    server = env_or_default (lit "CLOUDTAP_GRPC_ADDR") (lit "localhost:9090");
    http_url = default_http_url trim_space getenv;
    token = env_or_default (lit "CLOUDTAP_TOKEN") [];
    tls_cert = env_or_default (lit "CLOUDTAP_TLS_CERT") [];
    tls_key = env_or_default (lit "CLOUDTAP_TLS_KEY") [];
    ca_cert = env_or_default (lit "CLOUDTAP_CA_CERT") [];
    insecure_skip_verify = false;
    arguments = arguments;
  }

-- How main ends: the usage, one of the fatal errors, or what it prints.
pub data Ending : Type 0 where
  usage : Ending
  bad_tls : TlsError → Ending
  target_missing : Str → Ending
  request_failed : CallError → Ending
  printed : List Str → Ending

-- flag.Arg(1)
second_argument : List Str → Str
second_argument [] = []
second_argument (_ ∷ []) = []
second_argument (_ ∷ target ∷ _) = target

-- the clientRuntime that main makes
unfoldable pub runtime : Flags → Option TlsConfig → Runtime
runtime flags tls = record {
  grpc_addr = flags.server;
  http_base = flags.http_url;
  grpc_opts = build_grpc_dial_options tls flags.token;
  token = flags.token;
}

-- log.Fatalf on an error, else the line
line_or_fatal : {State : Type 0} → Answer Str × State → Ending × State
line_or_fatal (answered body, s) = (printed (body ∷ []), s)
line_or_fatal (failed e, s) = (request_failed e, s)

lines_or_fatal : {State : Type 0} → Answer (List Str) × State → Ending × State
lines_or_fatal (answered targets, s) = (printed targets, s)
lines_or_fatal (failed e, s) = (request_failed e, s)

module _ {State : Type 0} (net : Network State) (rt : Runtime) where
  -- the switch over the command
  unfoldable pub dispatch : Str → List Str → State → Ending × State
  unfolding second_argument line_or_fatal lines_or_fatal
  dispatch command arguments s =
      let target = second_argument arguments in
      if command == lit "proxy"
      then if target == []
        then (target_missing command, s)
        else line_or_fatal (request_tunnel net rt target s)
      else if command == lit "close"
      then if target == []
        then (target_missing command, s)
        else line_or_fatal (close_tunnel net rt target s)
      else if command == lit "list-targets"
      then lines_or_fatal (list_targets net rt s)
      else (usage, s)

-- `net client` is the network with the HTTP client that main makes.
module _ {State : Type 0} (net : HttpClient → Network State) (load_key_pair : Str → Str → Str ⊎ Str)
    (read_file : Str → Str ⊎ Str) (parse_pem : Str → Bool) where
  with_tls : Flags → Str → TlsResult → State → Ending × State
  with_tls flags command (TlsResult.failed e) s = (bad_tls e, s)
  with_tls flags command (configured tls) s =
      dispatch (net (new_http_client tls)) (runtime flags tls) command flags.arguments s

  with_command : Flags → List Str → State → Ending × State
  unfolding with_tls
  with_command flags [] s = (usage, s)
  with_command flags (command ∷ _) s =
      with_tls flags command
        (build_tls_config load_key_pair read_file parse_pem flags.tls_cert flags.tls_key
          flags.ca_cert flags.insecure_skip_verify)
        s

  -- main
  unfoldable pub main : Flags → State → Ending × State
  unfolding with_command
  main flags s = with_command flags flags.arguments s

  pub main-bad_tls :
      (flags : Flags) (command : Str) (rest : List Str) (s : State) (e : TlsError)
      → flags.arguments ≡ command ∷ rest
      → build_tls_config load_key_pair read_file parse_pem flags.tls_cert flags.tls_key
          flags.ca_cert flags.insecure_skip_verify
        ≡ TlsResult.failed e
      → main flags s ≡ (bad_tls e, s)
  unfolding main
  main-bad_tls flags command rest s e args bad = ground (arith, args, bad)

  pub main-dispatch :
      (flags : Flags) (command : Str) (rest : List Str) (s : State) (tls : Option TlsConfig)
      → flags.arguments ≡ command ∷ rest
      → build_tls_config load_key_pair read_file parse_pem flags.tls_cert flags.tls_key
          flags.ca_cert flags.insecure_skip_verify
        ≡ configured tls
      → main flags s
        ≡ dispatch (net (new_http_client tls)) (runtime flags tls) command (command ∷ rest) s
  unfolding main
  main-dispatch flags command rest s tls args built = ground (arith, args, built)

-- What main does without a request, by what it has been given: no command; TLS settings that do not
-- load; proxy or close with no target or an empty one; or a command that is none of the three.
pub data Unsent (flags : Flags) (built : TlsResult) : Ending → Type 0 where
  without_command : flags.arguments ≡ [] → Unsent flags built usage
  misconfigured :
      (command : Str) (rest : List Str) (e : TlsError)
      → flags.arguments ≡ command ∷ rest
      → built ≡ TlsResult.failed e
      → Unsent flags built (bad_tls e)
  without_target :
      (command : Str) (rest : List Str) (tls : Option TlsConfig)
      → flags.arguments ≡ command ∷ rest
      → built ≡ configured tls
      → (command ≡ lit "proxy") ⊎ (command ≡ lit "close")
      → (rest ≡ []) ⊎ ((more : List Str) × (rest ≡ [] ∷ more))
      → Unsent flags built (target_missing command)
  unknown :
      (command : Str) (rest : List Str) (tls : Option TlsConfig)
      → flags.arguments ≡ command ∷ rest
      → built ≡ configured tls
      → command ≢ lit "proxy"
      → command ≢ lit "close"
      → command ≢ lit "list-targets"
      → Unsent flags built usage

no_second :
    (command : Str) (rest : List Str)
    → (rest ≡ []) ⊎ ((more : List Str) × (rest ≡ [] ∷ more))
    → second_argument (command ∷ rest) ≡ []
unfolding second_argument
no_second command rest (inl e) = rw e refl
no_second command rest (inr (more, e)) = rw e refl

module _ {State : Type 0} (net : Network State) (rt : Runtime) (command : Str) (rest : List Str)
    (s : State) where
  dispatch-without_target :
      (command ≡ lit "proxy") ⊎ (command ≡ lit "close")
      → second_argument (command ∷ rest) ≡ []
      → dispatch net rt command (command ∷ rest) s ≡ (target_missing command, s)
  unfolding dispatch ◌==◌
  dispatch-without_target which none_given = ground (
    arith,
    which,
    none_given,
    eq_iff command (lit "proxy"),
    eq_iff command (lit "close"),
    eq_iff (second_argument (command ∷ rest)) [],
  )

  dispatch-unknown :
      command ≢ lit "proxy"
      → command ≢ lit "close"
      → command ≢ lit "list-targets"
      → dispatch net rt command (command ∷ rest) s ≡ (usage, s)
  unfolding dispatch
  dispatch-unknown p c l = ground (
    arith,
    eq_iff command (lit "proxy"),
    eq_iff command (lit "close"),
    eq_iff command (lit "list-targets"),
  )

-- Without a command, with TLS settings that do not load, without a target or with an empty one where
-- one is needed, or with a command that is none of the three, main ends with the usage, the error of the
-- settings, or the error that the target is missing, and has sent nothing: the other side is as it was.
pub main-Unsent :
    {State : Type 0} (net : HttpClient → Network State) (load_key_pair : Str → Str → Str ⊎ Str)
    (read_file : Str → Str ⊎ Str) (parse_pem : Str → Bool) (flags : Flags) (e : Ending) (s : State)
    → Unsent flags
        (build_tls_config load_key_pair read_file parse_pem flags.tls_cert flags.tls_key
          flags.ca_cert flags.insecure_skip_verify)
        e
    → main net load_key_pair read_file parse_pem flags s ≡ (e, s)
unfolding main
main-Unsent net l r p flags e s (without_command h) = ground (arith, h)
main-Unsent net l r p flags e s (misconfigured command rest x args bad) =
    main-bad_tls net l r p flags command rest s x args bad
main-Unsent net l r p flags e s (without_target command rest tls args built which none_given) =
    main-dispatch net l r p flags command rest s tls args built
    ∙ dispatch-without_target (net (new_http_client tls)) (runtime flags tls) command rest s which
        (no_second command rest none_given)
main-Unsent net l r p flags e s (unknown command rest tls args built np nc nl) =
    main-dispatch net l r p flags command rest s tls args built
    ∙ dispatch-unknown (net (new_http_client tls)) (runtime flags tls) command rest s np nc nl

-- Where main has been given a token, an HTTP request carries it once, as its Authorization header, and
-- a gRPC call twice: in the metadata of its context and by the credentials of its connection. Where it
-- has been given none, nothing carries one.
pub authorizations_sent :
    {State : Type 0} (net : Network State) (flags : Flags) (tls : Option TlsConfig) (path : Str)
    (query : Option Str)
    → ((http_call net (runtime flags tls) path query).authorization
        ≡ (if flags.token == [] then none else some (bearer flags.token)))
      × (grpc_context (runtime flags tls) ++ credentials_of (dial_options (runtime flags tls))
          ≡ (if flags.token == [] then [] else bearer flags.token ∷ bearer flags.token ∷ []))
unfolding http_call runtime grpc_context credentials_of dial_options build_grpc_dial_options
authorizations_sent net flags none path query = (ground arith, ground arith)
authorizations_sent net flags (some c) path query = (ground arith, ground arith)
