-- ===== src/Client.antt =====
-- cmd/cloudtapctl/main.go: the requests of the command-line client, over gRPC and then over HTTP,
-- and the commands. grpc, net/http and the flags are outside.
pub mod Settings
pub mod Tls
pub mod Command
pub mod Link
pub mod Answers
pub mod Retried
pub mod Outcome
use cloudtap.Prelude.{ℕ, ◌++◌, ◌||◌, Option, none, some, List, [], ◌∷◌, if◌then◌else◌, leb, arith}
use cloudtap.Text.{Str, lit, ◌==◌}
use cloudtap.Client.Settings.{endpoint}
use cloudtap.Client.Tls.{DialOption, insecure_transport, bearer}

-- The errors of a request: that of the transport, the status and text of a response, a body that is
-- no JSON, and the error of the second attempt.
pub data CallError : Type 0 where
  transport : Str → CallError
  http_status : ℕ → Str → CallError
  bad_json : CallError
  fallback_failed : CallError → CallError

-- What a function returns: a value, or an error. What the program prints is a value here.
pub data Answer {ℓ} (A : Type ℓ) : Type ℓ where
  answered : A → Answer A
  failed : CallError → Answer A

pub record HttpResponse : Type 0 where
  pub status : ℕ
  pub body : Str

-- A GET request, with its Authorization header.
pub record HttpCall : Type 0 where
  pub url : Str
  pub authorization : Option Str

-- clientRuntime; the HTTP client is that of the network
pub record Runtime : Type 0 where
  pub grpc_addr : Str
  pub http_base : Str
  pub grpc_opts : List DialOption
  pub token : Str

-- What carries the requests, as it acts on the state of the other side. A gRPC call gets the dialed
-- options and the "authorization" values of its context; `do_http` makes the request and sends it.
pub record Network (State : Type 0) : Type 0 where
  pub dial : List DialOption → Str → Option Str
  pub call_open : List DialOption → List Str → Str → State → Answer Str × State
  pub call_close : List DialOption → List Str → Str → State → Answer Str × State
  pub call_list : List DialOption → List Str → State → Answer (List Str) × State
  pub do_http : HttpCall → State → Answer HttpResponse × State
  -- url.Values{"target": {t}}.Encode(), and the "targets" of a JSON object
  pub encode_target : Str → Str
  pub decode_targets : Str → Option (List Str)
  pub trim_space : Str → Str

-- dialGRPC: the options, and the insecure transport where there are none
unfoldable pub dial_options : Runtime → List DialOption
dial_options rt = elim rt.grpc_opts [ [] ↦ insecure_transport ∷ [] | o ∷ os ↦ o ∷ os ]

-- grpcContext: the "authorization" values that it appends
unfoldable pub grpc_context : Runtime → List Str
grpc_context rt = if rt.token == [] then [] else bearer rt.token ∷ []

-- `if err := ...; err != nil { return err }`
map_answer : {A B : Type 0} → (A → Answer B) → Answer A → Answer B
map_answer f (answered a) = f a
map_answer f (failed e) = failed e

module _ {State : Type 0} (net : Network State) (rt : Runtime) where
  -- After `conn, err := rt.dialGRPC(ctx)`.
  dialed : {A : Type 0} → Option Str → State → Answer A × State → Answer A × State
  dialed (some e) s call = (failed (transport e), s)
  dialed none s call = call

  -- requestTunnelGRPC
  unfoldable pub request_tunnel_grpc : Str → State → Answer Str × State
  unfolding dialed
  request_tunnel_grpc target s =
      dialed (net.dial (dial_options rt) rt.grpc_addr) s
        (net.call_open (dial_options rt) (grpc_context rt) target s)

  -- closeTunnelGRPC
  unfoldable pub close_tunnel_grpc : Str → State → Answer Str × State
  unfolding dialed
  close_tunnel_grpc target s =
      dialed (net.dial (dial_options rt) rt.grpc_addr) s
        (net.call_close (dial_options rt) (grpc_context rt) target s)

  -- listTargetsGRPC
  unfoldable pub list_targets_grpc : State → Answer (List Str) × State
  unfolding dialed
  list_targets_grpc s =
      dialed (net.dial (dial_options rt) rt.grpc_addr) s
        (net.call_list (dial_options rt) (grpc_context rt) s)

  -- httpRequest, with the query `target` if there is one
  unfoldable pub http_call : Str → Option Str → HttpCall
  http_call path query = record {
    url = endpoint net.trim_space net.encode_target rt.http_base path query;
    authorization = if rt.token == [] then none else some (bearer rt.token);
  }

  -- The status test, and the body.
  text_of : HttpResponse → Answer Str
  text_of r =
      if leb 400 r.status
      then failed (http_status r.status (net.trim_space r.body))
      else answered (net.trim_space r.body)

  -- requestTunnelHTTP
  unfoldable pub request_tunnel_http : Str → State → Answer Str × State
  unfolding text_of map_answer
  request_tunnel_http target s =
      let (r, s') = net.do_http (http_call (lit "/proxy") (some target)) s in
      (map_answer text_of r, s')

  -- closeTunnelHTTP
  unfoldable pub close_tunnel_http : Str → State → Answer Str × State
  unfolding text_of map_answer
  close_tunnel_http target s =
      let (r, s') = net.do_http (http_call (lit "/close") (some target)) s in
      (map_answer text_of r, s')

  json_targets : Option (List Str) → Answer (List Str)
  json_targets none = failed bad_json
  json_targets (some ts) = answered ts

  targets_of : HttpResponse → Answer (List Str)
  unfolding json_targets
  targets_of r =
      if leb 400 r.status
      then failed (http_status r.status (net.trim_space r.body))
      else json_targets (net.decode_targets r.body)

  -- listTargetsHTTP
  unfoldable pub list_targets_http : State → Answer (List Str) × State
  unfolding targets_of map_answer
  list_targets_http s =
      let (r, s') = net.do_http (http_call (lit "/targets") none) s in (map_answer targets_of r, s')

  -- fmt.Errorf("http fallback failed: %w", err)
  wrapped : Answer Str × State → Answer Str × State
  wrapped (answered body, s) = (answered body, s)
  wrapped (failed e, s) = (failed (fallback_failed e), s)

  -- `err == nil`, or else the HTTP request
  or_http : {A : Type 0} → (State → Answer A × State) → Answer A × State → Answer A × State
  or_http http (answered a, s) = (answered a, s)
  or_http http (failed e, s) = http s

  -- requestTunnel
  unfoldable pub request_tunnel : Str → State → Answer Str × State
  unfolding or_http wrapped
  request_tunnel target s =
      or_http (λ s'. wrapped (request_tunnel_http target s')) (request_tunnel_grpc target s)

  -- closeTunnel
  unfoldable pub close_tunnel : Str → State → Answer Str × State
  unfolding or_http wrapped
  close_tunnel target s =
      or_http (λ s'. wrapped (close_tunnel_http target s')) (close_tunnel_grpc target s)

  -- listTargets
  unfoldable pub list_targets : State → Answer (List Str) × State
  unfolding or_http
  list_targets s = or_http list_targets_http (list_targets_grpc s)
