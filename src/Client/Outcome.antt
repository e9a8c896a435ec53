-- ===== src/Client/Outcome.antt =====
-- What the end of main of cmd/cloudtapctl/main.go tells of the daemon.
use cloudtap.Prelude.{
  ◌≡◌, ◌≢◌, ◌⊎◌, inl, inr, refl, sym, ap, subst, ◌∙◌, Bool, true, Option, none, is_some, List, ◌∷◌,
  arith,
}
use cloudtap.Text.{Str, lit, ◌==◌}
use cloudtap.GoMap.{get}
use cloudtap.Tunnel.{Manager}
use cloudtap.Client.Tls.{TlsConfig, TlsResult, TlsError, configured, HttpClient, build_tls_config}
use cloudtap.Client.Command.{
  Flags, Ending, bad_tls, printed, runtime, dispatch, main, main-bad_tls, main-dispatch,
}
use cloudtap.Client.Link.{Codec, Link, daemon_network}
use cloudtap.Client.Answers.{Routes, request_tunnel-answered, close_tunnel-answered}
use cloudtap.Client.{
  CallError, Answer, answered, failed, Network, Runtime, request_tunnel, close_tunnel,
}

Result-cases :
    (r : TlsResult)
    → ((t : Option TlsConfig) × (r ≡ configured t)) ⊎ ((e : TlsError) × (r ≡ TlsResult.failed e))
Result-cases (configured t) = inl (t, refl)
Result-cases (TlsResult.failed e) = inr (e, refl)

-- The command has done what it is for.
pub data Done (command target : Str) (m : Manager) : Type 0 where
  opened : command ≡ lit "proxy" → is_some (get target m.active) ≡ true → Done command target m
  closed : command ≡ lit "close" → get target m.active ≡ none → Done command target m

Answer-cases :
    (a : Answer Str) → ((body : Str) × (a ≡ answered body)) ⊎ ((e : CallError) × (a ≡ failed e))
Answer-cases (answered body) = inl (body, refl)
Answer-cases (failed e) = inr (e, refl)

module _ (codec : Codec) (link : Link) (rt : Runtime) (target : Str) (rest : List Str) (m : Manager)
    (routes : Routes codec rt) where
  abbrev net : Network Manager
  net = daemon_network codec link

  dispatch-proxy :
      (lines : List Str)
      → (dispatch net rt (lit "proxy") (lit "proxy" ∷ target ∷ rest) m).0 ≡ printed lines
      → Done (lit "proxy") target (dispatch net rt (lit "proxy") (lit "proxy" ∷ target ∷ rest) m).1
  unfolding dispatch ◌==◌
  dispatch-proxy lines h = elim (Answer-cases (request_tunnel net rt target m).0) [
    | inl (body, a) ↦
        opened refl
          (ground (arith, request_tunnel-answered codec link rt target body m routes a, a))
    | inr (e, a) ↦ ground (arith, a)
  ]

  dispatch-close :
      (lines : List Str)
      → (dispatch net rt (lit "close") (lit "close" ∷ target ∷ rest) m).0 ≡ printed lines
      → Done (lit "close") target (dispatch net rt (lit "close") (lit "close" ∷ target ∷ rest) m).1
  unfolding dispatch ◌==◌
  dispatch-close lines h = elim (Answer-cases (close_tunnel net rt target m).0) [
    | inl (body, a) ↦
        closed refl (ground (arith, close_tunnel-answered codec link rt target body m routes a, a))
    | inr (e, a) ↦ ground (arith, a)
  ]

bad_tls_prints : (e : TlsError) (lines : List Str) → bad_tls e ≢ printed lines
bad_tls_prints e lines = λ h. cc

-- Either command, on its arguments.
dispatch-Done :
    (codec : Codec) (link : Link) (rt : Runtime) (command target : Str) (rest lines : List Str)
    (m : Manager)
    → Routes codec rt
    → (command ≡ lit "proxy") ⊎ (command ≡ lit "close")
    → (dispatch (daemon_network codec link) rt command (command ∷ target ∷ rest) m).0
      ≡ printed lines
    → Done command target
        (dispatch (daemon_network codec link) rt command (command ∷ target ∷ rest) m).1
dispatch-Done codec link rt command target rest lines m routes (inl proxy) h =
    rw proxy (dispatch-proxy codec link rt target rest m routes lines (rw proxy at h))
dispatch-Done codec link rt command target rest lines m routes (inr close) h =
    rw close (dispatch-close codec link rt target rest m routes lines (rw close at h))

-- Where the value of -http-url is such that the daemon takes the URLs of the two requests for a /proxy
-- and a /close of the target that they were made for: if `cloudtapctl proxy` or `cloudtapctl close`
-- prints a line, with whatever other flags and whatever messages are lost on the way, the daemon has an
-- open tunnel of the target, or has none.
pub main-Done :
    (codec : Codec) (link : Link) (load_key_pair : Str → Str → Str ⊎ Str)
    (read_file : Str → Str ⊎ Str) (parse_pem : Str → Bool) (flags : Flags) (command target : Str)
    (rest lines : List Str) (m : Manager)
    → ((tls : Option TlsConfig) → Routes codec (runtime flags tls))
    → flags.arguments ≡ command ∷ target ∷ rest
    → (command ≡ lit "proxy") ⊎ (command ≡ lit "close")
    → (main (λ client. daemon_network codec link) load_key_pair read_file parse_pem flags m).0
      ≡ printed lines
    → Done command target
        (main (λ client. daemon_network codec link) load_key_pair read_file parse_pem flags m).1
main-Done codec link load_key_pair read_file parse_pem flags command target rest lines m routes args
      which h =
    let net = λ (client : HttpClient). daemon_network codec link in
    elim (Result-cases (
      build_tls_config load_key_pair read_file parse_pem flags.tls_cert flags.tls_key flags.ca_cert
        flags.insecure_skip_verify)) [
          | inr (e, bad) ↦
              let over =
                main-bad_tls net load_key_pair read_file parse_pem flags command (target ∷ rest) m e
                  args bad in
              absurd (bad_tls_prints e lines (ap (λ x. x.0) (sym over) ∙ h))
          | inl (tls, built) ↦
              let does =
                main-dispatch net load_key_pair read_file parse_pem flags command (target ∷ rest) m
                  tls args built in
              subst (λ (x : Ending × Manager). Done command target x.1) (sym does)
                (dispatch-Done codec link (runtime flags tls) command target rest lines m
                  (routes tls) which (ap (λ x. x.0) (sym does) ∙ h))
        ]
