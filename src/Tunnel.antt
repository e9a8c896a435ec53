-- ===== src/Tunnel.antt =====
-- pkg/tunnel/manager.go and pkg/tunnel/dialer.go: targets, sources, dialers and the manager.
-- A method returns its error beside the new manager.
pub mod Address
pub mod Cases
pub mod Cache
pub mod Sessions
pub mod Listing
pub mod Interleaving
pub mod Spec
pub mod Refinement
pub mod Calls
use cloudtap.Prelude.{◌+◌, ◌*◌, suc, Bool, Option, none, some, List, [], ◌∷◌, if◌then◌else◌}
use cloudtap.Prelude.Int.{pos, ltb_ℤ}
use cloudtap.Text.{Str, lit}
use cloudtap.Text.Order.{sort_strings}
use cloudtap.Time.{Instant, Duration, zero_time, second, since}
use cloudtap.GoMap.{GoMap, get, put, delete, keys}

pub record Target : Type 0 where
  pub name : Str
  pub address : Str
  pub protocol : Str
  pub labels : List Str
  pub description : Str

pub record ActiveTunnel : Type 0 where
  pub target : Target
  pub opened_at : Instant

-- `foreign` is an error that a context, a source, a dialer or the network returns.
pub data Error : Type 0 where
  source_not_configured : Error
  not_registered : Str → Error
  no_active_tunnel : Str → Error
  missing_address : Str → Error
  missing_port : Str → Str → Error
  bad_url : Str → Error
  foreign : Str → Error

pub data Result {ℓ} (A : Type ℓ) : Type ℓ where
  ok : A → Result A
  err : Error → Result A

-- What `ctx.Err()` returns at each instant.
abbrev pub Context : Type 0
Context = Instant → Option Error

-- the interface Source, called at an instant
abbrev pub Source : Type 0
Source = Context → Instant → Result (List Target)

-- the interface Dialer, called at an instant; WithDialer(nil), with which Open panics, is outside
abbrev pub Dialer : Type 0
Dialer = Context → Instant → Target → Option Error

-- StaticSource
unfoldable pub static_source : List Target → Source
static_source targets ctx now = elim (ctx now) [ some e ↦ err e | none ↦ ok targets ]

-- SimulatedDialer: 20 ms pass unless the context ends first; if it ends just then, its error is returned
unfoldable pub simulated_dialer : Dialer
simulated_dialer ctx now target = ctx (now + 20 * 1000000)

pub record Manager : Type 0 where
  pub targets : GoMap Target
  pub active : GoMap ActiveTunnel
  pub source : Option Source
  pub dialer : Dialer
  pub refresh_interval : Duration
  pub last_refresh : Instant

-- WithSource, WithDialer, WithRefreshInterval
pub data ManagerOption : Type 0 where
  with_source : Option Source → ManagerOption
  with_dialer : Dialer → ManagerOption
  with_refresh_interval : Duration → ManagerOption

unfoldable pub apply_option : ManagerOption → Manager → Manager
apply_option (with_source s) m = record m { source = s }
apply_option (with_dialer d) m = record m { dialer = d }
apply_option (with_refresh_interval d) m =
    if ltb_ℤ (pos 0) d then record m { refresh_interval = d } else m

pub apply_options : List ManagerOption → Manager → Manager
unfolding apply_option
apply_options [] m = m
apply_options (o ∷ os) m = apply_options os (apply_option o m)

-- for _, t := range targets { m[t.Name] = t }
unfoldable pub index : List Target → GoMap Target → GoMap Target
index [] m = m
index (t ∷ ts) m = index ts (put t.name t m)

-- the manager that NewManager starts from
pub initial : List Target → Manager
initial seed = record {
  targets = [];
  active = [];
  source = some (static_source seed);
  dialer = simulated_dialer;
  refresh_interval = pos (30 * second);
  last_refresh = zero_time;
}

-- NewManager
unfoldable pub new_manager : List Target → List ManagerOption → Manager
unfolding apply_options initial
new_manager seed opts =
    let m = apply_options opts (initial seed) in record m { targets = index seed m.targets }

-- the targets of NewDefaultManager
abbrev demo_target : Str → Str → Str → Str → Target
demo_target name address protocol description = record {
  name = name;
  address = address;
  protocol = protocol;
  labels = [];
  description = description;
}

abbrev pub demo_targets : List Target
demo_targets =
    demo_target (lit "demo-service") (lit "tcp://127.0.0.1:9000") (lit "grpc")
      (lit "Sample echo service")
    ∷ demo_target (lit "logs-gateway") (lit "tcp://127.0.0.1:9001") (lit "https")
        (lit "Structured log shipper")
    ∷ demo_target (lit "metrics-api") (lit "tcp://127.0.0.1:9002") (lit "grpc")
        (lit "Prometheus-compatible adapter")
    ∷ []

-- NewDefaultManager, which the daemon runs on
unfoldable pub new_default_manager : Manager
new_default_manager = new_manager demo_targets []

-- RegisterTarget
unfoldable pub register_target : Target → Manager → Manager
register_target t m = record m { targets = put t.name t m.targets }

-- The instants at which one call looks at its context and the clock.
pub record Instants : Type 0 where
  pub entered : Instant
  pub compared : Instant
  pub fetched : Instant
  pub stamped : Instant
  pub dialed : Instant
  pub opened : Instant

store_targets : Instant → Result (List Target) → Manager → Option Error × Manager
store_targets now (err e) m = (some e, m)
store_targets now (ok ts) m = (none, record m { targets = index ts []; last_refresh = now })

fetch : Context → Instants → Option Source → Manager → Option Error × Manager
unfolding store_targets
fetch ctx at none m = (some source_not_configured, m)
fetch ctx at (some source) m =
    if ltb_ℤ (since at.compared m.last_refresh) m.refresh_interval
    then (none, m)
    else store_targets at.stamped (source ctx at.fetched) m

-- `if err != nil { return err }` before the rest of a method
unless_failed : Option Error → Manager → Option Error × Manager → Option Error × Manager
unless_failed (some e) m rest = (some e, m)
unless_failed none m rest = rest

-- ensureTargets
unfoldable pub ensure_targets : Context → Instants → Manager → Option Error × Manager
unfolding fetch unless_failed
ensure_targets ctx at m = unless_failed (ctx at.entered) m (fetch ctx at m.source m)

dial : Context → Instants → Str → Option Target → Manager → Option Error × Manager
unfolding unless_failed
dial ctx at name none m = (some (not_registered name), m)
dial ctx at name (some info) m = unless_failed (m.dialer ctx at.dialed info) m (
  none,
  record m { active = put name (record { target = info; opened_at = at.opened }) m.active },
)

-- the second critical section of Open
unfoldable pub connect : Context → Instants → Str → Manager → Option Error × Manager
unfolding dial
connect ctx at name m = dial ctx at name (get name m.targets) m

-- Open
unfoldable pub open_tunnel : Context → Instants → Str → Manager → Option Error × Manager
unfolding unless_failed
open_tunnel ctx at name m =
    let (e, ready) = ensure_targets ctx at m in unless_failed e ready (connect ctx at name ready)

drop : Str → Option ActiveTunnel → Manager → Option Error × Manager
drop name none m = (some (no_active_tunnel name), m)
drop name (some _) m = (none, record m { active = delete name m.active })

-- Close
unfoldable pub close_tunnel : Context → Instant → Str → Manager → Option Error × Manager
unfolding unless_failed drop
close_tunnel ctx now name m = unless_failed (ctx now) m (drop name (get name m.active) m)

listing : Option Error → Manager → Result (List Str)
listing (some e) m = err e
listing none m = ok (sort_strings (keys m.targets))

-- ListTargets
unfoldable pub list_targets : Context → Instants → Manager → Result (List Str) × Manager
unfolding listing
list_targets ctx at m = let (e, ready) = ensure_targets ctx at m in (listing e ready, ready)
