-- ===== src/Examples/Tunnels.antt =====
-- pkg/tunnel with one target "svc" and an always reachable network.
use cloudtap.Prelude.{List, ◌≡◌, refl, ◌↔◌, true, Option, none, some, [], ◌∷◌, if◌then◌else◌}
use cloudtap.Prelude.Int.{pos}
use cloudtap.Text.{Str, lit, ◌==◌}
use cloudtap.Text.Order.{less, sort_strings}
use cloudtap.Time.{since}
use cloudtap.GoMap.{get, put}
use cloudtap.Tunnel.{
  Target, Manager, Context, Instants, ok, no_active_tunnel, not_registered, static_source,
  simulated_dialer, new_manager, index, register_target, ensure_targets, connect, open_tunnel,
  close_tunnel, list_targets,
}
use cloudtap.Tunnel.Spec.{view}
use cloudtap.Tunnel.Calls.{
  Call, opens, closes, registers, lists, Keeps, perform_all, perform_all-Keeps,
}
use cloudtap.Tunnel.Cache.{Refreshed, latest, stale, ensure_targets-Refreshed, register-open_lost}
use cloudtap.Tunnel.Sessions.{Opened, open_tunnel-ok_iff, close-open}
use cloudtap.Tunnel.Address.{Url, resolve_network_addr, Resolves, resolve_network_addr-ok_iff}
use cloudtap.Tunnel.Interleaving.{Run, start, next, register, ensure, connects, Inv, Reachable-Inv}

abbrev target : Str → Target
target name = record {
  name = name;
  address = lit "tcp://h:1";
  protocol = lit "grpc";
  labels = [];
  description = [];
}

abbrev svc : Target
svc = target (lit "svc")

live : Context
live now = none

-- An hour, in nanoseconds, after the zero time; the first refresh comes at once.
abbrev times : Instants
times = record {
  entered = 3600000000000;
  compared = 3600000000000;
  fetched = 3600000000000;
  stamped = 3600000000000;
  dialed = 3600000000000;
  opened = 3600000000001;
}

abbrev manager : Manager
manager = record {
  targets = [];
  active = [];
  source = some (static_source (target (lit "b") ∷ svc ∷ target (lit "a") ∷ []));
  dialer = simulated_dialer;
  refresh_interval = pos 30000000000;
  last_refresh = 0;
}

svc_opens : (open_tunnel live times (lit "svc") manager).0 ≡ none
unfolding open_tunnel ensure_targets connect live static_source simulated_dialer since get put index
    ◌==◌
svc_opens = refl

listed : (list_targets live times manager).0 ≡ ok (lit "a" ∷ lit "b" ∷ lit "svc" ∷ [])
unfolding list_targets ensure_targets live static_source since put index sort_strings less ◌==◌
listed = refl

is_live : live 3600000000000 ≡ none
unfolding live
is_live = refl

is_stale : stale times manager ≡ true
unfolding since
is_stale = refl

answers :
    static_source (target (lit "b") ∷ svc ∷ target (lit "a") ∷ []) live 3600000000000
    ≡ ok (target (lit "b") ∷ svc ∷ target (lit "a") ∷ [])
unfolding static_source live
answers = refl

ensure_targets-Refreshed_example :
    ((ensure_targets live times manager).0 ≡ none)
    × Refreshed times
        (target (lit "b") ∷ svc ∷ target (lit "a") ∷ [])
        manager
        (ensure_targets live times manager).1
ensure_targets-Refreshed_example =
    ensure_targets-Refreshed live times manager
      (static_source (target (lit "b") ∷ svc ∷ target (lit "a") ∷ []))
      (target (lit "b") ∷ svc ∷ target (lit "a") ∷ []) is_live refl is_stale answers

new_unknown : latest (lit "new") (target (lit "b") ∷ svc ∷ target (lit "a") ∷ []) ≡ none
unfolding latest ◌==◌
new_unknown = refl

register-open_lost_example :
    (open_tunnel live times (lit "new") (register_target (target (lit "new")) manager)).0
    ≡ some (not_registered (lit "new"))
register-open_lost_example =
    register-open_lost live times manager (target (lit "new"))
      (static_source (target (lit "b") ∷ svc ∷ target (lit "a") ∷ []))
      (target (lit "b") ∷ svc ∷ target (lit "a") ∷ []) is_live refl is_stale answers new_unknown

open_tunnel-ok_iff_example :
    ((open_tunnel live times (lit "svc") manager).0 ≡ none)
    ↔ ((info : Target) × Opened live times (lit "svc") manager info)
open_tunnel-ok_iff_example = open_tunnel-ok_iff live times (lit "svc") manager

svc-Opened : Opened live times (lit "svc") manager svc
unfolding ensure_targets live static_source simulated_dialer since get put index ◌==◌
svc-Opened = record { ensured = refl; known = refl; reached = refl }

close-open_example :
    ((close_tunnel live 1 (lit "svc") (open_tunnel live times (lit "svc") manager).1).0 ≡ none)
    × ((k : Str)
        → get k
            (close_tunnel live 1
              (lit "svc")
              (open_tunnel live times (lit "svc") manager).1).1.active
          ≡ (if lit "svc" == k then none else get k []))
    × ((close_tunnel live 2
          (lit "svc")
          (close_tunnel live 1 (lit "svc") (open_tunnel live times (lit "svc") manager).1).1).0
        ≡ some (no_active_tunnel (lit "svc")))
close-open_example =
    close-open live times (lit "svc") manager live 1 2 svc_opens (unfold live in refl)
      (unfold live in refl)

-- Register, open, with a refresh of another caller in between.
abbrev interleaved : Run
interleaved = record {
  manager =
      (connect live times (lit "svc")
        (ensure_targets live times (register_target svc (new_manager (svc ∷ []) []))).1).1;
  dials = record { ctx = live; at = times; name = lit "svc" } ∷ [];
}

Reachable-Inv_example : Inv interleaved.dials interleaved.manager
Reachable-Inv_example =
    Reachable-Inv (svc ∷ []) [] interleaved (
      next (next (next start (register svc)) (ensure live times)) (connects live times (lit "svc")))

-- `url.Parse` at "tcp://svc:", which has a colon and no port
colon_url : Str → Option Url
colon_url s = some (record { scheme = lit "tcp"; host = lit "svc:"; port = [] })

resolve_network_addr-ok_iff_example :
    (resolve_network_addr colon_url svc ≡ ok (lit "tcp", lit "svc:"))
    ↔ Resolves colon_url svc (lit "tcp") (lit "svc:")
resolve_network_addr-ok_iff_example =
    resolve_network_addr-ok_iff colon_url svc (lit "tcp") (lit "svc:")

abbrev calls : List Call
calls =
    opens live times (lit "svc")
    ∷ closes live 3600000000002 (lit "svc")
    ∷ registers (target (lit "new"))
    ∷ lists live times
    ∷ []

perform_all-Keeps_example :
    Keeps
      (view (perform_all calls (new_manager (svc ∷ []) [])).1)
      (view (new_manager (svc ∷ []) []))
      calls
      (perform_all calls (new_manager (svc ∷ []) [])).0
perform_all-Keeps_example = perform_all-Keeps (svc ∷ []) [] calls
