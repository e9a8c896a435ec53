-- ===== src/Examples/Proxies.antt =====
-- Proxies that come and go at the webhook server, the events' metadata, and its life.
use cloudtap.Prelude.{suc, ◌≡◌, refl, false, none, some, List, [], ◌∷◌, ◌+◌, ◌%◌, length}
use cloudtap.Prelude.Int.{negsuc}
use cloudtap.Text.{Str, lit, ◌==◌, Distinct, has_prefix, mem}
use cloudtap.GoMap.{put, get, keys}
use cloudtap.Frp.Content.{op_new_proxy, op_close_proxy, connection_key}
use cloudtap.Frp.Content.Ids.{has_byte, connection_key-injective}
use cloudtap.Frp.Webhook.Events.{login_event, new_proxy_event}
use cloudtap.Frp.Webhook.{int32, tracked_state, WebhookServer, int32_mod, increment, track, untrack}
use cloudtap.Frp.Webhook.Tracking.{Call, requested, serve, re_registrations, serve-counted}
use cloudtap.Frp.Webhook.Concurrent.{
  Busy, Reachable, start, next, stores, removes, counts, counts_off, stored, store, load_and_delete,
  count_down, count_up, Reachable-quiet,
}
use cloudtap.Frp.Webhook.Closing.{untrack-track_twice}
use cloudtap.Frp.Webhook.Metadata.{
  LoginMetadata, login_event-metadata, ProxyMetadata, new_proxy_event-metadata,
}
use cloudtap.Frp.Webhook.Serving.{
  validate_webhook, begin_serving, shutdown, stop_webhook, already_started, begin-shutdown-begin,
}
use cloudtap.Examples.Plugins.{proxy, hello, request, library, fresh, server}

-- One proxy registered twice, and closed.
abbrev calls : List Call
calls =
    requested fresh (request op_new_proxy)
    ∷ requested fresh (request op_new_proxy)
    ∷ requested fresh (request op_close_proxy)
    ∷ []

serve-counted_example :
    Distinct (keys (serve library server calls).active_connections)
    × ((serve library server calls).connection_count
        ≡ (length (serve library server calls).active_connections
            + re_registrations library server calls)
          % int32_mod)
serve-counted_example = serve-counted library server calls refl refl

untrack-track_twice_example :
    ((k : Str)
      → get k
          (untrack
            (connection_key (lit "r1") (lit "web"))
            (track 3 proxy (track 2 proxy server))).active_connections
        ≡ get k [])
    × ((untrack
          (connection_key (lit "r1") (lit "web"))
          (track 3 proxy (track 2 proxy server))).connection_count
        ≡ increment 0)
untrack-track_twice_example = untrack-track_twice server proxy 2 3 (unfold get in refl)

team-Distinct : Distinct (lit "team" ∷ [])
unfolding mem
team-Distinct = (refl, tt)

login_event-metadata_example : LoginMetadata hello (login_event library fresh hello).metadata
login_event-metadata_example = login_event-metadata library fresh hello team-Distinct

new_proxy_event-metadata_example : ProxyMetadata proxy (new_proxy_event fresh proxy).metadata
new_proxy_event-metadata_example = new_proxy_event-metadata fresh proxy team-Distinct team-Distinct

connection_key-injective_example : (lit "r1" ≡ lit "r1") × (lit "a/b" ≡ lit "a/b")
connection_key-injective_example =
    connection_key-injective (lit "r1") (lit "r1") (lit "a/b") (lit "a/b") (unfold has_byte in refl)
      (unfold has_byte in refl) refl

abbrev idle : WebhookServer
idle = record server { listening = false; serving = false; started = false }

begins : (begin_serving none idle).0 ≡ none
unfolding begin_serving validate_webhook ◌==◌ has_prefix
begins = refl

begin-shutdown-begin_example :
    ((begin_serving none (begin_serving none idle).1).0 ≡ some already_started)
    × ((shutdown none (begin_serving none idle).1).0 ≡ none)
    × (stop_webhook none (shutdown none (begin_serving none idle).1).1
        ≡ (none, (shutdown none (begin_serving none idle).1).1))
    × ((begin_serving none (shutdown none (begin_serving none idle).1).1).0 ≡ none)
begin-shutdown-begin_example = begin-shutdown-begin none none none idle begins

-- A proxy is stored, removed and counted off before it is counted.
abbrev registering : Busy
registering = stored 7 proxy (record { server = server; adding = 0; removing = 0; again = 0 })

abbrev removed : Busy
removed = record registering {
  server = (load_and_delete (lit "r1/web") registering.server).1;
  removing = suc registering.removing;
}

abbrev below_zero : Busy
below_zero = record removed { server = count_down removed.server; removing = 0 }

abbrev settled : Busy
settled = record below_zero { server = count_up below_zero.server; adding = 0 }

found : (load_and_delete (lit "r1/web") registering.server).0 ≡ some (tracked_state 7 proxy)
unfolding load_and_delete stored store get put ◌==◌ connection_key
found = refl

raced : Reachable server settled
unfolding stored
raced =
    next
      (next
        (next (next start (stores 7 proxy)) (removes (lit "r1/web") (tracked_state 7 proxy) found))
        (counts_off 0 refl))
      (counts 0 refl)

-- In between, the status shows -1 active connections.
shows_minus_one : int32 below_zero.server.connection_count ≡ negsuc 0
unfolding load_and_delete stored store count_down
shows_minus_one = refl

Reachable-quiet_example :
    settled.server.connection_count
    ≡ (length settled.server.active_connections + settled.again) % int32_mod
Reachable-quiet_example = Reachable-quiet server settled refl refl raced refl refl
