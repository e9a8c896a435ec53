-- ===== src/Frp/Webhook/Concurrent.antt =====
-- The tracking of proxies in pkg/adapter/frp/webhook.go while requests run at once: net/http calls the
-- handlers concurrently, and storing a proxy and counting it are two atomic steps, as are removing it
-- and counting it off.
use cloudtap.Prelude.{
  ℕ, suc, ◌+◌, ◌%◌, ◌<◌, ◌≡◌, refl, Option, none, some, is_some, [], length, if◌then◌else◌, arith,
}
use cloudtap.Text.{Str, Distinct}
use cloudtap.Time.{Instant}
use cloudtap.GoMap.{get, put, delete, keys}
use cloudtap.GoMap.Laws.{put-Distinct, delete-Distinct, length-put, length-delete, delete_absent}
use cloudtap.Frp.Content.{NewProxyContent, connection_key}
use cloudtap.Frp.Webhook.{
  ConnectionState, WebhookServer, int32_mod, increment, decrement, tracked_state, track, untrack,
}

-- s.activeConnections.Store(state.connectionID, state)
unfoldable pub store : Instant → NewProxyContent → WebhookServer → WebhookServer
store now p s = record s {
  active_connections =
      put (connection_key p.user.run_id p.proxy_name) (tracked_state now p) s.active_connections;
}

-- s.connectionCount.Add(1)
unfoldable pub count_up : WebhookServer → WebhookServer
count_up s = record s { connection_count = increment s.connection_count }

-- s.activeConnections.LoadAndDelete(connID)
unfoldable pub load_and_delete : Str → WebhookServer → Option ConnectionState × WebhookServer
load_and_delete key s = (
  get key s.active_connections,
  record s { active_connections = delete key s.active_connections },
)

-- s.connectionCount.Add(-1)
unfoldable pub count_down : WebhookServer → WebhookServer
count_down s = record s { connection_count = decrement s.connection_count }

-- The server, the number of handlers that have stored a proxy and not yet counted it, the number of
-- those that have removed one and not yet counted it off, and how often a stored key was there already.
pub record Busy : Type 0 where
  pub server : WebhookServer
  pub adding : ℕ
  pub removing : ℕ
  pub again : ℕ

unfoldable pub stored : Instant → NewProxyContent → Busy → Busy
unfolding store
stored now p b = record {
  server = store now p b.server;
  adding = suc b.adding;
  removing = b.removing;
  again =
      if is_some (get (connection_key p.user.run_id p.proxy_name) b.server.active_connections)
      then suc b.again
      else b.again;
}

-- One atomic step of some handler.
infix 40 ◌⟶◌
pub data ◌⟶◌ : Busy → Busy → Type 0 where
  stores : {b : Busy} (now : Instant) (p : NewProxyContent) → b ⟶ stored now p b
  counts :
      {b : Busy} (n : ℕ)
      → b.adding ≡ suc n
      → b ⟶ record b { server = count_up b.server; adding = n }
  misses :
      {b : Busy} (key : Str)
      → (load_and_delete key b.server).0 ≡ none
      → b ⟶ record b { server = (load_and_delete key b.server).1 }
  removes :
      {b : Busy} (key : Str) (c : ConnectionState)
      → (load_and_delete key b.server).0 ≡ some c
      → b ⟶ record b { server = (load_and_delete key b.server).1; removing = suc b.removing }
  counts_off :
      {b : Busy} (n : ℕ)
      → b.removing ≡ suc n
      → b ⟶ record b { server = count_down b.server; removing = n }

pub data Reachable (s : WebhookServer) : Busy → Type 0 where
  start : Reachable s (record { server = s; adding = 0; removing = 0; again = 0 })
  next : {b c : Busy} → Reachable s b → b ⟶ c → Reachable s c

-- Every stored key is counted or about to be, modulo 2^32, with those that were there already.
pub record Balanced (b : Busy) : Type 0 where
  pub distinct : Distinct (keys b.server.active_connections)
  pub small : b.server.connection_count < int32_mod
  pub balance :
      (b.server.connection_count + b.adding) % int32_mod
      ≡ (length b.server.active_connections + b.removing + b.again) % int32_mod

⟶-Balanced : {b c : Busy} → b ⟶ c → Balanced b → Balanced c
unfolding stored store count_up load_and_delete count_down
⟶-Balanced {b} (stores now p) v =
    let m = b.server.active_connections in
    let key = connection_key p.user.run_id p.proxy_name in
    record {
      distinct = put-Distinct key (tracked_state now p) m v.distinct;
      small = v.small;
      balance = ground (arith, length-put key (tracked_state now p) m, v.balance);
    }
⟶-Balanced {b} (counts n e) v = record {
  distinct = v.distinct;
  small = omega arith;
  balance = omega (arith, v.balance, v.small);
}
⟶-Balanced {b} (misses key e) v = record {
  distinct = delete-Distinct key b.server.active_connections v.distinct;
  small = v.small;
  balance = ground (arith, length-delete key b.server.active_connections v.distinct, v.balance);
}
⟶-Balanced {b} (removes key c e) v = record {
  distinct = delete-Distinct key b.server.active_connections v.distinct;
  small = v.small;
  balance = ground (arith, length-delete key b.server.active_connections v.distinct, v.balance);
}
⟶-Balanced {b} (counts_off n e) v = record {
  distinct = v.distinct;
  small = omega arith;
  balance = omega (arith, v.balance, v.small);
}

Reachable-Balanced :
    (s : WebhookServer) (b : Busy)
    → s.active_connections ≡ []
    → s.connection_count ≡ 0
    → Reachable s b
    → Balanced b
Reachable-Balanced s b no_keys no_count start = record {
  distinct = rw no_keys tt;
  small = omega (arith, no_count);
  balance = ground (arith, no_keys, no_count);
}
Reachable-Balanced s b no_keys no_count (next r step) =
    ⟶-Balanced step (Reachable-Balanced s _ no_keys no_count r)

-- However the handlers of any requests interleave on a server that began with no proxy and a count of
-- 0: when none of them is under way, the count is the number of tracked proxies and of the
-- registrations of a key that was tracked already, modulo 2^32.
pub Reachable-quiet :
    (s : WebhookServer) (b : Busy)
    → s.active_connections ≡ []
    → s.connection_count ≡ 0
    → Reachable s b
    → b.adding ≡ 0
    → b.removing ≡ 0
    → b.server.connection_count ≡ (length b.server.active_connections + b.again) % int32_mod
Reachable-quiet s b no_keys no_count r none_adding none_removing =
    let v = Reachable-Balanced s b no_keys no_count r in omega (arith, v.balance, v.small)

-- With no other step in between, the two steps of a handler are `track` and `untrack`.
track_lem :
    (now : Instant) (p : NewProxyContent) (s : WebhookServer)
    → track now p s ≡ count_up (store now p s)
unfolding track store count_up
track_lem now p s = refl

untrack_lem :
    (key : Str) (s : WebhookServer)
    → untrack key s ≡ (
        if is_some (load_and_delete key s).0
        then count_down (load_and_delete key s).1
        else (load_and_delete key s).1)
unfolding untrack load_and_delete count_down
untrack_lem key s = ground (arith, delete_absent key s.active_connections)
