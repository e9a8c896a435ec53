-- ===== src/Frp/Webhook/Events.antt =====
-- The events that the handlers of pkg/adapter/frp/webhook.go build.
use cloudtap.Prelude.{ℕ, zero, suc, none, List, [], ◌∷◌, ◌++◌, if◌then◌else◌}
use cloudtap.Prelude.Int.{pos}
use cloudtap.Text.{Str, lit, ◌==◌, join}
use cloudtap.Time.{Instant}
use cloudtap.GoMap.{GoMap, put}
use cloudtap.Adapter.{ConnectionEvent, connect, disconnect, request, clock, unix}
use cloudtap.Frp.Content.{
  Library, LoginContent, NewProxyContent, CloseProxyContent, NewUserConnContent, op_login,
  op_new_proxy, op_close_proxy, op_new_user_conn, parse_addr, build_target, show_bool,
}

-- What one call draws from outside: two new UUIDs as texts, and two readings of the clock.
pub record Fresh : Type 0 where
  pub event_id : Str
  pub connection_uuid : Str
  pub now : Instant
  pub tracked : Instant

-- s[:8]
abbrev take : ℕ → Str → Str
take zero s = []
take (suc n) [] = []
take (suc n) (c ∷ s) = c ∷ take n s

-- for k, v := range metas { metadata[prefix+k] = v }
unfoldable pub merge : Str → GoMap Str → GoMap Str → GoMap Str
merge prefix [] metadata = metadata
merge prefix ((k, v) ∷ metas) metadata = merge prefix metas (put (prefix ++ k) v metadata)

unfoldable pub login_event : Library → Fresh → LoginContent → ConnectionEvent
login_event lib fresh l =
    let (source_ip, source_port) = parse_addr lib l.client_address in
    record {
      id = fresh.event_id;
      connection_id = l.run_id;
      timestamp = unix l.timestamp;
      type = connect;
      target = l.hostname;
      user = l.user;
      source_ip = source_ip;
      source_port = source_port;
      dest_ip = [];
      dest_port = pos 0;
      protocol = lit "frp";
      request_info = none;
      metadata = merge (lit "meta.") l.metas (
          (lit "frp.op", op_login)
          ∷ (lit "frp.version", l.version)
          ∷ (lit "frp.os", l.os)
          ∷ (lit "frp.arch", l.arch)
          ∷ (lit "frp.hostname", l.hostname)
          ∷ []);
    }

-- the two conditional entries of handleNewProxy
unfoldable pub add_domains : List Str → GoMap Str → GoMap Str
add_domains [] metadata = metadata
add_domains (d ∷ ds) metadata = put (lit "frp.custom_domains") (join (d ∷ ds) (lit ",")) metadata

unfoldable pub add_subdomain : Str → GoMap Str → GoMap Str
add_subdomain subdomain metadata =
    if subdomain == [] then metadata else put (lit "frp.subdomain") subdomain metadata

unfoldable pub own_entries : NewProxyContent → GoMap Str
own_entries p =
    (lit "frp.op", op_new_proxy)
    ∷ (lit "frp.proxy_name", p.proxy_name)
    ∷ (lit "frp.proxy_type", p.proxy_type)
    ∷ (lit "frp.use_encryption", show_bool p.use_encryption)
    ∷ (lit "frp.use_compression", show_bool p.use_compression)
    ∷ []

-- the entries under "frp."
unfoldable pub proxy_entries : NewProxyContent → GoMap Str
unfolding own_entries add_domains add_subdomain
proxy_entries p = add_subdomain p.subdomain (add_domains p.custom_domains (own_entries p))

unfoldable pub proxy_metadata : NewProxyContent → GoMap Str
proxy_metadata p =
    merge (lit "proxy_meta.") p.metas (merge (lit "user_meta.") p.user.metas (proxy_entries p))

unfoldable pub new_proxy_event : Fresh → NewProxyContent → ConnectionEvent
new_proxy_event fresh p = record {
  id = fresh.event_id;
  connection_id = p.user.run_id;
  timestamp = clock fresh.now;
  type = connect;
  target = build_target p;
  user = p.user.user;
  source_ip = [];
  source_port = pos 0;
  dest_ip = [];
  dest_port = p.remote_port;
  protocol = p.proxy_type;
  request_info = none;
  metadata = proxy_metadata p;
}

unfoldable pub close_proxy_event : Fresh → CloseProxyContent → ConnectionEvent
close_proxy_event fresh c = record {
  id = fresh.event_id;
  connection_id = c.user.run_id;
  timestamp = clock fresh.now;
  type = disconnect;
  target = [];
  user = c.user.user;
  source_ip = [];
  source_port = pos 0;
  dest_ip = [];
  dest_port = pos 0;
  protocol = [];
  request_info = none;
  metadata = (lit "frp.op", op_close_proxy) ∷ (lit "frp.proxy_name", c.proxy_name) ∷ [];
}

-- The UUID's slice panics in Go if it is shorter than 8 bytes; a UUID's text has 36.
unfoldable pub new_user_conn_event : Library → Fresh → NewUserConnContent → ConnectionEvent
new_user_conn_event lib fresh c =
    let (source_ip, source_port) = parse_addr lib c.remote_addr in
    record {
      id = fresh.event_id;
      connection_id =
          c.user.run_id ++ (lit "/" ++ (c.proxy_name ++ (lit "/" ++ take 8 fresh.connection_uuid)));
      timestamp = clock fresh.now;
      type = request;
      target = c.proxy_name;
      user = c.user.user;
      source_ip = source_ip;
      source_port = source_port;
      dest_ip = [];
      dest_port = pos 0;
      protocol = c.proxy_type;
      request_info = none;
      metadata = merge (lit "user_meta.") c.user.metas (
          (lit "frp.op", op_new_user_conn)
          ∷ (lit "frp.proxy_name", c.proxy_name)
          ∷ (lit "frp.proxy_type", c.proxy_type)
          ∷ []);
    }
