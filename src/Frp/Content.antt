-- ===== src/Frp/Content.antt =====
-- The plugin messages of pkg/adapter/frp/webhook.go, and what of them names a connection.
pub mod Ids
use cloudtap.Prelude.{
  ℕ, suc, zero, ◌+◌, ◌/◌, ◌%◌, Bool, true, false, ◌||◌, Option, List, [], ◌∷◌, ◌++◌, if◌then◌else◌,
  ltb,
}
use cloudtap.Prelude.Int.{ℤ, pos, negsuc}
use cloudtap.Text.{Str, lit, ◌==◌}
use cloudtap.GoMap.{GoMap}

abbrev pub op_login : Str
op_login = lit "Login"

abbrev pub op_new_proxy : Str
op_new_proxy = lit "NewProxy"

abbrev pub op_close_proxy : Str
op_close_proxy = lit "CloseProxy"

abbrev pub op_ping : Str
op_ping = lit "Ping"

abbrev pub op_new_work_conn : Str
op_new_work_conn = lit "NewWorkConn"

abbrev pub op_new_user_conn : Str
op_new_user_conn = lit "NewUserConn"

-- A `json.RawMessage` is its bytes.
pub record PluginRequest : Type 0 where
  pub version : Str
  pub op : Str
  pub content : Str

pub record PluginResponse : Type 0 where
  pub reject : Bool
  pub reject_reason : Str
  pub unchange : Bool
  pub content : Str

pub record UserInfo : Type 0 where
  pub user : Str
  pub metas : GoMap Str
  pub run_id : Str

pub record LoginContent : Type 0 where
  pub version : Str
  pub hostname : Str
  pub os : Str
  pub arch : Str
  pub user : Str
  pub timestamp : ℤ
  pub privilege_key : Str
  pub run_id : Str
  pub pool_count : ℤ
  pub metas : GoMap Str
  pub client_address : Str

pub record NewProxyContent : Type 0 where
  pub user : UserInfo
  pub proxy_name : Str
  pub proxy_type : Str
  pub use_encryption : Bool
  pub use_compression : Bool
  pub bandwidth_limit : Str
  pub bandwidth_limit_mode : Str
  pub group : Str
  pub group_key : Str
  pub remote_port : ℤ
  pub custom_domains : List Str
  pub subdomain : Str
  pub locations : List Str
  pub http_user : Str
  pub http_pwd : Str
  pub host_header_rewrite : Str
  pub headers : GoMap Str
  pub sk : Str
  pub multiplexer : Str
  pub metas : GoMap Str

pub record CloseProxyContent : Type 0 where
  pub user : UserInfo
  pub proxy_name : Str

pub record PingContent : Type 0 where
  pub user : UserInfo
  pub timestamp : ℤ
  pub privilege_key : Str

pub record NewWorkConnContent : Type 0 where
  pub user : UserInfo
  pub run_id : Str
  pub timestamp : ℤ
  pub privilege_key : Str

pub record NewUserConnContent : Type 0 where
  pub user : UserInfo
  pub proxy_name : Str
  pub proxy_type : Str
  pub remote_addr : Str

-- What `json.Unmarshal` makes of the bytes of a message, `net.SplitHostPort` of an address, and the
-- value that `fmt.Sscanf(s, "%d", &port)` leaves in a `port` that was 0. `none` is an error.
pub record Library : Type 0 where
  pub decode_request : Str → Option PluginRequest
  pub decode_login : Str → Option LoginContent
  pub decode_new_proxy : Str → Option NewProxyContent
  pub decode_close_proxy : Str → Option CloseProxyContent
  pub decode_ping : Str → Option PingContent
  pub decode_new_work_conn : Str → Option NewWorkConnContent
  pub decode_new_user_conn : Str → Option NewUserConnContent
  pub split_host_port : Str → Option (Str × Str)
  pub scan_port : Str → ℤ

split_port : Library → Str → Option (Str × Str) → Str × ℤ
split_port lib addr Option.none = (addr, pos 0)
split_port lib addr (Option.some (host, port)) = (host, lib.scan_port port)

-- parseAddr
unfoldable pub parse_addr : Library → Str → Str × ℤ
unfolding split_port
parse_addr lib addr =
    if addr == [] then ([], pos 0) else split_port lib addr (lib.split_host_port addr)

-- fmt.Sprintf("%t", b)
unfoldable pub show_bool : Bool → Str
show_bool true = lit "true"
show_bool false = lit "false"

-- The decimal digits of a number, in front of `rest`; as many steps as the number has digits.
decimal_loop : ℕ → ℕ → Str → Str
decimal_loop zero n rest = rest
decimal_loop (suc fuel) n rest =
    let digit = (n % 10 + b'0') ∷ rest in
    let more = decimal_loop fuel (n / 10) digit in if ltb n 10 then digit else more

-- fmt.Sprintf("%d", n)
unfoldable pub decimal : ℕ → Str
unfolding decimal_loop
decimal n = decimal_loop (suc n) n []

-- fmt.Sprintf(":%d", port), for a port above 0
port_target : ℤ → Str → Str
unfolding decimal
port_target (pos zero) name = name
port_target (pos (suc n)) name = lit ":" ++ decimal (suc n)
port_target (negsuc n) name = name

domain_target : List Str → Str → Str → Str
domain_target (d ∷ ds) subdomain name = d
domain_target [] subdomain name = if subdomain == [] then name else subdomain

-- buildTarget
unfoldable pub build_target : NewProxyContent → Str
unfolding port_target domain_target
build_target p =
    if p.proxy_type == lit "tcp" || p.proxy_type == lit "udp"
    then port_target p.remote_port p.proxy_name
    else if p.proxy_type == lit "http" || p.proxy_type == lit "https"
    then domain_target p.custom_domains p.subdomain p.proxy_name
    else p.proxy_name

-- run_id + "/" + proxy_name
unfoldable pub connection_key : Str → Str → Str
connection_key run_id proxy_name = run_id ++ (lit "/" ++ proxy_name)
