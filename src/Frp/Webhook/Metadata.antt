-- ===== src/Frp/Webhook/Metadata.antt =====
-- The metadata of the Login and NewProxy events in pkg/adapter/frp/webhook.go: their own entries beside
-- those of the metas.
use cloudtap.Prelude.{
  Bool, ◌≡◌, refl, ap, ◌∙◌, true, false, Option, none, some, List, [], ◌∷◌, ◌++◌, arith,
  if◌then◌else◌,
}
use cloudtap.Text.{Str, lit, ◌==◌, eq_iff, Distinct, has_prefix, join}
use cloudtap.GoMap.{GoMap, get, put, keys}
use cloudtap.GoMap.Laws.{get-put, mem-keys}
use cloudtap.Frp.Content.{Library, LoginContent, NewProxyContent, op_login, op_new_proxy, show_bool}
use cloudtap.Frp.Webhook.Events.{
  Fresh, merge, login_event, own_entries, add_domains, add_subdomain, proxy_entries, proxy_metadata,
  new_proxy_event,
}

append_cancel : (p a b : Str) → (p ++ a == p ++ b) ≡ (a == b)
unfolding ◌==◌
append_cancel [] a b = refl
append_cancel (c ∷ p) a b = ground (arith, append_cancel p a b)

prefix-append : (p k : Str) → has_prefix (p ++ k) p ≡ true
unfolding has_prefix
prefix-append [] [] = refl
prefix-append [] (c ∷ k) = refl
prefix-append (c ∷ p) k = ground (arith, prefix-append p k)

-- Keys without the prefix keep their values.
get-merge_other :
    (j p : Str) (metas m : GoMap Str) → has_prefix j p ≡ false → get j (merge p metas m) ≡ get j m
unfolding merge
get-merge_other j p [] m h = refl
get-merge_other j p ((k, v) ∷ metas) m h = ground (
  arith,
  get-merge_other j p metas (put (p ++ k) v m),
  get-put j (p ++ k) v m,
  eq_iff (p ++ k) j,
  prefix-append p k,
)

abbrev or_else : Option Str → Option Str → Option Str
or_else (some v) o = some v
or_else none o = o

-- A prefixed key has the value of the merged map, if that has the key.
get-merge :
    (k p : Str) (metas m : GoMap Str)
    → Distinct (keys metas)
    → get (p ++ k) (merge p metas m) ≡ or_else (get k metas) (get (p ++ k) m)
unfolding merge get
get-merge k p [] m d = refl
get-merge k p ((j, v) ∷ metas) m d = ground (
  arith,
  get-merge k p metas (put (p ++ j) v m),
  get-put (p ++ k) (p ++ j) v m,
  append_cancel p j k,
  eq_iff j k,
  mem-keys j metas,
)

pub record LoginMetadata (l : LoginContent) (m : GoMap Str) : Type 0 where
  pub metas : (k : Str) → get (lit "meta." ++ k) m ≡ get k l.metas
  pub op : get (lit "frp.op") m ≡ some op_login
  pub version : get (lit "frp.version") m ≡ some l.version
  pub os : get (lit "frp.os") m ≡ some l.os
  pub arch : get (lit "frp.arch") m ≡ some l.arch
  pub hostname : get (lit "frp.hostname") m ≡ some l.hostname

or_else-none : (o : Option Str) → or_else o none ≡ o
or_else-none none = refl
or_else-none (some v) = refl

-- The Login event, where the client's metas have distinct keys: the metas stand under "meta.", each
-- with its value and no others; the operation, version, system, architecture and host name stand
-- under their own keys whatever the metas are.
pub login_event-metadata :
    (lib : Library) (fresh : Fresh) (l : LoginContent)
    → Distinct (keys l.metas)
    → LoginMetadata l (login_event lib fresh l).metadata
unfolding login_event get has_prefix ◌==◌
login_event-metadata lib fresh l d = record {
  metas = λ k. get-merge k (lit "meta.") l.metas _ d ∙ or_else-none (get k l.metas);
  op = get-merge_other (lit "frp.op") (lit "meta.") l.metas _ refl;
  version = get-merge_other (lit "frp.version") (lit "meta.") l.metas _ refl;
  os = get-merge_other (lit "frp.os") (lit "meta.") l.metas _ refl;
  arch = get-merge_other (lit "frp.arch") (lit "meta.") l.metas _ refl;
  hostname = get-merge_other (lit "frp.hostname") (lit "meta.") l.metas _ refl;
}

abbrev unless_empty : Str → Option Str
unless_empty s = if s == [] then none else some s

abbrev joined : List Str → Option Str
joined [] = none
joined (d ∷ ds) = some (join (d ∷ ds) (lit ","))

-- what "%t" prints
abbrev true_or_false : Bool → Str
true_or_false true = lit "true"
true_or_false false = lit "false"

pub record ProxyMetadata (p : NewProxyContent) (m : GoMap Str) : Type 0 where
  pub user_metas : (k : Str) → get (lit "user_meta." ++ k) m ≡ get k p.user.metas
  pub proxy_metas : (k : Str) → get (lit "proxy_meta." ++ k) m ≡ get k p.metas
  pub op : get (lit "frp.op") m ≡ some op_new_proxy
  pub proxy_name : get (lit "frp.proxy_name") m ≡ some p.proxy_name
  pub proxy_type : get (lit "frp.proxy_type") m ≡ some p.proxy_type
  pub use_encryption : get (lit "frp.use_encryption") m ≡ some (true_or_false p.use_encryption)
  pub use_compression : get (lit "frp.use_compression") m ≡ some (true_or_false p.use_compression)
  pub domains : get (lit "frp.custom_domains") m ≡ joined p.custom_domains
  pub subdomain : get (lit "frp.subdomain") m ≡ unless_empty p.subdomain

-- What handleNewProxy writes before it merges the metas.
abbrev Entries : List Str → Str → NewProxyContent → GoMap Str → Type 0
Entries ds s p m =
    ((k : Str) → get (lit "user_meta." ++ k) m ≡ none)
    × ((k : Str) → get (lit "proxy_meta." ++ k) m ≡ none)
    × (get (lit "frp.op") m ≡ some op_new_proxy)
    × (get (lit "frp.proxy_name") m ≡ some p.proxy_name)
    × (get (lit "frp.proxy_type") m ≡ some p.proxy_type)
    × (get (lit "frp.use_encryption") m ≡ some (true_or_false p.use_encryption))
    × (get (lit "frp.use_compression") m ≡ some (true_or_false p.use_compression))
    × (get (lit "frp.custom_domains") m ≡ joined ds)
    × (get (lit "frp.subdomain") m ≡ unless_empty s)

show_bool_lem : (b : Bool) → show_bool b ≡ true_or_false b
unfolding show_bool
show_bool_lem true = refl
show_bool_lem false = refl

entries_lem :
    (ds : List Str) (s : Str) (p : NewProxyContent)
    → Entries ds s p (add_subdomain s (add_domains ds (own_entries p)))
unfolding own_entries add_domains add_subdomain get put ◌==◌
entries_lem [] [] p = (
  λ k. refl,
  λ k. refl,
  refl,
  refl,
  refl,
  ap some (show_bool_lem p.use_encryption),
  ap some (show_bool_lem p.use_compression),
  refl,
  refl,
)
entries_lem (d ∷ ds) [] p = (
  λ k. refl,
  λ k. refl,
  refl,
  refl,
  refl,
  ap some (show_bool_lem p.use_encryption),
  ap some (show_bool_lem p.use_compression),
  refl,
  refl,
)
entries_lem _ _ p = (
  λ k. refl,
  λ k. refl,
  refl,
  refl,
  refl,
  ap some (show_bool_lem p.use_encryption),
  ap some (show_bool_lem p.use_compression),
  refl,
  refl,
)

-- The NewProxy event, whose user metas and proxy metas have distinct keys: both kinds stand under
-- their own prefixes, each with its value and no others; the operation, the proxy's name and type and
-- its two flags, as "true" or "false", stand under their keys whatever the metas are, the custom domains
-- are joined by commas if there are any, and the subdomain is there if it is not empty.
pub new_proxy_event-metadata :
    (fresh : Fresh) (p : NewProxyContent)
    → Distinct (keys p.user.metas)
    → Distinct (keys p.metas)
    → ProxyMetadata p (new_proxy_event fresh p).metadata
unfolding new_proxy_event proxy_metadata proxy_entries has_prefix
new_proxy_event-metadata fresh p d e = record {
  user_metas = λ k.
      outer (lit "user_meta." ++ k) refl
      ∙ get-merge k (lit "user_meta.") p.user.metas own d
      ∙ ap (or_else (get k p.user.metas)) (b.0 k)
      ∙ or_else-none (get k p.user.metas);
  proxy_metas = λ k.
      get-merge k (lit "proxy_meta.") p.metas inner e
      ∙ ap (or_else (get k p.metas)) (
          get-merge_other (lit "proxy_meta." ++ k) (lit "user_meta.") p.user.metas own refl ∙ b.1 k)
      ∙ or_else-none (get k p.metas);
  op = both (lit "frp.op") refl refl ∙ b.2;
  proxy_name = both (lit "frp.proxy_name") refl refl ∙ b.3;
  proxy_type = both (lit "frp.proxy_type") refl refl ∙ b.4;
  use_encryption = both (lit "frp.use_encryption") refl refl ∙ b.5;
  use_compression = both (lit "frp.use_compression") refl refl ∙ b.6;
  domains = both (lit "frp.custom_domains") refl refl ∙ b.7;
  subdomain = both (lit "frp.subdomain") refl refl ∙ b.8;
}
  where
    own : GoMap Str
    own = proxy_entries p

    inner : GoMap Str
    inner = merge (lit "user_meta.") p.user.metas own

    b : Entries p.custom_domains p.subdomain p own
    b = entries_lem p.custom_domains p.subdomain p

    outer :
        (j : Str)
        → has_prefix j (lit "proxy_meta.") ≡ false
        → get j (merge (lit "proxy_meta.") p.metas inner) ≡ get j inner
    outer j h = get-merge_other j (lit "proxy_meta.") p.metas inner h

    both :
        (j : Str)
        → has_prefix j (lit "proxy_meta.") ≡ false
        → has_prefix j (lit "user_meta.") ≡ false
        → get j (merge (lit "proxy_meta.") p.metas inner) ≡ get j own
    both j h k = outer j h ∙ get-merge_other j (lit "user_meta.") p.user.metas own k
