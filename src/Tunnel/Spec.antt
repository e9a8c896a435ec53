-- ===== src/Tunnel/Spec.antt =====
-- What pkg/tunnel/manager.go promises of its Manager, with no maps and no order: two partial functions
-- from names, and what each method makes of them.
use cloudtap.Prelude.{◌≢◌, ◌≡◌, true, false, Option, none, some, List, if◌then◌else◌, is_some}
use cloudtap.Prelude.Int.{ltb_ℤ}
use cloudtap.Text.{Str, ◌==◌, mem}
use cloudtap.Text.Order.{Ascending}
use cloudtap.Time.{Instant, Duration, since}
use cloudtap.GoMap.{GoMap, get}
use cloudtap.Tunnel.{
  Target, ActiveTunnel, Manager, Context, Instants, Source, Dialer, Error, Result, ok, err,
  source_not_configured, not_registered, no_active_tunnel,
}
use cloudtap.Tunnel.Cache.{latest}

-- The targets that are known and the tunnels that are open, by name, and the configuration.
pub record View : Type 0 where
  pub known : Str → Option Target
  pub opened : Str → Option ActiveTunnel
  pub source : Option Source
  pub dialer : Dialer
  pub refresh_interval : Duration
  pub last_refresh : Instant

abbrev pub lookups {ℓ} : {V : Type ℓ} → GoMap V → Str → Option V
lookups m k = get k m

unfoldable pub view : Manager → View
view m = record {
  known = lookups m.targets;
  opened = lookups m.active;
  source = m.source;
  dialer = m.dialer;
  refresh_interval = m.refresh_interval;
  last_refresh = m.last_refresh;
}

-- the function, changed at one name
abbrev pub update {ℓ} : {V : Type ℓ} → Str → Option V → (Str → Option V) → Str → Option V
update k v f j = if k == j then v else f j

-- ensureTargets: `e` is its error, and `w` what it leaves.
pub data Ensures (ctx : Context) (at : Instants) (v : View) (e : Option Error) (w : View)
    : Type 0 where
  expired : (x : Error) → ctx at.entered ≡ some x → e ≡ some x → w ≡ v → Ensures ctx at v e w
  unset :
      ctx at.entered ≡ none
      → v.source ≡ none
      → e ≡ some source_not_configured
      → w ≡ v
      → Ensures ctx at v e w
  fresh :
      ctx at.entered ≡ none
      → v.source ≢ none
      → ltb_ℤ (since at.compared v.last_refresh) v.refresh_interval ≡ true
      → e ≡ none
      → w ≡ v
      → Ensures ctx at v e w
  unanswered :
      (source : Source) (x : Error)
      → ctx at.entered ≡ none
      → v.source ≡ some source
      → ltb_ℤ (since at.compared v.last_refresh) v.refresh_interval ≡ false
      → source ctx at.fetched ≡ err x
      → e ≡ some x
      → w ≡ v
      → Ensures ctx at v e w
  refreshed :
      (source : Source) (ts : List Target)
      → ctx at.entered ≡ none
      → v.source ≡ some source
      → ltb_ℤ (since at.compared v.last_refresh) v.refresh_interval ≡ false
      → source ctx at.fetched ≡ ok ts
      → e ≡ none
      → w ≡ record v { known = (λ name. latest name ts); last_refresh = at.stamped }
      → Ensures ctx at v e w

-- Open: what is left is what ensureTargets leaves, and the tunnel if the target is reached.
pub data Opens (ctx : Context) (at : Instants) (name : Str) (v : View) (e : Option Error) (w : View)
    : Type 0 where
  not_ready : (x : Error) → Ensures ctx at v (some x) w → e ≡ some x → Opens ctx at name v e w
  unknown :
      Ensures ctx at v none w
      → w.known name ≡ none
      → e ≡ some (not_registered name)
      → Opens ctx at name v e w
  unreached :
      (info : Target) (x : Error)
      → Ensures ctx at v none w
      → w.known name ≡ some info
      → w.dialer ctx at.dialed info ≡ some x
      → e ≡ some x
      → Opens ctx at name v e w
  reached :
      (u : View) (info : Target)
      → Ensures ctx at v none u
      → u.known name ≡ some info
      → u.dialer ctx at.dialed info ≡ none
      → e ≡ none
      → w ≡ record u {
        opened = update name (some (record { target = info; opened_at = at.opened })) u.opened;
      }
      → Opens ctx at name v e w

-- Close
pub data Closes (ctx : Context) (now : Instant) (name : Str) (v : View) (e : Option Error)
    (w : View) : Type 0 where
  expired : (x : Error) → ctx now ≡ some x → e ≡ some x → w ≡ v → Closes ctx now name v e w
  missing :
      ctx now ≡ none
      → v.opened name ≡ none
      → e ≡ some (no_active_tunnel name)
      → w ≡ v
      → Closes ctx now name v e w
  closed :
      ctx now ≡ none
      → v.opened name ≢ none
      → e ≡ none
      → w ≡ record v { opened = update name none v.opened }
      → Closes ctx now name v e w

-- ListTargets: every known name once, in ascending order.
pub data Lists (ctx : Context) (at : Instants) (v : View) (r : Result (List Str)) (w : View)
    : Type 0 where
  not_ready : (x : Error) → Ensures ctx at v (some x) w → r ≡ err x → Lists ctx at v r w
  listed :
      (names : List Str)
      → Ensures ctx at v none w
      → r ≡ ok names
      → Ascending names
      → ((k : Str) → mem k names ≡ is_some (w.known k))
      → Lists ctx at v r w

-- RegisterTarget
pub data Registers (t : Target) (v : View) (w : View) : Type 0 where
  registered : w ≡ record v { known = update t.name (some t) v.known } → Registers t v w
