-- ===== src/Daemon/Demo.antt =====
-- cmd/cloudtapd/main.go with the manager that main makes: NewDefaultManager of pkg/tunnel/manager.go.
use cloudtap.Prelude.{
  ◌≡◌, sym, ◌∙◌, ap, ◌↔◌, ◌⊎◌, ◌*◌, ◌+◌, ◌++◌, refl, true, false, none, some, is_some, List, [],
  ◌∷◌, inl, inr, arith, Bool-cases, Option-cases,
}
use cloudtap.Prelude.Int.{pos, ltb_ℤ}
use cloudtap.Text.{Str, lit, mem, ◌==◌, eq_iff}
use cloudtap.Time.{Instant, since, second, zero_time}
use cloudtap.GoMap.{GoMap, get}
use cloudtap.Tunnel.{
  Target, ok, err, Error, ActiveTunnel, Manager, Context, Instants, static_source, simulated_dialer,
  index, demo_targets, new_manager, new_default_manager, ensure_targets, connect, open_tunnel,
  close_tunnel,
}
use cloudtap.Tunnel.Cache.{stale, latest, get-index-nil}
use cloudtap.Tunnel.Sessions.{open_tunnel-ok_iff}
use cloudtap.Tunnel.Cases.{connect_cases, close_cases}
use cloudtap.Daemon.{text, with_timeout, manager_controller, http_proxy}

-- The daemon's manager after any critical sections of the methods that the two services call, in any
-- order.
pub data Serving : Manager → Type 0 where
  boots : Serving new_default_manager
  ensures :
      {m : Manager} (ctx : Context) (at : Instants)
      → Serving m
      → Serving (ensure_targets ctx at m).1
  connects :
      {m : Manager} (ctx : Context) (at : Instants) (name : Str)
      → Serving m
      → Serving (connect ctx at name m).1
  closes :
      {m : Manager} (ctx : Context) (now : Instant) (name : Str)
      → Serving m
      → Serving (close_tunnel ctx now name m).1

-- What such a manager is, up to its tunnels and the time of its last refresh.
abbrev demo : GoMap ActiveTunnel → Instant → Manager
demo active last = record {
  targets = index demo_targets [];
  active = active;
  source = some (static_source demo_targets);
  dialer = simulated_dialer;
  refresh_interval = pos (30 * second);
  last_refresh = last;
}

abbrev IsDemo : Manager → Type 0
IsDemo m = (active : GoMap ActiveTunnel) × (last : Instant) × (m ≡ demo active last)

static_answers :
    (ts : List Target) (ctx : Context) (now : Instant)
    → ctx now ≡ none
    → static_source ts ctx now ≡ ok ts
unfolding static_source
static_answers ts ctx now live = rw (live, static_source) refl

static_fails :
    (ts : List Target) (ctx : Context) (now : Instant) (e : Error)
    → ctx now ≡ some e
    → static_source ts ctx now ≡ err e
unfolding static_source
static_fails ts ctx now e over = rw (over, static_source) refl

ensure-IsDemo :
    (ctx : Context) (at : Instants) (active : GoMap ActiveTunnel) (last : Instant)
    → IsDemo (ensure_targets ctx at (demo active last)).1
unfolding ensure_targets
ensure-IsDemo ctx at active last = elim (Option-cases (ctx at.entered)) [
  | inr (e, h) ↦ rw h (active, last, refl)
  | inl live ↦ elim (Bool-cases (ltb_ℤ (since at.compared last) (pos (30 * second)))) [
    | inl fresh ↦ rw (live, fresh) (active, last, refl)
    | inr old ↦ elim (Option-cases (ctx at.fetched)) [
      | inr (e, failed) ↦
          rw (live, old, static_fails demo_targets ctx at.fetched e failed) (active, last, refl)
      | inl answered ↦
          rw (live, old, static_answers demo_targets ctx at.fetched answered)
            (active, at.stamped, refl)
    ]
  ]
]

Serving-IsDemo : {m : Manager} → Serving m → IsDemo m
unfolding new_default_manager new_manager
Serving-IsDemo boots = ([], zero_time, refl)
Serving-IsDemo (ensures {m} ctx at s) =
    let (active, last, same) = Serving-IsDemo s in rw same (ensure-IsDemo ctx at active last)
Serving-IsDemo (connects {m} ctx at name s) =
    connect_cases IsDemo m (Serving-IsDemo s) ctx at name
      λ info known reached. let (active, last, same) = Serving-IsDemo s in rw same (_, last, refl)
Serving-IsDemo (closes {m} ctx now name s) =
    close_cases IsDemo m (Serving-IsDemo s) ctx now name
      (let (active, last, same) = Serving-IsDemo s in rw same (_, last, refl))

pub demo_names : List Str
demo_names = lit "demo-service" ∷ lit "logs-gateway" ∷ lit "metrics-api" ∷ []

known_iff :
    (name : Str)
    → (is_some (get name (index demo_targets [])) ≡ true) ↔ (mem name demo_names ≡ true)
unfolding latest mem demo_names
known_iff name = rw (get-index-nil name demo_targets) (ground arith, ground arith)

-- Whether ensureTargets succeeds: the source looks at its context, and only on a stale cache.
ensured_iff :
    (ctx : Context) (at : Instants) (active : GoMap ActiveTunnel) (last : Instant)
    → ((ensure_targets ctx at (demo active last)).0 ≡ none) ↔ (
        (ctx at.entered ≡ none) × ((stale at (demo active last) ≡ false) ⊎ (ctx at.fetched ≡ none)))
unfolding ensure_targets
ensured_iff ctx at active last = elim (Option-cases (ctx at.fetched)) [
  | inl live ↦
      let answered = static_answers demo_targets ctx at.fetched live in (ground arith, ground arith)
  | inr (e, over) ↦
      let failed = static_fails demo_targets ctx at.fetched e over in (ground arith, ground arith)
]

-- What Open of the daemon's manager needs: a demo target, and a context that has not ended when Open
-- begins, when it asks the source, should the cache be stale, and 20 ms after it starts to dial.
pub record Reaches (ctx : Context) (at : Instants) (name : Str) (m : Manager) : Type 0 where
  pub listed : mem name demo_names ≡ true
  pub live : ctx at.entered ≡ none
  pub refreshed : (stale at m ≡ false) ⊎ (ctx at.fetched ≡ none)
  pub dialed : ctx (at.dialed + 20 * 1000000) ≡ none

open-demo_iff :
    (ctx : Context) (at : Instants) (name : Str) (active : GoMap ActiveTunnel) (last : Instant)
    → ((open_tunnel ctx at name (demo active last)).0 ≡ none)
      ↔ Reaches ctx at name (demo active last)
unfolding simulated_dialer
open-demo_iff ctx at name active last =
    let (active', last', same) = ensure-IsDemo ctx at active last in
    let opens = open_tunnel-ok_iff ctx at name (demo active last) in
    let ensured = ensured_iff ctx at active last in
    let known = known_iff name in
    (
      λ h.
          let (info, o) = opens.0 h in
          let found = sym (ap (λ m. get name m.targets) same) ∙ o.known in
          let reached = sym (ap (λ m. m.dialer ctx at.dialed info) same) ∙ o.reached in
          let e = ensured.0 o.ensured in
          record {
            listed = known.0 (ground (arith, found));
            live = e.0;
            refreshed = e.1;
            dialed = reached;
          },
      λ h. elim (Option-cases (get name (index demo_targets []))) [
        | inl missing ↦ ground (arith, known, h.listed)
        | inr (info, found) ↦ opens.1 (
          info,
          record {
            ensured = ensured.1 (h.live, h.refreshed);
            known = ap (λ m. get name m.targets) same ∙ found;
            reached = ap (λ m. m.dialer ctx at.dialed info) same ∙ h.dialed;
          },
        )
      ],
    )

unnamed : mem [] demo_names ≡ false
unfolding mem demo_names ◌==◌
unnamed = refl

open-Serving_iff :
    {m : Manager}
    → Serving m
    → (ctx : Context) (at : Instants) (name : Str)
    → ((open_tunnel ctx at name m).0 ≡ none) ↔ Reaches ctx at name m
open-Serving_iff s ctx at name =
    let (active, last, same) = Serving-IsDemo s in rw same (open-demo_iff ctx at name active last)

-- Whatever the two services have been asked before, in any order of the critical sections: /proxy
-- answers that the proxy is initiated exactly when the target is one of the three demo targets and the
-- context of the request, with its five seconds, has not ended when Open begins, when it asks the
-- source, should the cache be stale, and 20 ms after it starts to dial.
pub http_proxy-demo_iff :
    (m : Manager)
    → Serving m
    → (start : Instant) (ctx : Context) (at : Instants) (target : Str)
    → ((http_proxy manager_controller start ctx at target m).0
        ≡ text (lit "proxy to " ++ target ++ lit " initiated"))
      ↔ Reaches (with_timeout start (5 * second) ctx) at target m
unfolding http_proxy manager_controller
http_proxy-demo_iff m s start ctx at target =
    let opens = open-Serving_iff s (with_timeout start (5 * second) ctx) at target in
    (
      λ h. opens.0 (ground (arith, eq_iff target [])),
      λ r. ground (arith, opens.1 r, r.listed, unnamed, eq_iff target []),
    )
