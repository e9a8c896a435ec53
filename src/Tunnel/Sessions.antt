-- ===== src/Tunnel/Sessions.antt =====
-- Open and Close of pkg/tunnel/manager.go: the table of active tunnels.
use cloudtap.Prelude.{
  ◌≡◌, ◌≢◌, ◌∙◌, ◌↔◌, is_some, true, none, some, if◌then◌else◌, arith, Option-cases, inl, inr,
}
use cloudtap.Text.{Str, ◌==◌, eq_refl}
use cloudtap.Time.{Instant}
use cloudtap.GoMap.{get}
use cloudtap.GoMap.Laws.{get-put, get-delete}
use cloudtap.Tunnel.{
  Target, Manager, Context, Instants, no_active_tunnel, ensure_targets, connect, open_tunnel,
  close_tunnel,
}
use cloudtap.Tunnel.Cache.{ensure_targets-active}

module _ (ctx : Context) (now : Instant) (name : Str) (m : Manager) where
  -- Close succeeds exactly when its context is live and the name has a tunnel.
  pub close_tunnel-ok_iff :
      ((close_tunnel ctx now name m).0 ≡ none)
      ↔ ((ctx now ≡ none) × (is_some (get name m.active) ≡ true))
  unfolding close_tunnel
  close_tunnel-ok_iff = (ground arith, ground arith)

  -- A Close that succeeds removes the tunnel of its name and no other, and keeps the targets.
  pub close_tunnel-active :
      (close_tunnel ctx now name m).0 ≡ none
      → ((close_tunnel ctx now name m).1.targets ≡ m.targets)
        × ((k : Str)
            → get k (close_tunnel ctx now name m).1.active
              ≡ (if name == k then none else get k m.active))
  unfolding close_tunnel
  close_tunnel-active h = (ground arith, λ k. ground (arith, get-delete k name m.active))

  -- A Close that fails leaves the manager as it was.
  pub close_tunnel_failed :
      (close_tunnel ctx now name m).0 ≢ none → (close_tunnel ctx now name m).1 ≡ m
  unfolding close_tunnel
  close_tunnel_failed h = ground arith

pub close_missing :
    (ctx : Context) (now : Instant) (name : Str) (m : Manager)
    → ctx now ≡ none
    → get name m.active ≡ none
    → (close_tunnel ctx now name m).0 ≡ some (no_active_tunnel name)
unfolding close_tunnel
close_missing ctx now name m live h = ground arith

module _ (ctx : Context) (at : Instants) (name : Str) (m : Manager) where
  abbrev after : Manager
  after = (open_tunnel ctx at name m).1

  -- What Open must have met, and what it has then done.
  pub record Opened (info : Target) : Type 0 where
    pub ensured : (ensure_targets ctx at m).0 ≡ none
    pub known : get name (ensure_targets ctx at m).1.targets ≡ some info
    pub reached : (ensure_targets ctx at m).1.dialer ctx at.dialed info ≡ none

  open-Opened : (open_tunnel ctx at name m).0 ≡ none → (info : Target) × Opened info
  unfolding open_tunnel connect
  open-Opened h = elim (Option-cases (get name (ensure_targets ctx at m).1.targets)) [
    | inl e ↦ ground arith
    | inr (info, e) ↦ (info, ground arith)
  ]

  Opened-open : (info : Target) → Opened info → (open_tunnel ctx at name m).0 ≡ none
  unfolding open_tunnel connect
  Opened-open info o = ground arith

  -- Open succeeds exactly when ensureTargets succeeds, the name is then in the cache and the dialer
  -- reaches the target found there.
  pub open_tunnel-ok_iff : ((open_tunnel ctx at name m).0 ≡ none) ↔ ((info : Target) × Opened info)
  open_tunnel-ok_iff = (open-Opened, λ o. Opened-open o.0 o.1)

  -- A successful Open records the dialed target under its name, with the time, and leaves every
  -- other tunnel as it was.
  pub open_tunnel-active :
      (info : Target)
      → Opened info
      → (k : Str)
      → get k after.active ≡ (
          if name == k
          then some (record { target = info; opened_at = at.opened })
          else get k m.active)
  unfolding open_tunnel connect
  open_tunnel-active info o k = ground (
    arith,
    ensure_targets-active ctx at m,
    get-put k name (record { target = info; opened_at = at.opened }) m.active,
  )

  -- An Open that fails leaves the table of tunnels as it was.
  open_tunnel_failed : (open_tunnel ctx at name m).0 ≢ none → after.active ≡ m.active
  unfolding open_tunnel connect
  open_tunnel_failed h = ground (arith, ensure_targets-active ctx at m)

  -- Close after a successful Open of the same name succeeds if its context is live: it removes that
  -- tunnel and leaves every other as it was before the Open, and the next Close of the name fails.
  pub close-open :
      (later : Context) (now then' : Instant)
      → (open_tunnel ctx at name m).0 ≡ none
      → later now ≡ none
      → later then' ≡ none
      → ((close_tunnel later now name after).0 ≡ none)
        × ((k : Str)
            → get k (close_tunnel later now name after).1.active
              ≡ (if name == k then none else get k m.active))
        × ((close_tunnel later then' name (close_tunnel later now name after).1).0
            ≡ some (no_active_tunnel name))
  close-open later now then' h live live' = close_opened (open-Opened h).0 (open-Opened h).1
    where
      close_opened :
          (info : Target)
          → Opened info
          → ((close_tunnel later now name after).0 ≡ none)
            × ((k : Str)
                → get k (close_tunnel later now name after).1.active
                  ≡ (if name == k then none else get k m.active))
            × ((close_tunnel later then' name (close_tunnel later now name after).1).0
                ≡ some (no_active_tunnel name))
      close_opened info o =
          let there = open_tunnel-active info o name in
          let closed : (close_tunnel later now name after).0 ≡ none =
            (close_tunnel-ok_iff later now name after).1 (live, rw (there, eq_refl name)) in
          let gone : (k : Str)
              → get k (close_tunnel later now name after).1.active
                ≡ (if name == k then none else get k m.active) =
            λ k. ground (
              arith,
              (close_tunnel-active later now name after closed).1 k,
              open_tunnel-active info o k,
            ) in
          (
            closed,
            gone,
            close_missing later then' name (close_tunnel later now name after).1 live'
                (gone name ∙ rw (eq_refl name)),
          )
