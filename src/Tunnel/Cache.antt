-- ===== src/Tunnel/Cache.antt =====
-- The target cache: ensureTargets of pkg/tunnel/manager.go.
use cloudtap.Prelude.{
  ◌≡◌, ◌≢◌, ◌⊎◌, refl, Bool, true, false, Option, none, some, List, [], ◌∷◌, if◌then◌else◌, arith,
}
use cloudtap.Prelude.Int.{ltb_ℤ}
use cloudtap.Text.{Str, ◌==◌}
use cloudtap.Time.{since}
use cloudtap.GoMap.{GoMap, get, put}
use cloudtap.GoMap.Laws.{get-put}
use cloudtap.Tunnel.{
  Target, Manager, Context, Instants, Source, ok, not_registered, index, register_target,
  ensure_targets, open_tunnel, connect,
}

-- The last of the targets with a name.
unfoldable pub latest : Str → List Target → Option Target
latest name [] = none
latest name (t ∷ ts) = elim (latest name ts) [
  | some u ↦ some u
  | none ↦ if t.name == name then some t else none
]

abbrev or_else : Option Target → Option Target → Option Target
or_else (some t) o = some t
or_else none o = o

get-index :
    (name : Str) (ts : List Target) (m : GoMap Target)
    → get name (index ts m) ≡ or_else (latest name ts) (get name m)
unfolding index latest
get-index name [] m = refl
get-index name (t ∷ ts) m =
    ground (arith, get-index name ts (put t.name t m), get-put name t.name t m)

pub get-index-nil : (name : Str) (ts : List Target) → get name (index ts []) ≡ latest name ts
unfolding get
get-index-nil name ts = ground (arith, get-index name ts [])

-- The cache is older than the refresh interval.
abbrev pub stale : Instants → Manager → Bool
stale at m = if ltb_ℤ (since at.compared m.last_refresh) m.refresh_interval then false else true

-- What a refresh leaves: the source's targets alone, the last of each name, and the rest as it was.
pub record Refreshed (at : Instants) (ts : List Target) (m m' : Manager) : Type 0 where
  pub lookups : (name : Str) → get name m'.targets ≡ latest name ts
  pub stamped : m'.last_refresh ≡ at.stamped
  pub active_kept : m'.active ≡ m.active
  pub source_kept : m'.source ≡ m.source
  pub dialer_kept : m'.dialer ≡ m.dialer
  pub interval_kept : m'.refresh_interval ≡ m.refresh_interval

module _ (ctx : Context) (at : Instants) (m : Manager) where
  -- A call of ensureTargets on a live context with a stale cache, whose source answers, succeeds and
  -- replaces the whole cache: a name is known afterwards exactly if the source lists it, with the
  -- last target of that name, and nothing but the cache and its time stamp changes.
  pub ensure_targets-Refreshed :
      (source : Source) (ts : List Target)
      → ctx at.entered ≡ none
      → m.source ≡ some source
      → stale at m ≡ true
      → source ctx at.fetched ≡ ok ts
      → ((ensure_targets ctx at m).0 ≡ none) × Refreshed at ts m (ensure_targets ctx at m).1
  unfolding ensure_targets
  ensure_targets-Refreshed source ts live configured old answered = (
    ground arith,
    record {
      lookups = λ name. ground (arith, get-index-nil name ts);
      stamped = ground arith;
      active_kept = ground arith;
      source_kept = ground arith;
      dialer_kept = ground arith;
      interval_kept = ground arith;
    },
  )

  -- ensureTargets leaves the manager as it was when it fails, and also when the cache is not stale.
  ensure_targets_unchanged :
      (((ensure_targets ctx at m).0 ≢ none) ⊎ (stale at m ≡ false))
      → (ensure_targets ctx at m).1 ≡ m
  unfolding ensure_targets
  ensure_targets_unchanged h = ground arith

  -- ensureTargets touches neither the open tunnels nor the configuration, whatever it returns.
  pub ensure_targets-active : (ensure_targets ctx at m).1.active ≡ m.active
  unfolding ensure_targets
  ensure_targets-active = ground arith

  ensure_targets-dialer : (ensure_targets ctx at m).1.dialer ≡ m.dialer
  unfolding ensure_targets
  ensure_targets-dialer = ground arith

  -- A registered target is not kept by a refresh: if the context is live, the cache is stale and the
  -- source answers with no target of that name, Open right after RegisterTarget fails with "not
  -- registered".
  pub register-open_lost :
      (t : Target) (source : Source) (ts : List Target)
      → ctx at.entered ≡ none
      → m.source ≡ some source
      → stale at m ≡ true
      → source ctx at.fetched ≡ ok ts
      → latest t.name ts ≡ none
      → (open_tunnel ctx at t.name (register_target t m)).0 ≡ some (not_registered t.name)
  unfolding open_tunnel ensure_targets connect register_target
  register-open_lost t source ts live configured old answered unknown =
      ground (arith, get-index-nil t.name ts)
