-- ===== src/Tunnel/Interleaving.antt =====
-- The critical sections of pkg/tunnel/manager.go, interleaved in any order by any callers.
use cloudtap.Prelude.{
  ◌≡◌, true, refl, sym, subst, ◌∙◌, none, some, List, [], ◌∷◌, arith, Bool-cases, inl, inr,
}
use cloudtap.Prelude.Int.{pos, ltb_ℤ}
use cloudtap.Text.{Str, ◌==◌, eq_iff}
use cloudtap.Time.{Instant}
use cloudtap.GoMap.{GoMap, get, put, delete}
use cloudtap.GoMap.Laws.{get-put, get-delete}
use cloudtap.Tunnel.Cases.{ensure_cases, connect_cases, close_cases}
use cloudtap.Tunnel.{
  Target, ActiveTunnel, Manager, ManagerOption, with_source, with_dialer, with_refresh_interval,
  Context, Dialer, Instants, index, apply_option, apply_options, initial, new_manager,
  register_target, ensure_targets, connect, close_tunnel,
}

-- A second critical section of Open: its context, its instants, and the name it was given.
pub record Dial : Type 0 where
  pub ctx : Context
  pub at : Instants
  pub name : Str

-- The manager, and the calls that have looked up and dialed a name so far, the last first.
pub record Run : Type 0 where
  pub manager : Manager
  pub dials : List Dial

-- One critical section, by whichever goroutine holds the lock. An Open is an `ensure` and, if that
-- succeeded, a `connects`, with any sections of others between the two; ListTargets is an `ensure`
-- and a read.
infix 40 ◌⟶◌
pub data ◌⟶◌ (b : Run) : Run → Type 0 where
  register : (t : Target) → b ⟶ record b { manager = register_target t b.manager }
  ensure :
      (ctx : Context) (at : Instants)
      → b ⟶ record b { manager = (ensure_targets ctx at b.manager).1 }
  connects :
      (ctx : Context) (at : Instants) (name : Str)
      → b ⟶ record {
        manager = (connect ctx at name b.manager).1;
        dials = record { ctx = ctx; at = at; name = name } ∷ b.dials;
      }
  close :
      (ctx : Context) (now : Instant) (name : Str)
      → b ⟶ record b { manager = (close_tunnel ctx now name b.manager).1 }

pub data Reachable (seed : List Target) (opts : List ManagerOption) : Run → Type 0 where
  start : Reachable seed opts (record { manager = new_manager seed opts; dials = [] })
  next : {b c : Run} → Reachable seed opts b → b ⟶ c → Reachable seed opts c

-- One of the calls that were made for this name reached the tunnel's target, and the tunnel has its time.
pub data Dialed (dialer : Dialer) (name : Str) (a : ActiveTunnel) : List Dial → Type 0 where
  last :
      {ds : List Dial} (ctx : Context) (at : Instants)
      → dialer ctx at.dialed a.target ≡ none
      → a.opened_at ≡ at.opened
      → Dialed dialer name a (record { ctx = ctx; at = at; name = name } ∷ ds)
  earlier : {d : Dial} {ds : List Dial} → Dialed dialer name a ds → Dialed dialer name a (d ∷ ds)

-- The targets under their own names.
abbrev Keyed : GoMap Target → Type 0
Keyed m = (k : Str) (t : Target) → get k m ≡ some t → t.name ≡ k

put-Keyed : (t : Target) (m : GoMap Target) → Keyed m → Keyed (put t.name t m)
put-Keyed t m v k u h = ground (arith, get-put k t.name t m, eq_iff t.name k, v k u)

index-Keyed : (ts : List Target) (m : GoMap Target) → Keyed m → Keyed (index ts m)
unfolding index
index-Keyed [] m v = v
index-Keyed (t ∷ ts) m v = index-Keyed ts (put t.name t m) (put-Keyed t m v)

nil-Keyed : Keyed []
unfolding get
nil-Keyed k t h = cc

-- Every tunnel stands under its target's name, and one of the calls for that name reached the target.
abbrev Sound : Dialer → List Dial → GoMap ActiveTunnel → Type 0
Sound dialer dials m =
    (k : Str) (a : ActiveTunnel) → get k m ≡ some a → (a.target.name ≡ k) × Dialed dialer k a dials

module _ (dialer : Dialer) (dials : List Dial) where
  put-Sound :
      (k : Str) (a : ActiveTunnel) (m : GoMap ActiveTunnel)
      → a.target.name ≡ k
      → Dialed dialer k a dials
      → Sound dialer dials m
      → Sound dialer dials (put k a m)
  put-Sound k a m named dialed v j b h = elim (Bool-cases (k == j)) [
    | inl same ↦
        let found : some a ≡ some b = sym (rw same at (get-put j k a m)) ∙ h in
        let same_tunnel : a ≡ b = cc in
        let same_name = (eq_iff k j).0 same in
        subst (λ c. (c.target.name ≡ j) × Dialed dialer j c dials) same_tunnel
          (named ∙ same_name, subst (λ n. Dialed dialer n a dials) same_name dialed)
    | inr other ↦ v j b (sym (rw other at (get-put j k a m)) ∙ h)
  ]

  nil-Sound : Sound dialer dials []
  unfolding get
  nil-Sound k a h = cc

  delete-Sound :
      (k : Str) (m : GoMap ActiveTunnel) → Sound dialer dials m → Sound dialer dials (delete k m)
  delete-Sound k m v j b h = elim (Bool-cases (k == j)) [
    | inl same ↦ ground (arith, get-delete j k m)
    | inr other ↦ v j b (sym (rw other at (get-delete j k m)) ∙ h)
  ]

  later-Sound :
      (d : Dial) (m : GoMap ActiveTunnel) → Sound dialer dials m → Sound dialer (d ∷ dials) m
  later-Sound d m v k a h = let w = v k a h in (w.0, earlier w.1)

pub record Inv (dials : List Dial) (m : Manager) : Type 0 where
  pub targets_keyed : Keyed m.targets
  pub tunnels_sound : Sound m.dialer dials m.active
  pub interval_positive : ltb_ℤ (pos 0) m.refresh_interval ≡ true

connect-Inv :
    (ctx : Context) (at : Instants) (name : Str) (dials : List Dial) (m : Manager)
    → Inv dials m
    → Inv (record { ctx = ctx; at = at; name = name } ∷ dials) (connect ctx at name m).1
connect-Inv ctx at name dials m v =
    let d : Dial = record { ctx = ctx; at = at; name = name } in
    let kept : Inv (d ∷ dials) m = record {
      targets_keyed = v.targets_keyed;
      tunnels_sound = later-Sound m.dialer dials d m.active v.tunnels_sound;
      interval_positive = v.interval_positive;
    } in
    connect_cases (Inv (d ∷ dials)) m kept ctx at name λ info known reached. record {
      targets_keyed = v.targets_keyed;
      tunnels_sound =
          put-Sound m.dialer (d ∷ dials) name (record { target = info; opened_at = at.opened })
            m.active (v.targets_keyed name info known) (last ctx at reached refl)
            kept.tunnels_sound;
      interval_positive = v.interval_positive;
    }

⟶-Inv : {b c : Run} → b ⟶ c → Inv b.dials b.manager → Inv c.dials c.manager
unfolding register_target
⟶-Inv {b} (register t) v = record {
  targets_keyed = put-Keyed t b.manager.targets v.targets_keyed;
  tunnels_sound = v.tunnels_sound;
  interval_positive = v.interval_positive;
}
⟶-Inv {b} (ensure ctx at) v = ensure_cases (Inv b.dials) b.manager v ctx at λ ts. record {
  targets_keyed = index-Keyed ts [] nil-Keyed;
  tunnels_sound = v.tunnels_sound;
  interval_positive = v.interval_positive;
}
⟶-Inv {b} (connects ctx at name) v = connect-Inv ctx at name b.dials b.manager v
⟶-Inv {b} (close ctx now name) v = close_cases (Inv b.dials) b.manager v ctx now name record {
  targets_keyed = v.targets_keyed;
  tunnels_sound = delete-Sound b.manager.dialer b.dials name b.manager.active v.tunnels_sound;
  interval_positive = v.interval_positive;
}

-- The options leave the maps alone and keep the interval positive.
pub record Configured (m m' : Manager) : Type 0 where
  pub targets_kept : m'.targets ≡ m.targets
  pub active_kept : m'.active ≡ m.active
  pub interval_kept :
      ltb_ℤ (pos 0) m.refresh_interval ≡ true → ltb_ℤ (pos 0) m'.refresh_interval ≡ true

apply_option-Configured : (o : ManagerOption) (m : Manager) → Configured m (apply_option o m)
unfolding apply_option
apply_option-Configured (with_source s) m = ground arith
apply_option-Configured (with_dialer d) m = ground arith
apply_option-Configured (with_refresh_interval d) m = ground arith

pub apply_options-Configured :
    (os : List ManagerOption) (m : Manager) → Configured m (apply_options os m)
unfolding apply_options
apply_options-Configured [] m = ground arith
apply_options-Configured (o ∷ os) m =
    let one = apply_option-Configured o m in
    let all = apply_options-Configured os (apply_option o m) in
    record {
      targets_kept = all.targets_kept ∙ one.targets_kept;
      active_kept = all.active_kept ∙ one.active_kept;
      interval_kept = λ h. all.interval_kept (one.interval_kept h);
    }

new_manager-Inv : (seed : List Target) (opts : List ManagerOption) → Inv [] (new_manager seed opts)
unfolding new_manager
new_manager-Inv seed opts =
    let m = apply_options opts (initial seed) in
    let c = apply_options-Configured opts (initial seed) in
    record {
      targets_keyed = index-Keyed seed m.targets (rw c.targets_kept nil-Keyed);
      tunnels_sound = rw c.active_kept (nil-Sound m.dialer []);
      interval_positive = c.interval_kept refl;
    }

-- Whatever critical sections run in whatever order on a manager that NewManager made: a target is
-- cached under its own name; an active tunnel stands under its target's name, one of the calls of Open
-- so far was for that name, the manager's dialer reached the target in it, and the tunnel records the
-- time of that call; and the refresh interval is positive.
pub Reachable-Inv :
    (seed : List Target) (opts : List ManagerOption) (b : Run)
    → Reachable seed opts b
    → Inv b.dials b.manager
Reachable-Inv seed opts b start = new_manager-Inv seed opts
Reachable-Inv seed opts b (next r s) = ⟶-Inv s (Reachable-Inv seed opts _ r)
