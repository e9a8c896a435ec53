-- ===== src/Tunnel/Refinement.antt =====
-- Each method of pkg/tunnel/manager.go keeps the promises of Spec.
use mathlib.Core.Path.{fun_ext}
use cloudtap.Prelude.{
  ◌≡◌, refl, ap, false, Option, none, some, inl, inr, List, [], Option-cases, Bool-cases,
}
use cloudtap.Prelude.Int.{ltb_ℤ}
use cloudtap.Text.{Str, Distinct}
use cloudtap.Time.{Instant, since}
use cloudtap.Text.Order.{sort_strings}
use cloudtap.GoMap.{GoMap, get, put, delete, keys}
use cloudtap.GoMap.Laws.{get-put, get-delete}
use cloudtap.Tunnel.Cache.{latest, get-index-nil}
use cloudtap.Tunnel.Listing.{list_targets_lem}
use cloudtap.Tunnel.Spec.{
  View, view, lookups, update, Ensures, Opens, Closes, Lists, Registers, registered,
}
use cloudtap.Tunnel.{
  Target, Manager, Context, Instants, Source, Result, ok, err, index, register_target, fetch,
  store_targets, ensure_targets, connect, listing, open_tunnel, close_tunnel, list_targets,
}

module _ {ℓ} {V : Type ℓ} where
  lookups-put :
      (k : Str) (v : V) (m : GoMap V) → lookups (put k v m) ≡ update k (some v) (lookups m)
  lookups-put k v m = fun_ext λ j. get-put j k v m

  lookups-delete : (k : Str) (m : GoMap V) → lookups (delete k m) ≡ update k none (lookups m)
  lookups-delete k m = fun_ext λ j. get-delete j k m

lookups-index : (ts : List Target) → lookups (index ts []) ≡ (λ name. latest name ts)
lookups-index ts = fun_ext λ name. get-index-nil name ts

pub register-Registers :
    (t : Target) (m : Manager) → Registers t (view m) (view (register_target t m))
unfolding view register_target
register-Registers t m =
    registered (ap (λ f. record (view m) { known = f }) (lookups-put t.name t m.targets))

module _ (ctx : Context) (at : Instants) (m : Manager) where
  abbrev ready : Manager
  ready = (ensure_targets ctx at m).1

  store-Ensures :
      (source : Source)
      → ctx at.entered ≡ none
      → m.source ≡ some source
      → ltb_ℤ (since at.compared m.last_refresh) m.refresh_interval ≡ false
      → (r : Result (List Target)) → source ctx at.fetched ≡ r
      → Ensures ctx at
          (view m)
          (store_targets at.stamped r m).0
          (view (store_targets at.stamped r m).1)
  unfolding view store_targets
  store-Ensures source live set old (err x) h = Ensures.unanswered source x live set old h refl refl
  store-Ensures source live set old (ok ts) h =
      Ensures.refreshed source ts live set old h refl
        (ap (λ f. record (view m) { known = f; last_refresh = at.stamped }) (lookups-index ts))

  fetch-Ensures :
      ctx at.entered ≡ none
      → (o : Option Source) → m.source ≡ o
      → Ensures ctx at (view m) (fetch ctx at o m).0 (view (fetch ctx at o m).1)
  unfolding view fetch
  fetch-Ensures live none unset = Ensures.unset live unset refl refl
  fetch-Ensures live (some source) set =
      elim (Bool-cases (ltb_ℤ (since at.compared m.last_refresh) m.refresh_interval)) [
        | inl young ↦ rw young (Ensures.fresh live (λ e. cc) young refl refl)
        | inr old ↦ rw old (store-Ensures source live set old (source ctx at.fetched) refl)
      ]

  ensure-Ensures :
      Ensures ctx at (view m) (ensure_targets ctx at m).0 (view (ensure_targets ctx at m).1)
  unfolding view ensure_targets
  ensure-Ensures = elim (Option-cases (ctx at.entered)) [
    | inr (e, done) ↦ rw done (Ensures.expired e done refl refl)
    | inl live ↦ rw live (fetch-Ensures live m.source refl)
  ]

module _ (ctx : Context) (at : Instants) (name : Str) (v : View) where
  connect-Opens :
      (u : Manager)
      → Ensures ctx at v none (view u)
      → Opens ctx at name v (connect ctx at name u).0 (view (connect ctx at name u).1)
  unfolding view connect
  connect-Opens u ensured = elim (Option-cases (get name u.targets)) [
    | inl gone ↦ rw gone (Opens.unknown ensured gone refl)
    | inr (info, known) ↦ elim (Option-cases (u.dialer ctx at.dialed info)) [
      | inr (e, failed) ↦ rw (known, failed) (Opens.unreached info e ensured known failed refl)
      | inl reached ↦
          rw (known, reached)
            (Opens.reached (view u) info ensured known reached refl (
              ap (λ f. record (view u) { opened = f })
                (lookups-put name (record { target = info; opened_at = at.opened }) u.active)))
    ]
  ]

module _ (ctx : Context) (at : Instants) (m : Manager) where
  pub open-Opens :
      (name : Str)
      → Opens ctx at name
          (view m)
          (open_tunnel ctx at name m).0
          (view (open_tunnel ctx at name m).1)
  unfolding open_tunnel
  open-Opens name = elim (Option-cases (ensure_targets ctx at m).0) [
    | inr (e, failed) ↦ rw failed (Opens.not_ready e (rw failed at (ensure-Ensures ctx at m)) refl)
    | inl ensured ↦ rw ensured (
        connect-Opens ctx at name (view m) (ensure_targets ctx at m).1
          (rw ensured at (ensure-Ensures ctx at m)))
  ]

  pub list-Lists :
      Distinct (keys m.targets)
      → Lists ctx at (view m) (list_targets ctx at m).0 (view (list_targets ctx at m).1)
  unfolding list_targets listing view
  list-Lists distinct = elim (Option-cases (ensure_targets ctx at m).0) [
    | inr (e, failed) ↦ rw failed (Lists.not_ready e (rw failed at (ensure-Ensures ctx at m)) refl)
    | inl ensured ↦
        let names = sort_strings (keys (ensure_targets ctx at m).1.targets) in
        let answer : (list_targets ctx at m).0 ≡ ok names = rw ensured refl in
        let found = list_targets_lem ctx at m names distinct answer in
        Lists.listed names (rw ensured at (ensure-Ensures ctx at m)) answer found.0 found.1
  ]

pub close-Closes :
    (ctx : Context) (now : Instant) (name : Str) (m : Manager)
    → Closes ctx now name
        (view m)
        (close_tunnel ctx now name m).0
        (view (close_tunnel ctx now name m).1)
unfolding view close_tunnel
close-Closes ctx now name m = elim (Option-cases (ctx now)) [
  | inr (e, done) ↦ rw done (Closes.expired e done refl refl)
  | inl live ↦ elim (Option-cases (get name m.active)) [
    | inl gone ↦ rw (live, gone) (Closes.missing live gone refl refl)
    | inr (a, there) ↦
        rw (live, there)
          (Closes.closed live (λ e. cc) refl
            (ap (λ f. record (view m) { opened = f }) (lookups-delete name m.active)))
  ]
]
