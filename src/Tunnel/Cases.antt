-- ===== src/Tunnel/Cases.antt =====
-- How a manager can look after a critical section of pkg/tunnel/manager.go: one rule for each.
use cloudtap.Prelude.{◌≡◌, none, some, List, [], Option, inl, inr, Option-cases, Bool-cases}
use cloudtap.Prelude.Int.{ltb_ℤ}
use cloudtap.Text.{Str}
use cloudtap.Time.{Instant, since}
use cloudtap.GoMap.{get, put, delete}
use cloudtap.Tunnel.{
  Target, Manager, Context, Source, Instants, Result, ok, err, index, store_targets, fetch,
  ensure_targets, connect, close_tunnel,
}

module _ {ℓ} (P : Manager → Type ℓ) (m : Manager) (kept : P m) where
  module _ (ctx : Context) (at : Instants) where
    abbrev Filled : Type ℓ
    Filled = (ts : List Target) → P (record m { targets = index ts []; last_refresh = at.stamped })

    store_cases : (r : Result (List Target)) → Filled → P (store_targets at.stamped r m).1
    unfolding store_targets
    store_cases (ok ts) filled = filled ts
    store_cases (err e) filled = kept

    fetch_cases : (s : Option Source) → Filled → P (fetch ctx at s m).1
    unfolding fetch
    fetch_cases none filled = kept
    fetch_cases (some source) filled =
        elim (Bool-cases (ltb_ℤ (since at.compared m.last_refresh) m.refresh_interval)) [
          | inl fresh ↦ rw fresh kept
          | inr old ↦ rw old (store_cases (source ctx at.fetched) filled)
        ]

    pub ensure_cases : Filled → P (ensure_targets ctx at m).1
    unfolding ensure_targets
    ensure_cases filled = elim (Option-cases (ctx at.entered)) [
      | inl live ↦ rw live (fetch_cases m.source filled)
      | inr (e, done) ↦ rw done kept
    ]

    pub connect_cases :
        (name : Str)
        → ((info : Target)
            → get name m.targets ≡ some info
            → m.dialer ctx at.dialed info ≡ none
            → P (record m {
              active = put name (record { target = info; opened_at = at.opened }) m.active;
            }))
        → P (connect ctx at name m).1
    unfolding connect
    connect_cases name opened = elim (Option-cases (get name m.targets)) [
      | inl unknown ↦ rw unknown kept
      | inr (info, known) ↦ elim (Option-cases (m.dialer ctx at.dialed info)) [
        | inl reached ↦ rw (known, reached) (opened info known reached)
        | inr (e, failed) ↦ rw (known, failed) kept
      ]
    ]

  pub close_cases :
      (ctx : Context) (now : Instant) (name : Str)
      → P (record m { active = delete name m.active })
      → P (close_tunnel ctx now name m).1
  unfolding close_tunnel
  close_cases ctx now name closed = elim (Option-cases (ctx now)) [
    | inr (e, done) ↦ rw done kept
    | inl live ↦ elim (Option-cases (get name m.active)) [
      | inl missing ↦ rw (live, missing) kept
      | inr (a, known) ↦ rw (live, known) closed
    ]
  ]
