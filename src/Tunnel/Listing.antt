-- ===== src/Tunnel/Listing.antt =====
-- ListTargets of pkg/tunnel/manager.go: what the sorted listing holds.
use cloudtap.Prelude.{◌≡◌, ◌∙◌, Option, List, [], ◌∷◌, is_some, arith}
use cloudtap.Text.{Str, mem, Distinct}
use cloudtap.Text.Order.{Ascending, sort_strings, mem-sort_strings, sort_strings-Ascending}
use cloudtap.GoMap.{GoMap, get, put, keys}
use cloudtap.GoMap.Laws.{mem-keys, put-Distinct}
use cloudtap.Tunnel.Cases.{ensure_cases}
use cloudtap.Tunnel.{
  Target, Manager, Context, Instants, Error, ok, index, listing, ensure_targets, list_targets,
}

pub index-Distinct :
    (ts : List Target) (m : GoMap Target) → Distinct (keys m) → Distinct (keys (index ts m))
unfolding index
index-Distinct [] m h = h
index-Distinct (t ∷ ts) m h = index-Distinct ts (put t.name t m) (put-Distinct t.name t m h)

pub ensure_targets-Distinct :
    (ctx : Context) (at : Instants) (m : Manager)
    → Distinct (keys m.targets)
    → Distinct (keys (ensure_targets ctx at m).1.targets)
ensure_targets-Distinct ctx at m h =
    ensure_cases (λ m. Distinct (keys m.targets)) m h ctx at (λ ts. index-Distinct ts [] tt)

-- When ListTargets succeeds on a cache with distinct keys, its result is strictly increasing, and
-- a name is in it exactly when the cache, as ListTargets leaves it, has a target of that name.
pub list_targets_lem :
    (ctx : Context) (at : Instants) (m : Manager) (names : List Str)
    → Distinct (keys m.targets)
    → (list_targets ctx at m).0 ≡ ok names
    → Ascending names
      × ((k : Str) → mem k names ≡ is_some (get k (list_targets ctx at m).1.targets))
unfolding list_targets
list_targets_lem ctx at m names d h =
    let ready = (ensure_targets ctx at m).1 in
    let sorted : names ≡ sort_strings (keys ready.targets) = listed (ensure_targets ctx at m).0 h in
    rw sorted (
      sort_strings-Ascending (keys ready.targets) (ensure_targets-Distinct ctx at m d),
      λ k. mem-sort_strings k (keys ready.targets) ∙ mem-keys k ready.targets,
    )
  where
    listed :
        (e : Option Error)
        → listing e (ensure_targets ctx at m).1 ≡ ok names
        → names ≡ sort_strings (keys (ensure_targets ctx at m).1.targets)
    listed e h = ground arith
