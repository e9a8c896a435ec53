-- ===== src/Tunnel/Calls.antt =====
-- Any calls of the methods of pkg/tunnel/manager.go, one after another, against Spec.
use cloudtap.Prelude.{◌≡◌, refl, Option, none, inl, inr, List, [], ◌∷◌, Option-cases}
use cloudtap.Text.{Str, Distinct}
use cloudtap.Time.{Instant}
use cloudtap.GoMap.{keys}
use cloudtap.GoMap.Laws.{put-Distinct}
use cloudtap.Tunnel.Cases.{connect_cases, close_cases}
use cloudtap.Tunnel.Interleaving.{apply_options-Configured}
use cloudtap.Tunnel.Listing.{index-Distinct, ensure_targets-Distinct}
use cloudtap.Tunnel.Spec.{View, view, Opens, Closes, Lists, Registers}
use cloudtap.Tunnel.{
  Target, Manager, ManagerOption, apply_options, initial, new_manager, Context, Instants, Error,
  Result, register_target, ensure_targets, open_tunnel, close_tunnel, list_targets,
}
use cloudtap.Tunnel.Refinement.{open-Opens, close-Closes, list-Lists, register-Registers}

-- A call of a method, by whichever caller.
pub data Call : Type 0 where
  opens : Context → Instants → Str → Call
  closes : Context → Instant → Str → Call
  registers : Target → Call
  lists : Context → Instants → Call

-- What the caller sees of it.
pub data Seen : Type 0 where
  finished : Option Error → Seen
  listed : Result (List Str) → Seen

finish : Option Error × Manager → Seen × Manager
finish (e, m) = (finished e, m)

list_out : Result (List Str) × Manager → Seen × Manager
list_out (r, m) = (listed r, m)

unfoldable pub perform : Call → Manager → Seen × Manager
unfolding finish list_out
perform (opens ctx at name) m = finish (open_tunnel ctx at name m)
perform (closes ctx now name) m = finish (close_tunnel ctx now name m)
perform (registers t) m = (finished none, register_target t m)
perform (lists ctx at) m = list_out (list_targets ctx at m)

unfoldable pub perform_all : List Call → Manager → List Seen × Manager
perform_all [] m = ([], m)
perform_all (c ∷ cs) m = let (s, u) = perform c m in let (ss, w) = perform_all cs u in (s ∷ ss, w)

-- What Spec promises of one call.
pub data Promises (v : View) (w : View) : Call → Seen → Type 0 where
  opens_as :
      (ctx : Context) (at : Instants) (name : Str) (e : Option Error)
      → Opens ctx at name v e w
      → Promises v w (opens ctx at name) (finished e)
  closes_as :
      (ctx : Context) (now : Instant) (name : Str) (e : Option Error)
      → Closes ctx now name v e w
      → Promises v w (closes ctx now name) (finished e)
  registers_as : (t : Target) → Registers t v w → Promises v w (registers t) (finished none)
  lists_as :
      (ctx : Context) (at : Instants) (r : Result (List Str))
      → Lists ctx at v r w
      → Promises v w (lists ctx at) (listed r)

-- What Spec promises of a sequence of calls, from one view to another.
pub data Keeps (w : View) : View → List Call → List Seen → Type 0 where
  nothing : {v : View} → v ≡ w → Keeps w v [] []
  one_more :
      {v : View} (u : View) {c : Call} {cs : List Call} {s : Seen} {ss : List Seen}
      → Promises v u c s
      → Keeps w u cs ss
      → Keeps w v (c ∷ cs) (s ∷ ss)

perform-Promises :
    (c : Call) (m : Manager)
    → Distinct (keys m.targets)
    → Promises (view m) (view (perform c m).1) c (perform c m).0
unfolding perform
perform-Promises (opens ctx at name) m d = opens_as ctx at name _ (open-Opens ctx at m name)
perform-Promises (closes ctx now name) m d = closes_as ctx now name _ (close-Closes ctx now name m)
perform-Promises (registers t) m d = registers_as t (register-Registers t m)
perform-Promises (lists ctx at) m d = lists_as ctx at _ (list-Lists ctx at m d)

perform-Distinct :
    (c : Call) (m : Manager) → Distinct (keys m.targets) → Distinct (keys (perform c m).1.targets)
unfolding perform open_tunnel list_targets register_target
perform-Distinct (opens ctx at name) m d =
    let kept = ensure_targets-Distinct ctx at m d in
    elim (Option-cases (ensure_targets ctx at m).0) [
      | inr (e, failed) ↦ rw failed kept
      | inl ensured ↦ rw ensured (
          connect_cases (λ m. Distinct (keys m.targets)) (ensure_targets ctx at m).1 kept ctx at
            name (λ info known reached. kept))
    ]
perform-Distinct (closes ctx now name) m d =
    close_cases (λ m. Distinct (keys m.targets)) m d ctx now name d
perform-Distinct (registers t) m d = put-Distinct t.name t m.targets d
perform-Distinct (lists ctx at) m d = ensure_targets-Distinct ctx at m d

perform_all_from :
    (calls : List Call) (m : Manager)
    → Distinct (keys m.targets)
    → Keeps (view (perform_all calls m).1) (view m) calls (perform_all calls m).0
unfolding perform_all
perform_all_from [] m d = nothing refl
perform_all_from (c ∷ cs) m d =
    one_more (view (perform c m).1) (perform-Promises c m d)
      (perform_all_from cs (perform c m).1 (perform-Distinct c m d))

new_manager-Distinct :
    (seed : List Target) (opts : List ManagerOption)
    → Distinct (keys (new_manager seed opts).targets)
unfolding new_manager
new_manager-Distinct seed opts =
    let m = apply_options opts (initial seed) in
    index-Distinct seed m.targets
      (rw (apply_options-Configured opts (initial seed)).targets_kept tt)

-- Whatever calls are made of a manager that NewManager made: the results that the callers see, and the
-- lookups that the manager is left with, are those that Spec promises, call by call, from the known
-- targets and the open tunnels as partial functions of the names.
pub perform_all-Keeps :
    (seed : List Target) (opts : List ManagerOption) (calls : List Call)
    → Keeps
        (view (perform_all calls (new_manager seed opts)).1)
        (view (new_manager seed opts))
        calls
        (perform_all calls (new_manager seed opts)).0
perform_all-Keeps seed opts calls =
    perform_all_from calls (new_manager seed opts) (new_manager-Distinct seed opts)
