-- ===== src/Frp/Webhook/Tracking.antt =====
-- The connection table and its counter in pkg/adapter/frp/webhook.go, over any sequence of
-- requests.
use Prim.Native.Nat.add
use native.Mathlib.Nat.{add-zero}
use cloudtap.Prelude.{
  ℕ, suc, ◌+◌, ◌%◌, ◌≡◌, Bool, false, ◌&&◌, Option, none, some, List, [], ◌∷◌, arith, if◌then◌else◌,
  is_some, length, Bool-cases, Option-cases, inl, inr,
}
use cloudtap.Text.{Str, ◌==◌, eq_iff, Distinct}
use cloudtap.Time.{Instant}
use cloudtap.GoMap.{get, keys}
use cloudtap.GoMap.Laws.{put-Distinct, delete-Distinct, length-put, length-delete}
use cloudtap.Adapter.{ConnectionHandler}
use cloudtap.Frp.Content.{
  Library, PluginRequest, NewProxyContent, CloseProxyContent, op_new_proxy, connection_key,
}
use cloudtap.Frp.Webhook.Events.{Fresh, new_proxy_event}
use cloudtap.Frp.Webhook.Cases.{other_cases}
use cloudtap.Frp.Webhook.Gate.{process-new_proxy}
use cloudtap.Frp.Webhook.{
  WebhookServer, int32_mod, tracked_state, track, untrack, handle_new_proxy, handle_close_proxy,
  process_request,
}

-- The keys are distinct, and the counter is their number and `extra` more, modulo 2^32.
pub record Counts (extra : ℕ) (s : WebhookServer) : Type 0 where
  pub distinct : Distinct (keys s.active_connections)
  pub counted : s.connection_count ≡ (length s.active_connections + extra) % int32_mod

module _ (now : Instant) (p : NewProxyContent) (s : WebhookServer) where
  abbrev key : Str
  key = connection_key p.user.run_id p.proxy_name

  track-Counts :
      (extra : ℕ)
      → Counts extra s
      → Counts (if is_some (get key s.active_connections) then suc extra else extra) (track now p s)
  unfolding track
  track-Counts extra c = record {
    distinct = put-Distinct key (tracked_state now p) s.active_connections c.distinct;
    counted = ground (arith, length-put key (tracked_state now p) s.active_connections, c.counted);
  }

untrack-Counts :
    (key : Str) (extra : ℕ) (s : WebhookServer) → Counts extra s → Counts extra (untrack key s)
unfolding untrack
untrack-Counts key extra s c = elim (Option-cases (get key s.active_connections)) [
  | inl none_there ↦ rw none_there c
  | inr (a, there) ↦ rw there (record {
    distinct = delete-Distinct key s.active_connections c.distinct;
    counted = ground (arith, length-delete key s.active_connections, c.counted, c.distinct);
  })
]

module _ (lib : Library) (fresh : Fresh) where
  -- An accepted NewProxy whose key is tracked already.
  again : WebhookServer → Option NewProxyContent → Option ConnectionHandler → Bool
  again s none handler = false
  again s (some p) none = false
  again s (some p) (some handler) =
      (handler (new_proxy_event fresh p)).allowed
      && is_some (get (connection_key p.user.run_id p.proxy_name) s.active_connections)

  pub registers_again : WebhookServer → PluginRequest → Bool
  unfolding again
  registers_again s req =
      req.op == op_new_proxy && again s (lib.decode_new_proxy req.content) s.handler

  new_proxy-Counts :
      (extra : ℕ) (s : WebhookServer) (c : Option NewProxyContent) (h : Option ConnectionHandler)
      → Counts extra s
      → Counts (if again s c h then suc extra else extra) (handle_new_proxy lib fresh s c h).server
  unfolding again handle_new_proxy
  new_proxy-Counts extra s none h v = v
  new_proxy-Counts extra s (some p) none v = v
  new_proxy-Counts extra s (some p) (some h) v =
      elim (Bool-cases (h (new_proxy_event fresh p)).allowed) [
        | inl yes' ↦ rw yes' (track-Counts fresh.tracked p s extra v)
        | inr no' ↦ rw no' v
      ]

  close_proxy-Counts :
      (extra : ℕ) (s : WebhookServer) (c : Option CloseProxyContent) (h : Option ConnectionHandler)
      → Counts extra s
      → Counts extra (handle_close_proxy lib fresh s c h).server
  unfolding handle_close_proxy
  close_proxy-Counts extra s none h v = v
  close_proxy-Counts extra s (some c) none v =
      untrack-Counts (connection_key c.user.run_id c.proxy_name) extra s v
  close_proxy-Counts extra s (some c) (some h) v =
      untrack-Counts (connection_key c.user.run_id c.proxy_name) extra s v

  process_request-Counts :
      (extra : ℕ) (s : WebhookServer) (req : PluginRequest)
      → Counts extra s
      → Counts
          (if registers_again s req then suc extra else extra)
          (process_request lib fresh s req).server
  unfolding registers_again
  process_request-Counts extra s req v = elim (Bool-cases (req.op == op_new_proxy)) [
    | inl e ↦
        rw (e, process-new_proxy lib fresh s req ((eq_iff req.op op_new_proxy).0 e))
          (new_proxy-Counts extra s (lib.decode_new_proxy req.content) s.handler v)
    | inr n ↦ rw n (
        other_cases lib fresh s (Counts extra) req n v
          (close_proxy-Counts extra s (lib.decode_close_proxy req.content) s.handler v))
  ]

-- What happens to a server: a request, or SetHandler.
pub data Call : Type 0 where
  requested : Fresh → PluginRequest → Call
  set_handler : Option ConnectionHandler → Call

module _ (lib : Library) where
  unfoldable pub serve : WebhookServer → List Call → WebhookServer
  serve s [] = s
  serve s (requested fresh req ∷ calls) = serve (process_request lib fresh s req).server calls
  serve s (set_handler h ∷ calls) = serve (record s { handler = h }) calls

  -- how often the calls register a key that is tracked already
  unfoldable pub re_registrations : WebhookServer → List Call → ℕ
  re_registrations s [] = 0
  re_registrations s (requested fresh req ∷ calls) =
      let rest = re_registrations (process_request lib fresh s req).server calls in
      if registers_again lib fresh s req then suc rest else rest
  re_registrations s (set_handler h ∷ calls) = re_registrations (record s { handler = h }) calls

  serve-Counts :
      (extra : ℕ) (s : WebhookServer) (calls : List Call)
      → Counts extra s
      → Counts (extra + re_registrations s calls) (serve s calls)
  unfolding serve re_registrations
  serve-Counts extra s [] v = rw add-zero v
  serve-Counts extra s (requested fresh req ∷ calls) v =
      let after = (process_request lib fresh s req).server in
      let step = process_request-Counts lib fresh extra s req v in
      elim (Bool-cases (registers_again lib fresh s req)) [
        | inl e ↦
            let shift : extra + suc (re_registrations after calls)
                ≡ suc extra + re_registrations after calls =
              omega arith in
            rw (e, shift) (serve-Counts (suc extra) after calls (rw e at step))
        | inr e ↦ rw e (serve-Counts extra after calls (rw e at step))
      ]
  serve-Counts extra s (set_handler h ∷ calls) v =
      serve-Counts extra (record s { handler = h }) calls
        (record { distinct = v.distinct; counted = v.counted })

  -- From a server that tracks nothing and has counted nothing, and over any calls: the tracked keys are distinct, and the
  -- connection count is the number of tracked connections plus the number of accepted NewProxy
  -- requests whose key was tracked already, modulo 2^32. So it is exact just while none was.
  pub serve-counted :
      (s : WebhookServer) (calls : List Call)
      → s.active_connections ≡ []
      → s.connection_count ≡ 0
      → Distinct (keys (serve s calls).active_connections)
        × ((serve s calls).connection_count
            ≡ (length (serve s calls).active_connections + re_registrations s calls) % int32_mod)
  serve-counted s calls no_keys no_count =
      let done =
        serve-Counts 0 s calls
          (record { distinct = rw no_keys tt; counted = rw (no_keys, no_count) }) in
      (done.distinct, rw add.zero at done.counted)
