-- ===== src/Frp/Webhook/Closing.antt =====
-- A NewProxy and its CloseProxy in pkg/adapter/frp/webhook.go, one after the other.
use cloudtap.Prelude.{◌≡◌, ◌∙◌, none, some, arith, ◌<◌}
use cloudtap.Text.{Str, eq_iff, eq_refl}
use cloudtap.Time.{Instant}
use cloudtap.GoMap.{get, put}
use cloudtap.GoMap.Laws.{get-put, get-delete}
use cloudtap.Frp.Content.{NewProxyContent, connection_key}
use cloudtap.Frp.Webhook.{WebhookServer, int32_mod, increment, tracked_state, track, untrack}

module _ (s : WebhookServer) (p : NewProxyContent) where
  abbrev own_key : Str
  own_key = connection_key p.user.run_id p.proxy_name

  -- A NewProxy that is accepted and then closed leaves no trace: if its key was not tracked, and
  -- the count is the 32 bits that it is, the lookups of all keys and the count are those from before.
  untrack-track :
      (now : Instant)
      → s.connection_count < int32_mod
      → get own_key s.active_connections ≡ none
      → ((k : Str)
          → get k (untrack own_key (track now p s)).active_connections ≡ get k s.active_connections)
        × ((untrack own_key (track now p s)).connection_count ≡ s.connection_count)
  unfolding untrack track
  untrack-track now small absent =
      let st = tracked_state now p in
      let m = s.active_connections in
      let there : get own_key (put own_key st m) ≡ some st =
        get-put own_key own_key st m ∙ rw (eq_refl own_key) in
      (
        λ k. ground (
          arith,
          there,
          get-delete k own_key (put own_key st m),
          get-put k own_key st m,
          eq_iff own_key k,
          absent,
        ),
        ground (arith, there),
      )

  -- A proxy registered twice is counted twice but tracked once: if its key was not tracked, then
  -- after two accepted registrations and the close the lookups of all keys are those from before,
  -- but the count is one more than before.
  pub untrack-track_twice :
      (now later : Instant)
      → get own_key s.active_connections ≡ none
      → ((k : Str)
          → get k (untrack own_key (track later p (track now p s))).active_connections
            ≡ get k s.active_connections)
        × ((untrack own_key (track later p (track now p s))).connection_count
            ≡ increment s.connection_count)
  unfolding untrack track
  untrack-track_twice now later absent =
      let st = tracked_state now p in
      let st' = tracked_state later p in
      let m = put own_key st s.active_connections in
      let there : get own_key (put own_key st' m) ≡ some st' =
        get-put own_key own_key st' m ∙ rw (eq_refl own_key) in
      (
        λ k. ground (
          arith,
          there,
          get-delete k own_key (put own_key st' m),
          get-put k own_key st' m,
          get-put k own_key st s.active_connections,
          eq_iff own_key k,
          absent,
        ),
        ground (arith, there),
      )
