-- ===== src/Frp/Adapter/Lifecycle/Returning.antt =====
-- Whether Start of pkg/adapter/frp/adapter.go returns what its process loop returned.
use cloudtap.Prelude.{
  ℕ, zero, suc, ◌≡◌, ◌≢◌, refl, ap, ◌∙◌, ◌⊎◌, ◌↔◌, true, false, none, arith, All, length,
}
use cloudtap.Prelude.Int.{ℤ, pos, negsuc, ltb_ℤ}
use cloudtap.Frp.Webhook.Serving.{begin_serving, or_duration}
use cloudtap.Frp.Adapter.{Config, Adapter, new_adapter, validate_config}
use cloudtap.Frp.Adapter.Loop.{Ending, ended, finished, run_loop}
use cloudtap.Frp.Adapter.Retries.{Fails, run_loop_gives_up}
use cloudtap.Frp.Adapter.Lifecycle.{
  Surroundings, returned, blocked, start_checks, start_context, with_webhook, start,
}

limit_pos :
    (z : ℤ)
    → ltb_ℤ (or_duration z (pos 10)) (pos 0) ≡ false
    → (n : ℕ) × (or_duration z (pos 10) ≡ pos (suc n))
limit_pos (pos zero) h = (9, refl)
limit_pos (pos (suc n)) h = (n, refl)
limit_pos (negsuc n) h = absurd (ground arith)

-- A configuration that New has completed and Start accepts has a positive limit of retries: there
-- is no way to retry without limit.
pub new_adapter-limit :
    (c : Config)
    → validate_config (new_adapter c).config ≡ none
    → (n : ℕ) × ((new_adapter c).config.max_retries ≡ pos (suc n))
unfolding new_adapter validate_config
new_adapter-limit c h = limit_pos c.max_retries (ground arith)

module _ (w : Surroundings) (a : Adapter) (ok : (start_checks a).0 ≡ none) where
  -- the adapter with which the loop begins
  abbrev ready : Adapter
  ready = (with_webhook w (start_context w.now (start_checks a).1)).1

  -- Once the loop has finished, a Start that passed its checks returns the loop's result exactly if
  -- the webhook server failed to start or the context ends; otherwise it waits for the webhook server
  -- and does not return.
  start_finished :
      (e : Ending) (a' : Adapter)
      → run_loop w.rounds ready ≡ finished e a'
      → (((start w a).0 ≡ returned e)
          ↔ (((begin_serving w.listened a.webhook).0 ≢ none) ⊎ (w.context_ends ≡ true)))
        × (((start w a).0 ≡ blocked e)
            ↔ (((begin_serving w.listened a.webhook).0 ≡ none) × (w.context_ends ≡ false)))
  unfolding start start_checks start_context with_webhook
  start_finished e a' h =
      ((λ r. ground arith, λ r. ground arith), (λ r. ground arith, λ r. ground arith))

  ready-config : ready.config ≡ a.config
  unfolding start_checks start_context with_webhook
  ready-config = ground arith

  -- The error for too many retries is not returned while the webhook server runs: with a limit of
  -- n + 1 retries, n + 1 rounds that all fail, a webhook server that has started and a context that
  -- does not end, the loop of a Start that passed its checks has given up with an error, and Start
  -- waits without end.
  pub start_gives_up_blocked :
      (n : ℕ)
      → a.config.max_retries ≡ pos (suc n)
      → All Fails w.rounds
      → length w.rounds ≡ suc n
      → (begin_serving w.listened a.webhook).0 ≡ none
      → w.context_ends ≡ false
      → (e : Ending) × (e ≢ ended) × ((start w a).0 ≡ blocked e)
  start_gives_up_blocked n limit fails long serving live =
      let g =
        run_loop_gives_up n ready (ap (λ c. c.max_retries) ready-config ∙ limit) w.rounds fails
          long in
      (g.0, g.3, (start_finished g.0 g.1 g.2).1.1 (serving, live))
