-- ===== src/Frp/Adapter/Rounds.antt =====
-- What one round of runLoop of pkg/adapter/frp/adapter.go can do.
use cloudtap.Prelude.{
  ℕ, suc, ◌≡◌, ◌≢◌, refl, ap, ◌∙◌, inl, inr, ◌⊎◌, Bool, true, false, ◌&&◌, ◌||◌, not, Option, none,
  some, arith,
}
use cloudtap.Prelude.Int.{ltb_ℤ}
use cloudtap.Text.{Str}
use cloudtap.Time.{Duration}
use cloudtap.Frp.Adapter.{Config, Adapter, set_last_error, stop_process}
use cloudtap.Frp.Adapter.Loop.{
  Exit, exited, interrupted, Round, LoopState, Ending, ended, Progress, going, finished,
  stable_run_threshold, backoff, exceeded, round,
}

fails : Option Str → Exit → Duration → Bool
fails (some e) exit d = true
fails none (exited (some e) false) d = ltb_ℤ d stable_run_threshold
fails none _ d = false

-- The process did not start, or it failed before it had run for 30 seconds, and the context was
-- live.
unfoldable pub counts : Round → Bool
unfolding fails
counts r = not r.cancelled && fails r.start_error r.exit r.run_duration

abbrev exit_cancelled : Option Str → Exit → Bool
exit_cancelled none interrupted = true
exit_cancelled none (exited e done) = done
exit_cancelled (some e) exit = false

-- The loop saw the end of its context somewhere in the round.
unfoldable pub sees_cancel : Round → Bool
sees_cancel r = r.cancelled || exit_cancelled r.start_error r.exit || r.cancelled_waiting

pub Progress-cases :
    (p : Progress)
    → ((l : LoopState) × (a : Adapter) × (p ≡ going l a))
      ⊎ ((e : Ending) × (a : Adapter) × (p ≡ finished e a))
Progress-cases (going l a) = inl (l, a, refl)
Progress-cases (finished e a) = inr (e, a, refl)

-- The loop's variables after one more failure.
abbrev pub failed_once : Config → LoopState → LoopState
failed_once c l = record {
  delay = backoff c l.delay;
  consecutive_failures = suc l.consecutive_failures;
}

exceeded_mono : (c : Config) (n : ℕ) → exceeded c (suc n) ≡ false → exceeded c 0 ≡ false
unfolding exceeded
exceeded_mono c n h = ground arith

module _ (r : Round) (l : LoopState) (a : Adapter) where
  -- A round after which the loop goes on.
  pub record Went (l' : LoopState) (a' : Adapter) : Type 0 where
    pub config_kept : a'.config ≡ a.config
    pub live : sees_cancel r ≡ false
    pub below : exceeded a.config l'.consecutive_failures ≡ false
    pub outcome :
        ((counts r ≡ true)
          × (l'.consecutive_failures ≡ suc l.consecutive_failures)
          × (l'.delay ≡ backoff a.config l.delay))
        ⊎ ((counts r ≡ false) × (l'.consecutive_failures ≡ 0) × (l'.delay ≡ a.config.restart_delay))

  pub round-Went : (l' : LoopState) (a' : Adapter) → round r l a ≡ going l' a' → Went l' a'
  unfolding round counts sees_cancel set_last_error
  round-Went l' a' h = ground arith

  -- A round in which the loop returns.
  pub round_finished :
      (e : Ending) (a' : Adapter)
      → round r l a ≡ finished e a'
      → (a'.config ≡ a.config)
        × (((e ≡ ended)
              × (sees_cancel r ≡ true)
              × (counts r ≡ true → exceeded a.config (suc l.consecutive_failures) ≡ false))
            ⊎ ((e ≢ ended)
                × (counts r ≡ true)
                × (exceeded a.config (suc l.consecutive_failures) ≡ true))
            ⊎ ((e ≢ ended) × (exceeded a.config 0 ≡ true)))
  unfolding round counts sees_cancel set_last_error stop_process
  round_finished e a' h = ground arith

  -- One more failure, still below the limit: the loop goes on.
  pub round_below :
      counts r ≡ true
      → sees_cancel r ≡ false
      → exceeded a.config (suc l.consecutive_failures) ≡ false
      → (a' : Adapter) × (round r l a ≡ going (failed_once a.config l) a') × (a'.config ≡ a.config)
  round_below c s b = elim (Progress-cases (round r l a)) [
    | inl (l', a', h) ↦
        let w = round-Went l' a' h in
        let same : l' ≡ failed_once a.config l = ground (arith, w.outcome) in
        (a', h ∙ ap (λ k. going k a') same, w.config_kept)
    | inr (e, a', h) ↦
        absurd
          (ground (arith, round_finished e a' h, exceeded_mono a.config l.consecutive_failures))
  ]

  -- One more failure, at the limit: the loop returns an error.
  pub round_at_limit :
      counts r ≡ true
      → exceeded a.config (suc l.consecutive_failures) ≡ true
      → (e : Ending) × (a' : Adapter) × (round r l a ≡ finished e a') × (e ≢ ended)
  round_at_limit c b = elim (Progress-cases (round r l a)) [
    | inl (l', a', h) ↦ let w = round-Went l' a' h in absurd (ground (arith, w.outcome, w.below))
    | inr (e, a', h) ↦ (e, a', h, ground (arith, round_finished e a' h))
  ]
