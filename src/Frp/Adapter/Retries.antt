-- ===== src/Frp/Adapter/Retries.antt =====
-- When runLoop of pkg/adapter/frp/adapter.go gives up.
use native.Mathlib.Decide.{dec_lt}
use cloudtap.Prelude.{
  ℕ, zero, suc, ◌+◌, ◌≤◌, ◌<◌, ◌≡◌, ◌≢◌, refl, ap, ◌∙◌, true, false, List, [], ◌∷◌, arith, All,
  length,
}
use cloudtap.Prelude.Int.{pos}
use cloudtap.Time.{Duration}
use cloudtap.Frp.Adapter.{Config, Adapter}
use cloudtap.Frp.Adapter.Loop.{
  Round, LoopState, Ending, ended, going, finished, backoff, exceeded, round, loop, reset, run_loop,
}
use cloudtap.Frp.Adapter.Rounds.{counts, sees_cancel, round_below, round_at_limit, failed_once}

-- A failed round on a live context.
abbrev pub Fails : Round → Type 0
Fails r = (counts r ≡ true) × (sees_cancel r ≡ false)

pub exceeded_iff :
    (c : Config) (n f : ℕ)
    → c.max_retries ≡ pos (suc n)
    → ((f ≤ n → exceeded c f ≡ false) × (n < f → exceeded c f ≡ true))
      × (exceeded c f ≡ true → n < f)
      × (exceeded c f ≡ false → f ≤ n)
unfolding exceeded
exceeded_iff c n f h =
    ((λ k. ground arith, λ k. ground arith), λ k. ground arith, λ k. ground arith)

pub loop-going :
    (r : Round) (rs : List Round) (l : LoopState) (a : Adapter) {l' : LoopState} {a' : Adapter}
    → round r l a ≡ going l' a'
    → loop (r ∷ rs) l a ≡ loop rs l' a'
unfolding loop
loop-going r rs l a h = rw (h, loop)

pub loop-finished :
    (r : Round) (rs : List Round) (l : LoopState) (a : Adapter) {a' : Adapter} {e : Ending}
    → round r l a ≡ finished e a'
    → loop (r ∷ rs) l a ≡ finished e a'
unfolding loop
loop-finished r rs l a h = rw (h, loop)

-- The delay after `k` more failures.
unfoldable pub delay_after : Config → ℕ → Duration → Duration
delay_after c zero d = d
delay_after c (suc k) d = delay_after c k (backoff c d)

module _ (n : ℕ) where
  -- The loop goes on with each failure counted and the delay backed off.
  record Counted (rs : List Round) (l : LoopState) (a : Adapter) : Type 0 where
    state : LoopState
    adapter : Adapter
    runs : loop rs l a ≡ going state adapter
    config_kept : adapter.config ≡ a.config
    counted : state.consecutive_failures ≡ l.consecutive_failures + length rs
    delayed : state.delay ≡ delay_after a.config (length rs) l.delay

  loop_below :
      (rs : List Round) (l : LoopState) (a : Adapter)
      → a.config.max_retries ≡ pos (suc n)
      → All Fails rs
      → l.consecutive_failures + length rs ≤ n
      → Counted rs l a
  unfolding loop delay_after
  loop_below [] l a m f h = record {
    state = l;
    adapter = a;
    runs = refl;
    config_kept = refl;
    counted = omega arith;
    delayed = refl;
  }
  loop_below (r ∷ rs) l a m (f, fs) h =
      let step =
        round_below r l a f.0 f.1
          ((exceeded_iff a.config n (suc l.consecutive_failures) m).0.0 (omega arith)) in
      let rest =
        loop_below rs (failed_once a.config l) step.0 (ap (λ c. c.max_retries) step.2 ∙ m) fs
          (omega arith) in
      record {
        state = rest.state;
        adapter = rest.adapter;
        runs = loop-going r rs l a step.1 ∙ rest.runs;
        config_kept = rest.config_kept ∙ step.2;
        counted = omega (arith, rest.counted);
        delayed =
            rest.delayed ∙ ap (λ c. delay_after c (length rs) (backoff a.config l.delay)) step.2;
      }

  loop_at_limit :
      (rs : List Round) (l : LoopState) (a : Adapter)
      → a.config.max_retries ≡ pos (suc n)
      → All Fails rs
      → l.consecutive_failures + length rs ≡ suc n
      → l.consecutive_failures ≤ n
      → (e : Ending) × (a' : Adapter) × (loop rs l a ≡ finished e a') × (e ≢ ended)
  loop_at_limit [] l a m f h k = absurd (omega arith)
  loop_at_limit (r ∷ rs) l a m (f, fs) h k = elim (dec_lt (suc l.consecutive_failures) (suc n)) [
    | yes below ↦
        let step =
          round_below r l a f.0 f.1
            ((exceeded_iff a.config n (suc l.consecutive_failures) m).0.0 (omega arith)) in
        let rest =
          loop_at_limit rs (failed_once a.config l) step.0 (ap (λ c. c.max_retries) step.2 ∙ m) fs
            (omega arith) (omega arith) in
        (rest.0, rest.1, loop-going r rs l a step.1 ∙ rest.2, rest.3)
    | no at ↦
        let step =
          round_at_limit r l a f.0
            ((exceeded_iff a.config n (suc l.consecutive_failures) m).0.1 (omega arith)) in
        (step.0, step.1, loop-finished r rs l a step.2, step.3)
  ]

module _ (n : ℕ) (a : Adapter) (limit : a.config.max_retries ≡ pos (suc n)) where
  -- With a limit of n + 1 retries, runLoop goes on after up to n rounds that all fail: it has counted
  -- each, and its delay has been backed off once for each.
  pub run_loop_below :
      (rs : List Round)
      → All Fails rs
      → length rs ≤ n
      → (l : LoopState) × (a' : Adapter) × (run_loop rs a ≡ going l a')
        × (l.consecutive_failures ≡ length rs)
        × (l.delay ≡ delay_after a.config (length rs) a.config.restart_delay)
  unfolding run_loop
  run_loop_below rs f h =
      let c = loop_below n rs (reset a) a limit f (omega arith) in
      (c.state, c.adapter, c.runs, omega (arith, c.counted), c.delayed)

  -- With a limit of n + 1 retries, runLoop returns one of its two errors after n + 1 rounds that all
  -- fail.
  pub run_loop_gives_up :
      (rs : List Round)
      → All Fails rs
      → length rs ≡ suc n
      → (e : Ending) × (a' : Adapter) × (run_loop rs a ≡ finished e a') × (e ≢ ended)
  unfolding run_loop
  run_loop_gives_up rs f h = loop_at_limit n rs (reset a) a limit f (omega arith) (omega arith)
