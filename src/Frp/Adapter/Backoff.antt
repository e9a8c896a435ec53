-- ===== src/Frp/Adapter/Backoff.antt =====
-- The delays of runLoop in pkg/adapter/frp/adapter.go.
use native.Mathlib.Decide.{dec_le}
use native.Mathlib.Nat.{pow-suc}
use cloudtap.Prelude.{
  ℕ, zero, suc, min, max, ◌-◌, ◌*◌, ◌^◌, ◌≤◌, ◌<◌, ◌≡◌, ap, sym, subst, ◌∙◌, inl, inr, List, [],
  ◌∷◌, arith, All, length,
}
use cloudtap.Prelude.Int.{pos}
use cloudtap.Frp.Adapter.{Config, Adapter}
use cloudtap.Frp.Adapter.Loop.{Round, LoopState, going, backoff, reset, round, loop, run_loop}
use cloudtap.Frp.Adapter.Rounds.{round-Went, Progress-cases}
use cloudtap.Frp.Adapter.Retries.{Fails, delay_after, run_loop_below, loop-going, loop-finished}

-- Half of the range of a Duration, some 146 years: doubling a delay below it does not wrap.
abbrev pub safe : ℕ
safe = 4611686018427387904

backoff_pos :
    (c : Config) (m d : ℕ)
    → c.max_restart_delay ≡ pos m
    → d < safe
    → backoff c (pos d) ≡ pos (min (2 * d) m)
unfolding backoff
backoff_pos c m d h s = ground arith

pow_pos : (k : ℕ) → 1 ≤ 2 ^ k
pow_pos zero = omega arith
pow_pos (suc k) = rw (pow-suc 2 k) (omega (arith, pow_pos k))

min_scale : (d m q : ℕ) → min (min (2 * d) m * suc q) m ≡ min (d * (suc q * 2)) m
min_scale d m q = elim (dec_le (2 * d) m) [
  | yes p ↦ let e : min (2 * d) m ≡ 2 * d = omega arith in rw e (omega arith)
  | no p ↦ grind arith
]

-- After k failures in a row the delay is the restart delay times 2^k, cut off at the maximum, if the
-- restart delay is at most the maximum and the maximum is below 2^62 ns.
delay_after_lem :
    (c : Config) (m k d : ℕ)
    → c.max_restart_delay ≡ pos m
    → m < safe
    → d ≤ m
    → delay_after c k (pos d) ≡ pos (min (d * 2 ^ k) m)
unfolding delay_after
delay_after_lem c m zero d h s b = ap pos (omega arith)
delay_after_lem c m (suc k) d h s b =
    let q : 2 ^ k ≡ suc (2 ^ k - 1) = omega (arith, pow_pos k) in
    let scaled : min (min (2 * d) m * 2 ^ k) m ≡ min (d * 2 ^ suc k) m =
      rw (pow-suc 2 k, q) (min_scale d m (2 ^ k - 1)) in
    ap (delay_after c k) (backoff_pos c m d h (omega arith))
    ∙ delay_after_lem c m k (min (2 * d) m) h s (omega arith)
    ∙ ap pos scaled

-- Between rounds the delay is a number from 0 to the larger of the restart delay and its maximum.
record Bounded (x m : ℕ) (l : LoopState) : Type 0 where
  size : ℕ
  is_size : l.delay ≡ pos size
  le_max : size ≤ max x m

loop-Bounded :
    (x m : ℕ) (rs : List Round) (l : LoopState) (a : Adapter) {l' : LoopState} {a' : Adapter}
    → a.config.restart_delay ≡ pos x
    → a.config.max_restart_delay ≡ pos m
    → x < safe
    → m < safe
    → Bounded x m l
    → loop rs l a ≡ going l' a'
    → Bounded x m l'
unfolding loop
loop-Bounded x m [] l a {l'} hx hm sx sm b h = subst (Bounded x m) (cc) b
loop-Bounded x m (r ∷ rs) l a hx hm sx sm b h = elim (Progress-cases (round r l a)) [
  | inr (e, a'', step) ↦ ground (arith, loop-finished r rs l a step)
  | inl (l'', a'', step) ↦
      let w = round-Went r l a l'' a'' step in
      loop-Bounded x m rs l'' a'' (ap (λ c. c.restart_delay) w.config_kept ∙ hx)
        (ap (λ c. c.max_restart_delay) w.config_kept ∙ hm) sx sm
        (elim w.outcome [
          | inl (c, f, d) ↦ record {
            size = min (2 * b.size) m;
            is_size =
                d
                ∙ ap (backoff a.config) b.is_size
                ∙ backoff_pos a.config m b.size hm (omega (arith, b.le_max));
            le_max = omega (arith, b.le_max);
          }
          | inr (c, f, d) ↦ record { size = x; is_size = d ∙ hx; le_max = omega arith }
        ])
        (sym (loop-going r rs l a step) ∙ h)
]

-- Whatever the rounds are: when runLoop goes on, its next delay is a number of nanoseconds between 0
-- and the larger of the restart delay and the maximum delay, if both are below 2^62; it never wraps.
pub run_loop-delay_bounds :
    (x m : ℕ) (rs : List Round) (a : Adapter) (l : LoopState) (a' : Adapter)
    → a.config.restart_delay ≡ pos x
    → a.config.max_restart_delay ≡ pos m
    → x < safe
    → m < safe
    → run_loop rs a ≡ going l a'
    → (d : ℕ) × (l.delay ≡ pos d) × (d ≤ max x m)
unfolding run_loop
run_loop-delay_bounds x m rs a l a' hx hm sx sm h =
    let b =
      loop-Bounded x m rs (reset a) a hx hm sx sm
        (record { size = x; is_size = hx; le_max = omega arith }) h in
    (b.size, b.is_size, b.le_max)

-- With a limit of n + 1 retries, a restart delay x of at most the maximum delay m, and m below 2^62:
-- after k failed rounds in a row, k at most n, runLoop goes on, it has counted k failures, and its
-- next delay is x times 2^k nanoseconds, cut off at m.
pub run_loop_backoff :
    (n x m : ℕ) (rs : List Round) (a : Adapter)
    → a.config.max_retries ≡ pos (suc n)
    → a.config.restart_delay ≡ pos x
    → a.config.max_restart_delay ≡ pos m
    → x ≤ m
    → m < safe
    → All Fails rs
    → length rs ≤ n
    → (l : LoopState) × (a' : Adapter) × (run_loop rs a ≡ going l a')
      × (l.consecutive_failures ≡ length rs)
      × (l.delay ≡ pos (min (x * 2 ^ length rs) m))
run_loop_backoff n x m rs a limit hx hm le small f h =
    let r = run_loop_below n a limit rs f h in
    (
      r.0,
      r.1,
      r.2,
      r.3,
      r.4
          ∙ ap (delay_after a.config (length rs)) hx
          ∙ delay_after_lem a.config m (length rs) x hm small le,
    )
