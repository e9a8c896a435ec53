-- ===== src/Frp/Adapter/Streak.antt =====
-- Why runLoop of pkg/adapter/frp/adapter.go returned.
use cloudtap.Prelude.{
  ℕ, suc, ◌+◌, ◌≤◌, ◌≡◌, ◌≢◌, refl, ap, sym, subst, ◌∙◌, ◌⊎◌, inl, inr, true, false, List, [], ◌∷◌,
  ◌++◌, arith, All, length,
}
use cloudtap.Prelude.Int.{pos}
use cloudtap.Frp.Adapter.{Adapter}
use cloudtap.Frp.Adapter.Loop.{
  Round, LoopState, Ending, ended, finished, round, loop, reset, run_loop,
}
use cloudtap.Frp.Adapter.Rounds.{counts, sees_cancel, round-Went, round_finished, Progress-cases}
use cloudtap.Frp.Adapter.Retries.{exceeded_iff, loop-going, loop-finished}

module _ (n : ℕ) where
  -- Failed rounds in a row that, with those of a streak that began before `rs`, reach the limit.
  record Streak (failures : ℕ) (rs : List Round) : Type 0 where
    before : List Round
    streak : List Round
    after : List Round
    earlier : ℕ
    split : rs ≡ before ++ (streak ++ after)
    all_count : All (λ r. counts r ≡ true) streak
    long : length streak + earlier ≡ suc n
    began : (earlier ≡ 0) ⊎ ((before ≡ []) × (earlier ≡ failures))

  extend :
      (r : Round) (rs : List Round) (f : ℕ)
      → counts r ≡ true
      → Streak (suc f) rs
      → Streak f (r ∷ rs)
  extend r rs f c s = elim s.began [
    | inl fresh ↦ record {
      before = r ∷ s.before;
      streak = s.streak;
      after = s.after;
      earlier = s.earlier;
      split = ap (◌∷◌ r) s.split;
      all_count = s.all_count;
      long = s.long;
      began = inl fresh;
    }
    | inr (first, e) ↦ record {
      before = [];
      streak = r ∷ s.streak;
      after = s.after;
      earlier = f;
      split = ap (◌∷◌ r) (s.split ∙ ap (λ b. b ++ (s.streak ++ s.after)) first);
      all_count = (c, s.all_count);
      long = omega (arith, s.long);
      began = inr (refl, refl);
    }
  ]

  skip : (r : Round) (rs : List Round) (f : ℕ) → Streak 0 rs → Streak f (r ∷ rs)
  skip r rs f s = record {
    before = r ∷ s.before;
    streak = s.streak;
    after = s.after;
    earlier = s.earlier;
    split = ap (◌∷◌ r) s.split;
    all_count = s.all_count;
    long = s.long;
    began = inl (ground (arith, s.began));
  }

  single : (r : Round) (rs : List Round) → counts r ≡ true → Streak n (r ∷ rs)
  single r rs c = record {
    before = [];
    streak = r ∷ [];
    after = rs;
    earlier = n;
    split = refl;
    all_count = (c, tt);
    long = omega arith;
    began = inr (refl, refl);
  }

  loop-Streak :
      (rs : List Round) (l : LoopState) (a : Adapter) {e : Ending} {a' : Adapter}
      → a.config.max_retries ≡ pos (suc n)
      → l.consecutive_failures ≤ n
      → loop rs l a ≡ finished e a'
      → e ≢ ended
      → Streak l.consecutive_failures rs
  unfolding loop
  loop-Streak [] l a m b h ne = cc
  loop-Streak (r ∷ rs) l a {e} {a'} m b h ne = elim (Progress-cases (round r l a)) [
    | inl (l', a'', step) ↦
        let w = round-Went r l a l' a'' step in
        let rest =
          loop-Streak rs l' a'' (ap (λ c. c.max_retries) w.config_kept ∙ m)
            ((exceeded_iff a.config n l'.consecutive_failures m).2 w.below)
            (sym (loop-going r rs l a step) ∙ h) ne in
        elim w.outcome [
          | inl (c, f, d) ↦ extend r rs l.consecutive_failures c (subst (λ k. Streak k rs) f rest)
          | inr (c, f, d) ↦ skip r rs l.consecutive_failures (subst (λ k. Streak k rs) f rest)
        ]
    | inr (e', a'', step) ↦
        let same : finished e' a'' ≡ finished e a' = sym (loop-finished r rs l a step) ∙ h in
        elim (round_finished r l a e' a'' step).1 [
          | inl (stop, _, _) ↦ ground arith
          | inr (inl (_, c, x)) ↦
              let last : n ≡ l.consecutive_failures =
                omega (arith, (exceeded_iff a.config n (suc l.consecutive_failures) m).1 x) in
              subst (λ k. Streak k (r ∷ rs)) last (single r rs c)
          | inr (inr (_, x)) ↦ absurd (omega (arith, (exceeded_iff a.config n 0 m).1 x))
        ]
  ]

-- A run of as many failed rounds as the limit allows, somewhere in the list.
pub record FullStreak (limit : ℕ) (rs : List Round) : Type 0 where
  pub before : List Round
  pub streak : List Round
  pub after : List Round
  pub split : rs ≡ before ++ (streak ++ after)
  pub all_count : All (λ r. counts r ≡ true) streak
  pub long : length streak ≡ limit

-- With a limit of n + 1 retries, runLoop returns an error for too many retries only if n + 1
-- consecutive rounds counted as failures: the process did not start, or failed before it had run
-- for 30 seconds. A clean exit or a stable run in between starts the count again.
pub run_loop-FullStreak :
    (n : ℕ) (rs : List Round) (a : Adapter) (e : Ending) (a' : Adapter)
    → a.config.max_retries ≡ pos (suc n)
    → run_loop rs a ≡ finished e a'
    → e ≢ ended
    → FullStreak (suc n) rs
unfolding run_loop
run_loop-FullStreak n rs a e a' m h ne =
    let s = loop-Streak n rs (reset a) a m (omega arith) h ne in
    record {
      before = s.before;
      streak = s.streak;
      after = s.after;
      split = s.split;
      all_count = s.all_count;
      long = ground (arith, s.long, s.began);
    }

loop_ended :
    (rs : List Round) (l : LoopState) (a : Adapter) {a' : Adapter}
    → loop rs l a ≡ finished ended a'
    → All (λ r. sees_cancel r ≡ false) rs
    → ⊥
unfolding loop
loop_ended [] l a h live = cc
loop_ended (r ∷ rs) l a h live = elim (Progress-cases (round r l a)) [
  | inl (l', a'', step) ↦ loop_ended rs l' a'' (sym (loop-going r rs l a step) ∙ h) live.1
  | inr (e', a'', step) ↦
      let same = sym (loop-finished r rs l a step) ∙ h in
      ground (arith, (round_finished r l a e' a'' step).1, live.0)
]

-- runLoop never returns nil while its context is live in every round.
run_loop_live :
    (rs : List Round) (a a' : Adapter)
    → All (λ r. sees_cancel r ≡ false) rs
    → run_loop rs a ≢ finished ended a'
unfolding run_loop
run_loop_live rs a a' live h = loop_ended rs (reset a) a h live
