-- ===== src/Concurrency/Ends.antt =====
-- The cycle of backend/app/scheduler/dynamic_concurrency.py raises no error.
use world_of_seeds.Prelude.{
  ℕ, zero, suc, ◌+◌, ◌-◌, ◌*◌, ◌≤◌, ◌<◌, ◌≡◌, refl, Bool, true, false, not, Option, none, some,
  List, [], ◌∷◌, map, arith, ltb, ◌==◌, if◌then◌else◌, is_some, length, all, Result, Returns,
  Returns-bind,
}
use world_of_seeds.Models.{Uuid, Instant, seconds, ManagedTorrent}
use world_of_seeds.Scheduler.{SchedulerCandidate}
use world_of_seeds.Concurrency.{
  ConcurrencyError, DynamicConcurrencyConfig, Baseline, SchedulerState, sample_of,
  validated_baseline, same_keys, active_torrents, download_baseline,
}
use world_of_seeds.Concurrency.Apply.{
  is_after, sample_or_error, sum_downloaded, round_ratio, start_observation, measure, observe,
  apply_active, apply_dynamic_concurrency,
}

abbrev pub Succeeds {ℓ} : {A : Type ℓ} → Result ConcurrencyError A → Type 0
Succeeds m = Returns (λ a. Unit {0}) m

sample_or_error-Succeeds : (o : Option ℕ) → is_some o ≡ true → Succeeds (sample_or_error o)
sample_or_error-Succeeds none h = cc
sample_or_error-Succeeds (some n) h = tt

sum_downloaded-Succeeds :
    (previous b : Baseline)
    → all (λ e. is_some (sample_of previous e.0)) b ≡ true
    → Succeeds (sum_downloaded previous b)
unfolding sum_downloaded
sum_downloaded-Succeeds previous [] h = tt
sum_downloaded-Succeeds previous ((key, n) ∷ rest) h =
    Returns-bind _ _ (sample_or_error (sample_of previous key)) _
      (sample_or_error-Succeeds (sample_of previous key) (ground arith))
      (λ a u.
        Returns-bind _ _ (sum_downloaded previous rest) _
          (sum_downloaded-Succeeds previous rest (ground arith)) (λ b v. tt))

round_ratio-Succeeds : (n d : ℕ) → 0 < d → Succeeds (round_ratio n d)
unfolding round_ratio
round_ratio-Succeeds n zero h = absurd (omega arith)
round_ratio-Succeeds n (suc d) h = tt

Returns-when {ℓ} :
    {A : Type ℓ} (b : Bool) (r s : Result ConcurrencyError A)
    → (b ≡ true → Succeeds r)
    → (b ≡ false → Succeeds s)
    → Succeeds (if b then r else s)
Returns-when true r s hr hs = hr refl
Returns-when false r s hr hs = hs refl

module _ (config : DynamicConcurrencyConfig) (now : Instant) (ids : List Uuid) (baseline : Baseline)
    (lasts : 1 ≤ config.evaluation_seconds) where
  measure-Succeeds :
      (sampled_at : Instant) (state : SchedulerState)
      → same_keys (validated_baseline state.dynamic_sample_baseline) baseline ≡ true
      → Succeeds (measure config now ids baseline sampled_at state)
  unfolding measure same_keys
  measure-Succeeds sampled_at state same =
      let previous = validated_baseline state.dynamic_sample_baseline in
      Returns-when (ltb now (sampled_at + seconds config.evaluation_seconds)) _ _ (λ e. tt)
        (λ e.
          Returns-bind _ _ (sum_downloaded previous baseline) _
            (sum_downloaded-Succeeds previous baseline (ground arith))
            (λ n u.
              Returns-bind _ _ (round_ratio (n * 1000000) (now - sampled_at)) _
                (round_ratio-Succeeds (n * 1000000) (now - sampled_at) (ground arith)) (λ m v. tt)))

  observe-Succeeds :
      (sampled : Option Instant) (state : SchedulerState)
      → Succeeds (observe config now ids baseline sampled state)
  unfolding observe start_observation
  observe-Succeeds none state = tt
  observe-Succeeds (some sampled_at) state =
      Returns-when (same_keys (validated_baseline state.dynamic_sample_baseline) baseline) _ _
        (λ e. measure-Succeeds sampled_at state e) (λ e. tt)

-- With an evaluation time of at least a second, a cycle raises no error, whatever the stored sample
-- is: every infohash that it subtracts is in it, and the time that it divides by is not zero.
pub apply-Succeeds :
    (state : SchedulerState) (torrents : List ManagedTorrent) (candidates : List SchedulerCandidate)
    (config : DynamicConcurrencyConfig) (now : Instant)
    → 1 ≤ config.evaluation_seconds
    → Succeeds (apply_dynamic_concurrency state torrents candidates config now)
unfolding apply_dynamic_concurrency apply_active
apply-Succeeds state torrents candidates config now lasts =
    let active = active_torrents torrents in
    Returns-when (not config.enabled) _ _ (λ e. tt)
      (λ e.
        Returns-when (length active == 0) _ _ (λ e. tt)
          (λ e.
            Returns-when (is_after state.dynamic_cooldown_until now) _ _ (λ e. tt)
              (λ e.
                observe-Succeeds config now (map (λ t. t.id) active) (download_baseline active)
                  lasts state.dynamic_sampled_at _)))
