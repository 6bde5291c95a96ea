-- ===== src/Concurrency/Limit.antt =====
-- The concurrency limit that backend/app/scheduler/dynamic_concurrency.py moves.
use world_of_seeds.Prelude.{
  ℕ, ◌+◌, ◌-◌, ◌*◌, ◌≤◌, ◌<◌, max, ◌≡◌, refl, sym, subst, inl, inr, true, not, Option, none, some,
  List, map, arith, ltb, ◌==◌, Bool-cases, length, where_rows, contains, ok, OnOk, OnOk-if,
  OnOk-bind, OnOk-always, OnOk-imp,
}
use world_of_seeds.Models.{Uuid, Instant, seconds, ManagedTorrent}
use world_of_seeds.Scheduler.{SchedulerCandidate}
use world_of_seeds.Concurrency.{
  DynamicConcurrencyConfig, Baseline, SchedulerState, DynamicConcurrencyDecision, check_config,
  start_measurement, validated_baseline, same_keys, active_torrents, download_baseline,
}
use world_of_seeds.Concurrency.Apply.{
  Applied, is_after, sum_downloaded, round_ratio, scale, evaluate, start_observation, measure,
  observe, cool_down, apply_active, apply_dynamic_concurrency, record_dynamic_completion,
  complete_with,
}

-- The decision's limit is the one that is stored, no lower than `current`, and above it only up to
-- the hard cap.
pub record IsLimited (config : DynamicConcurrencyConfig) (current : ℕ)
    (r : SchedulerState × DynamicConcurrencyDecision) : Type 0 where
  pub stored : r.1.active_limit ≡ r.0.dynamic_current_active
  pub no_lower : current ≤ r.1.active_limit
  pub capped : r.1.active_limit ≤ max config.maximum_active current

module _ (config : DynamicConcurrencyConfig) (now : Instant) (ids : List Uuid)
    (baseline : Baseline) where
  evaluate-IsLimited :
      (state : SchedulerState) (observed : ℕ)
      → IsLimited config state.dynamic_current_active
          (evaluate config now ids baseline state observed)
  unfolding evaluate scale start_measurement
  evaluate-IsLimited state observed = ground arith

  start_observation-IsLimited :
      (state : SchedulerState)
      → OnOk
          (IsLimited config state.dynamic_current_active)
          (start_observation config now ids baseline state)
  unfolding start_observation start_measurement
  start_observation-IsLimited state = record {
    stored = refl;
    no_lower = omega arith;
    capped = omega arith;
  }

  measure-IsLimited :
      (sampled_at : Instant) (state : SchedulerState)
      → OnOk
          (IsLimited config state.dynamic_current_active)
          (measure config now ids baseline sampled_at state)
  unfolding measure
  measure-IsLimited sampled_at state =
      OnOk-if (IsLimited config state.dynamic_current_active)
        (ltb now (sampled_at + seconds config.evaluation_seconds)) _ _
        (λ e. record { stored = refl; no_lower = omega arith; capped = omega arith })
        (λ e.
          OnOk-bind (λ (n : ℕ). Unit {0}) _
            (sum_downloaded (validated_baseline state.dynamic_sample_baseline) baseline) _
            (OnOk-always
              (sum_downloaded (validated_baseline state.dynamic_sample_baseline) baseline))
            (λ n u.
              OnOk-bind (λ (m : ℕ). Unit {0}) _ (round_ratio (n * 1000000) (now - sampled_at)) _
                (OnOk-always (round_ratio (n * 1000000) (now - sampled_at)))
                (λ m v. evaluate-IsLimited state m)))

  observe-IsLimited :
      (sampled : Option Instant) (state : SchedulerState)
      → OnOk
          (IsLimited config state.dynamic_current_active)
          (observe config now ids baseline sampled state)
  unfolding observe
  observe-IsLimited none state = start_observation-IsLimited state
  observe-IsLimited (some sampled_at) state =
      OnOk-if (IsLimited config state.dynamic_current_active)
        (same_keys (validated_baseline state.dynamic_sample_baseline) baseline) _ _
        (λ e. measure-IsLimited sampled_at state) (λ e. start_observation-IsLimited state)

  cool_down-IsLimited :
      (state : SchedulerState)
      → IsLimited config state.dynamic_current_active (cool_down config now ids baseline state)
  unfolding cool_down start_measurement
  cool_down-IsLimited state = ground arith

  apply_active-IsLimited :
      (state : SchedulerState)
      → OnOk
          (IsLimited config state.dynamic_current_active)
          (apply_active config now ids baseline state)
  unfolding apply_active
  apply_active-IsLimited state =
      OnOk-if (IsLimited config state.dynamic_current_active)
        (is_after state.dynamic_cooldown_until now) _ _ (λ e. cool_down-IsLimited state)
        (λ e. observe-IsLimited state.dynamic_sampled_at _)

abbrev pub waiting_count : List ManagedTorrent → List SchedulerCandidate → ℕ
waiting_count torrents candidates = length (
    where_rows (λ c. not (contains (map (λ t. t.id) (active_torrents torrents)) c.torrent_id))
      candidates)

-- The state of a cycle with active torrents.
abbrev pub raised : SchedulerState → List ManagedTorrent → List SchedulerCandidate → SchedulerState
raised state torrents candidates = record state {
  dynamic_active_count = length (active_torrents torrents);
  dynamic_waiting_count = waiting_count torrents candidates;
  dynamic_current_active = max state.dynamic_current_active (length (active_torrents torrents));
}

abbrev pub cycle :
    SchedulerState
    → List ManagedTorrent
    → List SchedulerCandidate
    → DynamicConcurrencyConfig
    → Instant
    → Applied
cycle state torrents candidates config now =
    apply_active config now (map (λ t. t.id) (active_torrents torrents))
      (download_baseline (active_torrents torrents)) (raised state torrents candidates)

pub apply-cycle :
    (state : SchedulerState) (torrents : List ManagedTorrent) (candidates : List SchedulerCandidate)
    (config : DynamicConcurrencyConfig) (now : Instant)
    → config.enabled ≡ true
    → 0 < length (active_torrents torrents)
    → apply_dynamic_concurrency state torrents candidates config now
      ≡ cycle state torrents candidates config now
unfolding apply_dynamic_concurrency
apply-cycle state torrents candidates config now enabled busy = ground arith

apply-idle :
    (state : SchedulerState) (torrents : List ManagedTorrent) (candidates : List SchedulerCandidate)
    (config : DynamicConcurrencyConfig) (now : Instant)
    → config.enabled ≡ true
    → length (active_torrents torrents) ≡ 0
    → OnOk
        (λ r.
          (r.1.active_limit ≡ r.0.dynamic_current_active)
          × (r.1.active_limit ≡ config.initial_active))
        (apply_dynamic_concurrency state torrents candidates config now)
unfolding apply_dynamic_concurrency
apply-idle state torrents candidates config now enabled idle = ground arith

-- While the control is enabled under a valid configuration, a cycle's limit is the one it stores
-- and no lower than the number of torrents that download already; and it exceeds neither the hard
-- cap nor, where they are above it, the limit before the cycle and the number of active torrents.
pub apply-limit :
    (state : SchedulerState) (torrents : List ManagedTorrent) (candidates : List SchedulerCandidate)
    (config : DynamicConcurrencyConfig) (now : Instant)
    → check_config config ≡ ok tt
    → config.enabled ≡ true
    → let active = length (active_torrents torrents) in
      OnOk
        (λ r.
          (r.1.active_limit ≡ r.0.dynamic_current_active)
          × (active ≤ r.1.active_limit)
          × (r.1.active_limit
              ≤ max config.maximum_active (max state.dynamic_current_active active)))
        (apply_dynamic_concurrency state torrents candidates config now)
unfolding check_config
apply-limit state torrents candidates config now valid enabled =
    let active = length (active_torrents torrents) in
    let applied = apply_dynamic_concurrency state torrents candidates config now in
    let Goal = λ (r : SchedulerState × DynamicConcurrencyDecision).
      (r.1.active_limit ≡ r.0.dynamic_current_active)
      × (active ≤ r.1.active_limit)
      × (r.1.active_limit ≤ max config.maximum_active (max state.dynamic_current_active active)) in
    elim (Bool-cases (active == 0)) [
      | inl idle ↦
          OnOk-imp
            (λ (r : SchedulerState × DynamicConcurrencyDecision).
              (r.1.active_limit ≡ r.0.dynamic_current_active)
              × (r.1.active_limit ≡ config.initial_active))
            Goal applied
            (λ r (same, initial). (same, ground (arith, initial), ground (arith, initial)))
            (apply-idle state torrents candidates config now enabled (ground arith))
      | inr busy ↦
          subst (OnOk Goal)
            (sym (apply-cycle state torrents candidates config now enabled (ground arith)))
            (OnOk-imp (IsLimited config (raised state torrents candidates).dynamic_current_active)
              Goal (cycle state torrents candidates config now)
              (λ r h. (h.stored, omega (arith, h.no_lower), omega (arith, h.capped)))
              (apply_active-IsLimited config now (map (λ t. t.id) (active_torrents torrents))
                (download_baseline (active_torrents torrents)) (raised state torrents candidates)))
    ]

pub completion-shrinks :
    (state : SchedulerState) (torrents : List ManagedTorrent) (initial evaluation : ℕ)
    (now : Instant)
    → 0 < length (active_torrents torrents)
    → let completed =
        record_dynamic_completion state torrents
          (record { enabled = true; initial = some initial; evaluation = some evaluation })
          now in
      (completed.dynamic_current_active ≡ length (active_torrents torrents))
      × (completed.dynamic_cooldown_until ≡ some (now + seconds evaluation))
unfolding record_dynamic_completion complete_with start_measurement
completion-shrinks state torrents initial evaluation now some_active = ground arith
