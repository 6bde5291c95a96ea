-- ===== src/Concurrency/Examples.antt =====
-- One torrent that downloads and one that waits, measured by
-- backend/app/scheduler/dynamic_concurrency.py.
use world_of_seeds.Prelude.{
  ◌≡◌, refl, true, false, none, some, [], ◌∷◌, arith, OnOk, Returns, ok, ◌≤◌, max, length,
}
use world_of_seeds.Models.{ManagedTorrent, downloading}
use world_of_seeds.Scheduler.{SchedulerCandidate}
use world_of_seeds.Concurrency.{
  DynamicConcurrencyConfig, SchedulerState, entries, stored, download_baseline,
  dynamic_completion_cooldown, dynamic_observation_started, check_config, active_torrents,
}
use world_of_seeds.Concurrency.Apply.{
  apply_dynamic_concurrency, align_measurement_after_selection, record_dynamic_completion,
}
use world_of_seeds.Concurrency.Limit.{apply-limit}
use world_of_seeds.Concurrency.Freeze.{Cycles, completion-freezes}
use world_of_seeds.Concurrency.Ends.{apply-Succeeds, Succeeds}

abbrev config : DynamicConcurrencyConfig
config = record {
  enabled = true;
  initial_active = 2;
  minimum_bytes_per_second = 1000;
  target_bytes_per_second = 5000;
  evaluation_seconds = 60;
  step = 1;
  maximum_active = 8;
  static_active = 4;
}

abbrev torrent : ManagedTorrent
torrent = record {
  id = 7;
  info_hash = "a1";
  storage_key = 70;
  name = "seeds";
  total_size = 300000;
  state = downloading;
  qb_state = none;
  progress = 0;
  retry_at = none;
  last_downloaded_bytes = some 30000;
  scheduler_retry_at = none;
  purge_after = none;
  ready_at = none;
  retention_expires_at = none;
  purge_stop_pending = false;
  lifecycle_generation = 0;
  desired_active = true;
  admin_forced_active = false;
  created_at = 0;
  updated_at = 0;
}

abbrev waiting : SchedulerCandidate
waiting = record {
  torrent_id = 8;
  user_id = 1;
  remaining_bytes = 500;
  queued_at = 0;
  user_weight = 1;
  stalled = false;
  beneficiary_user_ids = [];
  beneficiary_weights = [];
}

abbrev measured : SchedulerState
measured = record {
  dynamic_current_active = 1;
  dynamic_active_count = 1;
  dynamic_waiting_count = 1;
  dynamic_observed_bytes_per_second = 0;
  dynamic_sample_baseline = entries (("a1", some 6000) ∷ []);
  dynamic_sampled_at = some 0;
  dynamic_next_evaluation_at = some 60000000;
  dynamic_last_evaluated_at = none;
  dynamic_cooldown_until = none;
  dynamic_last_decision = dynamic_observation_started;
}

valid_config : check_config config ≡ ok tt
unfolding check_config
valid_config = refl

one_active : length (active_torrents (torrent ∷ [])) ≡ 1
unfolding active_torrents
one_active = refl

-- 24000 bytes in a minute are below the minimum: the limit rises by one step.
scales_up :
    OnOk
      (λ r. (r.1.active_limit ≡ 2) × (r.0.dynamic_observed_bytes_per_second ≡ 400))
      (apply_dynamic_concurrency measured (torrent ∷ []) (waiting ∷ []) config 60000000)
unfolding apply_dynamic_concurrency
scales_up = (refl, refl)

apply-limit_example :
    OnOk
      (λ r.
        (r.1.active_limit ≡ r.0.dynamic_current_active)
        × (length (active_torrents (torrent ∷ [])) ≤ r.1.active_limit)
        × (r.1.active_limit ≤ max 8 (max 1 (length (active_torrents (torrent ∷ []))))))
      (apply_dynamic_concurrency measured (torrent ∷ []) (waiting ∷ []) config 60000000)
apply-limit_example =
    apply-limit measured (torrent ∷ []) (waiting ∷ []) config 60000000 valid_config refl

abbrev completed : SchedulerState
completed =
    record_dynamic_completion measured (torrent ∷ [])
      (record { enabled = true; initial = some 2; evaluation = some 60 }) 100

-- The state after a cycle at 150.
abbrev cooled : SchedulerState
cooled = record measured {
  dynamic_current_active = 1;
  dynamic_sample_baseline = stored (download_baseline (torrent ∷ []));
  dynamic_sampled_at = some 100;
  dynamic_next_evaluation_at = some 60000100;
  dynamic_cooldown_until = some 60000100;
  dynamic_last_decision = dynamic_completion_cooldown;
}

cools :
    apply_dynamic_concurrency completed (torrent ∷ []) (waiting ∷ []) config 150
    ≡ ok (
      cooled,
      record {
        active_limit = 1;
        active_torrent_ids = 7 ∷ [];
        scaled_up = false;
        preserve_active_set = true;
      },
    )
unfolding apply_dynamic_concurrency record_dynamic_completion
cools = refl

abbrev aligned : SchedulerState
aligned = align_measurement_after_selection cooled (torrent ∷ []) (7 ∷ []) config 150

one_cycle :
    Cycles 60 100
      (length (active_torrents (torrent ∷ [])))
      completed
      (max (length (active_torrents (torrent ∷ []))) (length (active_torrents (torrent ∷ []))))
      aligned
one_cycle =
    Cycles.next Cycles.here (torrent ∷ []) (waiting ∷ []) config 150 (7 ∷ [])
      (record {
        enabled = refl;
        as_long = omega arith;
        busy = omega (arith, one_active);
        begun = omega arith;
        early = omega arith;
      })
      cools

completion-freezes_example :
    Returns
      (λ r.
        (r.1.preserve_active_set ≡ true)
        × (r.1.scaled_up ≡ false)
        × (r.1.active_limit
            ≡ max
                (max
                  (length (active_torrents (torrent ∷ [])))
                  (length (active_torrents (torrent ∷ []))))
                (length (active_torrents (torrent ∷ [])))))
      (apply_dynamic_concurrency aligned (torrent ∷ []) (waiting ∷ []) config 200)
completion-freezes_example =
    completion-freezes measured (torrent ∷ []) 2 60 100 (omega (arith, one_active)) one_cycle
      (torrent ∷ []) (waiting ∷ []) config 200
      (record {
        enabled = refl;
        as_long = omega arith;
        busy = omega (arith, one_active);
        begun = omega arith;
        early = omega arith;
      })

apply-Succeeds_example :
    Succeeds (apply_dynamic_concurrency measured (torrent ∷ []) (waiting ∷ []) config 60000000)
apply-Succeeds_example =
    apply-Succeeds measured (torrent ∷ []) (waiting ∷ []) config 60000000 (omega arith)
