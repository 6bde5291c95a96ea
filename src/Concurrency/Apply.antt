-- ===== src/Concurrency/Apply.antt =====
-- backend/app/scheduler/dynamic_concurrency.py: `apply_dynamic_concurrency`,
-- `align_measurement_after_selection` and `record_dynamic_completion`.
use world_of_seeds.Prelude.{
  ℕ, zero, suc, ◌+◌, ◌-◌, ◌*◌, ◌/◌, ◌%◌, min, max, Bool, true, false, not, ◌||◌, Option, none, some,
  List, [], ◌∷◌, map, ltb, leb, ◌==◌, if◌then◌else◌, is_some, length, where_rows, contains, Result,
  ok, err, ◌>>=◌,
}
use world_of_seeds.Models.{Uuid, Instant, seconds, ManagedTorrent}
use world_of_seeds.Scheduler.{SchedulerCandidate}
use world_of_seeds.Concurrency.{
  DynamicDecision, dynamic_disabled, dynamic_below_target_scaled_up, dynamic_target_reached,
  dynamic_above_target, dynamic_no_waiting_candidate, dynamic_completion_cooldown,
  dynamic_idle_reset, dynamic_hard_cap_reached, dynamic_observation_started, ConcurrencyError,
  missing_sample, division_by_zero, DynamicConcurrencyConfig, Baseline, SchedulerState,
  DynamicConcurrencyDecision, sample_of, download_baseline, validated_baseline, same_keys,
  start_measurement, clear_measurement, active_torrents,
}

-- `datetime > now`, where there is one.
abbrev pub is_after : Option Instant → Instant → Bool
is_after none now = false
is_after (some t) now = ltb now t

-- `previous_baseline[info_hash]`
abbrev pub sample_or_error : Option ℕ → Result ConcurrencyError ℕ
sample_or_error none = err missing_sample
sample_or_error (some n) = ok n

-- The sum of the growths over the entries that are left.
unfoldable pub sum_downloaded : Baseline → Baseline → Result ConcurrencyError ℕ
unfolding sample_of
sum_downloaded previous [] = ok 0
sum_downloaded previous ((key, current) ∷ rest) = do
  before ← sample_or_error (sample_of previous key)
  others ← sum_downloaded previous rest
  ok ((current - before) + others)

-- `round(n / d)`
unfoldable pub round_ratio : ℕ → ℕ → Result ConcurrencyError ℕ
round_ratio n zero = err division_by_zero
round_ratio n (suc e) =
    let d = suc e in
    let q = n / d in
    let twice = 2 * (n % d) in
    ok (if ltb twice d then q else if ltb d twice then q + 1 else q + q % 2)

abbrev pub decide : SchedulerState → List Uuid → Bool → Bool → DynamicConcurrencyDecision
decide state ids scaled preserve = record {
  active_limit = state.dynamic_current_active;
  active_torrent_ids = ids;
  scaled_up = scaled;
  preserve_active_set = preserve;
}

abbrev pub Applied : Type 0
Applied = Result ConcurrencyError (SchedulerState × DynamicConcurrencyDecision)

module _ (config : DynamicConcurrencyConfig) (now : Instant) (ids : List Uuid)
    (baseline : Baseline) where
  -- The new limit, the reason and whether the limit was raised.
  unfoldable pub scale : SchedulerState → ℕ → ℕ × (DynamicDecision × Bool)
  scale state observed =
      let current = state.dynamic_current_active in
      if state.dynamic_waiting_count == 0
      then (current, (dynamic_no_waiting_candidate, false))
      else if leb config.maximum_active current
      then (current, (dynamic_hard_cap_reached, false))
      else if ltb observed config.minimum_bytes_per_second
      then (
        min config.maximum_active (current + config.step),
        (dynamic_below_target_scaled_up, true),
      )
      else if leb observed config.target_bytes_per_second
      then (current, (dynamic_target_reached, false))
      else (current, (dynamic_above_target, false))

  -- The end of a full window, for what was observed in it.
  unfoldable pub evaluate : SchedulerState → ℕ → SchedulerState × DynamicConcurrencyDecision
  unfolding scale start_measurement
  evaluate state observed =
      let (limit, (reason, scaled)) = scale state observed in
      let moved = record state {
        dynamic_observed_bytes_per_second = observed;
        dynamic_last_evaluated_at = some now;
        dynamic_current_active = limit;
        dynamic_last_decision = reason;
      } in
      let next = start_measurement moved baseline now config.evaluation_seconds in
      (next, decide next ids scaled false)

  unfoldable pub start_observation : SchedulerState → Applied
  unfolding start_measurement
  start_observation state =
      let started = record (start_measurement state baseline now config.evaluation_seconds) {
        dynamic_last_decision = dynamic_observation_started;
      } in
      ok (started, decide started ids false false)

  -- With a measurement since `sampled_at` over the same torrents.
  unfoldable pub measure : Instant → SchedulerState → Applied
  unfolding evaluate sum_downloaded round_ratio validated_baseline
  measure sampled_at state =
      let waiting = record state {
        dynamic_next_evaluation_at = some (sampled_at + seconds config.evaluation_seconds);
      } in
      let evaluated = (do
        downloaded ← sum_downloaded (validated_baseline state.dynamic_sample_baseline) baseline
        observed ← round_ratio (downloaded * 1000000) (now - sampled_at)
        ok (evaluate state observed)) in
      if ltb now (sampled_at + seconds config.evaluation_seconds)
      then ok (waiting, decide waiting ids false false)
      else evaluated

  -- Outside of a cooldown, for the measurement that the state has.
  unfoldable pub observe : Option Instant → SchedulerState → Applied
  unfolding start_observation measure same_keys validated_baseline
  observe none state = start_observation state
  observe (some sampled_at) state =
      if same_keys (validated_baseline state.dynamic_sample_baseline) baseline
      then measure sampled_at state
      else start_observation state

  -- Within a cooldown.
  unfoldable pub cool_down : SchedulerState → SchedulerState × DynamicConcurrencyDecision
  unfolding start_measurement same_keys validated_baseline
  cool_down state =
      let until = some (now + seconds config.evaluation_seconds) in
      let restarted =
        start_measurement (record state { dynamic_cooldown_until = until }) baseline now
          config.evaluation_seconds in
      let kept = record state { dynamic_next_evaluation_at = state.dynamic_cooldown_until } in
      let chosen =
        (if not (is_some state.dynamic_sampled_at)
            || not (same_keys (validated_baseline state.dynamic_sample_baseline) baseline)
          then restarted
          else kept) in
      let noted = record chosen { dynamic_last_decision = dynamic_completion_cooldown } in
      (noted, decide noted ids false true)

  unfoldable pub apply_active : SchedulerState → Applied
  unfolding cool_down observe
  apply_active state =
      if is_after state.dynamic_cooldown_until now
      then ok (cool_down state)
      else observe state.dynamic_sampled_at (record state { dynamic_cooldown_until = none })

unfoldable pub apply_dynamic_concurrency :
    SchedulerState
    → List ManagedTorrent
    → List SchedulerCandidate
    → DynamicConcurrencyConfig
    → Instant
    → Applied
unfolding apply_active active_torrents download_baseline clear_measurement
apply_dynamic_concurrency state torrents candidates config now =
    let active = active_torrents torrents in
    let ids = map (λ t. t.id) active in
    let counted = record state {
      dynamic_active_count = length active;
      dynamic_waiting_count = length (where_rows (λ c. not (contains ids c.torrent_id)) candidates);
    } in
    let disabled = record (clear_measurement counted) {
      dynamic_current_active = config.static_active;
      dynamic_last_decision = dynamic_disabled;
    } in
    let idle = clear_measurement (record counted {
      dynamic_current_active = config.initial_active;
      dynamic_observed_bytes_per_second = 0;
      dynamic_last_decision = dynamic_idle_reset;
      dynamic_cooldown_until = none;
    }) in
    let raised = record counted {
      dynamic_current_active = max counted.dynamic_current_active (length active);
    } in
    if not config.enabled
    then ok (disabled, decide disabled ids false false)
    else if length active == 0
    then ok (idle, decide idle ids false false)
    else apply_active config now ids (download_baseline active) raised

unfoldable pub align_measurement_after_selection :
    SchedulerState
    → List ManagedTorrent
    → List Uuid
    → DynamicConcurrencyConfig
    → Instant
    → SchedulerState
unfolding download_baseline same_keys validated_baseline start_measurement
align_measurement_after_selection state torrents selected_ids config now =
    let baseline =
      download_baseline
        (where_rows (λ t. contains selected_ids t.id || t.admin_forced_active) torrents) in
    if not config.enabled || is_some state.dynamic_cooldown_until
    then state
    else if same_keys baseline (validated_baseline state.dynamic_sample_baseline)
    then state
    else start_measurement state baseline now config.evaluation_seconds

-- The option rows that the completion reads: a missing or ill-typed one is `none`.
pub record CompletionOptions : Type 0 where
  pub enabled : Bool
  pub initial : Option ℕ
  pub evaluation : Option ℕ

-- For the torrents that still download, once both numbers are there.
unfoldable pub complete_with :
    ℕ → ℕ → List ManagedTorrent → Instant → SchedulerState → SchedulerState
unfolding download_baseline start_measurement clear_measurement
complete_with initial evaluation remaining now state =
    let counted = record state { dynamic_active_count = length remaining } in
    let idle = clear_measurement (record counted {
      dynamic_current_active = initial;
      dynamic_cooldown_until = none;
      dynamic_last_decision = dynamic_idle_reset;
    }) in
    let until = some (now + seconds evaluation) in
    let shrunk = record counted {
      dynamic_current_active = length remaining;
      dynamic_cooldown_until = until;
      dynamic_last_decision = dynamic_completion_cooldown;
      dynamic_observed_bytes_per_second = 0;
    } in
    if length remaining == 0
    then idle
    else record (start_measurement shrunk (download_baseline remaining) now evaluation) {
      dynamic_next_evaluation_at = until;
    }

abbrev complete_numbers :
    Option ℕ → Option ℕ → List ManagedTorrent → Instant → SchedulerState → SchedulerState
complete_numbers (some initial) (some evaluation) remaining now state =
    complete_with initial evaluation remaining now state
complete_numbers _ _ remaining now state = state

unfoldable pub record_dynamic_completion :
    SchedulerState → List ManagedTorrent → CompletionOptions → Instant → SchedulerState
unfolding complete_with active_torrents
record_dynamic_completion state torrents options now =
    if options.enabled
    then complete_numbers options.initial options.evaluation (active_torrents torrents) now state
    else state
